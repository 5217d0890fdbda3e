-- ===== src/Limiter.antt =====
-- `SlidingWindowRateLimiter` (src/core/provider_coordination.py): at most `limit` admissions in any
-- sixty seconds. The lock makes one call of `before_request` atomic, so a call is a function of the
-- window and of what the clock reads; times are whole microseconds.
pub mod Promise
use cai_central_de_atendimen.Base.{
  ℕ, suc, ◌+◌, ◌-◌, Bool, true, false, ◌&&◌, Option, none, some, List, [], ◌∷◌, ◌++◌, leb, ltb,
  if◌then◌else◌,
}
use cai_central_de_atendimen.Base.Errors.{Result, ok, err, value_error}
use cai_central_de_atendimen.Base.Lists.{length}
use cai_central_de_atendimen.Cycle.Row.{Time}
use cai_central_de_atendimen.Cycle.Lease.{seconds}

-- `_SlidingWindowState`: the limit, and the admissions, oldest first
pub record Window : Type 0 where
  pub limit : ℕ
  pub requests : List Time

-- the constructor's check, and a window of its own
unfoldable pub new_window : ℕ → Result Window
new_window limit_per_minute =
    if leb 1 limit_per_minute && leb limit_per_minute 100
    then ok (record { limit = limit_per_minute; requests = [] })
    else err value_error

-- the inner `while`: `now - requests[0] >= 60`
unfoldable pub evict : Time → List Time → List Time
evict now [] = []
evict now (r ∷ rs) = let rest = evict now rs in if leb (r + seconds 60) now then rest else r ∷ rs

-- one round of the outer loop: the window with the admission, or the window and the time to sleep;
-- the truncated difference is `max(0.0, 60 - (now - requests[0]))`, since a kept request `r` has
-- `now - r < 60`
pub data Round : Type 0 where
  admitted : Window → Round
  delayed : Window → ℕ → Round

-- `requests[0]` of an empty deque is not reached: its length is 0, below a limit of at least 1
unfoldable pub wait_for : Time → List Time → ℕ
wait_for now [] = 0
wait_for now (r ∷ rs) = r + seconds 60 - now

unfoldable pub round : Time → Window → Round
unfolding evict wait_for
round now w =
    let kept = evict now w.requests in
    if ltb (length kept) w.limit
    then admitted (record w { requests = kept ++ now ∷ [] })
    else delayed (record w { requests = kept }) (wait_for now kept)

-- `before_request`, over what the clock reads in each round; the result is the window left, the
-- time of admission and the sleeps made, or `none` if the readings end before an admission
unfoldable pub before_request : List Time → Window → List ℕ → Option (Window × Time × List ℕ)
before_request [] w slept = none
before_request (now ∷ later) w slept = elim (round now w) [
  | admitted w' ↦ some (w', now, slept)
  | delayed w' d ↦ before_request later w' (slept ++ d ∷ [])
]
