-- ===== src/Limiter/Promise.antt =====
-- The limiter keeps its promise over every sixty seconds, and a request that slept is admitted.
use cai_central_de_atendimen.Base.{
  ℕ, ◌+◌, ◌≤◌, ◌<◌, true, some, List, [], ◌∷◌, ◌++◌, leb, ltb, ◌≡◌, refl, sym, ap, subst, ◌∙◌,
  arith, Bool-cases, inl, inr,
}
use mathlib.Core.List.{append_assoc}
use cai_central_de_atendimen.Base.Lists.{length, count_where, length-append}
use cai_central_de_atendimen.Cycle.Row.{Time}
use cai_central_de_atendimen.Cycle.Lease.{seconds}
use cai_central_de_atendimen.Limiter.{
  Window, evict, Round, admitted, delayed, wait_for, round, before_request,
}

-- the admissions of the sixty seconds before `now`
abbrev pub recent : Time → List Time → ℕ
recent now history = count_where (λ h. ltb now (h + seconds 60)) history

recent-append :
    (now : Time) (xs ys : List Time) → recent now (xs ++ ys) ≡ recent now xs + recent now ys
recent-append now [] ys = omega arith
recent-append now (x ∷ xs) ys = ground (arith, recent-append now xs ys)

recent-le-length : (now : Time) (xs : List Time) → recent now xs ≤ length xs
recent-le-length now [] = omega arith
recent-le-length now (x ∷ xs) = ground (arith, recent-le-length now xs)

-- `history` is every admission ever made; the window is its end, what was evicted before it is old
-- at `last`, the time of the last round
pub record IsWindow (limit : ℕ) (history : List Time) (last : Time) (w : Window) : Type 0 where
  pub evicted : List Time
  pub split : history ≡ evicted ++ w.requests
  pub old : recent last evicted ≡ 0
  pub bounded : length w.requests ≤ limit
  pub capped : w.limit ≡ limit

recent-zero_later : (a b : Time) (xs : List Time) → a ≤ b → recent a xs ≡ 0 → recent b xs ≡ 0
recent-zero_later a b [] h e = refl
recent-zero_later a b (x ∷ xs) h e = ground (arith, recent-zero_later a b xs h)

-- what is evicted at `now` is old then
evict_split :
    (now : Time) (xs : List Time)
    → (gone : List Time) × (xs ≡ gone ++ evict now xs) × (recent now gone ≡ 0)
unfolding evict
evict_split now [] = ([], refl, refl)
evict_split now (r ∷ rs) = elim (Bool-cases (leb (r + seconds 60) now)) [
  | inl e ↦ let (gone, s, o) = evict_split now rs in rw e (r ∷ gone, ap (◌∷◌ r) s, ground arith)
  | inr e ↦ rw e ([], refl, refl)
]

length-evict-le : (now : Time) (xs : List Time) → length (evict now xs) ≤ length xs
unfolding evict
length-evict-le now [] = omega arith
length-evict-le now (r ∷ rs) = ground (arith, length-evict-le now rs)

module _ {limit : ℕ} (now last : Time) (history : List Time) (w : Window) (later : last ≤ now)
    (h : IsWindow limit history last w) where
  evicted_IsWindow : IsWindow limit history now (record w { requests = evict now w.requests })
  evicted_IsWindow =
      let (gone, s, o) = evict_split now w.requests in
      record {
        evicted = h.evicted ++ gone;
        split =
            h.split
            ∙ ap (λ xs. h.evicted ++ xs) s
            ∙ sym (append_assoc h.evicted gone (evict now w.requests));
        old = omega (
          arith,
          recent-append now h.evicted gone,
          recent-zero_later last now h.evicted later h.old,
          o,
        );
        bounded = omega (arith, length-evict-le now w.requests, h.bounded);
        capped = h.capped;
      }

  -- A round at a time not before the last one keeps the record of admissions, with the new one if the
  -- request is admitted.
  abbrev After : Round → Type 0
  After (admitted w') = IsWindow limit (history ++ now ∷ []) now w'
  After (delayed w' d) = IsWindow limit history now w'

  round-IsWindow : After (round now w)
  round-IsWindow =
      let k = evicted_IsWindow in
      elim (Bool-cases (ltb (length (evict now w.requests)) w.limit)) [
        | inl e ↦
            unfold round in
            rw (e, round)
              (record {
                evicted = k.evicted;
                split =
                    ap (λ xs. xs ++ now ∷ []) k.split
                    ∙ append_assoc k.evicted (evict now w.requests) (now ∷ []);
                old = k.old;
                bounded = ground (arith, length-append (evict now w.requests) (now ∷ []), h.capped);
                capped = h.capped;
              })
        | inr e ↦ unfold round in rw (e, round) k
      ]

-- the rounds of all callers, one after another, on one clock that does not go back
pub data Reached (limit : ℕ) : List Time → Time → Window → Type 0 where
  begin : (start : Time) → Reached limit [] start (record { limit = limit; requests = [] })
  admit :
      {history : List Time} {last : Time} {w w' : Window} (now : Time)
      → Reached limit history last w
      → last ≤ now
      → round now w ≡ admitted w'
      → Reached limit (history ++ now ∷ []) now w'
  delay :
      {history : List Time} {last : Time} {w w' : Window} {d : ℕ} (now : Time)
      → Reached limit history last w
      → last ≤ now
      → round now w ≡ delayed w' d
      → Reached limit history now w'

Reached-IsWindow :
    {limit : ℕ} {history : List Time} {last : Time} {w : Window}
    → Reached limit history last w
    → IsWindow limit history last w
Reached-IsWindow (begin start) = record {
  evicted = [];
  split = refl;
  old = refl;
  bounded = omega arith;
  capped = refl;
}
Reached-IsWindow (admit {history} {last} {w} {w'} now r le e) =
    let k = Reached-IsWindow r in
    subst (After now last history w le k) e (round-IsWindow now last history w le k)
Reached-IsWindow (delay {history} {last} {w} {w'} now r le e) =
    let k = Reached-IsWindow r in
    subst (After now last history w le k) e (round-IsWindow now last history w le k)

-- However many requests are made, at whatever times of a clock that does not go back, no more than
-- the limit are admitted within any sixty seconds: at any time from the last round on, the
-- admissions of the sixty seconds before it are at most the limit.
pub recent-le-limit :
    {limit : ℕ} {history : List Time} {last : Time} {w : Window} (now : Time)
    → Reached limit history last w
    → last ≤ now
    → recent now history ≤ limit
recent-le-limit {history = history} {last} {w} now r le =
    let k = Reached-IsWindow r in
    rw k.split (
      omega (
        arith,
        recent-append now k.evicted w.requests,
        recent-zero_later last now k.evicted le k.old,
        recent-le-length now w.requests,
        k.bounded,
      ))

-- a request that slept as long as it was told finds its oldest rival gone
evict_oldest :
    (a b : Time) (xs : List Time)
    → a + wait_for a (evict a xs) ≤ b
    → 0 < length (evict a xs)
    → length (evict b (evict a xs)) < length (evict a xs)
unfolding wait_for
evict_oldest a b xs h pos = go (evict a xs) h pos
  where
    go : (ys : List Time) → a + wait_for a ys ≤ b → 0 < length ys → length (evict b ys) < length ys
    go [] h pos = absurd (omega arith)
    go (r ∷ rs) h pos =
        let e : leb (r + seconds 60) b ≡ true = ground arith in
        unfold evict in rw (e, evict) (omega (arith, length-evict-le b rs))

-- A request is admitted at once, or, if the sleep that it is told to make has passed when the clock
-- is read again, in its second round: with two readings `before_request` returns.
pub before_request_total :
    (w : Window) (first second : Time)
    → 1 ≤ w.limit
    → length w.requests ≤ w.limit
    → first + wait_for first (evict first w.requests) ≤ second
    → (r : Window × Time × List ℕ) × (before_request (first ∷ second ∷ []) w [] ≡ some r)
before_request_total w a b pos bounded slept =
    elim (Bool-cases (ltb (length (evict a w.requests)) w.limit)) [
      | inl e ↦ (
        (record w { requests = evict a w.requests ++ a ∷ [] }, a, []),
        unfold before_request round in ground (arith, e),
      )
      | inr e ↦
          let kept = evict a w.requests in
          let shorter = evict_oldest a b w.requests slept (ground (arith, e)) in
          let f : ltb (length (evict b kept)) w.limit ≡ true =
            ground (arith, e, shorter, length-evict-le a w.requests) in
          (
            (record w { requests = evict b kept ++ b ∷ [] }, b, wait_for a kept ∷ []),
            unfold before_request round in ground (arith, e, f),
          )
    ]
