-- ===== src/Cycle/Lease/Taken.antt =====
-- The cycle that a poll takes, by the columns of the table.
use cai_central_de_atendimen.Base.{
  ℕ, ◌+◌, ◌*◌, ◌≤◌, ◌<◌, ◌≡◌, ◌⊎◌, refl, Bool, true, false, Option, none, some, List, ◌==◌, get_or,
  arith,
}
use mathlib.Core.List.{Memᴰ}
use cai_central_de_atendimen.Base.Lists.{All, All-mono, All-mem}
use cai_central_de_atendimen.Base.Tables.{mem-update, mem-update_ne}
use cai_central_de_atendimen.Base.Texts.{Text}
use cai_central_de_atendimen.Cycle.Row.{Cycle, Time, is_recoverable}
use cai_central_de_atendimen.Cycle.Lease.{is_due, elapsed, lease_row, claim_next_cycle, before}
use cai_central_de_atendimen.Cycle.Lease.Claims.{claim_next_cycle-eq_some}

abbrev pub IsOver : Time → Option Time → Type 0
IsOver now o = (t : Time) → o ≡ some t → t ≤ now

-- the cycle has work, its next attempt is due, and nobody's lease on it still runs
abbrev pub IsReady : Time → Cycle → Type 0
IsReady now r =
    (is_recoverable r.status ≡ true) × IsOver now r.next_attempt_at × IsOver now r.lease_expires_at

-- the time by which the cycles wait for their turn
abbrev pub turn : Cycle → Time
turn r = get_or r.next_attempt_at r.updated_at

-- `w`, in the table `after`, is a cycle of `rows` that the poll takes
pub record IsClaimed (locked : ℕ → Bool) (owner : Text) (lease_seconds : ℕ) (now : Time)
    (rows after : List Cycle) (w : Cycle) : Type 0 where
  pub cycle : Cycle
  pub was_stored : Memᴰ cycle rows
  pub ready : IsReady now cycle
  pub unlocked : locked cycle.id ≡ false
  pub first :
      All
        (λ r.
          IsReady now r
          → locked r.id ≡ false
          → (turn cycle < turn r) ⊎ ((turn cycle ≡ turn r) × (cycle.id ≤ r.id)))
        rows
  pub same_id : w.id ≡ cycle.id
  pub same_status : w.status ≡ cycle.status
  pub owned : w.lease_owner ≡ some owner
  pub leased : w.lease_expires_at ≡ some (now + lease_seconds * 1000000)
  pub unpublished : w.enqueued_at ≡ none
  pub is_stored : Memᴰ w after
  pub others : All (λ r. (r.id == cycle.id) ≡ false → Memᴰ r after) rows

elapsed-IsOver : (now : Time) (o : Option Time) → elapsed o now ≡ true → IsOver now o
elapsed-IsOver now none h t e = cc
elapsed-IsOver now (some u) h t e = ground (arith, h, e)

over_elapsed : (now : Time) (o : Option Time) → IsOver now o → elapsed o now ≡ true
over_elapsed now none h = refl
over_elapsed now (some u) h = let k = h u refl in ground (arith, k)

due-IsReady : (now : Time) (r : Cycle) → is_due now r ≡ true → IsReady now r
unfolding is_due
due-IsReady now r h = (
  ground (arith, h),
  elapsed-IsOver now r.next_attempt_at (ground (arith, h)),
  elapsed-IsOver now r.lease_expires_at (ground (arith, h)),
)

ready_due : (now : Time) (r : Cycle) → IsReady now r → is_due now r ≡ true
unfolding is_due
ready_due now r (a, b, c) =
    let b' = over_elapsed now r.next_attempt_at b in
    let c' = over_elapsed now r.lease_expires_at c in rw (a, b', c') refl

before-turn :
    (a b : Cycle) → before a b ≡ true → (turn a < turn b) ⊎ ((turn a ≡ turn b) × (a.id ≤ b.id))
unfolding before
before-turn a b h = ground (arith, h)

-- A cycle that `claim_next_cycle` returns was a row of the table with work to do, whose next attempt
-- was due and whose lease was over or absent, not locked by another transaction; of all such rows it
-- waits since the earliest time, with the least id among those of that time. It is returned, and
-- stands in the table, under the worker's own lease, which ends after the seconds given, without a
-- publication marker; every row of another id stays in the table as it is.
pub claim_next_cycle-IsClaimed :
    (locked : ℕ → Bool) (owner : Text) (lease_seconds : ℕ) (now : Time) (rows : List Cycle)
    {w : Cycle}
    → (claim_next_cycle locked owner lease_seconds now rows).0 ≡ some w
    → IsClaimed locked owner lease_seconds now rows
        (claim_next_cycle locked owner lease_seconds now rows).1
        w
unfolding lease_row
claim_next_cycle-IsClaimed locked owner lease_seconds now rows {w} h =
    let (c, t, e, k) = claim_next_cycle-eq_some locked owner lease_seconds now rows h in
    let lease = lease_row owner lease_seconds now in
    rw (e, k)
      (record {
        cycle = c;
        was_stored = t.stored;
        ready = due-IsReady now c t.due;
        unlocked = t.unlocked;
        first =
            All-mono _ _
              (λ r q a b. before-turn c r (q (let d = ready_due now r a in rw (d, b) refl))) rows
              t.first;
        same_id = refl;
        same_status = refl;
        owned = refl;
        leased = refl;
        unpublished = refl;
        is_stored = mem-update (λ r. r.id == c.id) lease t.stored (ground arith);
        others =
            All-mono _ _ (λ r m n. mem-update_ne (λ x. x.id == c.id) lease m n) rows (All-mem rows);
      })
