-- ===== src/Cycle/Queries/Work.antt =====
-- What the counters and the latest cycle say of the table.
use cai_central_de_atendimen.Base.{
  ℕ, ◌+◌, ◌≤◌, ◌≡◌, ◌↔◌, refl, sym, ◌∙◌, Bool, true, false, none, some, List, [], ◌∷◌, arith, inl,
  inr, Bool-cases, Option-cases,
}
use mathlib.Core.List.{Memᴰ}
use cai_central_de_atendimen.Base.Lists.{All, All-mono, count_where}
use cai_central_de_atendimen.Base.Tables.{IsOrder, first_by_holds, first_by-mem, first_by_least}
use cai_central_de_atendimen.Base.Texts.{Text, same}
use cai_central_de_atendimen.Cycle.Row.{Cycle, Time, is_recoverable}
use cai_central_de_atendimen.Cycle.Admission.{last_sequence}
use cai_central_de_atendimen.Cycle.Lease.{is_due, claim_next_cycle, free_and_due}
use cai_central_de_atendimen.Cycle.Lease.Claims.{claim_next_cycle-eq_none, claim_next_cycle-eq_some}
use cai_central_de_atendimen.Cycle.Queries.{later_first, get_latest_cycle, cycle_work_metrics}

count_of_mem :
    (p : Cycle → Bool) {c : Cycle} {rows : List Cycle}
    → Memᴰ c rows
    → p c ≡ true
    → 1 ≤ count_where p rows
count_of_mem p (Memᴰ.head {xs = ys} e) h = let k = rw e at h in rw k (omega arith)
count_of_mem p (Memᴰ.tail {x = y} m) h = ground (arith, count_of_mem p m h)

count_none :
    (p : Cycle → Bool) (rows : List Cycle) → All (λ r. p r ≡ false) rows → count_where p rows ≡ 0
count_none p [] h = refl
count_none p (r ∷ rows) h = rw (h.0, count_none p rows h.1)

no_locks : (c : Cycle) (now : Time) → free_and_due (λ _. false) now c ≡ is_due now c
no_locks c now = ground arith

-- At any time, for any owner and lease: a worker that polls while no row is locked gets no cycle
-- exactly if the counter of due cycles is zero.
pub claim_next_cycle-idle :
    (owner : Text) (lease_seconds : ℕ) (now : Time) (rows : List Cycle)
    → ((claim_next_cycle (λ _. false) owner lease_seconds now rows).0 ≡ none)
      ↔ ((cycle_work_metrics now rows).due ≡ 0)
unfolding cycle_work_metrics
claim_next_cycle-idle owner lease_seconds now rows = (
  (λ h. count_none (is_due now) rows (
      All-mono _ _ (λ r k. sym (no_locks r now) ∙ k) rows
        (claim_next_cycle-eq_none (λ _. false) owner lease_seconds now rows h).0)),
  (λ h. elim (Option-cases (claim_next_cycle (λ _. false) owner lease_seconds now rows).0) [
    | inl e ↦ e
    | inr (c', e) ↦
        let (c, taken, _, _) =
          claim_next_cycle-eq_some (λ _. false) owner lease_seconds now rows e in
        absurd (omega (arith, h, count_of_mem (is_due now) taken.stored taken.due))
  ]),
)

-- At any time, every recoverable cycle is counted as due, as scheduled or as leased.
pub cycle_work_metrics-covers :
    (now : Time) (rows : List Cycle)
    → count_where (λ c. is_recoverable c.status) rows
      ≤ (cycle_work_metrics now rows).due
        + (cycle_work_metrics now rows).scheduled
        + (cycle_work_metrics now rows).leased
unfolding cycle_work_metrics is_due
cycle_work_metrics-covers now [] = omega arith
cycle_work_metrics-covers now (c ∷ rows) = ground (arith, cycle_work_metrics-covers now rows)

later_first-IsOrder : IsOrder later_first
unfolding later_first
later_first-IsOrder = record { total = λ a b h. ground arith; trans = λ a b c h k. ground arith }

last_sequence_bound :
    (conversation : Text) (rows : List Cycle) (n : ℕ)
    → All (λ r. same r.conversation_id conversation ≡ true → r.sequence_number ≤ n) rows
    → last_sequence conversation rows ≤ n
unfolding last_sequence
last_sequence_bound conversation [] n h = omega arith
last_sequence_bound conversation (r ∷ rows) n h =
    elim (Bool-cases (same r.conversation_id conversation)) [
      | inl e ↦ rw e (ground (arith, h.0 e, last_sequence_bound conversation rows n h.1))
      | inr e ↦ rw e (last_sequence_bound conversation rows n h.1)
    ]

last_sequence_of_mem :
    (conversation : Text) {c : Cycle} {rows : List Cycle}
    → Memᴰ c rows
    → same c.conversation_id conversation ≡ true
    → c.sequence_number ≤ last_sequence conversation rows
unfolding last_sequence
last_sequence_of_mem conversation (Memᴰ.head {xs = ys} e) h =
    let k = rw e at h in rw (e, k) (omega arith)
last_sequence_of_mem conversation (Memᴰ.tail {x = y} m) h =
    ground (arith, last_sequence_of_mem conversation m h)

-- A latest cycle that is found has the last sequence number of its conversation, the one that the
-- next admission counts on from.
pub get_latest_cycle-last_sequence :
    (conversation : Text) (rows : List Cycle) {c : Cycle}
    → get_latest_cycle conversation rows ≡ some c
    → c.sequence_number ≡ last_sequence conversation rows
unfolding get_latest_cycle
get_latest_cycle-last_sequence conversation rows {c} h =
    let p = λ (r : Cycle). same r.conversation_id conversation in
    let low = first_by_least later_first-IsOrder p rows h in
    let upper =
      last_sequence_bound conversation rows c.sequence_number
        (All-mono _ _ (λ r k e. at_most r (k e)) rows low) in
    let lower =
      last_sequence_of_mem conversation (first_by-mem later_first p rows h)
        (first_by_holds later_first p rows h) in
    omega arith
  where
    at_most : (r : Cycle) → later_first c r ≡ true → r.sequence_number ≤ c.sequence_number
    at_most r k = unfold later_first in ground arith
