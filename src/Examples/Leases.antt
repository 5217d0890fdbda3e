-- ===== src/Examples/Leases.antt =====
-- Concrete claims and transitions of cycles.
use cai_central_de_atendimen.Base.{◌≡◌, refl, true, false, none, some, List, [], ◌∷◌, arith}
use cai_central_de_atendimen.Base.Lists.{All}
use cai_central_de_atendimen.Base.Tables.{pairwise, first_by, order_by}
use cai_central_de_atendimen.Base.Texts.{Text, text, same, is_space}
use cai_central_de_atendimen.Cycle.Row.{Cycle, Time, pending, summarizing}
use cai_central_de_atendimen.Cycle.Schema.{conforms, row_ok, nonblank}
use cai_central_de_atendimen.Cycle.Admission.{blank_row}
use cai_central_de_atendimen.Cycle.Lease.{is_due, lease_row, claim_next_cycle}
use cai_central_de_atendimen.Cycle.Lease.Taken.{IsClaimed, claim_next_cycle-IsClaimed}
use cai_central_de_atendimen.Cycle.Lease.Exclusion.{
  Attempt, attempt, results, IsNot, lease_exclusion,
}
use cai_central_de_atendimen.Cycle.Transition.{is_expected, same_status}

abbrev due_cycle : Cycle
due_cycle = record (blank_row 1 (text "u1") (text "t1") 1 (text "w") 10) {
  ticket_closed_at = some 9;
  close_event_key = some (text "k1");
  status = pending;
  next_attempt_at = some 20;
}

abbrev due_rows : List Cycle
due_rows = due_cycle ∷ []

due-conforms : conforms due_rows ≡ true
unfolding conforms pairwise row_ok nonblank same is_space
due-conforms = refl

abbrev leased_cycle : Cycle
leased_cycle = record due_cycle {
  lease_owner = some (text "w1");
  lease_expires_at = some 60000030;
  updated_at = 30;
}

claimed_example : (claim_next_cycle (λ _. false) (text "w1") 60 30 due_rows).0 ≡ some leased_cycle
unfolding claim_next_cycle first_by order_by is_due lease_row
claimed_example = refl

unclaimed_example : (claim_next_cycle (λ _. false) (text "w1") 60 15 due_rows).0 ≡ none
unfolding claim_next_cycle first_by order_by is_due lease_row
unclaimed_example = refl

claim_next_cycle-IsClaimed_example :
    IsClaimed
      (λ _. false)
      (text "w1")
      60
      30
      due_rows
      (claim_next_cycle (λ _. false) (text "w1") 60 30 due_rows).1
      leased_cycle
claim_next_cycle-IsClaimed_example =
    claim_next_cycle-IsClaimed (λ _. false) (text "w1") 60 30 due_rows claimed_example

abbrev poll : Text → Time → Attempt
poll owner now = record {
  target = none;
  owner = owner;
  lease_seconds = 60;
  now = now;
  locked = λ _. false;
}

polled_example : (attempt (poll (text "w1") 30) due_rows).0 ≡ some leased_cycle
unfolding attempt claim_next_cycle first_by order_by is_due lease_row
polled_example = refl

lease_exclusion_example : All (IsNot 1) (
    results
      (poll (text "w2") 40 ∷ poll (text "w1") 60000029 ∷ [])
      (attempt (poll (text "w1") 30) due_rows).1)
lease_exclusion_example =
    lease_exclusion (poll (text "w1") 30) due_rows due-conforms polled_example
      (poll (text "w2") 40 ∷ poll (text "w1") 60000029 ∷ []) (omega arith, (omega arith, tt))

unexpected : is_expected (summarizing ∷ []) pending ≡ false
unfolding is_expected same_status same
unexpected = refl

any_status : is_expected [] pending ≡ true
unfolding is_expected
any_status = refl
