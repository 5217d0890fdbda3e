-- ===== src/Requests/Calls.antt =====
-- Any sequence of transactions on one operation, by whichever workers and operators, and the phases
-- of a request that they implement.
pub mod Phases
pub mod Delivery
use cai_central_de_atendimen.Base.{
  ℕ, Bool, true, false, not, Option, none, some, List, [], ◌∷◌, is_none, if◌then◌else◌,
}
use cai_central_de_atendimen.Base.Texts.{Text}
use cai_central_de_atendimen.Cycle.Row.{Time}
use cai_central_de_atendimen.Requests.Confidence.{ConfidenceDecision}
use cai_central_de_atendimen.Requests.Payload.{Payload, Outcome}
use cai_central_de_atendimen.Requests.Row.{
  Operation, OperationState, not_started, attempting, completed, definitive_failure,
  retryable_failure, reconciliation_required,
}
use cai_central_de_atendimen.Requests.Facts.{Readiness}
use cai_central_de_atendimen.Requests.Statements.{
  claim_operation, claim_mapping_missing_recovery, record_preparation_recovery_blocked,
  reopen_prepared_operation, finish_confidence_blocked, refresh_payload_metadata, mark_post_started,
  finish_operation,
}
use cai_central_de_atendimen.Requests.Manual.{ManualCall, Audit, record_reconciliation}

-- a transaction, with its arguments and what it reads elsewhere
pub data Call : Type 0 where
  claim : ℕ → Text → ℕ → Time → Call
  claim_recovery : Text → ℕ → Time → Time → Call
  recovery_blocked : ℕ → Text → Text → Text → Time → Call
  reopen : ℕ → Text → Readiness → Time → Call
  confidence_blocked : ℕ → Text → ConfidenceDecision → Time → Call
  refresh : ℕ → Text → Payload → ConfidenceDecision → Time → Call
  start_post : ℕ → Text → Option ℕ → Time → Call
  finish : ℕ → Text → Outcome → Time → Call
  reconcile : ManualCall → Time → List Audit → Call

-- the phase of a request, with the holder of its claim: `held` before its POST may have started,
-- `in_flight` after
pub data Phase : Type 0 where
  open_to_claims done refused ambiguous : Phase
  held in_flight : Option Text → Phase

unfoldable pub phase_of : OperationState → Option Text → Option Time → Phase
phase_of not_started holder post = open_to_claims
phase_of retryable_failure holder post = open_to_claims
phase_of attempting holder none = held holder
phase_of attempting holder (some t) = in_flight holder
phase_of completed holder post = done
phase_of definitive_failure holder post = refused
phase_of reconciliation_required holder post = ambiguous

abbrev pub phase : Operation → Phase
phase op = phase_of op.state op.claim_owner op.post_started_at

module _ (digest : Payload → Text) where
  unfoldable pub perform : Call → Operation → Operation
  perform (claim id owner lease now) op = (claim_operation id owner lease now op).1
  perform (claim_recovery owner lease clock now) op =
      (claim_mapping_missing_recovery owner lease clock now op).1
  perform (recovery_blocked id owner stage reason now) op =
      (record_preparation_recovery_blocked id owner stage reason now op).1
  perform (reopen id owner state now) op =
      (reopen_prepared_operation digest id owner state now op).1
  perform (confidence_blocked id owner d now) op = finish_confidence_blocked id owner d now op
  perform (refresh id owner p d now) op = (refresh_payload_metadata digest id owner p d now op).1
  perform (start_post id owner confidence now) op = (mark_post_started id owner confidence now op).1
  perform (finish id owner o now) op = (finish_operation id owner o now op).1
  perform (reconcile c now audits) op = (record_reconciliation c now audits op).2

  unfoldable pub perform_calls : List Call → Operation → Operation
  perform_calls [] op = op
  perform_calls (c ∷ cs) op = perform_calls cs (perform c op)
