-- ===== src/Requests/Recover.antt =====
-- `recover_mapping_missing_request` (src/core/acessorias_requests.py) and the preparation that it
-- runs (src/core/acessorias_preparation.py). The resolution of the identity and the evaluation of
-- the mapping are arguments.
pub mod Sending
use cai_central_de_atendimen.Base.{
  ℕ, Bool, true, false, not, Option, none, some, [], ◌==◌, if◌then◌else◌,
}
use cai_central_de_atendimen.Base.Errors.{Result, ok, err, lookup_error, ◌>>=◌}
use cai_central_de_atendimen.Base.Lists.{length}
use cai_central_de_atendimen.Base.Texts.{Text, text, strip, same}
use cai_central_de_atendimen.Cycle.Row.{Time, Status}
use cai_central_de_atendimen.Requests.Safe.{claim_owner_for, or_fallback}
use cai_central_de_atendimen.Requests.Row.{Operation}
use cai_central_de_atendimen.Requests.Facts.{Readiness, failing, operation_state, is_eligible}
use cai_central_de_atendimen.Requests.Statements.{
  Statement, claim_mapping_missing_recovery, record_preparation_recovery_blocked,
  reopen_prepared_operation,
}
use cai_central_de_atendimen.Requests.Create.{Setting, Delivered, with_sent, replied, run_operation}

pub record Preparation : Type 0 where
  pub is_ready : Bool
  pub stage : Text
  pub reason : Text

abbrev pub unprepared : Text → Text → Preparation
unprepared stage reason = record { is_ready = false; stage = stage; reason = reason }

-- `_load_cycle_contact_sync`
pub record CycleContact : Type 0 where
  pub status : Status
  pub contact_external_id : Option Text
  pub contact_id : Option ℕ

pub record Identity : Type 0 where
  pub contact_id : Option ℕ
  pub state : Text
  pub reason : Option Text

pub record MappingResult : Type 0 where
  pub state : Text
  pub reason : Option Text

abbrev pub is_contact : ℕ → Option ℕ → Bool
is_contact id none = false
is_contact id (some i) = i == id

abbrev pub is_blank : Option Text → Bool
is_blank none = true
is_blank (some t) = length (strip t) == 0

abbrev pub after_mapping : MappingResult → Preparation
after_mapping mapping =
    if not (same mapping.state (text "resolved"))
    then unprepared (text "mapping") (or_fallback mapping.reason (text "mapping_unresolved"))
    else record { is_ready = true; stage = text "ready"; reason = text "prepared" }

-- the mapping is evaluated when the identity is the contact's own and confirmed
abbrev pub after_identity : Result MappingResult → ℕ → Identity → Result Preparation
after_identity mapping contact_id identity =
    if not (is_contact contact_id identity.contact_id)
    then ok (unprepared (text "identity") (text "contact_provenance_mismatch"))
    else if not (same identity.state (text "confirmed"))
    then ok (
        unprepared (text "identity") (
          or_fallback identity.reason
            (or_fallback (some identity.state) (text "identity_unresolved"))))
    else mapping >>= λ m. ok (after_mapping m)

-- the states of a cycle that `_TERMINAL_CYCLE_STATES` holds are those of `is_eligible`
unfoldable pub prepare_cycle_for_request :
    (ℕ → Result Identity) → Result MappingResult → Option CycleContact → Result Preparation
prepare_cycle_for_request resolve mapping none = err lookup_error
prepare_cycle_for_request resolve mapping (some c) =
    if not (is_eligible c.status)
    then ok (unprepared (text "cycle") (text "cycle_not_terminal"))
    else if is_blank c.contact_external_id
    then ok (unprepared (text "identity") (text "canonical_contact_missing"))
    else elim c.contact_id [
      | none ↦ ok (unprepared (text "identity") (text "canonical_contact_unavailable"))
      | some id ↦ resolve id >>= after_identity mapping id
    ]

-- what `_reopen_prepared_operation_sync` finds of the cycle; without one it raises
abbrev pub reopen : Setting → Text → Operation → Result Operation × Operation
reopen s owner op = elim s.cycle [
  | none ↦ (err lookup_error, op)
  | some c ↦
      reopen_prepared_operation s.digest op.id owner (operation_state s.directory c s.mapping)
        (s.at 0) op
]

abbrev pub after_reopen : Setting → Result Operation × Operation → Delivered
after_reopen s (err e, op) = with_sent [] (err e, op)
after_reopen s (ok r, op) = run_operation s op

abbrev pub after_preparation : Setting → Text → Operation → Result Preparation → Delivered
after_preparation s owner op (err e) = with_sent [] (err e, op)
after_preparation s owner op (ok p) =
    if p.is_ready
    then after_reopen s (reopen s owner op)
    else with_sent [] (record_preparation_recovery_blocked op.id owner p.stage p.reason (s.at 0) op)

abbrev pub after_recovery_claim : Setting → Text → Result Preparation → Statement → Delivered
after_recovery_claim s owner p (none, op) = replied op
after_recovery_claim s owner p (some claimed, op) = after_preparation s owner op p

-- `clock` is the process's own clock; the later run takes the same owner, already made safe
unfoldable pub recover_mapping_missing_request :
    Setting → Time → Result Preparation → Operation → Delivered
recover_mapping_missing_request s clock p op = elim (claim_owner_for s.owner s.fallback_owner) [
  | err e ↦ with_sent [] (err e, op)
  | ok owner ↦
      after_recovery_claim (record s { owner = some owner }) owner p
        (claim_mapping_missing_recovery owner s.lease_seconds clock (s.at 0) op)
]
