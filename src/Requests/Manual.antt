-- ===== src/Requests/Manual.antt =====
-- `_record_reconciliation_sync`: the manual ways out of `reconciliation_required`, with their audit
-- table `acessorias_request_reconciliations`.
use cai_central_de_atendimen.Base.{
  ℕ, Bool, true, false, not, ◌&&◌, ◌||◌, Option, none, some, List, [], ◌∷◌, ◌++◌, ◌==◌, coalesce,
  if◌then◌else◌,
}
use cai_central_de_atendimen.Base.Errors.{
  Error, Result, ok, err, ◌>>=◌, value_error, conflict_error, request_error,
}
use cai_central_de_atendimen.Base.Lists.{find}
use cai_central_de_atendimen.Base.Texts.{Text, text, same, same_some, strip}
use cai_central_de_atendimen.Cycle.Row.{Time}
use cai_central_de_atendimen.Requests.Safe.{
  safe_reason, safe_operation_key, safe_actor, is_safe_sol_id,
}
use cai_central_de_atendimen.Requests.Row.{
  Operation, OperationState, completed, retryable_failure, reconciliation_required, Action,
  record_solid, release_retry, manual,
}

pub record Audit : Type 0 where
  pub operation_id : ℕ
  pub operation_key : Text
  pub action : Action
  pub sol_id : Option Text
  pub reason : Text
  pub actor : Option Text

pub record ManualCall : Type 0 where
  pub action : Action
  pub solid_id : Option Text
  pub reason : Text
  pub operation_key : Text
  pub actor : Option Text
  pub proof_of_absence : Bool

-- the id to record, or none for a release, which wants the proof
unfoldable pub checked_solid : ManualCall → Result (Option Text)
checked_solid c = elim c.action [
  | release_retry ↦ if c.proof_of_absence then ok none else err value_error
  | record_solid ↦ elim c.solid_id [
    | none ↦ err value_error
    | some s ↦ if is_safe_sol_id (strip s) then ok (some (strip s)) else err value_error
  ]
]

-- the arguments made safe
unfoldable pub checked_audit : ManualCall → Result Audit
unfolding checked_solid
checked_audit c = do
  reason ← safe_reason c.reason
  key ← safe_operation_key c.operation_key
  actor ← safe_actor c.actor
  solid ← checked_solid c
  ok (record {
    operation_id = 0;
    operation_key = key;
    action = c.action;
    sol_id = solid;
    reason = reason;
    actor = actor;
  })

abbrev pub is_ambiguous : OperationState → Bool
is_ambiguous reconciliation_required = true
is_ambiguous _ = false

abbrev pub is_complete : OperationState → Bool
is_complete completed = true
is_complete _ = false

-- which action the state of the operation forbids, and how
unfoldable pub forbidden : Audit → Operation → Option Error
forbidden a op = elim a.action [
  | release_retry ↦ if is_ambiguous op.state then none else some conflict_error
  | record_solid ↦
      if not (is_ambiguous op.state || is_complete op.state)
      then some request_error
      else if is_complete op.state && not (same_some op.sol_id a.sol_id)
      then some conflict_error
      else none
]

unfoldable pub reconciled : Audit → Time → Operation → Operation
reconciled a now op = elim a.action [
  | record_solid ↦ record op {
    state = completed;
    sol_id = a.sol_id;
    completed_at = coalesce op.completed_at (some now);
    failure_category = none;
    failure_message = none;
    claim_owner = none;
    claim_expires_at = none;
    reconciliation = manual record_solid a.operation_key a.reason;
    updated_at = now;
  }
  | release_retry ↦ record op {
    state = retryable_failure;
    failure_category = some (text "released_after_remote_absence");
    failure_message = some (text "released_after_remote_absence");
    claim_owner = none;
    claim_expires_at = none;
    reconciliation = manual release_retry a.operation_key a.reason;
    updated_at = now;
  }
]

abbrev pub has_key : Text → Audit → Bool
has_key key a = same a.operation_key key

abbrev pub Reconciled : Type 0
Reconciled = Result Operation × List Audit × Operation

unfoldable pub reconcile_new : Audit → Time → List Audit → Operation → Reconciled
reconcile_new a now audits op = elim (forbidden a op) [
  | some e ↦ (err e, audits, op)
  | none ↦ (
    ok (reconciled a now op),
    audits ++ record a { operation_id = op.id } ∷ [],
    reconciled a now op,
  )
]

-- a key that was used before is answered without a change, if it was used for this operation
unfoldable pub reconcile_checked : Audit → Time → List Audit → Operation → Reconciled
reconcile_checked a now audits op = elim (find (has_key a.operation_key) audits) [
  | none ↦ reconcile_new a now audits op
  | some existing ↦
      if existing.operation_id == op.id
      then (ok op, audits, op)
      else (err conflict_error, audits, op)
]

-- for an operation that is there; without one LookupError is raised after the same checks
unfoldable pub record_reconciliation : ManualCall → Time → List Audit → Operation → Reconciled
record_reconciliation c now audits op = elim (checked_audit c) [
  | err e ↦ (err e, audits, op)
  | ok a ↦ reconcile_checked a now audits op
]
