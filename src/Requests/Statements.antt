-- ===== src/Requests/Statements.antt =====
-- The transactions on an operation. `now` is CURRENT_TIMESTAMP, `clock` the process's own clock.
pub mod Checks
use cai_central_de_atendimen.Base.{
  ℕ, ◌+◌, Bool, true, false, not, ◌&&◌, ◌||◌, Option, none, some, [], ◌==◌, leb, is_none, coalesce,
  if◌then◌else◌,
}
use cai_central_de_atendimen.Base.Errors.{
  Result, ok, err, runtime_error, value_error, request_error, integrity_error,
}
use cai_central_de_atendimen.Base.Lists.{any}
use cai_central_de_atendimen.Base.Texts.{Text, text, same, same_some}
use cai_central_de_atendimen.Cycle.Row.{Time}
use cai_central_de_atendimen.Cycle.Lease.{seconds}
use cai_central_de_atendimen.Requests.Safe.{safe_category, matches, is_reason_char}
use cai_central_de_atendimen.Requests.Confidence.{
  ConfidenceDecision, evaluate_request_confidence, confidence_gate, is_allowed,
}
use cai_central_de_atendimen.Requests.Payload.{
  Payload, payload_metadata, Outcome, OutcomeState, success, definitive, retryable, reconciliation,
}
use cai_central_de_atendimen.Requests.Row.{
  Operation, OperationState, not_started, attempting, completed, definitive_failure,
  retryable_failure, reconciliation_required, Reconciliation, nothing, required, blocked, prepared,
  is_attempting, is_definitive, is_claimable,
}
use cai_central_de_atendimen.Requests.Facts.{Readiness, failing, ready}

-- UPDATE ... WHERE ... RETURNING *
abbrev pub Statement : Type 0
Statement = Option Operation × Operation

abbrev pub set_row : (Operation → Bool) → (Operation → Operation) → Operation → Statement
set_row p f op = if p op then (some (f op), f op) else (none, op)

-- `column <= now`, which is not true of NULL
abbrev pub has_expired : Option Time → Time → Bool
has_expired none now = false
has_expired (some t) now = leb t now

abbrev pub fail_with : OperationState → Text → Time → Operation → Operation
fail_with state category now op = record op {
  state = state;
  failure_category = some category;
  failure_message = some category;
  claim_owner = none;
  claim_expires_at = none;
  updated_at = now;
}

-- a claim that has run out: before the POST it may be retried, after its start it may not
unfoldable pub expire_claim : ℕ → Time → Operation → Operation
expire_claim id now op =
    if op.id == id && is_attempting op.state && has_expired op.claim_expires_at now
    then (if is_none op.post_started_at
        then fail_with retryable_failure (text "crash_before_post") now op
        else fail_with reconciliation_required (text "claim_expired_after_post_start") now op)
    else op

abbrev pub hold : Text → ℕ → Time → Operation → Operation
hold owner lease_seconds now op = record op {
  claim_owner = some owner;
  claim_expires_at = some (now + seconds lease_seconds);
  updated_at = now;
}

-- `_claim_operation_sync`
unfoldable pub claim_operation : ℕ → Text → ℕ → Time → Operation → Statement
claim_operation id owner lease_seconds now op =
    set_row (λ r. r.id == id && is_claimable r.state)
      (λ r. record (hold owner lease_seconds now r) { state = attempting }) (expire_claim id now op)

-- a row whose preparation failed for want of a mapping, and that no delivery has touched
unfoldable pub is_unprepared : Operation → Bool
is_unprepared op =
    is_definitive op.state
    && same_some op.failure_category (some (text "mapping_missing"))
    && is_none op.post_started_at
    && is_none op.sol_id

unfoldable pub is_untouched : Operation → Bool
is_untouched op =
    is_unprepared op
    && op.attempt_count == 0
    && is_none op.first_attempt_at
    && is_none op.last_attempt_at

abbrev pub is_nothing : Reconciliation → Bool
is_nothing nothing = true
is_nothing _ = false

-- another owner's claim that still runs
unfoldable pub is_held_by_other : Text → Time → Operation → Bool
is_held_by_other owner clock op =
    not (is_none op.claim_owner)
    && not (is_none op.claim_expires_at)
    && not (has_expired op.claim_expires_at clock)
    && not (same_some op.claim_owner (some owner))

-- `_claim_mapping_missing_recovery_sync`
unfoldable pub claim_mapping_missing_recovery : Text → ℕ → Time → Time → Operation → Statement
claim_mapping_missing_recovery owner lease_seconds clock now op =
    if not (is_untouched op && is_nothing op.reconciliation)
    then (none, op)
    else if is_held_by_other owner clock op
    then (none, op)
    else set_row is_untouched (hold owner lease_seconds now) op

abbrev pub or_lost : Statement → Result Operation × Operation
or_lost (none, op) = (err runtime_error, op)
or_lost (some r, op) = (ok r, op)

-- `_record_preparation_recovery_blocked_sync`
unfoldable pub record_preparation_recovery_blocked :
    ℕ → Text → Text → Text → Time → Operation → Result Operation × Operation
record_preparation_recovery_blocked id owner stage reason now op = or_lost (
    set_row (λ r. r.id == id && is_unprepared r && same_some r.claim_owner (some owner))
      (λ r. record r {
        claim_owner = none;
        claim_expires_at = none;
        preparation_recovery = blocked (safe_category stage) (safe_category reason);
        updated_at = now;
      })
      op)

-- `_reopen_prepared_operation_sync`; `state` is what `_operation_state` finds
unfoldable pub reopen_prepared_operation :
    (Payload → Text) → ℕ → Text → Readiness → Time → Operation → Result Operation × Operation
reopen_prepared_operation digest id owner (failing reason) now op = (err request_error, op)
reopen_prepared_operation digest id owner (ready f p) now op = or_lost (
    set_row (λ r. r.id == id && is_untouched r && same_some r.claim_owner (some owner))
      (λ r. record r {
        company_id = some f.company_id;
        company_external_id = some f.company_external_id;
        department_mapping_id = some f.department_mapping_id;
        department_external_id = some f.department_external_id;
        payload_fingerprint = some (digest p);
        payload_metadata = record { payload = some (payload_metadata p); gate = none };
        state = not_started;
        failure_category = none;
        failure_message = none;
        preparation_recovery = prepared;
        updated_at = now;
      })
      op)

-- the guard of the statements of a delivery
abbrev pub is_claimed_by : ℕ → Text → Operation → Bool
is_claimed_by id owner r =
    r.id == id && is_attempting r.state && same_some r.claim_owner (some owner)

-- the UPDATE for a confidence that is not allowed: `payload_metadata_json || ...` sets the gate
unfoldable pub block_confidence : ℕ → Text → ConfidenceDecision → Time → Operation → Statement
block_confidence id owner d now =
    set_row (λ r. is_claimed_by id owner r && is_none r.post_started_at)
      (λ r. record (fail_with definitive_failure d.reason now r) {
        payload_metadata = record {
          payload = r.payload_metadata.payload;
          gate = some (confidence_gate d);
        };
      })

-- `_finish_confidence_blocked_sync` returns the row as it is after the statement
unfoldable pub finish_confidence_blocked :
    ℕ → Text → ConfidenceDecision → Time → Operation → Operation
finish_confidence_blocked id owner d now op = (block_confidence id owner d now op).1

-- `_refresh_payload_metadata_sync`
unfoldable pub refresh_payload_metadata :
    (Payload → Text) → ℕ → Text → Payload → ConfidenceDecision → Time → Operation → Statement
refresh_payload_metadata digest id owner p d now =
    set_row (λ r. is_claimed_by id owner r && is_none r.post_started_at)
      (λ r. record r {
        payload_fingerprint = some (digest p);
        payload_metadata = record {
          payload = some (payload_metadata p);
          gate = some (confidence_gate d);
        };
        updated_at = now;
      })

-- `_mark_post_started_sync`; `confidence` is that of the classification, read in the transaction
unfoldable pub mark_post_started : ℕ → Text → Option ℕ → Time → Operation → Bool × Operation
mark_post_started id owner confidence now op =
    let d = evaluate_request_confidence confidence in
    if not (is_claimed_by id owner op)
    then (false, op)
    else if not (is_allowed d)
    then (false, (block_confidence id owner d now op).1)
    else (
      true,
      record op {
        post_started_at = some now;
        attempt_count = op.attempt_count + 1;
        first_attempt_at = coalesce op.first_attempt_at (some now);
        last_attempt_at = some now;
        failure_category = none;
        failure_message = none;
        updated_at = now;
      },
    )

abbrev pub outcome_state : OutcomeState → OperationState
outcome_state success = completed
outcome_state definitive = definitive_failure
outcome_state retryable = retryable_failure
outcome_state reconciliation = reconciliation_required

abbrev pub is_success : OutcomeState → Bool
is_success success = true
is_success _ = false

abbrev pub reconciliation_after : Outcome → Reconciliation → Reconciliation
reconciliation_after o r = elim o.state [
  | reconciliation ↦ required o.category
  | success ↦ r
  | definitive ↦ r
  | retryable ↦ r
]

-- `not outcome.solid_id`
abbrev pub has_no_id : Option Text → Bool
has_no_id none = true
has_no_id (some t) = same t []

unfoldable pub finish_row : Outcome → Time → Operation → Operation
finish_row o now r = record r {
  state = outcome_state o.state;
  sol_id = o.solid_id;
  last_provider_status = o.provider_status;
  failure_category = if is_success o.state then none else some o.category;
  failure_message = if is_success o.state then none else some o.category;
  completed_at = if is_success o.state then some now else none;
  claim_owner = none;
  claim_expires_at = none;
  reconciliation = reconciliation_after o r.reconciliation;
  updated_at = now;
}

-- `btrim(sol_id) <> ''`, which removes spaces only; a NULL passes
abbrev pub is_nonblank : Option Text → Bool
is_nonblank none = true
is_nonblank (some t) = any (λ c. not (c == 32)) t

-- the CHECK constraints on `sol_id` and `failure_category`, as an outcome sets them; the one on
-- `failure_message`, which is set to the category, follows
unfoldable pub passes_checks : Outcome → Bool
passes_checks o =
    is_nonblank o.solid_id && (is_success o.state || matches is_reason_char 120 o.category)

-- `_finish_operation_sync` returns the row as it is after the statement, which a broken constraint
-- rolls back
unfoldable pub finish_operation :
    ℕ → Text → Outcome → Time → Operation → Result Operation × Operation
finish_operation id owner o now op =
    if is_success o.state && has_no_id o.solid_id
    then (err value_error, op)
    else if is_claimed_by id owner op && not (passes_checks o)
    then (err integrity_error, op)
    else let after = (set_row (is_claimed_by id owner) (finish_row o now) op).1 in (ok after, after)
