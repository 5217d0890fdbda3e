-- ===== src/Cycle/Transition.antt =====
-- `transition_cycle`: the one statement by which a worker moves a cycle to another status.
pub mod Identity
pub mod Guards
use cai_central_de_atendimen.Base.{
  ℕ, Bool, true, false, not, ◌&&◌, ◌||◌, Option, none, some, List, [], ◌∷◌, if◌then◌else◌, ◌≡◌,
  refl,
}
use cai_central_de_atendimen.Base.Errors.{Error, Result, ok, err, value_error, integrity_error}
use cai_central_de_atendimen.Base.Lists.{find, any}
use cai_central_de_atendimen.Base.Texts.{Text, text, same}
use cai_central_de_atendimen.Base.Tables.{update}
use cai_central_de_atendimen.Cycle.Row.{
  Cycle, Time, Status, opened, pending, recovering_messages, waiting_media, building_context,
  summarizing, classifying, retryable_failure, completed, completed_with_warnings, failed,
  media_blocked,
}
use cai_central_de_atendimen.Cycle.Schema.{conforms}

-- the text of a status in the column
abbrev pub status_text : Status → Text
status_text opened = text "open"
status_text pending = text "pending"
status_text recovering_messages = text "recovering_messages"
status_text waiting_media = text "waiting_media"
status_text building_context = text "building_context"
status_text summarizing = text "summarizing"
status_text classifying = text "classifying"
status_text retryable_failure = text "retryable_failure"
status_text completed = text "completed"
status_text completed_with_warnings = text "completed_with_warnings"
status_text failed = text "failed"
status_text media_blocked = text "media_blocked"

-- the set `allowed`
abbrev pub allowed : List Status
allowed =
    opened ∷ pending ∷ recovering_messages ∷ waiting_media ∷ building_context ∷ summarizing
    ∷ classifying ∷ retryable_failure ∷ media_blocked ∷ completed ∷ completed_with_warnings ∷ failed
    ∷ []

unfoldable pub parse_status : Text → Option Status
parse_status t = find (λ s. same (status_text s) t) allowed

-- one entry of the argument `fields`: a permitted column with its value, or any other name
pub data Field : Type 0 where
  protocol : Option Text → Field
  cycle_started_at : Option Time → Field
  cycle_start_strategy : Text → Field
  attempt_count : ℕ → Field
  transient_retry_count : ℕ → Field
  error_phase : Option Text → Field
  error_message : Option Text → Field
  warning_count : ℕ → Field
  snapshot_json : Option Text → Field
  rendered_context : Option Text → Field
  model_context : Option Text → Field
  context_reduction_applied : Bool → Field
  context_reduction_json : Text → Field
  history_recovery_attempt : ℕ → Field
  history_page_count : ℕ → Field
  processing_time_ms : Option ℕ → Field
  classification_id : Option ℕ → Field
  next_attempt_at : Option Time → Field
  enqueued_at : Option Time → Field
  lease_owner : Option Text → Field
  lease_expires_at : Option Time → Field
  completed_at : Option Time → Field
  unsupported : Text → Field

unfoldable pub assign : Field → Cycle → Cycle
assign (protocol v) c = record c { protocol = v }
assign (cycle_started_at v) c = record c { cycle_started_at = v }
assign (cycle_start_strategy v) c = record c { cycle_start_strategy = v }
assign (attempt_count v) c = record c { attempt_count = v }
assign (transient_retry_count v) c = record c { transient_retry_count = v }
assign (error_phase v) c = record c { error_phase = v }
assign (error_message v) c = record c { error_message = v }
assign (warning_count v) c = record c { warning_count = v }
assign (snapshot_json v) c = record c { snapshot_json = v }
assign (rendered_context v) c = record c { rendered_context = v }
assign (model_context v) c = record c { model_context = v }
assign (context_reduction_applied v) c = record c { context_reduction_applied = v }
assign (context_reduction_json v) c = record c { context_reduction_json = v }
assign (history_recovery_attempt v) c = record c { history_recovery_attempt = v }
assign (history_page_count v) c = record c { history_page_count = v }
assign (processing_time_ms v) c = record c { processing_time_ms = v }
assign (classification_id v) c = record c { classification_id = v }
assign (next_attempt_at v) c = record c { next_attempt_at = v }
assign (enqueued_at v) c = record c { enqueued_at = v }
assign (lease_owner v) c = record c { lease_owner = v }
assign (lease_expires_at v) c = record c { lease_expires_at = v }
assign (completed_at v) c = record c { completed_at = v }
assign (unsupported name) c = c

unfoldable pub assign_all : List Field → Cycle → Cycle
assign_all [] c = c
assign_all (f ∷ fs) c = assign_all fs (assign f c)

-- `set(values) - permitted`
abbrev pub is_unsupported : Field → Bool
is_unsupported (unsupported name) = true
is_unsupported (protocol v) = false
is_unsupported _ = false

unfoldable pub same_status : Status → Status → Bool
same_status a b = same (status_text a) (status_text b)

-- `AND status = ANY(expected_statuses)`, a clause that is left out for an empty sequence
unfoldable pub is_expected : List Status → Status → Bool
is_expected [] s = true
is_expected (e ∷ es) s = any (λ x. same_status x s) (e ∷ es)

abbrev pub moved : Status → List Field → Time → Cycle → Cycle
moved status fields now c = assign_all fields (record c { status = status; updated_at = now })

abbrev pub Moved : Type 0
Moved = Result (Option Cycle) × List Cycle

-- the UPDATE with its RETURNING clause; a statement that breaks a constraint is rolled back
move : Text → Status → List Status → List Field → Time → List Cycle → Moved
move public_id status expected fields now rows =
    let picked = λ (c : Cycle). same c.public_id public_id && is_expected expected c.status in
    let rows' = update picked (moved status fields now) rows in
    elim (find picked rows) [
      | none ↦ (ok none, rows)
      | some c ↦
          if conforms rows'
          then (ok (some (moved status fields now c)), rows')
          else (err integrity_error, rows)
    ]

unfoldable pub transition_cycle : Text → Text → List Status → List Field → Time → List Cycle → Moved
unfolding move
transition_cycle public_id status expected fields now rows = elim (parse_status status) [
  | none ↦ (err value_error, rows)
  | some s ↦
      if any is_unsupported fields
      then (err value_error, rows)
      else move public_id s expected fields now rows
]
