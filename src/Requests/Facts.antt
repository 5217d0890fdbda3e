-- ===== src/Requests/Facts.antt =====
-- What the rows of the cycle, the classification, the mapping and the directory say of a request:
-- `_operation_state` and `_ensure_operation_sync`.
use cai_central_de_atendimen.Base.{
  ℕ, Bool, true, false, not, Option, none, some, ◌==◌, is_none, if◌then◌else◌,
}
use cai_central_de_atendimen.Base.Errors.{Result, ok, err, lookup_error}
use cai_central_de_atendimen.Base.Lists.{length}
use cai_central_de_atendimen.Base.Texts.{Text, text, strip}
use cai_central_de_atendimen.Cycle.Row.{Time, Status, completed, completed_with_warnings}
use cai_central_de_atendimen.Requests.Safe.{safe_category, or_fallback}
use cai_central_de_atendimen.Requests.Confidence.{
  evaluate_request_confidence, confidence_gate, is_allowed,
}
use cai_central_de_atendimen.Requests.Payload.{
  Payload, PayloadError, title_required, company_invalid, department_invalid, built, refused,
  build_request_payload, payload_metadata,
}
use cai_central_de_atendimen.Requests.Row.{
  Operation, not_started, definitive_failure, nothing, untried,
}

-- `_cycle_snapshot`: the cycle, with its classification if it has one
pub record CycleFacts : Type 0 where
  pub id : ℕ
  pub conversation_id : Text
  pub status : Status
  pub classification_id : Option ℕ
  pub protocol : Option Text
  pub confidence : Option ℕ
  pub title : Option Text
  pub description : Option Text

-- `_mapping_snapshot`
pub record MappingFacts : Type 0 where
  pub id : ℕ
  pub is_resolved : Bool  -- `state` is 'resolved'
  pub reason : Option Text
  pub company_id : Option ℕ
  pub department_external_id : Option Text

-- the two queries on the directory: the external id of a company that is present and active, and
-- whether a department is present and active, as its relation to the company is
pub record Directory : Type 0 where
  pub company : ℕ → Option Text
  pub is_related : ℕ → Text → Bool

pub record RequestFacts : Type 0 where
  pub company_id : ℕ
  pub company_external_id : Text
  pub department_mapping_id : ℕ
  pub department_external_id : Text

pub data Readiness : Type 0 where
  failing : Text → Readiness
  ready : RequestFacts → Payload → Readiness

-- status in {"completed", "completed_with_warnings"}
abbrev pub is_eligible : Status → Bool
is_eligible completed = true
is_eligible completed_with_warnings = true
is_eligible _ = false

-- the reason is found by the words of the message: that of an invalid company has neither
abbrev pub refusal_reason : PayloadError → Text
refusal_reason title_required = text "classification_title_missing"
refusal_reason company_invalid = text "classification_title_missing"
refusal_reason department_invalid = text "department_identifier_invalid"

unfoldable pub build_for : RequestFacts → Text → Text → Option Text → Readiness
build_for f title description protocol =
    elim (build_request_payload title description protocol f.company_external_id
      f.department_external_id) [ refused e ↦ failing (refusal_reason e) | built p ↦ ready f p ]

unfoldable pub check_directory :
    Directory → MappingFacts → ℕ → Text → Text → Text → Option Text → Readiness
check_directory d m company_id department title description protocol = elim (d.company company_id) [
  | none ↦ failing (text "company_unavailable")
  | some external_id ↦
      if not (d.is_related company_id department)
      then failing (text "company_department_unavailable")
      else build_for
          (record {
            company_id = company_id;
            company_external_id = external_id;
            department_mapping_id = m.id;
            department_external_id = department;
          })
          title description protocol
]

unfoldable pub check_mapping :
    Directory → Option MappingFacts → Text → Text → Option Text → Readiness
check_mapping d none title description protocol = failing (text "mapping_missing")
check_mapping d (some m) title description protocol =
    if not m.is_resolved
    then failing (safe_category (or_fallback m.reason (text "mapping_unresolved")))
    else elim m.company_id [
      | none ↦ failing (text "mapping_facts_missing")
      | some company_id ↦ elim m.department_external_id [
        | none ↦ failing (text "mapping_facts_missing")
        | some department ↦ check_directory d m company_id department title description protocol
      ]
    ]

unfoldable pub check_texts : Directory → CycleFacts → Option MappingFacts → Readiness
check_texts d c mapping = elim c.title [
  | none ↦ failing (text "classification_title_missing")
  | some title ↦
      if length (strip title) == 0
      then failing (text "classification_title_missing")
      else elim c.description [
        | none ↦ failing (text "classification_description_missing")
        | some description ↦ check_mapping d mapping title description c.protocol
      ]
]

-- `_operation_state`
unfoldable pub operation_state : Directory → CycleFacts → Option MappingFacts → Readiness
operation_state d c mapping =
    if not (is_eligible c.status)
    then failing (text "cycle_not_eligible")
    else if is_none c.classification_id
    then failing (text "classification_missing")
    else if not (is_allowed (evaluate_request_confidence c.confidence))
    then failing (evaluate_request_confidence c.confidence).reason
    else check_texts d c mapping

abbrev pub mapping_id : Option MappingFacts → Option ℕ
mapping_id none = none
mapping_id (some m) = some m.id

abbrev pub blank_operation : ℕ → CycleFacts → Option MappingFacts → Time → Operation
blank_operation id c mapping now = record {
  id = id;
  source_cycle_id = c.id;
  source_classification_id = c.classification_id;
  conversation_id = c.conversation_id;
  company_id = none;
  company_external_id = none;
  department_mapping_id = mapping_id mapping;
  department_external_id = none;
  payload_fingerprint = none;
  payload_metadata = record {
    payload = none;
    gate =
        if is_none c.classification_id
        then none
        else some (confidence_gate (evaluate_request_confidence c.confidence));
  };
  state = not_started;
  attempt_count = 0;
  claim_owner = none;
  claim_expires_at = none;
  post_started_at = none;
  first_attempt_at = none;
  last_attempt_at = none;
  completed_at = none;
  sol_id = none;
  last_provider_status = none;
  failure_category = none;
  failure_message = none;
  reconciliation = nothing;
  preparation_recovery = untried;
  created_at = now;
  updated_at = now;
}

-- the row that the INSERT makes; `digest` is the SHA-256 of the payload's form
unfoldable pub new_operation :
    (Payload → Text) → ℕ → CycleFacts → Option MappingFacts → Time → Readiness → Operation
new_operation digest id c mapping now (failing reason) = record (blank_operation id c mapping now) {
  state = definitive_failure;
  failure_category = some reason;
  failure_message = some reason;
}
new_operation digest id c mapping now (ready f p) =
    let row = blank_operation id c mapping now in
    record row {
      company_id = some f.company_id;
      company_external_id = some f.company_external_id;
      department_external_id = some f.department_external_id;
      payload_fingerprint = some (digest p);
      payload_metadata = record {
        payload = some (payload_metadata p);
        gate = row.payload_metadata.gate;
      };
    }

-- `_ensure_operation_sync`: the row of the cycle, inserted if there is none
unfoldable pub ensure_operation :
    (Payload → Text)
    → Directory
    → ℕ
    → Option CycleFacts
    → Option MappingFacts
    → Time
    → Option Operation
    → Result Operation
ensure_operation digest d id none mapping now stored = err lookup_error
ensure_operation digest d id (some c) mapping now none =
    ok (new_operation digest id c mapping now (operation_state d c mapping))
ensure_operation digest d id (some c) mapping now (some op) = ok op
