-- ===== src/Requests/Payload.antt =====
-- The payload of a request and the outcomes of its delivery
-- (src/core/acessorias_request_provider.py).
use cai_central_de_atendimen.Base.{
  ℕ, not, ◌||◌, Option, none, some, [], ◌++◌, ◌==◌, get_or, if◌then◌else◌,
}
use cai_central_de_atendimen.Base.Lists.{length, any, take}
use cai_central_de_atendimen.Base.Texts.{Text, text, strip, is_space}
use cai_central_de_atendimen.Requests.Safe.{is_safe_sol_id, is_department_id, safe_category}

pub record Payload : Type 0 where
  pub subject : Text
  pub company : Text
  pub department : Text
  pub description : Text

-- which check of `build_request_payload` fails
pub data PayloadError : Type 0 where
  title_required company_invalid department_invalid : PayloadError

pub data Built : Type 0 where
  built : Payload → Built
  refused : PayloadError → Built

unfoldable pub build_subject : Text → Option Text → Text
build_subject title protocol =
    let normalized_protocol = strip (get_or protocol []) in
    take 100 (
      if length normalized_protocol == 0
      then strip title
      else text "[" ++ (normalized_protocol ++ (text "] - " ++ strip title)))

-- the subject is not empty if the title is not blank, so the code's second test of it never fails
unfoldable pub build_request_payload : Text → Text → Option Text → Text → Text → Built
build_request_payload title description protocol company_external_id department_external_id =
    let company = strip company_external_id in
    let department = strip department_external_id in
    if length (strip title) == 0
    then refused title_required
    else if length (build_subject title protocol) == 0
    then refused title_required
    else if length company == 0 || any is_space company
    then refused company_invalid
    else if not (is_department_id department)
    then refused department_invalid
    else built (record {
      subject = build_subject title protocol;
      company = company;
      department = department;
      description = description;
    })

-- `metadata`; the fields, the priority and the type are constants
pub record PayloadMetadata : Type 0 where
  pub subject_length : ℕ
  pub description_length : ℕ
  pub company_external_id : Text
  pub department_external_id : Text

abbrev pub payload_metadata : Payload → PayloadMetadata
payload_metadata p = record {
  subject_length = length p.subject;
  description_length = length p.description;
  company_external_id = p.company;
  department_external_id = p.department;
}

-- the states that an outcome may have
pub data OutcomeState : Type 0 where
  success definitive retryable reconciliation : OutcomeState

pub record Outcome : Type 0 where
  pub state : OutcomeState
  pub category : Text
  pub solid_id : Option Text
  pub provider_status : Option ℕ

unfoldable pub failure_outcome : OutcomeState → Text → Option ℕ → Outcome
failure_outcome state category status = record {
  state = state;
  category = safe_category category;
  solid_id = none;
  provider_status = status;
}

-- `success`, which raises ValueError for an unsafe id
unfoldable pub success_outcome : Text → Option ℕ → Option Outcome
success_outcome solid_id status =
    let value = strip solid_id in
    if is_safe_sol_id value
    then some (record {
      state = success;
      category = text "provider_success";
      solid_id = some value;
      provider_status = status;
    })
    else none
