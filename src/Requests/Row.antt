-- ===== src/Requests/Row.antt =====
-- The row of `acessorias_request_operations` (alembic/versions/0019 and 0020).
use cai_central_de_atendimen.Base.{ℕ, Bool, true, false, Option}
use cai_central_de_atendimen.Base.Texts.{Text}
use cai_central_de_atendimen.Cycle.Row.{Time}
use cai_central_de_atendimen.Requests.Confidence.{Gate}
use cai_central_de_atendimen.Requests.Payload.{PayloadMetadata}

pub data OperationState : Type 0 where
  not_started attempting completed definitive_failure : OperationState
  retryable_failure reconciliation_required : OperationState

-- `payload_metadata_json`: the payload's entries and the entry `confidence_gate`
pub record Metadata : Type 0 where
  pub payload : Option PayloadMetadata
  pub gate : Option Gate

pub data Action : Type 0 where
  record_solid release_retry : Action

-- `reconciliation_json`: an empty object, the provider's demand, or a manual action with its key and
-- reason
pub data Reconciliation : Type 0 where
  nothing : Reconciliation
  required : Text → Reconciliation
  manual : Action → Text → Text → Reconciliation

-- `preparation_recovery_json`
pub data Recovery : Type 0 where
  untried : Recovery
  blocked : Text → Text → Recovery
  prepared : Recovery

pub record Operation : Type 0 where
  pub id : ℕ
  pub source_cycle_id : ℕ
  pub source_classification_id : Option ℕ
  pub conversation_id : Text
  pub company_id : Option ℕ
  pub company_external_id : Option Text
  pub department_mapping_id : Option ℕ
  pub department_external_id : Option Text
  pub payload_fingerprint : Option Text
  pub payload_metadata : Metadata
  pub state : OperationState
  pub attempt_count : ℕ
  pub claim_owner : Option Text
  pub claim_expires_at : Option Time
  pub post_started_at : Option Time
  pub first_attempt_at : Option Time
  pub last_attempt_at : Option Time
  pub completed_at : Option Time
  pub sol_id : Option Text
  pub last_provider_status : Option ℕ
  pub failure_category : Option Text
  pub failure_message : Option Text
  pub reconciliation : Reconciliation
  pub preparation_recovery : Recovery
  pub created_at : Time
  pub updated_at : Time

abbrev pub is_attempting : OperationState → Bool
is_attempting attempting = true
is_attempting _ = false

abbrev pub is_definitive : OperationState → Bool
is_definitive definitive_failure = true
is_definitive _ = false

-- state IN ('not_started', 'retryable_failure')
abbrev pub is_claimable : OperationState → Bool
is_claimable not_started = true
is_claimable retryable_failure = true
is_claimable _ = false
