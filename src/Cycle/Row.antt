-- ===== src/Cycle/Row.antt =====
-- The rows of `conversation_processing_cycles`. A time is a number of microseconds since a fixed
-- epoch; a JSONB column is its serialised text.
use cai_central_de_atendimen.Base.{ℕ, Bool, true, false, Option}
use cai_central_de_atendimen.Base.Texts.{Text}

abbrev pub Time : Type 0
Time = ℕ

-- `opened` is the status 'open'.
pub data Status : Type 0 where
  opened pending recovering_messages waiting_media building_context summarizing classifying : Status
  retryable_failure completed completed_with_warnings failed media_blocked : Status

-- RECOVERABLE_CYCLE_STATUSES
abbrev pub is_recoverable : Status → Bool
is_recoverable pending = true
is_recoverable recovering_messages = true
is_recoverable waiting_media = true
is_recoverable building_context = true
is_recoverable summarizing = true
is_recoverable classifying = true
is_recoverable retryable_failure = true
is_recoverable _ = false

-- TERMINAL_CYCLE_STATUSES
abbrev pub is_terminal : Status → Bool
is_terminal completed = true
is_terminal completed_with_warnings = true
is_terminal failed = true
is_terminal _ = false

-- BLOCKED_CYCLE_STATUSES
abbrev pub is_blocked : Status → Bool
is_blocked media_blocked = true
is_blocked _ = false

pub record Cycle : Type 0 where
  pub id : ℕ
  pub public_id : Text
  pub conversation_id : Text
  pub sequence_number : ℕ
  pub protocol : Option Text
  pub cycle_started_at : Option Time
  pub ticket_closed_at : Option Time
  pub cycle_start_strategy : Text
  pub open_event_key : Option Text
  pub close_event_key : Option Text
  pub digisac_contact_external_id : Option Text
  pub status : Status
  pub attempt_count : ℕ
  pub transient_retry_count : ℕ
  pub error_phase : Option Text
  pub error_message : Option Text
  pub warning_count : ℕ
  pub snapshot_json : Option Text
  pub rendered_context : Option Text
  pub model_context : Option Text
  pub context_reduction_applied : Bool
  pub context_reduction_json : Text
  pub history_recovery_attempt : ℕ
  pub history_page_count : ℕ
  pub processing_time_ms : Option ℕ
  pub classification_id : Option ℕ
  pub next_attempt_at : Option Time
  pub enqueued_at : Option Time
  pub lease_owner : Option Text
  pub lease_expires_at : Option Time
  pub created_at : Time
  pub updated_at : Time
  pub completed_at : Option Time
