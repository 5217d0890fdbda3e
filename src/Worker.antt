-- ===== src/Worker.antt =====
-- The failure handling of the finalization worker (src/workers/ia_worker.py): the provider window
-- of `IAWorker` and `_record_cycle_failure`. Delays and times are in the same unit, microseconds.
-- `clock` is what the worker's clock reads, `now` is CURRENT_TIMESTAMP. Log lines are left out.
pub mod Release
pub mod Media
pub mod Process
pub mod Classify
pub mod Recovery
use cai_central_de_atendimen.Base.{
  ℕ, suc, ◌+◌, ◌-◌, ◌*◌, ◌^◌, Bool, true, false, ◌&&◌, Option, none, some, List, [], ◌∷◌, ◌++◌,
  ◌==◌, ltb, leb, min, max, if◌then◌else◌,
}
use cai_central_de_atendimen.Base.Errors.{Result, ok, err, overflow_error, value_error}
use cai_central_de_atendimen.Base.Lists.{take}
use cai_central_de_atendimen.Base.Texts.{Text, text}
use cai_central_de_atendimen.Cycle.Row.{Cycle, Time, failed, retryable_failure}
use cai_central_de_atendimen.Cycle.Lease.{seconds}
use cai_central_de_atendimen.Cycle.Transition.{
  status_text, Field, attempt_count, transient_retry_count, error_phase, error_message,
  next_attempt_at, enqueued_at, lease_owner, lease_expires_at, completed_at, Moved,
  transition_cycle,
}
use cai_central_de_atendimen.Retry.{RetrySettings, retry_delay, provider_cooldown_delay}

-- `provider_blocked_until` and `provider_window_resume_pending`
pub record ProviderWindow : Type 0 where
  pub blocked_until : Time
  pub resume_pending : Bool

-- the truncated difference is `max(0.0, ...)`
unfoldable pub window_remaining : Time → ProviderWindow → ℕ
window_remaining clock w = w.blocked_until - clock

unfoldable pub log_window_resumed : Time → ProviderWindow → ProviderWindow
log_window_resumed clock w =
    if window_remaining clock w == 0 && w.resume_pending
    then record w { resume_pending = false }
    else w

-- whether it pauses, the sleep that it makes, and the window
unfoldable pub pause_for_window : Time → ProviderWindow → Bool × ℕ × ProviderWindow
pause_for_window clock w =
    let remaining = window_remaining clock w in
    if remaining == 0
    then (false, 0, log_window_resumed clock w)
    else (true, min remaining (seconds 1), w)

unfoldable pub open_window : ℕ → Time → ProviderWindow → ProviderWindow
open_window delay clock w = record {
  blocked_until = max w.blocked_until (clock + delay);
  resume_pending = true;
}

-- the time after which to retry, if the provider is not available
unfoldable pub provider_unavailable : Time → ProviderWindow → Option ℕ
provider_unavailable clock w =
    let remaining = window_remaining clock w in if ltb 0 remaining then some remaining else none

-- the exceptions that `_record_cycle_failure` tells apart, with their class and message
pub data Failure : Type 0 where
  window_active : Failure
  transient : Option ℕ → Text → Text → Failure
  permanent : Text → Text → Failure

-- `f"{type(exc).__name__}: {str(exc)[:500]}"`
unfoldable pub sanitized : Text → Text → Text
sanitized name message = name ++ text ": " ++ take 500 message

pub record WorkerSettings : Type 0 where
  pub retry : RetrySettings
  pub history_retry_base : ℕ
  pub max_retries : ℕ

pub record WorkerState : Type 0 where
  pub window : ProviderWindow
  pub rows : List Cycle

abbrev pub Recorded : Type 0
Recorded = Result (Option Cycle) × WorkerState

abbrev pub retry_fields : Field → Cycle → Text → Time → List Field
retry_fields count c problem not_before =
    count
    ∷ error_phase (some (status_text c.status))
    ∷ error_message (some problem)
    ∷ next_attempt_at (some not_before)
    ∷ enqueued_at none
    ∷ lease_owner none
    ∷ lease_expires_at none
    ∷ []

abbrev pub failed_fields : ℕ → Cycle → Text → Time → List Field
failed_fields attempt c problem clock =
    attempt_count attempt
    ∷ error_phase (some (status_text c.status))
    ∷ error_message (some problem)
    ∷ completed_at (some clock)
    ∷ next_attempt_at none
    ∷ lease_owner none
    ∷ lease_expires_at none
    ∷ []

abbrev pub keep_window : ProviderWindow → Moved → Recorded
keep_window w m = (m.0, record { window = w; rows = m.1 })

-- `datetime.max`, for times since 1970: a sum that passes it raises OverflowError, as does a
-- `timedelta` that passes its own, greater maximum, and `fromtimestamp` raises ValueError
abbrev pub last_datetime : Time
last_datetime = 253402300799999999

unfoldable pub record_transient :
    WorkerSettings → Cycle → Option ℕ → Text → Time → Time → WorkerState → Recorded
record_transient s c retry_after problem clock now st =
    let attempt = c.transient_retry_count + 1 in
    elim (retry_delay s.retry attempt retry_after) [
      | err e ↦ (err e, st)
      | ok delay ↦
          let window = open_window (provider_cooldown_delay s.retry retry_after) clock st.window in
          if ltb last_datetime (clock + delay)
          then (err value_error, record st { window = window })
          else keep_window window (
              transition_cycle c.public_id (status_text retryable_failure) []
                (retry_fields (transient_retry_count attempt) c problem (clock + delay)) now
                st.rows)
    ]

-- `attempt` is at least 1, and below `max_retries` where its power of two is taken
unfoldable pub record_permanent :
    WorkerSettings → Cycle → Text → Time → Time → WorkerState → Recorded
record_permanent s c problem clock now st =
    let attempt = c.attempt_count + 1 in
    let not_before = clock + s.history_retry_base * 2 ^ (attempt - 1) in
    if leb s.max_retries attempt
    then keep_window st.window (
        transition_cycle c.public_id (status_text failed) [] (failed_fields attempt c problem clock)
          now st.rows)
    else if ltb last_datetime not_before
    then (err overflow_error, st)
    else keep_window st.window (
        transition_cycle c.public_id (status_text retryable_failure) []
          (retry_fields (attempt_count attempt) c problem not_before) now st.rows)

-- `c` is the cycle as the worker claimed it
unfoldable pub record_cycle_failure :
    WorkerSettings → Cycle → Failure → Time → Time → WorkerState → Recorded
record_cycle_failure s c window_active clock now st = (ok none, st)
record_cycle_failure s c (transient retry_after name message) clock now st =
    record_transient s c retry_after (sanitized name message) clock now st
record_cycle_failure s c (permanent name message) clock now st =
    record_permanent s c (sanitized name message) clock now st
