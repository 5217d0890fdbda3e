-- ===== src/Examples/Failures.antt =====
-- Concrete failures of a cycle.
use cai_central_de_atendimen.Base.{◌≡◌, refl, inr, true, false, none, some, [], ◌∷◌, arith}
use mathlib.Core.List.{Memᴰ}
use cai_central_de_atendimen.Base.Errors.{err, overflow_error}
use cai_central_de_atendimen.Base.Tables.{pairwise}
use cai_central_de_atendimen.Base.Texts.{text, same, is_space}
use cai_central_de_atendimen.Cycle.Row.{Cycle, summarizing, retryable_failure}
use cai_central_de_atendimen.Cycle.Schema.{conforms, row_ok, nonblank}
use cai_central_de_atendimen.Cycle.Admission.{blank_row}
use cai_central_de_atendimen.Worker.{
  WorkerSettings, WorkerState, permanent, transient, record_cycle_failure,
}
use cai_central_de_atendimen.Worker.Release.{
  IsReleased, record_cycle_failure-IsReleased, record_cycle_failure_overflow,
}

abbrev claimed_cycle : Cycle
claimed_cycle = record (blank_row 1 (text "u1") (text "t1") 1 (text "w") 10) {
  ticket_closed_at = some 9;
  close_event_key = some (text "k1");
  status = summarizing;
  transient_retry_count = 1024;
  lease_owner = some (text "w1");
  lease_expires_at = some 60000030;
}

abbrev settings : WorkerSettings
settings = record {
  retry = record { base = 5; max_delay = 60; margin = 1 };
  history_retry_base = 3;
  max_retries = 3;
}

abbrev state : WorkerState
state = record {
  window = record { blocked_until = 0; resume_pending = false };
  rows = claimed_cycle ∷ [];
}

state-conforms : conforms (claimed_cycle ∷ []) ≡ true
unfolding conforms pairwise row_ok nonblank same is_space
state-conforms = refl

record_cycle_failure-IsReleased_example : IsReleased claimed_cycle retryable_failure 1 (
    record_cycle_failure settings claimed_cycle
      (permanent (text "RuntimeError") (text "summary response is empty"))
      40
      41
      state)
record_cycle_failure-IsReleased_example =
    record_cycle_failure-IsReleased settings claimed_cycle claimed_cycle (text "RuntimeError")
      (text "summary response is empty") 40 41 state state-conforms (Memᴰ.head refl) refl
      retryable_failure (inr (refl, omega arith, refl))

record_cycle_failure_overflow_example :
    record_cycle_failure settings claimed_cycle (transient none (text "E") (text "429")) 40 41 state
    ≡ (err overflow_error, state)
record_cycle_failure_overflow_example =
    record_cycle_failure_overflow settings claimed_cycle none (text "E") (text "429") 40 41 state
      (omega arith)
