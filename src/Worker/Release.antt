-- ===== src/Worker/Release.antt =====
-- What a recorded failure leaves of the cycle and of the provider window.
use cai_central_de_atendimen.Base.{
  ℕ, ◌+◌, ◌*◌, ◌^◌, ◌-◌, ◌≤◌, ◌≡◌, ◌⊎◌, refl, true, false, Option, none, some, List, [], leb, ltb,
  arith, inl, inr,
}
use mathlib.Core.List.{Memᴰ}
use cai_central_de_atendimen.Base.Errors.{ok, err, overflow_error}
use cai_central_de_atendimen.Base.Lists.{all}
use cai_central_de_atendimen.Base.Tables.{mem-update}
use cai_central_de_atendimen.Base.Texts.{Text, same_refl}
use cai_central_de_atendimen.Cycle.Row.{Cycle, Time, Status, failed, retryable_failure}
use cai_central_de_atendimen.Cycle.Schema.{conforms}
use cai_central_de_atendimen.Cycle.Transition.{
  Field, status_text, moved, assign, assign_all, is_expected, transition_cycle, attempt_count,
}
use cai_central_de_atendimen.Cycle.Transition.Guards.{is_plain, picks, transition_cycle_moves}
use cai_central_de_atendimen.Retry.Bounds.{retry_delay_overflow}
use cai_central_de_atendimen.Worker.{
  WorkerSettings, WorkerState, Recorded, permanent, transient, record_cycle_failure,
  record_permanent, record_transient, last_datetime, retry_fields, failed_fields, sanitized,
  keep_window,
}

-- the stored cycle `x` is released in status `s`
pub record IsReleased (x : Cycle) (s : Status) (attempt : ℕ) (r : Recorded) : Type 0 where
  pub row : Cycle
  pub returned : r.0 ≡ ok (some row)
  pub stored : Memᴰ row r.1.rows
  pub same_id : row.public_id ≡ x.public_id
  pub status : row.status ≡ s
  pub attempts : row.attempt_count ≡ attempt
  pub no_owner : row.lease_owner ≡ none
  pub no_lease : row.lease_expires_at ≡ none
  pub valid : conforms r.1.rows ≡ true

module _ (s : WorkerSettings) (c x : Cycle) (name message : Text) (clock now : Time)
    (st : WorkerState) (valid : conforms st.rows ≡ true) (stored : Memᴰ x st.rows)
    (same_cycle : x.public_id ≡ c.public_id) where
  any_status : is_expected [] x.status ≡ true
  any_status = unfold is_expected in refl

  released :
      (status : Status) (attempt : ℕ) (fields : List Field)
      → all is_plain fields ≡ true
      → (moved status fields now x).public_id ≡ x.public_id
      → (moved status fields now x).status ≡ status
      → (moved status fields now x).attempt_count ≡ attempt
      → (moved status fields now x).lease_owner ≡ none
      → (moved status fields now x).lease_expires_at ≡ none
      → IsReleased x status attempt (
          keep_window st.window
            (transition_cycle c.public_id (status_text status) [] fields now st.rows))
  released status attempt fields plain p q a o l =
      let (e, good) =
        transition_cycle_moves st.rows x status [] fields now valid stored plain any_status in
      rw (← same_cycle) (
        rw e (record {
          row = moved status fields now x;
          returned = refl;
          stored =
              mem-update (picks st.rows x status [] fields now valid stored)
                (moved status fields now) stored (rw (same_refl x.public_id) any_status);
          same_id = p;
          status = q;
          attempts = a;
          no_owner = o;
          no_lease = l;
          valid = good;
        }))

  -- For a claimed cycle whose row a conforming table holds, in whatever status the run has brought
  -- it to: recording a failure that is not transient stores one attempt more than the cycle had when
  -- it was claimed, and releases the lease. The cycle is `failed` if the attempts have reached the
  -- maximum, and `retryable_failure` if not and the time of the next attempt is one that a datetime
  -- can hold. The table conforms again.
  pub record_cycle_failure-IsReleased :
      (failure_status : Status)
      → ((leb s.max_retries (c.attempt_count + 1) ≡ true) × (failure_status ≡ failed))
        ⊎ ((leb s.max_retries (c.attempt_count + 1) ≡ false)
            × (clock + s.history_retry_base * 2 ^ c.attempt_count ≤ last_datetime)
            × (failure_status ≡ retryable_failure))
      → IsReleased x failure_status
          (c.attempt_count + 1)
          (record_cycle_failure s c (permanent name message) clock now st)
  unfolding record_cycle_failure record_permanent assign_all assign
  record_cycle_failure-IsReleased status (inl (e, k)) =
      rw (k, e)
        (released failed (c.attempt_count + 1)
          (failed_fields (c.attempt_count + 1) c (sanitized name message) clock) refl refl refl refl
          refl refl)
  record_cycle_failure-IsReleased status (inr (e, l, k)) =
      let not_before = clock + s.history_retry_base * 2 ^ (c.attempt_count + 1 - 1) in
      let previous : c.attempt_count + 1 - 1 ≡ c.attempt_count = omega arith in
      let l' : ltb last_datetime not_before ≡ false = rw previous (ground (arith, l)) in
      rw (k, e, l')
        (released retryable_failure (c.attempt_count + 1)
          (retry_fields (attempt_count (c.attempt_count + 1)) c (sanitized name message) not_before)
          refl refl refl refl refl refl)

-- Once a cycle has had 1024 transient retries, recording another transient failure raises
-- OverflowError, opens no provider window and leaves the cycle under its lease.
pub record_cycle_failure_overflow :
    (s : WorkerSettings) (c : Cycle) (retry_after : Option ℕ) (name message : Text)
    (clock now : Time) (st : WorkerState)
    → 1024 ≤ c.transient_retry_count
    → record_cycle_failure s c (transient retry_after name message) clock now st
      ≡ (err overflow_error, st)
unfolding record_cycle_failure record_transient
record_cycle_failure_overflow s c retry_after name message clock now st h = rw (
  retry_delay_overflow s.retry (c.transient_retry_count + 1) retry_after (omega (arith, h)),
  record_transient,
)
