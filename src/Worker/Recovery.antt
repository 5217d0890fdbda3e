-- ===== src/Worker/Recovery.antt =====
-- The first part of `IAWorker._process_cycle` (src/workers/ia_worker.py): the recovery of the
-- history from DigiSac, and the snapshot made of it. What the DigiSac client returns for each
-- attempt is an argument, and so are the names of the directory, which `details` holds with the
-- other entries of the snapshot. A warning is its code. The sleeps between attempts are left out.
pub mod Owned
use cai_central_de_atendimen.Base.{
  ℕ, zero, suc, ◌+◌, Bool, true, false, Option, none, some, List, [], ◌∷◌, ◌++◌, map, if◌then◌else◌,
}
use cai_central_de_atendimen.Base.Errors.{Error, Result, ok, err, runtime_error}
use cai_central_de_atendimen.Base.Lists.{length, select}
use cai_central_de_atendimen.Base.Texts.{Text, text, contains}
use cai_central_de_atendimen.Cycle.Row.{
  Cycle, Time, Status, pending, recovering_messages, building_context, retryable_failure,
}
use cai_central_de_atendimen.Cycle.Transition.{
  status_text, Field, cycle_started_at, cycle_start_strategy, snapshot_json, warning_count,
  history_page_count, history_recovery_attempt, error_phase, error_message, Moved, transition_cycle,
}
use cai_central_de_atendimen.Cycle.Queries.{get_previous_cycle}
use cai_central_de_atendimen.Cycle.Messages.{
  CycleMessage, SnapshotMessage, Saved, save_cycle_messages,
}
use cai_central_de_atendimen.Finalization.Messages.{RawMessage, Message}
use cai_central_de_atendimen.Finalization.History.{
  Strategy, webhook_open_event, digisac_ticket_open_event, digisac_ticket_started_at,
  first_unassociated_message, empty_cycle_at_close, Reason, unknown_type, invalid_timestamp,
  NormalizedHistory, normalize_history,
}
use cai_central_de_atendimen.Worker.Process.{Snapshot}

-- what the code reads of a `DigisacHistory`
pub record Fetched : Type 0 where
  pub messages : List RawMessage
  pub ticket_started_at : Option Time  -- parsed
  pub page_count : ℕ
  pub is_complete : Bool

-- the loop of `_recover_history` from `attempt` on, with `left` attempts left; the settings give at
-- least one
unfoldable pub recover_history : (ℕ → Result Fetched) → ℕ → ℕ → Result Fetched
recover_history fetch attempt zero = err runtime_error
recover_history fetch attempt (suc left) =
    let rest = recover_history fetch (suc attempt) left in
    elim (fetch attempt) [ err e ↦ err e | ok h ↦ if h.is_complete then ok h else rest ]

abbrev pub strategy_text : Strategy → Text
strategy_text webhook_open_event = text "webhook_open_event"
strategy_text digisac_ticket_open_event = text "digisac_ticket_open_event"
strategy_text digisac_ticket_started_at = text "digisac_ticket_started_at"
strategy_text first_unassociated_message = text "first_unassociated_message"
strategy_text empty_cycle_at_close = text "empty_cycle_at_close"

-- the warnings of `normalize_history`
unfoldable pub history_warnings : List Reason → List Text
history_warnings [] = []
history_warnings (unknown_type ∷ rs) = text "unknown_message_type" ∷ history_warnings rs
history_warnings (invalid_timestamp ∷ rs) = text "invalid_timestamp" ∷ history_warnings rs
history_warnings (_ ∷ rs) = history_warnings rs

abbrev pub owned_warnings : List Text → List Text
owned_warnings = map (λ id. text "message_owned_by_other_cycle")

abbrev pub snapshot_message : Message → SnapshotMessage
snapshot_message m = record { message_id = m.message_id; type = m.type; timestamp = m.timestamp }

-- the tables of the cycles and of their messages
pub record CycleTables : Type 0 where
  pub cycles : List Cycle
  pub messages : List CycleMessage

-- the snapshot, if the recovery does not raise, and the tables
abbrev pub Recovered : Type 0
Recovered = Result Snapshot × CycleTables

abbrev pub closed_before : Option Cycle → Option Time
closed_before none = none
closed_before (some c) = c.ticket_closed_at

unfoldable pub normalize_for : Cycle → Time → Fetched → List Cycle → NormalizedHistory
normalize_for c closed_at h rows =
    normalize_history h.messages c.cycle_started_at h.ticket_started_at
      (closed_before (get_previous_cycle c.conversation_id c.sequence_number rows)) closed_at

unfoldable pub recovered_snapshot : Text → NormalizedHistory → Saved → Snapshot
recovered_snapshot details n saved = record {
  details = details;
  messages = select (λ m. contains saved.accepted m.message_id) n.messages;
  warnings = history_warnings n.excluded_for ++ owned_warnings saved.conflicts;
  media_wait = none;
}

abbrev pub recovered_fields :
    (Snapshot → Text) → NormalizedHistory → Snapshot → Fetched → List Field
recovered_fields serialise n snapshot h =
    cycle_started_at (some n.cycle_started_at)
    ∷ cycle_start_strategy (strategy_text n.cycle_start_strategy)
    ∷ snapshot_json (some (serialise snapshot))
    ∷ warning_count (length snapshot.warnings)
    ∷ history_page_count h.page_count
    ∷ []

-- a transition that moves no row is passed over, one that raises is not
abbrev pub unless_raised : Snapshot → List CycleMessage → Moved → Recovered
unless_raised snapshot messages (err e, rows) =
    (err e, record { cycles = rows; messages = messages })
unless_raised snapshot messages (ok row, rows) =
    (ok snapshot, record { cycles = rows; messages = messages })

abbrev pub after_save :
    (Snapshot → Text)
    → Text
    → Cycle
    → NormalizedHistory
    → Fetched
    → Time
    → CycleTables
    → Result Saved
    → Recovered
after_save serialise details c n h now t (err e) = (err e, t)
after_save serialise details c n h now t (ok saved) =
    let snapshot = recovered_snapshot details n saved in
    unless_raised snapshot saved.table (
      transition_cycle c.public_id (status_text building_context) (recovering_messages ∷ [])
        (recovered_fields serialise n snapshot h) now t.cycles)

unfoldable pub build_snapshot :
    (Snapshot → Text) → Text → Cycle → Time → Fetched → Time → CycleTables → Recovered
build_snapshot serialise details c closed_at h now t =
    let n = normalize_for c closed_at h t.cycles in
    after_save serialise details c n h now t
      (save_cycle_messages c.public_id (map snapshot_message n.messages) now t.cycles t.messages)

abbrev pub after_fetch :
    (Snapshot → Text) → Text → Cycle → Time → CycleTables → Result Fetched → Recovered
after_fetch serialise details c now t (err e) = (err e, t)
after_fetch serialise details c now t (ok h) = elim c.ticket_closed_at [
  | none ↦ (err runtime_error, t)
  | some closed_at ↦ build_snapshot serialise details c closed_at h now t
]

abbrev pub after_start :
    (Snapshot → Text)
    → Text
    → ℕ
    → (ℕ → Result Fetched)
    → Cycle
    → Time
    → List CycleMessage
    → Moved
    → Recovered
after_start serialise details attempts fetch c now messages (err e, rows) =
    (err e, record { cycles = rows; messages = messages })
after_start serialise details attempts fetch c now messages (ok row, rows) =
    after_fetch serialise details c now (record { cycles = rows; messages = messages })
      (recover_history fetch 1 attempts)

-- the branch of a cycle with no recovered snapshot
unfoldable pub recover_messages :
    (Snapshot → Text) → Text → ℕ → (ℕ → Result Fetched) → Cycle → Time → CycleTables → Recovered
recover_messages serialise details attempts fetch c now t =
    after_start serialise details attempts fetch c now t.messages (
      transition_cycle c.public_id (status_text recovering_messages)
        (pending ∷ retryable_failure ∷ recovering_messages ∷ [])
        (history_recovery_attempt (c.history_recovery_attempt + 1)
          ∷ error_phase none
          ∷ error_message none
          ∷ [])
        now t.cycles)
