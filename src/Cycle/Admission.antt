-- ===== src/Cycle/Admission.antt =====
-- `create_open_cycle` and `close_cycle`: what a ticket-open and a ticket-close event do to the
-- table. The advisory lock on the conversation makes each call atomic, so a call is a function of
-- the table; `id` is the identity that the database gives a new row and `uuid` what `uuid7` returns.
pub mod Conforming
pub mod Opened
pub mod Closed
pub mod Isolation
pub mod Closing
pub mod Opening
pub mod Contact
use cai_central_de_atendimen.Base.{
  ℕ, suc, ◌+◌, Bool, true, false, ◌&&◌, ◌||◌, Option, none, some, List, [], ◌∷◌, ◌++◌, ◌==◌, ltb,
  is_none, coalesce, if◌then◌else◌, max,
}
use cai_central_de_atendimen.Base.Errors.{
  Result, ok, err, value_error, runtime_error, integrity_error,
}
use cai_central_de_atendimen.Base.Lists.{any, find, length}
use cai_central_de_atendimen.Base.Texts.{Text, text, same, same_some, strip}
use cai_central_de_atendimen.Base.Tables.{update}
use cai_central_de_atendimen.Cycle.Row.{Cycle, Time, opened, pending}
use cai_central_de_atendimen.Cycle.Schema.{conforms}

abbrev pub unsafe_character : ℕ → Bool
unsafe_character c = c == 13 || c == 10 || c == 0

unfoldable pub normalize_contact : Option Text → Result (Option Text)
normalize_contact none = ok none
normalize_contact (some value) =
    let normalized = strip value in
    if length normalized == 0
    then ok none
    else if ltb 240 (length normalized) || any unsafe_character normalized
    then err value_error
    else ok (some normalized)

-- `_cycle_row`
abbrev pub cycle_row : Text → List Cycle → Option Cycle
cycle_row public_id = find (λ c. same c.public_id public_id)

-- COALESCE(MAX(sequence_number), 0) over the rows of a conversation
unfoldable pub last_sequence : Text → List Cycle → ℕ
last_sequence conversation [] = 0
last_sequence conversation (c ∷ rows) =
    let rest = last_sequence conversation rows in
    if same c.conversation_id conversation then max c.sequence_number rest else rest

abbrev pub Outcome : Type 0
Outcome = Result (Cycle × Bool) × List Cycle

-- the row read back after the transaction
abbrev pub read_back : Text → Bool → List Cycle → Outcome
read_back public_id created rows =
    (elim (cycle_row public_id rows) [ none ↦ err runtime_error | some c ↦ ok (c, created) ], rows)

-- a statement that would leave the table `rows'` is refused, and rolled back, if that table does
-- not conform
abbrev pub commit : List Cycle → List Cycle → (List Cycle → Outcome) → Outcome
commit rows rows' next = if conforms rows' then next rows' else (err integrity_error, rows)

-- the arguments of `create_open_cycle`; `started_at` is `none` if it is a text that
-- `datetime.fromisoformat` refuses
pub record OpenEvent : Type 0 where
  pub conversation_id : Text
  pub started_at : Option Time
  pub open_event_key : Text
  pub start_strategy : Text
  pub contact_external_id : Option Text

abbrev pub blank_row : ℕ → Text → Text → ℕ → Text → Time → Cycle
blank_row id uuid conversation sequence strategy now = record {
  id = id;
  public_id = uuid;
  conversation_id = conversation;
  sequence_number = sequence;
  protocol = none;
  cycle_started_at = none;
  ticket_closed_at = none;
  cycle_start_strategy = strategy;
  open_event_key = none;
  close_event_key = none;
  digisac_contact_external_id = none;
  status = opened;
  attempt_count = 0;
  transient_retry_count = 0;
  error_phase = none;
  error_message = none;
  warning_count = 0;
  snapshot_json = none;
  rendered_context = none;
  model_context = none;
  context_reduction_applied = false;
  context_reduction_json = text "[]";
  history_recovery_attempt = 0;
  history_page_count = 0;
  processing_time_ms = none;
  classification_id = none;
  next_attempt_at = none;
  enqueued_at = none;
  lease_owner = none;
  lease_expires_at = none;
  created_at = now;
  updated_at = now;
  completed_at = none;
}

unfoldable pub opened_row : ℕ → Text → Time → OpenEvent → Time → Option Text → List Cycle → Cycle
opened_row id uuid now e started contact rows =
    let row =
      blank_row id uuid e.conversation_id (last_sequence e.conversation_id rows + 1)
        e.start_strategy now in
    record row {
      cycle_started_at = some started;
      open_event_key = some e.open_event_key;
      digisac_contact_external_id = contact;
    }

-- UPDATE ... SET digisac_contact_external_id = COALESCE(digisac_contact_external_id, contact)
abbrev pub keep_contact : Option Text → Time → Cycle → Cycle
keep_contact contact now c = record c {
  digisac_contact_external_id = coalesce c.digisac_contact_external_id contact;
  updated_at = now;
}

unfoldable pub has_open_key : Text → Cycle → Bool
has_open_key key c = same_some c.open_event_key (some key)

unfoldable pub is_open_in : Text → Cycle → Bool
is_open_in conversation c = same c.conversation_id conversation && is_none c.ticket_closed_at

open_new : ℕ → Text → Time → OpenEvent → Option Text → Option Time → List Cycle → Outcome
unfolding opened_row
open_new id uuid now e contact none rows = (err value_error, rows)
open_new id uuid now e contact (some started) rows =
    commit rows (rows ++ opened_row id uuid now e started contact rows ∷ []) (read_back uuid true)

open_existing : Time → Option Text → Cycle → List Cycle → Outcome
open_existing now none c rows = read_back c.public_id false rows
open_existing now (some contact) c rows =
    commit rows (update (λ r. same r.public_id c.public_id) (keep_contact (some contact) now) rows)
      (read_back c.public_id false)

open_with : ℕ → Text → Time → OpenEvent → List Cycle → Option Text → Outcome
unfolding open_new open_existing has_open_key is_open_in
open_with id uuid now e rows contact = elim (find (has_open_key e.open_event_key) rows) [
  | some duplicate ↦ read_back duplicate.public_id false rows
  | none ↦ elim (find (is_open_in e.conversation_id) rows) [
    | some existing ↦ open_existing now contact existing rows
    | none ↦ open_new id uuid now e contact e.started_at rows
  ]
]

unfoldable pub create_open_cycle : ℕ → Text → Time → OpenEvent → List Cycle → Outcome
unfolding open_with
create_open_cycle id uuid now e rows = elim (normalize_contact e.contact_external_id) [
  | err x ↦ (err x, rows)
  | ok contact ↦ open_with id uuid now e rows contact
]

-- the arguments of `close_cycle`
pub record CloseEvent : Type 0 where
  pub conversation_id : Text
  pub protocol : Text
  pub closed_at : Option Time
  pub close_event_key : Text
  pub fallback_start_strategy : Text
  pub contact_external_id : Option Text

-- the UPDATE of an open cycle by its close event; `delay` is
-- `settings.digisac_history_initial_delay_seconds`
unfoldable pub close_row : Time → ℕ → CloseEvent → Time → Option Text → Cycle → Cycle
close_row now delay e closed contact c = record c {
  protocol = some e.protocol;
  ticket_closed_at = some closed;
  close_event_key = some e.close_event_key;
  status = pending;
  digisac_contact_external_id = coalesce c.digisac_contact_external_id contact;
  next_attempt_at = some (now + delay);
  updated_at = now;
  error_phase = none;
  error_message = none;
}

-- the row inserted for a close event whose open event was never seen
unfoldable pub closed_row :
    ℕ → Text → Time → ℕ → CloseEvent → Time → Option Text → List Cycle → Cycle
closed_row id uuid now delay e closed contact rows =
    let row =
      blank_row id uuid e.conversation_id (last_sequence e.conversation_id rows + 1)
        e.fallback_start_strategy now in
    record row {
      protocol = some e.protocol;
      ticket_closed_at = some closed;
      close_event_key = some e.close_event_key;
      status = pending;
      digisac_contact_external_id = contact;
      next_attempt_at = some (now + delay);
    }

unfoldable pub has_close_key : Text → Cycle → Bool
has_close_key key c = same_some c.close_event_key (some key)

close_with : ℕ → Text → Time → ℕ → CloseEvent → List Cycle → Option Text → Time → Outcome
unfolding close_row closed_row has_close_key is_open_in
close_with id uuid now delay e rows contact closed =
    elim (find (has_close_key e.close_event_key) rows) [
      | some duplicate ↦ read_back duplicate.public_id false rows
      | none ↦ elim (find (is_open_in e.conversation_id) rows) [
        | some c ↦
            commit rows (update (λ r. r.id == c.id) (close_row now delay e closed contact) rows)
              (read_back c.public_id true)
        | none ↦
            commit rows (rows ++ closed_row id uuid now delay e closed contact rows ∷ [])
              (read_back uuid true)
      ]
    ]

-- the contact is validated first, then the time
unfoldable pub close_cycle : ℕ → Text → Time → ℕ → CloseEvent → List Cycle → Outcome
unfolding close_with
close_cycle id uuid now delay e rows = elim (normalize_contact e.contact_external_id) [
  | err x ↦ (err x, rows)
  | ok contact ↦ elim e.closed_at [
    | none ↦ (err value_error, rows)
    | some closed ↦ close_with id uuid now delay e rows contact closed
  ]
]
