-- ===== src/Finalization/History.antt =====
-- `infer_cycle_start` and `normalize_history`.
pub mod Window
pub mod Sorting
use cai_central_de_atendimen.Base.{
  ℕ, zero, suc, ◌+◌, ◌-◌, Bool, true, false, not, ◌&&◌, ◌||◌, Option, none, some, List, [], ◌∷◌,
  ◌==◌, ltb, leb, coalesce, get_or, is_none, if◌then◌else◌, max, min, map,
}
use cai_central_de_atendimen.Base.Lists.{length, count_where}
use cai_central_de_atendimen.Base.Tables.{order_by}
use cai_central_de_atendimen.Base.Texts.{Text, text, same, same_some, strip, contains}
use cai_central_de_atendimen.Cycle.Row.{Time}
use cai_central_de_atendimen.Cycle.Lease.{seconds}
use cai_central_de_atendimen.Finalization.Messages.{
  RawMessage, Message, agent, client, supported_history_types, safe_file_metadata,
  effective_message_type, is_bot_message,
}

-- CLOCK_SKEW
abbrev pub clock_skew : ℕ
clock_skew = seconds 5

pub data Strategy : Type 0 where
  webhook_open_event digisac_ticket_open_event digisac_ticket_started_at : Strategy
  first_unassociated_message empty_cycle_at_close : Strategy

abbrev pub has_type : List Text → Option Text → Bool
has_type types none = false
has_type types (some t) = contains types t

-- a time that is after the previous close, if there was one
abbrev pub after : Option Time → Time → Bool
after none t = true
after (some p) t = ltb p t

unfoldable pub is_open_event : RawMessage → Bool
is_open_event m = same_some m.type (some (text "ticket")) && m.ticket_open

-- the greatest and the least of the times gathered so far
abbrev pub later_of : Option Time → Time → Option Time
later_of none t = some t
later_of (some s) t = some (max s t)

abbrev pub earlier_of : Option Time → Time → Option Time
earlier_of none t = some t
earlier_of (some s) t = some (min s t)

-- the loop over the messages: `max(technical_opens)` and `min(valid_messages)`, if there are any
pub record Candidates : Type 0 where
  pub last_open : Option Time
  pub first_message : Option Time

unfoldable pub gather_at : Option Time → RawMessage → Time → Candidates → Candidates
gather_at previous_closed_at m t c =
    if is_open_event m
    then record c { last_open = later_of c.last_open t }
    else if has_type supported_history_types m.type && after previous_closed_at t
    then record c { first_message = earlier_of c.first_message t }
    else c

unfoldable pub gather_one : Option Time → Time → RawMessage → Candidates → Candidates
gather_one previous_closed_at closed_at m c = elim m.timestamp [
  | none ↦ c
  | some t ↦ if ltb (closed_at + clock_skew) t then c else gather_at previous_closed_at m t c
]

unfoldable pub gather : Option Time → Time → List RawMessage → Candidates → Candidates
gather previous_closed_at closed_at [] c = c
gather previous_closed_at closed_at (m ∷ ms) c =
    gather previous_closed_at closed_at ms (gather_one previous_closed_at closed_at m c)

-- `ticket_start` is `parse_timestamp(ticket_started_at)`
unfoldable pub fallback_start : Option Time → Time → Option Time → Option Time → Time × Strategy
fallback_start previous_closed_at closed_at none none = (closed_at, empty_cycle_at_close)
fallback_start previous_closed_at closed_at none (some m) = (m, first_unassociated_message)
fallback_start previous_closed_at closed_at (some s) first_message =
    if leb s closed_at && after previous_closed_at s
    then (s, digisac_ticket_started_at)
    else elim first_message [
      | none ↦ (closed_at, empty_cycle_at_close)
      | some m ↦ (m, first_unassociated_message)
    ]

unfoldable pub infer_cycle_start :
    List RawMessage → Option Time → Option Time → Option Time → Time → Time × Strategy
infer_cycle_start raw_messages configured_start ticket_start previous_closed_at closed_at =
    let c =
      gather previous_closed_at closed_at raw_messages
        (record { last_open = none; first_message = none }) in
    elim configured_start [
      | some s ↦ (s, webhook_open_event)
      | none ↦ elim c.last_open [
        | some t ↦ (t, digisac_ticket_open_event)
        | none ↦ fallback_start previous_closed_at closed_at ticket_start c.first_message
      ]
    ]

-- why a message is left out
pub data Reason : Type 0 where
  missing_message_id technical_ticket_event unknown_type invisible deleted bot : Reason
  invalid_timestamp previous_cycle outside_cycle : Reason

pub data Verdict : Type 0 where
  excluded : Reason → Verdict
  kept : Message → Verdict

-- the bounds of the cycle: its inferred start, the previous close and its own close
pub record Span : Type 0 where
  pub start : Time
  pub previous_closed_at : Option Time
  pub closed_at : Time

-- `deletedAt not in (None, "")`
abbrev pub is_deleted : Option Text → Bool
is_deleted none = false
is_deleted (some t) = not (length t == 0)

unfoldable pub normalized : Text → Text → Time → RawMessage → Message
normalized message_id message_type t m =
    let file = safe_file_metadata m.file in
    record {
      message_id = message_id;
      timestamp = t;
      sender_type = if m.is_from_me then agent else client;
      sender_id = if m.is_from_me then m.user_id else m.contact_id;
      type = effective_message_type message_type file;
      content = strip (get_or m.content []);
      quoted_message_id = m.quoted_message_id;
      media_status = none;
      file = file;
    }

-- `timestamp < inferred_start - CLOCK_SKEW or timestamp > ticket_closed_at + CLOCK_SKEW`
abbrev pub outside : Span → Time → Bool
outside s t = ltb (t + clock_skew) s.start || ltb (s.closed_at + clock_skew) t

unfoldable pub judge_time : Span → Text → Text → RawMessage → Verdict
judge_time s message_id message_type m = elim m.timestamp [
  | none ↦ excluded invalid_timestamp
  | some t ↦
      if not (after s.previous_closed_at t)
      then excluded previous_cycle
      else if outside s t
      then excluded outside_cycle
      else kept (normalized message_id message_type t m)
]

unfoldable pub judge_type : Span → Text → RawMessage → Verdict
judge_type s message_id m = elim m.type [
  | none ↦ excluded unknown_type
  | some message_type ↦
      if same message_type (text "ticket")
      then excluded technical_ticket_event
      else if not (contains supported_history_types message_type)
      then excluded unknown_type
      else if m.hidden
      then excluded invisible
      else if is_deleted m.deleted_at
      then excluded deleted
      else if is_bot_message m.is_from_bot m.origin
      then excluded bot
      else judge_time s message_id message_type m
]

-- one round of the loop of `normalize_history`
unfoldable pub judge : Span → RawMessage → Verdict
judge s m = elim m.id [
  | none ↦ excluded missing_message_id
  | some message_id ↦
      if length (strip message_id) == 0
      then excluded missing_message_id
      else judge_type s message_id m
]

unfoldable pub kept_messages : List Verdict → List Message
kept_messages [] = []
kept_messages (excluded r ∷ vs) = kept_messages vs
kept_messages (kept m ∷ vs) = m ∷ kept_messages vs

unfoldable pub exclusions : List Verdict → List Reason
exclusions [] = []
exclusions (excluded r ∷ vs) = r ∷ exclusions vs
exclusions (kept m ∷ vs) = exclusions vs

-- texts are compared by code points
unfoldable pub text_le : Text → Text → Bool
text_le [] t = true
text_le (x ∷ xs) [] = false
text_le (x ∷ xs) (y ∷ ys) = ltb x y || x == y && text_le xs ys

-- the key of `normalized.sort`; the order of two `isoformat` texts in UTC is that of the times
unfoldable pub message_before : Message → Message → Bool
message_before a b =
    ltb a.timestamp b.timestamp || a.timestamp == b.timestamp && text_le a.message_id b.message_id

-- `NormalizedHistory`; `exclusion_counts` counts the entries of `excluded_for`
pub record NormalizedHistory : Type 0 where
  pub messages : List Message
  pub excluded_for : List Reason
  pub cycle_started_at : Time
  pub cycle_start_strategy : Strategy

unfoldable pub normalize_history :
    List RawMessage → Option Time → Option Time → Option Time → Time → NormalizedHistory
normalize_history raw_messages configured_start ticket_start previous_closed_at ticket_closed_at =
    let (start, strategy) =
      infer_cycle_start raw_messages configured_start ticket_start previous_closed_at
        ticket_closed_at in
    let verdicts =
      map
        (judge (record {
          start = start;
          previous_closed_at = previous_closed_at;
          closed_at = ticket_closed_at;
        }))
        raw_messages in
    record {
      messages = order_by message_before (kept_messages verdicts);
      excluded_for = exclusions verdicts;
      cycle_started_at = start;
      cycle_start_strategy = strategy;
    }
