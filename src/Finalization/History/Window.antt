-- ===== src/Finalization/History/Window.antt =====
-- Which messages of a ticket `normalize_history` keeps for the cycle: the rules of its loop and
-- the bounds in time, and that a message is kept or counted as excluded.
use cai_central_de_atendimen.Base.{
  ◌+◌, ◌≡◌, refl, true, false, Option, some, List, [], ◌∷◌, map, arith,
}
use cai_central_de_atendimen.Base.Lists.{length}
use cai_central_de_atendimen.Base.Tables.{length-order_by}
use mathlib.Core.List.{Memᴰ}
use cai_central_de_atendimen.Base.Texts.{Text, text, same, contains}
use cai_central_de_atendimen.Cycle.Row.{Time}
use cai_central_de_atendimen.Finalization.Messages.{
  RawMessage, Message, is_bot_message, supported_history_types,
}
use cai_central_de_atendimen.Finalization.History.{
  Span, Verdict, excluded, kept, judge, normalized, outside, after, is_deleted, kept_messages,
  exclusions, message_before, normalize_history, infer_cycle_start,
}

-- the reasons for which `m` stands for the raw message `r` in the history of the cycle
pub record IsKept (s : Span) (r : RawMessage) (m : Message) : Type 0 where
  pub id : Text
  pub message_type : Text
  pub time : Time
  pub has_id : r.id ≡ some id
  pub is_supported : contains supported_history_types message_type ≡ true
  pub has_type : r.type ≡ some message_type
  pub is_text : same message_type (text "ticket") ≡ false
  pub is_shown : r.hidden ≡ false
  pub is_present : is_deleted r.deleted_at ≡ false
  pub is_human : is_bot_message r.is_from_bot r.origin ≡ false
  pub has_time : r.timestamp ≡ some time
  pub is_after : after s.previous_closed_at time ≡ true
  pub is_inside : outside s time ≡ false
  pub is_copy : m ≡ normalized id message_type time r

module _ (s : Span) where
  -- the kept messages of a loop are kept for raw messages of the history
  abbrev pub ComesFrom : List RawMessage → Message → Type 0
  ComesFrom rs m = (r : RawMessage) × Memᴰ r rs × IsKept s r m

length-verdicts :
    (vs : List Verdict) → length (kept_messages vs) + length (exclusions vs) ≡ length vs
unfolding kept_messages exclusions
length-verdicts [] = refl
length-verdicts (excluded r ∷ vs) = omega (arith, length-verdicts vs)
length-verdicts (kept m ∷ vs) = omega (arith, length-verdicts vs)

length-map {ℓ κ} :
    {A : Type ℓ} {B : Type κ} (f : A → B) (xs : List A) → length (map f xs) ≡ length xs
length-map f [] = refl
length-map f (x ∷ xs) = omega (arith, length-map f xs)

module _ (rs : List RawMessage) (configured ticket_start previous : Option Time)
    (closed : Time) where
  -- the bounds that the loop reads
  abbrev pub span : Span
  span = record {
    start = (infer_cycle_start rs configured ticket_start previous closed).0;
    previous_closed_at = previous;
    closed_at = closed;
  }

  -- For any raw messages, configured start, ticket start, previous close and close: the normalized
  -- messages and the exclusions are together as many as the raw messages.
  pub normalize_history-conserves :
      let h = normalize_history rs configured ticket_start previous closed in
      length h.messages + length h.excluded_for ≡ length rs
  unfolding normalize_history
  normalize_history-conserves =
      let vs = map (judge span) rs in
      omega (
        arith,
        length-order_by message_before (kept_messages vs),
        length-verdicts vs,
        length-map (judge span) rs,
      )
