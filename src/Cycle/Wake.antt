-- ===== src/Cycle/Wake.antt =====
-- `wake_unblocked_media_cycles`: cycles that were blocked by failed media wait for media again once
-- no failed medium of theirs has used up its attempts.
pub mod Woken
use cai_central_de_atendimen.Base.{
  ℕ, Bool, not, ◌&&◌, ◌||◌, none, some, List, ◌==◌, ltb, leb, max, map,
}
use cai_central_de_atendimen.Base.Lists.{any, select, take}
use cai_central_de_atendimen.Base.Tables.{update, order_by}
use cai_central_de_atendimen.Base.Texts.{Text, text, same}
use cai_central_de_atendimen.Cycle.Row.{Cycle, Time, waiting_media, is_blocked}
use cai_central_de_atendimen.Cycle.Messages.{CycleMessage, is_of}
use cai_central_de_atendimen.Media.Row.{Content, is_failed, has_id}
use cai_central_de_atendimen.Finalization.Messages.{is_audio}

-- a failed medium with no attempt left
unfoldable pub is_exhausted : ℕ → Text → Content → Bool
is_exhausted max_attempts message_id c =
    has_id message_id c && is_failed c.status && leb max_attempts c.attempt_count

-- the condition of the subquery on one message
unfoldable pub is_stuck : ℕ → List Content → List Content → CycleMessage → Bool
is_stuck max_attempts transcriptions images m =
    is_audio m.message_type && any (is_exhausted max_attempts m.message_id) transcriptions
    || same m.message_type (text "image") && any (is_exhausted max_attempts m.message_id) images

unfoldable pub is_unblocked : ℕ → List CycleMessage → List Content → List Content → Cycle → Bool
is_unblocked max_attempts messages transcriptions images c =
    is_blocked c.status
    && not (any (λ m. is_of c.id m && is_stuck max_attempts transcriptions images m) messages)

-- ORDER BY cycle.updated_at, cycle.id
unfoldable pub updated_before : Cycle → Cycle → Bool
updated_before a b = ltb a.updated_at b.updated_at || a.updated_at == b.updated_at && leb a.id b.id

abbrev pub woken : Time → Cycle → Cycle
woken now c = record c {
  status = waiting_media;
  next_attempt_at = some now;
  enqueued_at = none;
  error_phase = none;
  error_message = none;
  updated_at = now;
}

module _ (locked : ℕ → Bool) (max_attempts limit : ℕ) (now : Time) (messages : List CycleMessage)
    (transcriptions images : List Content) where
  abbrev pub is_free : Cycle → Bool
  is_free c = is_unblocked max_attempts messages transcriptions images c && not (locked c.id)

  unfoldable pub wake_unblocked_media_cycles : List Cycle → List Cycle × List Cycle
  wake_unblocked_media_cycles rows =
      let candidates = take (max 1 limit) (order_by updated_before (select is_free rows)) in
      let picked = λ (r : Cycle). any (λ c. r.id == c.id) candidates in
      (map (woken now) (select picked rows), update picked (woken now) rows)
