-- ===== src/Finalization/MediaStates.antt =====
-- core/finalization.py: `apply_media_states`, which puts the transcriptions and the extracted
-- texts of the images into the messages. `states` maps a message id to its row.
pub mod Ready
use cai_central_de_atendimen.Base.{
  ℕ, Bool, true, false, not, ◌&&◌, ◌||◌, Option, none, some, List, [], ◌∷◌, ◌==◌, leb, ltb, get_or,
  if◌then◌else◌,
}
use cai_central_de_atendimen.Base.Lists.{length}
use cai_central_de_atendimen.Base.Texts.{Text, text, strip}
use cai_central_de_atendimen.Media.Row.{
  ContentStatus, pending, processing, completed, failed, content_text,
}
use cai_central_de_atendimen.Finalization.Messages.{Message, is_audio, is_image_message}

-- the entries of a state that the code reads
pub record MediaState : Type 0 where
  pub status : ContentStatus
  pub attempt_count : ℕ
  pub transcript : Option Text  -- `text`

-- what one message adds to the result
pub data Outcome : Type 0 where
  settled is_awaited is_blocking : Outcome

abbrev pub is_media : Message → Bool
is_media m = is_audio m.type || is_image_message m.type m.file

-- `normalized_text` is the stripped text of the row
unfoldable pub apply_status : ℕ → Message → ℕ → Text → ContentStatus → Message × Outcome
apply_status max_attempts m attempts normalized_text completed = (
  record m { media_status = some (content_text completed); content = normalized_text },
  if length normalized_text == 0 then is_awaited else settled,
)
apply_status max_attempts m attempts normalized_text pending =
    (record m { media_status = some (content_text pending) }, is_awaited)
apply_status max_attempts m attempts normalized_text processing =
    (record m { media_status = some (content_text processing) }, is_awaited)
apply_status max_attempts m attempts normalized_text failed = (
  record m { media_status = some (content_text failed) },
  if ltb attempts max_attempts then is_awaited else is_blocking,
)

unfoldable pub apply_state : ℕ → Message → Option MediaState → Message × Outcome
apply_state max_attempts m none = (record m { media_status = some (text "missing") }, is_awaited)
apply_state max_attempts m (some state) =
    apply_status max_attempts m state.attempt_count (strip (get_or state.transcript []))
      state.status

-- one round of the loop
unfoldable pub apply_one : (Text → Option MediaState) → ℕ → Message → Message × Outcome
apply_one states max_attempts m =
    if is_media m then apply_state max_attempts m (states m.message_id) else (m, settled)

-- the result; `warnings` is always empty
pub record Applied : Type 0 where
  pub output : List Message
  pub pending_ids : List Text
  pub blocked_ids : List Text

abbrev pub add_if_awaited : Outcome → Text → List Text → List Text
add_if_awaited is_awaited id ids = id ∷ ids
add_if_awaited _ id ids = ids

abbrev pub add_if_blocking : Outcome → Text → List Text → List Text
add_if_blocking is_blocking id ids = id ∷ ids
add_if_blocking _ id ids = ids

unfoldable pub apply_media_states : List Message → (Text → Option MediaState) → ℕ → Applied
apply_media_states [] states max_attempts = record {
  output = [];
  pending_ids = [];
  blocked_ids = [];
}
apply_media_states (m ∷ ms) states max_attempts =
    let rest = apply_media_states ms states max_attempts in
    let (marked, outcome) = apply_one states max_attempts m in
    record {
      output = marked ∷ rest.output;
      pending_ids = add_if_awaited outcome m.message_id rest.pending_ids;
      blocked_ids = add_if_blocking outcome m.message_id rest.blocked_ids;
    }
