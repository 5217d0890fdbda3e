-- ===== src/Examples/Snapshot.antt =====
-- A concrete history of a ticket, its snapshot and its chunks.
use cai_central_de_atendimen.Base.{ℕ, ◌≡◌, refl, true, false, Option, none, some, List, [], ◌∷◌}
use cai_central_de_atendimen.Base.Lists.{All}
use cai_central_de_atendimen.Base.Texts.{Text, text, same, strip, lstrip, is_space, contains}
use cai_central_de_atendimen.Media.Row.{completed}
use cai_central_de_atendimen.Finalization.Messages.{
  RawMessage, Message, FileData, client, is_audio, is_image_message, is_image_mimetype,
}
use cai_central_de_atendimen.Finalization.Chunks.{chunk_messages}
use cai_central_de_atendimen.Finalization.Chunks.Limits.{
  concat, Fits, concat-chunk_messages, chunk_messages-Fits,
}
use cai_central_de_atendimen.Finalization.MediaStates.{
  MediaState, apply_media_states, apply_one, apply_state, apply_status,
}
use cai_central_de_atendimen.Finalization.MediaStates.Ready.{AllReady, apply_media_states-AllReady}

abbrev chat : Text → ℕ → RawMessage
chat id time = record {
  id = some id;
  type = some (text "chat");
  ticket_open = false;
  hidden = false;
  deleted_at = none;
  is_from_bot = none;
  origin = none;
  timestamp = some time;
  is_from_me = false;
  user_id = none;
  contact_id = some (text "c9");
  content = some (text "oi");
  file = none;
  quoted_message_id = none;
}

abbrev history : List RawMessage
history =
    chat (text "b") 40 ∷ chat (text "a") 40 ∷ record (chat (text "c") 30) { hidden = true } ∷ []

abbrev no_file : FileData
no_file = record {
  id = none;
  name = none;
  public_filename = none;
  extension = none;
  mimetype = none;
}

abbrev message : Text → Text → Message
message id kind = record {
  message_id = id;
  timestamp = 40;
  sender_type = client;
  sender_id = none;
  type = kind;
  content = text "oi";
  quoted_message_id = none;
  media_status = none;
  file = no_file;
}

abbrev snapshot : List Message
snapshot = message (text "a") (text "chat") ∷ message (text "b") (text "ptt") ∷ []

concat-chunk_messages_example : concat (chunk_messages snapshot 60) ≡ snapshot
concat-chunk_messages_example = concat-chunk_messages snapshot 60

chunk_messages-Fits_example : All (Fits 60) (chunk_messages snapshot 60)
chunk_messages-Fits_example = chunk_messages-Fits snapshot 60

abbrev transcribed : Text → Option MediaState
transcribed id =
    some (record { status = completed; attempt_count = 1; transcript = some (text " bom dia ") })

none_awaited : (apply_media_states snapshot transcribed 3).pending_ids ≡ []
unfolding apply_media_states apply_one apply_state apply_status is_audio is_image_message
    is_image_mimetype contains same strip lstrip is_space
none_awaited = refl

none_blocking : (apply_media_states snapshot transcribed 3).blocked_ids ≡ []
unfolding apply_media_states apply_one apply_state apply_status is_audio is_image_message
    is_image_mimetype contains same strip lstrip is_space
none_blocking = refl

apply_media_states-AllReady_example :
    AllReady transcribed 3 snapshot (apply_media_states snapshot transcribed 3).output
apply_media_states-AllReady_example =
    apply_media_states-AllReady snapshot transcribed 3 none_awaited none_blocking
