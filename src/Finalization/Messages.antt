-- ===== src/Finalization/Messages.antt =====
-- The messages of a history, as DigiSac sends them and as the snapshot keeps them.
use cai_central_de_atendimen.Base.{
  Bool, true, false, ◌&&◌, ◌||◌, Option, none, some, List, [], ◌∷◌, ◌==◌, coalesce, if◌then◌else◌,
}
use cai_central_de_atendimen.Base.Lists.{length}
use cai_central_de_atendimen.Base.Texts.{Text, text, same, strip, lower, starts_with, contains}
use cai_central_de_atendimen.Cycle.Row.{Time}

-- the entries of `file` that are texts
pub record RawFile : Type 0 where
  pub id : Option Text
  pub name : Option Text
  pub camel_public_filename : Option Text
  pub public_filename : Option Text
  pub extension : Option Text
  pub mimetype : Option Text

-- the dictionary that `safe_file_metadata` returns
pub record FileData : Type 0 where
  pub id : Option Text
  pub name : Option Text
  pub public_filename : Option Text
  pub extension : Option Text
  pub mimetype : Option Text

-- a text that is not blank, stripped
unfoldable pub stripped : Option Text → Option Text
stripped none = none
stripped (some t) = let s = strip t in if length s == 0 then none else some s

-- `raw` is `none` if it is no mapping
unfoldable pub safe_file_metadata : Option RawFile → FileData
safe_file_metadata none = record {
  id = none;
  name = none;
  public_filename = none;
  extension = none;
  mimetype = none;
}
safe_file_metadata (some f) = record {
  id = stripped f.id;
  name = stripped f.name;
  public_filename = coalesce (stripped f.camel_public_filename) (stripped f.public_filename);
  extension = stripped f.extension;
  mimetype = stripped f.mimetype;
}

-- a message of the history: what the code reads of the mapping, an entry of another type than the
-- code looks for being `none` or `false`
pub record RawMessage : Type 0 where
  pub id : Option Text
  pub type : Option Text
  pub ticket_open : Bool  -- `data` is a mapping and its `ticketOpen` is True
  pub hidden : Bool  -- `visible` is False
  pub deleted_at : Option Text
  pub is_from_bot : Option Bool
  pub origin : Option Text
  pub timestamp : Option Time  -- `parse_timestamp(timestamp or createdAt)`
  pub is_from_me : Bool
  pub user_id : Option Text
  pub contact_id : Option Text
  pub content : Option Text  -- the entry `text`
  pub file : Option RawFile
  pub quoted_message_id : Option Text

pub data Sender : Type 0 where
  agent client : Sender

-- a message of the snapshot; its name is filled in later from the directory
pub record Message : Type 0 where
  pub message_id : Text
  pub timestamp : Time
  pub sender_type : Sender
  pub sender_id : Option Text
  pub type : Text
  pub content : Text
  pub quoted_message_id : Option Text
  pub media_status : Option Text
  pub file : FileData

-- SUPPORTED_HISTORY_TYPES and AUDIO_TYPES
abbrev pub supported_history_types : List Text
supported_history_types =
    text "chat" ∷ text "document" ∷ text "ptt" ∷ text "audio" ∷ text "voice" ∷ text "image" ∷ []

abbrev pub audio_types : List Text
audio_types = text "ptt" ∷ text "audio" ∷ text "voice" ∷ []

unfoldable pub is_audio : Text → Bool
is_audio t = contains audio_types t

-- core/media.py; `lower` on ASCII letters is exact for this test, since no other character has a
-- letter of "image/" as its lower case
unfoldable pub is_image_mimetype : Option Text → Bool
is_image_mimetype none = false
is_image_mimetype (some m) = starts_with (text "image/") (lower (strip m))

unfoldable pub is_image_message : Text → FileData → Bool
is_image_message message_type file =
    same message_type (text "image")
    || same message_type (text "document") && is_image_mimetype file.mimetype

unfoldable pub effective_message_type : Text → FileData → Text
effective_message_type message_type file =
    if is_image_message message_type file then text "image" else message_type

-- core/message_filter.py
abbrev pub is_true : Option Bool → Bool
is_true (some true) = true
is_true _ = false

abbrev pub is_bot_origin : Option Text → Bool
is_bot_origin none = false
is_bot_origin (some o) = same (lower (strip o)) (text "bot")

unfoldable pub is_bot_message : Option Bool → Option Text → Bool
is_bot_message is_from_bot origin = is_true is_from_bot || is_bot_origin origin
