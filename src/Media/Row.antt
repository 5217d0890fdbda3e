-- ===== src/Media/Row.antt =====
-- The rows of `message_transcriptions` and of `message_image_extractions`, which have the same
-- columns. The primary key is `message_id`.
use cai_central_de_atendimen.Base.{ℕ, Bool, true, false, Option, [], ◌∷◌}
use cai_central_de_atendimen.Base.Lists.{find}
use cai_central_de_atendimen.Base.Texts.{Text, text, same}
use cai_central_de_atendimen.Cycle.Row.{Time}

pub data ContentStatus : Type 0 where
  pending processing completed failed : ContentStatus

abbrev pub content_text : ContentStatus → Text
content_text pending = text "pending"
content_text processing = text "processing"
content_text completed = text "completed"
content_text failed = text "failed"

unfoldable pub parse_content_status : Text → Option ContentStatus
parse_content_status t =
    find (λ s. same (content_text s) t) (pending ∷ processing ∷ completed ∷ failed ∷ [])

abbrev pub is_pending : ContentStatus → Bool
is_pending pending = true
is_pending _ = false

abbrev pub is_processing : ContentStatus → Bool
is_processing processing = true
is_processing _ = false

abbrev pub is_completed : ContentStatus → Bool
is_completed completed = true
is_completed _ = false

abbrev pub is_failed : ContentStatus → Bool
is_failed failed = true
is_failed _ = false

pub record Content : Type 0 where
  pub message_id : Text
  pub conversation_id : Option Text
  pub transcript : Option Text  -- the column `text`
  pub model : Text
  pub status : ContentStatus
  pub attempt_count : ℕ
  pub error_message : Option Text
  pub next_attempt_at : Option Time
  pub enqueued_at : Option Time
  pub lease_owner : Option Text
  pub lease_expires_at : Option Time
  pub created_at : Time
  pub updated_at : Time
  pub completed_at : Option Time

-- WHERE message_id = ...
abbrev pub has_id : Text → Content → Bool
has_id message_id c = same c.message_id message_id
