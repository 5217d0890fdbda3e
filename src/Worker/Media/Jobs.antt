-- ===== src/Worker/Media/Jobs.antt =====
-- After the jobs are reserved, no medium of a cycle is left without one.
use cai_central_de_atendimen.Base.{
  ℕ, ◌≡◌, Bool, true, not, ◌&&◌, Option, none, some, List, if◌then◌else◌,
}
use cai_central_de_atendimen.Base.Lists.{find}
use cai_central_de_atendimen.Base.Tables.{set_where}
use cai_central_de_atendimen.Base.Texts.{Text, contains}
use cai_central_de_atendimen.Cycle.Row.{Time}
use cai_central_de_atendimen.Media.Row.{Content, is_failed, has_id}
use cai_central_de_atendimen.Media.Ops.{renew}
use cai_central_de_atendimen.Finalization.Messages.{Message, is_audio}
use cai_central_de_atendimen.Finalization.MediaStates.{is_media}
use cai_central_de_atendimen.Worker.Media.{
  MediaTables, MediaKind, MediaSettings, needs_no_job, audio_kind, audio_ids, image_ids,
  get_content_states,
}

-- a row that is done, or that a worker still has to do, or whose attempts are used up
abbrev pub has_job : ℕ → Content → Bool
has_job max_retries c = needs_no_job max_retries (some (audio_kind, c))

abbrev pub HasJob : ℕ → Text → List Content → Type 0
HasJob n id rows = (c : Content) × (find (has_id id) rows ≡ some c) × (has_job n c ≡ true)

module _ (n : ℕ) (id : Text) (conversation : Option Text) (model : Text) (clock : Time) where
  abbrev renewed : Content → Content
  renewed = set_where (λ r. has_id id r && is_failed r.status) (renew conversation model none clock)

-- the rows of the table that a message's medium stands in
abbrev pub rows_for : Message → MediaTables → List Content
rows_for m t = if is_audio m.type then t.audio else t.images

module _ (s : MediaSettings) (conversation : Text)
    (states : Text → Option (MediaKind × Content)) where
  -- the message has a job, or its state says that it needs none
  abbrev IsCovered : MediaTables → Message → Type 0
  IsCovered t m =
      is_media m ≡ true
      → needs_no_job s.max_retries (states m.message_id) ≡ true
      → HasJob s.max_retries m.message_id (rows_for m t)

  abbrev IsServed : MediaTables → Message → Type 0
  IsServed t m = is_media m ≡ true → HasJob s.max_retries m.message_id (rows_for m t)

-- no id is both that of an audio and that of an image
abbrev pub is_unambiguous : List Message → Message → Bool
is_unambiguous ms m =
    not (contains (audio_ids ms) m.message_id && contains (image_ids ms) m.message_id)

module _ (s : MediaSettings) (conversation : Text) (t : MediaTables) (ms : List Message) where
  abbrev read : Text → Option (MediaKind × Content)
  read = get_content_states (audio_ids ms) (image_ids ms) t
