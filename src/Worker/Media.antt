-- ===== src/Worker/Media.antt =====
-- The media of a cycle in `IAWorker._process_cycle`: the jobs that are reserved for them, and the
-- cycle that waits for them or is blocked by them. Log lines are left out.
pub mod Jobs
pub mod Rechecks
use cai_central_de_atendimen.Base.{
  ℕ, suc, ◌+◌, Bool, true, false, not, ◌&&◌, ◌||◌, Option, none, some, List, [], ◌∷◌, ◌++◌, ◌==◌,
  ltb, leb, min, map, coalesce, if◌then◌else◌,
}
use cai_central_de_atendimen.Base.Lists.{find, length, select}
use cai_central_de_atendimen.Base.Tables.{order_by}
use cai_central_de_atendimen.Base.Texts.{Text, text, same, contains}
use cai_central_de_atendimen.Cycle.Row.{Cycle, Time}
use cai_central_de_atendimen.Cycle.Lease.{seconds}
use cai_central_de_atendimen.Media.Row.{
  Content, ContentStatus, pending, processing, completed, failed, has_id,
}
use cai_central_de_atendimen.Media.Ops.{reserve_content}
use cai_central_de_atendimen.Finalization.Messages.{Message, is_audio, is_image_message}
use cai_central_de_atendimen.Finalization.MediaStates.{MediaState, is_media}

-- `message_transcriptions` and `message_image_extractions`
pub record MediaTables : Type 0 where
  pub audio : List Content
  pub images : List Content

pub data MediaKind : Type 0 where
  audio_kind image_kind : MediaKind

abbrev pub ids_where : (Message → Bool) → List Message → List Text
ids_where p ms = map (λ m. m.message_id) (select p ms)

abbrev pub audio_ids : List Message → List Text
audio_ids = ids_where (λ m. is_audio m.type)

abbrev pub image_ids : List Message → List Text
image_ids = ids_where (λ m. is_image_message m.type m.file)

abbrev pub with_kind : MediaKind → Option Content → Option (MediaKind × Content)
with_kind k none = none
with_kind k (some c) = some (k, c)

-- `_get_content_states_sync`: the rows of the images are read last, and replace those of the audios
unfoldable pub get_content_states :
    List Text → List Text → MediaTables → Text → Option (MediaKind × Content)
get_content_states audios images t id =
    let audio =
      if contains audios id then with_kind audio_kind (find (has_id id) t.audio) else none in
    if contains images id
    then coalesce (with_kind image_kind (find (has_id id) t.images)) audio
    else audio

-- what `apply_media_states` reads of a state
abbrev pub media_state : Option (MediaKind × Content) → Option MediaState
media_state none = none
media_state (some (k, c)) =
    some (record { status = c.status; attempt_count = c.attempt_count; transcript = c.transcript })

-- a state for which no job is reserved
abbrev pub needs_no_job : ℕ → Option (MediaKind × Content) → Bool
needs_no_job max_retries none = false
needs_no_job max_retries (some (k, c)) = elim c.status [
  | completed ↦ true
  | pending ↦ true
  | processing ↦ true
  | failed ↦ leb max_retries c.attempt_count
]

pub record MediaSettings : Type 0 where
  pub audio_model : Text
  pub image_model : Text
  pub max_retries : ℕ
  pub recheck_seconds : ℕ

-- `reserve_transcription` and `reserve_image_extraction`, by the type of the message
unfoldable pub reserve_job : MediaSettings → Text → Time → Message → MediaTables → MediaTables
reserve_job s conversation clock m t =
    if is_audio m.type
    then record t {
      audio =
          (reserve_content m.message_id (some conversation) s.audio_model false clock t.audio).1;
    }
    else record t {
      images =
          (reserve_content m.message_id (some conversation) s.image_model false clock t.images).1;
    }

-- one round of the loop of `_ensure_media_jobs`
unfoldable pub ensure_job :
    MediaSettings
    → Text
    → Time
    → (Text → Option (MediaKind × Content))
    → Message
    → MediaTables
    → MediaTables
ensure_job s conversation clock states m t =
    if not (is_media m)
    then t
    else if needs_no_job s.max_retries (states m.message_id)
    then t
    else reserve_job s conversation clock m t

-- `_ensure_media_jobs`; `clock` gives the time of each round
unfoldable pub ensure_media_jobs :
    MediaSettings
    → Text
    → (ℕ → Time)
    → (Text → Option (MediaKind × Content))
    → List Message
    → MediaTables
    → MediaTables
ensure_media_jobs s conversation clock states [] t = t
ensure_media_jobs s conversation clock states (m ∷ ms) t =
    ensure_media_jobs s conversation (λ n. clock (suc n)) states ms
      (ensure_job s conversation (clock 0) states m t)

-- the time at which the row of a pending medium is to be tried
abbrev pub scheduled_at : Option (MediaKind × Content) → Option Time
scheduled_at none = none
scheduled_at (some (k, c)) = c.next_attempt_at

-- the loop of `_next_media_check_at`: the least scheduled time that is after `now`, and whether a
-- medium has none
pub record Checks : Type 0 where
  pub soonest : Option Time
  pub needs_fallback : Bool

abbrev pub sooner : Option Time → Time → Option Time
sooner none t = some t
sooner (some s) t = some (min s t)

abbrev pub add_check : Time → Option Time → Checks → Checks
add_check now none c = record c { needs_fallback = true }
add_check now (some t) c =
    if leb t now
    then record c { needs_fallback = true }
    else record c { soonest = sooner c.soonest t }

unfoldable pub gather_checks : Time → (Text → Option (MediaKind × Content)) → List Text → Checks
gather_checks now states [] = record { soonest = none; needs_fallback = false }
gather_checks now states (id ∷ ids) =
    add_check now (scheduled_at (states id)) (gather_checks now states ids)

-- the least of the candidates, with the fallback if a medium needs it or there is no candidate
abbrev pub least_check : ℕ → Time → Checks → Time
least_check recheck_seconds now c =
    let fallback = now + seconds recheck_seconds in
    elim c.soonest [ none ↦ fallback | some t ↦ if c.needs_fallback then min t fallback else t ]

-- `_next_media_check_at`
unfoldable pub next_media_check_at :
    ℕ → Time → (Text → Option (MediaKind × Content)) → List Text → Time
next_media_check_at recheck_seconds now states ids =
    least_check recheck_seconds now (gather_checks now states ids)
