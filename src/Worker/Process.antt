-- ===== src/Worker/Process.antt =====
-- `IAWorker._process_cycle` from the snapshot on (src/workers/ia_worker.py): the media, the context
-- for the model, and the classification. `serialise` gives the text of a snapshot's column; the
-- renderings of the context, the model and the table of classifications are arguments. What other
-- workers do between the statements is not part of a run. Log lines are left out.
pub mod Waiting
use cai_central_de_atendimen.Base.{
  ℕ, suc, ◌+◌, Bool, true, false, not, Option, none, some, List, [], ◌∷◌, ◌++◌, ◌==◌, ltb, map,
  is_none, get_or, if◌then◌else◌,
}
use cai_central_de_atendimen.Base.Errors.{Error, Result, ok, err, ◌>>=◌, runtime_error}
use cai_central_de_atendimen.Base.Lists.{length}
use cai_central_de_atendimen.Base.Tables.{order_by}
use cai_central_de_atendimen.Base.Texts.{Text, text, unique}
use cai_central_de_atendimen.Cycle.Row.{
  Cycle, Time, Status, waiting_media, building_context, summarizing, classifying, retryable_failure,
  completed, completed_with_warnings, media_blocked,
}
use cai_central_de_atendimen.Cycle.Transition.{
  status_text, Field, snapshot_json, next_attempt_at, enqueued_at, lease_owner, lease_expires_at,
  error_phase, error_message, rendered_context, model_context, context_reduction_applied,
  context_reduction_json, warning_count, classification_id, processing_time_ms, completed_at, Moved,
  transition_cycle,
}
use cai_central_de_atendimen.Media.Row.{Content, content_text}
use cai_central_de_atendimen.Finalization.Messages.{Message}
use cai_central_de_atendimen.Finalization.History.{text_le}
use cai_central_de_atendimen.Finalization.MediaStates.{Applied, apply_media_states}
use cai_central_de_atendimen.Finalization.Chunks.{estimate_tokens, chunk_messages}
use cai_central_de_atendimen.Worker.Media.{
  MediaTables, MediaKind, audio_kind, image_kind, MediaSettings, audio_ids, image_ids,
  get_content_states, media_state, ensure_media_jobs, next_media_check_at,
}

-- the entry `media_wait`: of each medium its id, status and attempts
pub record MediaWait : Type 0 where
  pub is_blocked : Bool
  pub fingerprint : List (Text × Text × ℕ)
  pub next_check_at : Option Time
  pub updated_at : Time

-- the entries of `snapshot_json` that the worker reads or sets; `details` holds the others
pub record Snapshot : Type 0 where
  pub details : Text
  pub messages : List Message
  pub warnings : List Text
  pub media_wait : Option MediaWait

abbrev pub States : Type 0
States = Text → Option (MediaKind × Content)

-- sorted(set(ids))
unfoldable pub sorted_ids : List Text → List Text
sorted_ids ids = order_by text_le (unique ids)

abbrev pub fingerprint_of : States → Text → Text × Text × ℕ
fingerprint_of states id = elim (states id) [
  | none ↦ (id, text "missing", 0)
  | some (k, c) ↦ (id, content_text c.status, c.attempt_count)
]

-- `_media_wait_fingerprint`
unfoldable pub media_wait_fingerprint : List Text → States → List (Text × Text × ℕ)
media_wait_fingerprint ids states = map (fingerprint_of states) (sorted_ids ids)

abbrev pub kind_text : Option (MediaKind × Content) → Text
kind_text none = text "media"
kind_text (some (audio_kind, c)) = text "audio"
kind_text (some (image_kind, c)) = text "image"

-- str.join
unfoldable pub join : Text → List Text → Text
join separator [] = []
join separator (t ∷ []) = t
join separator (t ∷ (u ∷ ts)) = t ++ (separator ++ join separator (u ∷ ts))

unfoldable pub blocked_message : List Text → States → Text
blocked_message ids states =
    text "media extraction requires intervention: "
    ++ join (text ",") (map (λ id. kind_text (states id) ++ (text ":" ++ id)) (sorted_ids ids))

-- the statuses from which a cycle waits for media
abbrev pub may_wait : List Status
may_wait = building_context ∷ waiting_media ∷ retryable_failure ∷ []

abbrev pub blocked_fields : Text → Text → List Field
blocked_fields snapshot message =
    snapshot_json (some snapshot)
    ∷ next_attempt_at none
    ∷ enqueued_at none
    ∷ lease_owner none
    ∷ lease_expires_at none
    ∷ error_phase (some (text "media"))
    ∷ error_message (some message)
    ∷ []

abbrev pub waiting_fields : Text → Time → List Field
waiting_fields snapshot not_before =
    snapshot_json (some snapshot)
    ∷ next_attempt_at (some not_before)
    ∷ enqueued_at none
    ∷ lease_owner none
    ∷ lease_expires_at none
    ∷ []

abbrev pub is_empty : List Text → Bool
is_empty [] = true
is_empty (t ∷ ts) = false

-- the run ends with the cycle waiting or blocked, or it goes on with the hydrated messages
pub data MediaPass : Type 0 where
  stopped : Moved → MediaPass
  hydrated : List Message → MediaPass

-- the tables after the jobs are reserved, and the states as they are read again then
unfoldable pub states_after :
    MediaSettings → (ℕ → Time) → Cycle → List Message → MediaTables → MediaTables × States
states_after s clocks c ms t =
    let first = get_content_states (audio_ids ms) (image_ids ms) t in
    let t' = ensure_media_jobs s c.conversation_id clocks first ms t in
    (t', get_content_states (audio_ids ms) (image_ids ms) t')

module _ (s : MediaSettings) (serialise : Snapshot → Text) where
  unfoldable pub block_cycle :
      Cycle → Snapshot → Applied → States → Time → Time → List Cycle → Moved
  block_cycle c snapshot applied states clock now rows =
      let wait : MediaWait = record {
        is_blocked = true;
        fingerprint = media_wait_fingerprint applied.blocked_ids states;
        next_check_at = none;
        updated_at = clock;
      } in
      transition_cycle c.public_id (status_text media_blocked) may_wait
        (blocked_fields (serialise (record snapshot { media_wait = some wait }))
          (blocked_message applied.blocked_ids states))
        now rows

  unfoldable pub wait_for_media :
      Cycle → Snapshot → Applied → States → Time → Time → List Cycle → Moved
  wait_for_media c snapshot applied states clock now rows =
      let not_before = next_media_check_at s.recheck_seconds clock states applied.pending_ids in
      let wait : MediaWait = record {
        is_blocked = false;
        fingerprint = media_wait_fingerprint applied.pending_ids states;
        next_check_at = some not_before;
        updated_at = clock;
      } in
      transition_cycle c.public_id (status_text waiting_media) may_wait
        (waiting_fields (serialise (record snapshot { media_wait = some wait })) not_before) now
        rows

  unfoldable pub settle_media :
      Cycle → Snapshot → Applied → States → Time → Time → List Cycle → MediaPass
  settle_media c snapshot applied states clock now rows =
      if not (is_empty applied.blocked_ids)
      then stopped (block_cycle c snapshot applied states clock now rows)
      else if not (is_empty applied.pending_ids)
      then stopped (wait_for_media c snapshot applied states clock now rows)
      else hydrated applied.output

  unfoldable pub pass_media :
      (ℕ → Time)
      → Cycle
      → Snapshot
      → MediaTables
      → Time
      → Time
      → List Cycle
      → MediaTables × MediaPass
  pass_media clocks c snapshot t clock now rows =
      let (t', states) = states_after s clocks c snapshot.messages t in
      let applied =
        apply_media_states snapshot.messages (λ id. media_state (states id)) s.max_retries in
      (t', settle_media c snapshot applied states clock now rows)
