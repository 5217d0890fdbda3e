-- ===== src/Media/Queries.antt =====
-- The queries of `durable_media_repository.py`, and the counters of the work that is left. The
-- repeated ids that the code removes before it asks ask for the same rows.
pub mod Partition
use cai_central_de_atendimen.Base.{
  ℕ, Bool, true, false, not, ◌&&◌, ◌||◌, Option, none, some, List, [], ◌∷◌, ◌++◌, ltb, map, ◌==◌,
  if◌then◌else◌,
}
use cai_central_de_atendimen.Base.Lists.{find, select, length, count_where}
use cai_central_de_atendimen.Base.Texts.{Text, strip, contains}
use cai_central_de_atendimen.Cycle.Row.{Time}
use cai_central_de_atendimen.Cycle.Lease.{elapsed}
use cai_central_de_atendimen.Cycle.Queries.{is_later}
use cai_central_de_atendimen.Media.Row.{
  Content, ContentStatus, has_id, is_pending, is_processing, is_completed, is_failed,
}

unfoldable pub get_content : Text → List Content → Option Content
get_content message_id = find (has_id message_id)

pub record ContentMetrics : Type 0 where
  pub due : ℕ
  pub scheduled : ℕ
  pub leased : ℕ
  pub stale : ℕ
  pub completed_count : ℕ
  pub failed_count : ℕ

unfoldable pub content_work_metrics : Time → List Content → ContentMetrics
content_work_metrics now rows = record {
  due = count_where (λ c. is_pending c.status && elapsed c.next_attempt_at now) rows;
  scheduled = count_where (λ c. is_pending c.status && is_later c.next_attempt_at now) rows;
  leased = count_where (λ c. is_processing c.status && is_later c.lease_expires_at now) rows;
  stale = count_where (λ c. is_processing c.status && elapsed c.lease_expires_at now) rows;
  completed_count = count_where (λ c. is_completed c.status) rows;
  failed_count = count_where (λ c. is_failed c.status) rows;
}

-- the entry of the result for a row, if it has one
unfoldable pub completed_text : Content → List (Text × Text)
completed_text c = elim c.transcript [
  | none ↦ []
  | some t ↦ if length (strip t) == 0 then [] else (c.message_id, strip t) ∷ []
]

unfoldable pub completed_texts : List Content → List (Text × Text)
completed_texts [] = []
completed_texts (c ∷ rows) = completed_text c ++ completed_texts rows

unfoldable pub get_completed_content : List Text → List Content → List (Text × Text)
get_completed_content message_ids rows =
    completed_texts (select (λ c. is_completed c.status && contains message_ids c.message_id) rows)

abbrev pub pending_in : List Text → List Content → List Text
pending_in message_ids rows =
    map (λ (c : Content). c.message_id)
      (select
        (λ c. (is_pending c.status || is_processing c.status) && contains message_ids c.message_id)
        rows)

-- the set is the list of its members, from the transcriptions and then from the images
unfoldable pub get_pending_content_extractions :
    List Text → List Text → List Content → List Content → List Text
get_pending_content_extractions audio_ids image_ids transcriptions images =
    pending_in audio_ids transcriptions ++ pending_in image_ids images
