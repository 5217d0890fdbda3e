-- ===== src/Worker/Classify.antt =====
-- The last part of `IAWorker._process_cycle` (src/workers/ia_worker.py): the context for the model,
-- its reduction, the classification and the end of the cycle. The renderings, the calls of the model
-- and the table of classifications are arguments; the request that follows the end is the matter of
-- Requests, and does not change the cycle.
pub mod Limits
use cai_central_de_atendimen.Base.{
  ℕ, suc, ◌+◌, Bool, true, false, not, Option, none, some, List, [], ◌∷◌, ◌++◌, ◌==◌, ltb, map,
  get_or, if◌then◌else◌,
}
use cai_central_de_atendimen.Base.Errors.{Error, Result, ok, err, ◌>>=◌, runtime_error}
use cai_central_de_atendimen.Base.Lists.{length, head?}
use cai_central_de_atendimen.Base.Texts.{Text, text, strip}
use cai_central_de_atendimen.Cycle.Row.{
  Cycle, Time, Status, summarizing, classifying, completed, completed_with_warnings,
}
use cai_central_de_atendimen.Cycle.Transition.{
  status_text, Field, snapshot_json, next_attempt_at, lease_owner, lease_expires_at,
  rendered_context, model_context, context_reduction_applied, context_reduction_json, warning_count,
  classification_id, processing_time_ms, completed_at, Moved, transition_cycle,
}
use cai_central_de_atendimen.Finalization.Messages.{Message}
use cai_central_de_atendimen.Finalization.Chunks.{estimate_tokens, chunk_messages}
use cai_central_de_atendimen.Worker.Process.{Snapshot, join}

-- one entry of `reductions`
pub record Reduction : Type 0 where
  pub chunk : ℕ
  pub message_ids : List Text
  pub summary : Text

-- what the code reads of a summary's response
pub record Completion : Type 0 where
  pub is_cut : Bool  -- the finish reason is "length"
  pub content : Option Text

-- what the run calls, with its settings
pub record Services : Type 0 where
  pub serialise : Snapshot → Text
  pub serialise_reductions : List Reduction → Text
  pub str : ℕ → Text
  pub render : Bool → List Message → Text  -- with the administrative names or without
  pub heading : Message → Text  -- the timestamp and the sender of a message
  pub complete : Text → Result Completion  -- the call of the model for a summary
  pub analyze : Text → ℕ → Result Text
  pub empty_analysis : Text
  pub insert : Text → List Text → Text → Result ℕ  -- the id of the classification
  pub safe_tokens : ℕ
  pub chunk_tokens : ℕ
  pub processing_ms : ℕ

abbrev pub message_ids_of : List Message → List Text
message_ids_of = map (λ m. m.message_id)

-- ids[-1]; a chunk has a message
abbrev pub last_id : List Text → Text
last_id [] = []
last_id (t ∷ []) = t
last_id (t ∷ (u ∷ ts)) = last_id (u ∷ ts)

abbrev pub newline : Text
newline = 10 ∷ []

-- the text that `_summarize_messages` sends
unfoldable pub summary_content : Services → List Message → Text
summary_content s chunk =
    join (newline ++ newline) (map (λ m. s.heading m ++ (text ": " ++ m.content)) chunk)

unfoldable pub read_summary : Completion → Result Text
read_summary r = if r.is_cut then err runtime_error else elim r.content [
  | none ↦ err runtime_error
  | some t ↦ if length (strip t) == 0 then err runtime_error else ok (strip t)
]

-- `_summarize_messages`; the call raises where the provider's window is closed, and sends nothing
unfoldable pub summarize_messages : Services → List Message → Result Text
summarize_messages s chunk = s.complete (summary_content s chunk) >>= read_summary

-- the reductions, and the texts of the calls that were made for them
abbrev pub Summarized : Type 0
Summarized = Result (List Reduction) × List Text

abbrev pub after_summary : ℕ → List Message → Text → Result Text → Summarized → Summarized
after_summary index chunk content (err e) rest = (err e, content ∷ [])
after_summary index chunk content (ok summary) (rs, texts) = (
  rs >>= λ rs.
      ok (record { chunk = index; message_ids = message_ids_of chunk; summary = summary } ∷ rs),
  content ∷ texts,
)

-- the loop over the chunks, from number `index` on
unfoldable pub summarize_chunks : Services → ℕ → List (List Message) → Summarized
summarize_chunks s index [] = (ok [], [])
summarize_chunks s index (chunk ∷ chunks) =
    let rest = summarize_chunks s (suc index) chunks in
    after_summary index chunk (summary_content s chunk) (summarize_messages s chunk) rest

unfoldable pub block_text : Services → Reduction → Text
block_text s r =
    text "BLOCO "
    ++ (s.str r.chunk
        ++ (text " ("
            ++ (get_or (head? r.message_ids) []
                ++ (text ".."
                    ++ (last_id r.message_ids ++ (text "):" ++ (newline ++ r.summary)))))))

-- `protocol or "NÃO INFORMADO"`
abbrev pub protocol_text : Option Text → Text
protocol_text none = text "NÃO INFORMADO"
protocol_text (some p) = if length p == 0 then text "NÃO INFORMADO" else p

unfoldable pub reduced_context : Services → Cycle → List Reduction → Text
reduced_context s c rs =
    text "PROTOCOLO: "
    ++ (protocol_text c.protocol
        ++ (newline
            ++ (text "TICKET_ID: "
                ++ (c.conversation_id
                    ++ (newline
                        ++ (newline ++ join (newline ++ newline) (map (block_text s) rs)))))))

abbrev pub checked_context :
    Services → Cycle → Result (List Reduction) → Result (Text × List Reduction)
checked_context s c (err e) = err e
checked_context s c (ok rs) =
    if ltb s.safe_tokens (estimate_tokens (reduced_context s c rs))
    then err runtime_error
    else ok (reduced_context s c rs, rs)

-- the context and the reductions, with the texts of the calls; it raises if the reduced context is
-- still too long
unfoldable pub reduce_context :
    Services → Cycle → List Message → Result (Text × List Reduction) × List Text
reduce_context s c ms =
    let r = summarize_chunks s 1 (chunk_messages ms s.chunk_tokens) in
    (checked_context s c r.0, r.1)

-- the result, the table, and the context that was sent to the model
pub record Processed : Type 0 where
  pub result : Result (Option Cycle)
  pub rows : List Cycle
  pub analyzed : Option Text

abbrev pub raised : Error → List Cycle → Option Text → Processed
raised e rows analyzed = record { result = err e; rows = rows; analyzed = analyzed }

abbrev pub ended : Option Text → Moved → Processed
ended analyzed m = record { result = m.0; rows = m.1; analyzed = analyzed }

abbrev pub final_status : List Text → Status
final_status [] = completed
final_status (w ∷ ws) = completed_with_warnings

abbrev pub final_fields : Services → ℕ → Snapshot → Time → List Field
final_fields s id snapshot clock =
    classification_id (some id)
    ∷ snapshot_json (some (s.serialise snapshot))
    ∷ warning_count (length snapshot.warnings)
    ∷ processing_time_ms (some s.processing_ms)
    ∷ completed_at (some clock)
    ∷ next_attempt_at none
    ∷ lease_owner none
    ∷ lease_expires_at none
    ∷ []

-- the end of the cycle, after the insertion of the classification
abbrev pub after_insert :
    Services → Cycle → Snapshot → Option Text → Time → Time → List Cycle → Result ℕ → Processed
after_insert s c snapshot analyzed clock now rows (err e) = raised e rows analyzed
after_insert s c snapshot analyzed clock now rows (ok id) = ended analyzed (
    transition_cycle c.public_id (status_text (final_status snapshot.warnings)) (classifying ∷ [])
      (final_fields s id snapshot clock) now rows)

unfoldable pub complete_cycle :
    Services → Cycle → Snapshot → Text → Text → Option Text → Time → Time → List Cycle → Processed
complete_cycle s c snapshot context result analyzed clock now rows =
    after_insert s c snapshot analyzed clock now rows
      (s.insert result (message_ids_of snapshot.messages) context)

abbrev pub after_analysis :
    Services → Cycle → Snapshot → Text → Time → Time → List Cycle → Result Text → Processed
after_analysis s c snapshot context clock now rows (err e) = raised e rows (some context)
after_analysis s c snapshot context clock now rows (ok result) =
    complete_cycle s c snapshot context result (some context) clock now rows

-- the call of the model, which a cycle with no messages does without
unfoldable pub analyze_cycle :
    Services → Cycle → Snapshot → Text → Time → Time → List Cycle → Processed
analyze_cycle s c snapshot context clock now rows =
    if length snapshot.messages == 0
    then complete_cycle s c
        (record snapshot { warnings = snapshot.warnings ++ text "no_classifiable_messages" ∷ [] })
        context s.empty_analysis none clock now rows
    else after_analysis s c snapshot context clock now rows
        (s.analyze context (length snapshot.messages))

abbrev pub context_fields : Services → Snapshot → Text → Text → Bool → List Reduction → List Field
context_fields s snapshot rendered context reduced rs =
    snapshot_json (some (s.serialise snapshot))
    ∷ rendered_context (some rendered)
    ∷ model_context (some context)
    ∷ context_reduction_applied reduced
    ∷ context_reduction_json (s.serialise_reductions rs)
    ∷ warning_count (length snapshot.warnings)
    ∷ []

abbrev pub after_classifying : Services → Cycle → Snapshot → Text → Time → Time → Moved → Processed
after_classifying s c snapshot context clock now (err e, rows) = raised e rows none
after_classifying s c snapshot context clock now (ok row, rows) =
    analyze_cycle s c snapshot context clock now rows

unfoldable pub classify_cycle :
    Services
    → Cycle
    → Snapshot
    → Text
    → Bool
    → List Reduction
    → Time
    → Time
    → List Cycle
    → Processed
classify_cycle s c snapshot context reduced rs clock now rows =
    after_classifying s c snapshot context clock now (
      transition_cycle c.public_id (status_text classifying) []
        (context_fields s snapshot (s.render true snapshot.messages) context reduced rs) now rows)

-- a run, and the texts that it sent to the model to be summarized
abbrev pub Finished : Type 0
Finished = Processed × List Text

abbrev pub after_reduction :
    Services
    → Cycle
    → Snapshot
    → Time
    → Time
    → List Cycle
    → Result (Text × List Reduction)
    → Processed
after_reduction s c snapshot clock now rows (err e) = raised e rows none
after_reduction s c snapshot clock now rows (ok (context, rs)) =
    classify_cycle s c snapshot context true rs clock now rows

abbrev pub after_summarizing : Services → Cycle → Snapshot → Time → Time → Moved → Finished
after_summarizing s c snapshot clock now (err e, rows) = (raised e rows none, [])
after_summarizing s c snapshot clock now (ok row, rows) =
    let r = reduce_context s c snapshot.messages in
    (after_reduction s c snapshot clock now rows r.0, r.1)

-- the snapshot has its hydrated messages, and its `media_wait` removed
unfoldable pub finish_cycle : Services → Cycle → Snapshot → Time → Time → List Cycle → Finished
finish_cycle s c snapshot clock now rows =
    let context = s.render false snapshot.messages in
    if ltb s.safe_tokens (estimate_tokens context)
    then after_summarizing s c snapshot clock now (
        transition_cycle c.public_id (status_text summarizing) []
          (snapshot_json (some (s.serialise snapshot)) ∷ []) now rows)
    else (classify_cycle s c snapshot context false [] clock now rows, [])
