-- ===== src/Worker/Classify/Limits.antt =====
-- What a run sends to the model, and how it ends the cycle.
use cai_central_de_atendimen.Base.{
  ℕ, suc, ◌≤◌, ◌≡◌, ◌⊎◌, refl, sym, subst, Bool, true, false, Option, none, some, List, [], ◌∷◌,
  ◌==◌, ltb, arith, inl, inr, Bool-cases,
}
use cai_central_de_atendimen.Base.Errors.{Result, ok, err}
use cai_central_de_atendimen.Base.Lists.{length, All}
use cai_central_de_atendimen.Base.Texts.{Text}
use cai_central_de_atendimen.Cycle.Row.{Cycle, Time, completed, completed_with_warnings}
use cai_central_de_atendimen.Cycle.Transition.{moved, assign, assign_all, Moved}
use cai_central_de_atendimen.Cycle.Transition.Guards.{transition_cycle-returned}
use cai_central_de_atendimen.Finalization.Chunks.{estimate_tokens}
use cai_central_de_atendimen.Finalization.Messages.{Message}
use cai_central_de_atendimen.Finalization.Chunks.Limits.{Fits, chunk_messages-Fits}
use cai_central_de_atendimen.Worker.Process.{Snapshot}
use cai_central_de_atendimen.Worker.Classify.{
  Services, Reduction, Processed, Finished, Summarized, summary_content, summarize_messages,
  summarize_chunks, after_summary, after_insert, after_analysis, after_classifying, after_reduction,
  after_summarizing, checked_context, reduced_context, final_status, final_fields, complete_cycle,
  analyze_cycle, classify_cycle, reduce_context, finish_cycle,
}

-- the end of a cycle: completed without warnings, or with them, and under no lease
pub record IsEnded (clock : Time) (row : Cycle) : Type 0 where
  pub status :
      ((row.status ≡ completed) × (row.warning_count ≡ 0))
      ⊎ ((row.status ≡ completed_with_warnings) × (1 ≤ row.warning_count))
  pub completed_at : row.completed_at ≡ some clock
  pub due : row.next_attempt_at ≡ none
  pub no_owner : row.lease_owner ≡ none
  pub no_lease : row.lease_expires_at ≡ none

module _ (s : Services) (c : Cycle) (clock now : Time) where
  -- the context to classify keeps to the limit, and a row that is returned is ended
  abbrev pub IsSafeEnd : Processed → Type 0
  IsSafeEnd r =
      ((t : Text) → r.analyzed ≡ some t → estimate_tokens t ≤ s.safe_tokens)
      × ((row : Cycle) → r.result ≡ ok (some row) → IsEnded clock row)

  final_fields-IsEnded :
      (id : ℕ) (snapshot : Snapshot) (x : Cycle)
      → IsEnded clock
          (moved (final_status snapshot.warnings) (final_fields s id snapshot clock) now x)
  unfolding assign_all assign
  final_fields-IsEnded id snapshot x = record {
    status = ended_status snapshot.warnings;
    completed_at = refl;
    due = refl;
    no_owner = refl;
    no_lease = refl;
  }
    where
      ended_status :
          (ws : List Text)
          → ((final_status ws ≡ completed) × (length ws ≡ 0))
            ⊎ ((final_status ws ≡ completed_with_warnings) × (1 ≤ length ws))
      ended_status [] = inl (refl, refl)
      ended_status (w ∷ ws) = inr (refl, omega arith)

  after_insert-IsSafeEnd :
      (snapshot : Snapshot) (analyzed : Option Text) (rows : List Cycle) (id : Result ℕ)
      → ((t : Text) → analyzed ≡ some t → estimate_tokens t ≤ s.safe_tokens)
      → IsSafeEnd (after_insert s c snapshot analyzed clock now rows id)
  after_insert-IsSafeEnd snapshot analyzed rows (err e) h = (h, λ row q. cc)
  after_insert-IsSafeEnd snapshot analyzed rows (ok id) h = (
    h,
    λ row q.
        let (x, eq) = transition_cycle-returned c.public_id _ _ _ now rows row q in
        subst (IsEnded clock) (sym eq) (final_fields-IsEnded id snapshot x),
  )

  after_analysis-IsSafeEnd :
      (snapshot : Snapshot) (context : Text) (rows : List Cycle) (result : Result Text)
      → ((t : Text) → some context ≡ some t → estimate_tokens t ≤ s.safe_tokens)
      → IsSafeEnd (after_analysis s c snapshot context clock now rows result)
  unfolding complete_cycle
  after_analysis-IsSafeEnd snapshot context rows (err e) h = (h, λ row q. cc)
  after_analysis-IsSafeEnd snapshot context rows (ok result) h =
      after_insert-IsSafeEnd snapshot (some context) rows _ h

  analyze_cycle-IsSafeEnd :
      (snapshot : Snapshot) (context : Text) (rows : List Cycle)
      → estimate_tokens context ≤ s.safe_tokens
      → IsSafeEnd (analyze_cycle s c snapshot context clock now rows)
  unfolding analyze_cycle complete_cycle
  analyze_cycle-IsSafeEnd snapshot context rows h =
      elim (Bool-cases (length snapshot.messages == 0)) [
        | inl e ↦ rw e (after_insert-IsSafeEnd _ none rows _ (λ t k. cc))
        | inr e ↦ rw e (
            after_analysis-IsSafeEnd snapshot context rows _
              (λ t q. let k : context ≡ t = cc in rw (← k) h))
      ]

  classify_cycle-IsSafeEnd :
      (snapshot : Snapshot) (context : Text) (reduced : Bool) (rs : List Reduction)
      (rows : List Cycle)
      → estimate_tokens context ≤ s.safe_tokens
      → IsSafeEnd (classify_cycle s c snapshot context reduced rs clock now rows)
  unfolding classify_cycle
  classify_cycle-IsSafeEnd snapshot context reduced rs rows h = classifying_end _
    where
      classifying_end : (m : Moved) → IsSafeEnd (after_classifying s c snapshot context clock now m)
      classifying_end (err e, rows') = ((λ t q. cc), λ row q. cc)
      classifying_end (ok row, rows') = analyze_cycle-IsSafeEnd snapshot context rows' h

  reduction_end :
      (snapshot : Snapshot) (rows : List Cycle) (r : Result (List Reduction))
      → IsSafeEnd (after_reduction s c snapshot clock now rows (checked_context s c r))
  reduction_end snapshot rows (err e) = ((λ t q. cc), λ row q. cc)
  reduction_end snapshot rows (ok rs) =
      elim (Bool-cases (ltb s.safe_tokens (estimate_tokens (reduced_context s c rs)))) [
        | inl e ↦ rw e ((λ t q. cc), λ row q. cc)
        | inr e ↦ rw e (
            classify_cycle-IsSafeEnd snapshot (reduced_context s c rs) true rs rows
              (ground (arith, e)))
      ]

  -- a text of a chunk that keeps to the chunk's limit, or is a single message
  abbrev pub IsChunkText : Text → Type 0
  IsChunkText t = (chunk : List Message) × (t ≡ summary_content s chunk) × Fits s.chunk_tokens chunk

  abbrev pub IsSafeRun : Finished → Type 0
  IsSafeRun run = All IsChunkText run.1 × IsSafeEnd run.0

  summary_texts :
      (index : ℕ) (chunk : List Message) (summary : Result Text) (rest : Summarized)
      → Fits s.chunk_tokens chunk
      → All IsChunkText rest.1
      → All IsChunkText (after_summary index chunk (summary_content s chunk) summary rest).1
  summary_texts index chunk (err e) (rs, texts) f h = ((chunk, refl, f), tt)
  summary_texts index chunk (ok summary) (rs, texts) f h = ((chunk, refl, f), h)

  chunk_texts :
      (index : ℕ) (chunks : List (List Message))
      → All (Fits s.chunk_tokens) chunks
      → All IsChunkText (summarize_chunks s index chunks).1
  unfolding summarize_chunks
  chunk_texts index [] h = tt
  chunk_texts index (chunk ∷ chunks) h =
      summary_texts index chunk (summarize_messages s chunk) _ h.0
        (chunk_texts (suc index) chunks h.1)

  summarizing_end :
      (snapshot : Snapshot) (m : Moved) → IsSafeRun (after_summarizing s c snapshot clock now m)
  unfolding reduce_context
  summarizing_end snapshot (err e, rows) = (tt, ((λ t q. cc), λ row q. cc))
  summarizing_end snapshot (ok row, rows) = (
    chunk_texts 1 _ (chunk_messages-Fits snapshot.messages s.chunk_tokens),
    reduction_end snapshot rows _,
  )

  -- For any cycle, snapshot and services: the context that the run sends to the model to be
  -- classified, if it sends one, is estimated at no more than the limit of safe input tokens, reduced
  -- or not; each text that it sends to be summarized is that of a chunk whose cost is within the
  -- limit of a chunk, or of a single message; and a row that the run returns is completed with no
  -- warnings, or completed with at least one warning, at the time of the clock, with no next attempt
  -- and under no lease.
  pub finish_cycle-IsSafeRun :
      (snapshot : Snapshot) (rows : List Cycle)
      → IsSafeRun (finish_cycle s c snapshot clock now rows)
  unfolding finish_cycle
  finish_cycle-IsSafeRun snapshot rows =
      let context = s.render false snapshot.messages in
      elim (Bool-cases (ltb s.safe_tokens (estimate_tokens context))) [
        | inr e ↦
            rw e (tt, classify_cycle-IsSafeEnd snapshot context false [] rows (ground (arith, e)))
        | inl e ↦ rw e (summarizing_end snapshot _)
      ]
