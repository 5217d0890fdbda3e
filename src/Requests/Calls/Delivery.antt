-- ===== src/Requests/Calls/Delivery.antt =====
-- A delivery that may have started is not repeated.
use cai_central_de_atendimen.Base.{
  ℕ, ◌≡◌, Bool, true, false, not, ◌⊎◌, inl, inr, Option, none, some, List, [], ◌∷◌, arith, is_none,
  Option-cases,
}
use cai_central_de_atendimen.Base.Lists.{All}
use cai_central_de_atendimen.Base.Texts.{Text, same, same_iff}
use cai_central_de_atendimen.Cycle.Row.{Time}
use cai_central_de_atendimen.Requests.Payload.{Payload}
use cai_central_de_atendimen.Requests.Row.{Operation, attempting, reconciliation_required}
use cai_central_de_atendimen.Requests.Facts.{failing, ready}
use cai_central_de_atendimen.Requests.Statements.{
  claim_operation, claim_mapping_missing_recovery, record_preparation_recovery_blocked,
  reopen_prepared_operation, finish_confidence_blocked, refresh_payload_metadata, mark_post_started,
  finish_operation, expire_claim, is_unprepared, is_untouched, block_confidence, finish_row,
}
use cai_central_de_atendimen.Requests.Calls.{
  Call, claim, claim_recovery, recovery_blocked, reopen, confidence_blocked, refresh, start_post,
  finish, reconcile, perform, perform_calls,
}

-- the delivery of the owner `o` may have started, or did and nobody knows its end
abbrev pub IsUnsettled : Text → Operation → Type 0
IsUnsettled o op =
    ((op.state ≡ attempting) × (op.claim_owner ≡ some o) × (is_none op.post_started_at ≡ false))
    ⊎ (op.state ≡ reconciliation_required)

-- every call but a manual action and the outcome that the owner `o` itself reports
abbrev pub is_by_others : Text → Call → Bool
is_by_others o (finish id owner v t) = not (same o owner)
is_by_others o (reconcile c t audits) = false
is_by_others o _ = true

module _ (digest : Payload → Text) (o : Text) where
  perform-IsUnsettled :
      (c : Call) (op : Operation)
      → is_by_others o c ≡ true
      → IsUnsettled o op
      → IsUnsettled o (perform digest c op)
  unfolding perform
  perform-IsUnsettled (claim id owner l t) op q h =
      unfold claim_operation expire_claim in ground arith
  perform-IsUnsettled (claim_recovery owner l c t) op q h =
      unfold claim_mapping_missing_recovery is_untouched is_unprepared in ground arith
  perform-IsUnsettled (recovery_blocked id owner s r t) op q h =
      unfold record_preparation_recovery_blocked is_unprepared in ground arith
  perform-IsUnsettled (reopen id owner (failing r) t) op q h =
      unfold reopen_prepared_operation in ground arith
  perform-IsUnsettled (reopen id owner (ready f p) t) op q h =
      unfold reopen_prepared_operation is_untouched is_unprepared in ground arith
  perform-IsUnsettled (confidence_blocked id owner d t) op q h =
      unfold finish_confidence_blocked block_confidence in ground arith
  perform-IsUnsettled (refresh id owner p d t) op q h =
      unfold refresh_payload_metadata in ground arith
  perform-IsUnsettled (start_post id owner v t) op q h =
      unfold mark_post_started block_confidence in ground (arith, same_iff o owner)
  perform-IsUnsettled (finish id owner v t) op q h =
      unfold finish_operation finish_row in ground (arith, same_iff o owner)
  perform-IsUnsettled (reconcile c t audits) op q h = cc

  calls-IsUnsettled :
      (cs : List Call) (op : Operation)
      → All (λ c. is_by_others o c ≡ true) cs
      → IsUnsettled o op
      → IsUnsettled o (perform_calls digest cs op)
  unfolding perform_calls
  calls-IsUnsettled [] op q h = h
  calls-IsUnsettled (c ∷ cs) op q h =
      calls-IsUnsettled cs (perform digest c op) q.1 (perform-IsUnsettled c op q.0 h)

  unclaimed :
      (id : ℕ) (owner : Text) (l : ℕ) (t : Time) (op : Operation)
      → IsUnsettled o op
      → (claim_operation id owner l t op).0 ≡ none
  unfolding claim_operation expire_claim
  unclaimed id owner l t op h = ground arith

  unstarted :
      (id : ℕ) (owner : Text) (v : Option ℕ) (t : Time) (op : Operation)
      → same o owner ≡ false
      → IsUnsettled o op
      → (mark_post_started id owner v t op).0 ≡ false
  unfolding mark_post_started
  unstarted id owner v t op n h = ground (arith, same_iff o owner)

  started :
      (id : ℕ) (v : Option ℕ) (t : Time) (op : Operation)
      → (mark_post_started id o v t op).0 ≡ true
      → IsUnsettled o (mark_post_started id o v t op).1
  unfolding mark_post_started
  started id v t op h = elim (Option-cases op.claim_owner) [
    | inl e ↦ ground (arith, e)
    | inr (x, e) ↦ ground (arith, e, same_iff x o)
  ]

  -- Once `mark_post_started` has let the owner `o` send the request: after any transactions but a
  -- manual action and an outcome reported by `o`, however late they come, no worker can claim the
  -- operation, also after the lease has run out, and `mark_post_started` lets no other owner send.
  pub mark_post_started-once :
      (id : ℕ) (v : Option ℕ) (t : Time) (op : Operation)
      → (mark_post_started id o v t op).0 ≡ true
      → (cs : List Call) → All (λ c. is_by_others o c ≡ true) cs
      → (owner : Text) (lease : ℕ) (v' : Option ℕ) (t' : Time)
      → ((claim_operation id owner lease t'
            (perform_calls digest cs (mark_post_started id o v t op).1)).0
          ≡ none)
        × (same o owner ≡ false
            → (mark_post_started id owner v' t'
                (perform_calls digest cs (mark_post_started id o v t op).1)).0
              ≡ false)
  mark_post_started-once id v t op h cs q owner lease v' t' =
      let after = calls-IsUnsettled cs (mark_post_started id o v t op).1 q (started id v t op h) in
      (unclaimed id owner lease t' _ after, λ n. unstarted id owner v' t' _ n after)
