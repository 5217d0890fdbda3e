-- ===== src/Requests/Recover/Sending.antt =====
-- What a recovery may send.
use cai_central_de_atendimen.Base.{
  ◌≡◌, ◌⊎◌, refl, true, false, none, some, [], ◌∷◌, arith, inl, inr, Bool-cases,
}
use cai_central_de_atendimen.Base.Errors.{Result, ok, err, Result-cases}
use cai_central_de_atendimen.Base.Texts.{Text}
use cai_central_de_atendimen.Cycle.Row.{Time}
use cai_central_de_atendimen.Requests.Safe.{claim_owner_for}
use cai_central_de_atendimen.Requests.Confidence.{evaluate_request_confidence, is_allowed}
use cai_central_de_atendimen.Requests.Payload.{Payload}
use cai_central_de_atendimen.Requests.Row.{Operation}
use cai_central_de_atendimen.Requests.Statements.{
  Statement, is_untouched, claim_mapping_missing_recovery,
}
use cai_central_de_atendimen.Requests.Create.{Setting, Delivered, run_operation}
use cai_central_de_atendimen.Requests.Create.Sending.{run_operation-sent}
use cai_central_de_atendimen.Requests.Recover.{
  Preparation, reopen, after_reopen, after_preparation, after_recovery_claim,
  recover_mapping_missing_request,
}

-- nothing is sent, or one payload with an allowed confidence
abbrev pub IsAllowedSend : Setting → Delivered → Type 0
IsAllowedSend s d =
    (d.sent ≡ [])
    ⊎ ((p : Payload) × (d.sent ≡ p ∷ [])
        × (is_allowed (evaluate_request_confidence s.confidence) ≡ true)
        × (is_allowed (evaluate_request_confidence s.confidence_at_post) ≡ true))

module _ (s : Setting) where
  run-IsAllowedSend : (op : Operation) → IsAllowedSend s (run_operation s op)
  run-IsAllowedSend op = elim (run_operation-sent s op) [
    | inl e ↦ inl e
    | inr (p, a, _, _, b, c, _) ↦ inr (p, a, b, c)
  ]

  reopen-IsAllowedSend : (r : Result Operation × Operation) → IsAllowedSend s (after_reopen s r)
  reopen-IsAllowedSend (err e, op) = inl refl
  reopen-IsAllowedSend (ok r, op) = run-IsAllowedSend op

  prepared-IsAllowedSend :
      (owner : Text) (op : Operation) (p : Result Preparation)
      → ((after_preparation s owner op p).sent ≡ [])
        ⊎ ((q : Preparation) × (p ≡ ok q)
            × (q.is_ready ≡ true)
            × IsAllowedSend s (after_preparation s owner op p))
  prepared-IsAllowedSend owner op (err e) = inl refl
  prepared-IsAllowedSend owner op (ok q) = elim (Bool-cases q.is_ready) [
    | inl e ↦ inr (q, refl, e, rw (after_preparation, e) (reopen-IsAllowedSend (reopen s owner op)))
    | inr e ↦ inl (ground (arith, e))
  ]

  -- a preparation that is ready, and then at most one payload
  abbrev pub IsPreparedSend : Result Preparation → Delivered → Type 0
  IsPreparedSend p d =
      (d.sent ≡ []) ⊎ ((q : Preparation) × (p ≡ ok q) × (q.is_ready ≡ true) × IsAllowedSend s d)

  after-IsPreparedSend :
      (owner : Text) (p : Result Preparation) (st : Statement)
      → IsPreparedSend p (after_recovery_claim s owner p st)
  after-IsPreparedSend owner p (none, op) = inl refl
  after-IsPreparedSend owner p (some r, op) = prepared-IsAllowedSend owner op p

  unclaimed-nothing :
      (owner : Text) (clock now : Time) (p : Result Preparation) (op : Operation)
      → is_untouched op ≡ false
      → (after_recovery_claim s owner p
          (claim_mapping_missing_recovery owner s.lease_seconds clock now op)).sent
        ≡ []
  unfolding claim_mapping_missing_recovery
  unclaimed-nothing owner clock now p op e = rw e refl

-- A recovery sends nothing, or the operation was untouched, its preparation is ready, and what is
-- sent is one payload at most, with a confidence that is allowed at its start and at the request.
pub recover_mapping_missing_request-prepared :
    (s : Setting) (clock : Time) (p : Result Preparation) (op : Operation)
    → ((recover_mapping_missing_request s clock p op).sent ≡ [])
      ⊎ ((is_untouched op ≡ true)
          × IsPreparedSend s p (recover_mapping_missing_request s clock p op))
unfolding recover_mapping_missing_request
recover_mapping_missing_request-prepared s clock p op =
    elim (Result-cases (claim_owner_for s.owner s.fallback_owner)) [
      | inl (x, e) ↦ inl (rw (recover_mapping_missing_request, e) refl)
      | inr (owner, e) ↦ elim (Bool-cases (is_untouched op)) [
        | inr f ↦ inl (
            rw (recover_mapping_missing_request, e)
              (unclaimed-nothing (record s { owner = some owner }) owner clock (s.at 0) p op f))
        | inl t ↦ inr (
          t,
          rw (recover_mapping_missing_request, e)
              (after-IsPreparedSend (record s { owner = some owner }) owner p
                (claim_mapping_missing_recovery owner s.lease_seconds clock (s.at 0) op)),
        )
      ]
    ]
