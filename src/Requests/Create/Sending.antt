-- ===== src/Requests/Create/Sending.antt =====
-- What one run of `create_request_for_cycle` sends to the provider.
use cai_central_de_atendimen.Base.{
  ℕ, ◌+◌, ◌≡◌, ◌⊎◌, refl, sym, ◌∙◌, true, some, [], ◌∷◌, arith, inl, inr, Bool-cases, Option-cases,
}
use cai_central_de_atendimen.Base.Errors.{ok, Result-cases}
use cai_central_de_atendimen.Base.Texts.{Text}
use cai_central_de_atendimen.Requests.Safe.{claim_owner_for}
use cai_central_de_atendimen.Requests.Confidence.{evaluate_request_confidence, is_allowed}
use cai_central_de_atendimen.Requests.Payload.{Payload, Outcome}
use cai_central_de_atendimen.Requests.Row.{Operation, is_claimable}
use cai_central_de_atendimen.Requests.Statements.{
  refresh_payload_metadata, mark_post_started, finish_operation, finish_row,
}
use cai_central_de_atendimen.Requests.Create.{
  Setting, load_payload, outcome_or_unknown, send, deliver, run_claimed, run_operation,
}
use cai_central_de_atendimen.Requests.Create.Flow.{held, run_claim-run_claimed, marked_true}

finish_operation-attempts :
    (id : ℕ) (owner : Text) (o : Outcome) (t : ℕ) (op : Operation)
    → (finish_operation id owner o t op).1.attempt_count ≡ op.attempt_count
unfolding finish_operation finish_row
finish_operation-attempts id owner o t op = ground arith

refreshed_attempts :
    (owner : Text) (s : Setting) (p : Payload) (op : Operation)
    → (refresh_payload_metadata s.digest op.id owner p
        (evaluate_request_confidence s.confidence)
        (s.at 2)
        op).1.attempt_count
      ≡ op.attempt_count
unfolding refresh_payload_metadata
refreshed_attempts owner s p op = ground arith

send-sent :
    (s : Setting) (owner : Text) (p : Payload) (op : Operation)
    → ((send s owner p op).sent ≡ [])
      ⊎ (((send s owner p op).sent ≡ p ∷ [])
          × (is_allowed (evaluate_request_confidence s.confidence_at_post) ≡ true)
          × ((send s owner p op).operation.attempt_count ≡ op.attempt_count + 1))
unfolding send
send-sent s owner p op =
    elim (Bool-cases (mark_post_started op.id owner s.confidence_at_post (s.at 3) op).0) [
      | inr e ↦ inl (rw e refl)
      | inl e ↦
          let (a, b) = marked_true owner s op e in
          inr (
            rw e (
              refl,
              a,
              finish_operation-attempts op.id owner (outcome_or_unknown (s.provider p)) (s.at 4)
                    (mark_post_started op.id owner s.confidence_at_post (s.at 3) op).1
                  ∙ b,
            ))
    ]

deliver-sent :
    (s : Setting) (owner : Text) (p : Payload) (op : Operation)
    → ((deliver s owner p op).sent ≡ [])
      ⊎ (((deliver s owner p op).sent ≡ p ∷ [])
          × (is_allowed (evaluate_request_confidence s.confidence) ≡ true)
          × (is_allowed (evaluate_request_confidence s.confidence_at_post) ≡ true)
          × ((deliver s owner p op).operation.attempt_count ≡ op.attempt_count + 1))
unfolding deliver
deliver-sent s owner p op = ground (
  arith,
  refreshed_attempts owner s p op,
  send-sent s owner p
      (refresh_payload_metadata s.digest op.id owner p (evaluate_request_confidence s.confidence)
        (s.at 2) op).1,
)

run_claimed-sent :
    (s : Setting) (owner : Text) (op : Operation)
    → ((run_claimed s owner op).sent ≡ [])
      ⊎ ((p : Payload) × ((run_claimed s owner op).sent ≡ p ∷ [])
          × (load_payload s.cycle op ≡ some p)
          × (is_allowed (evaluate_request_confidence s.confidence) ≡ true)
          × (is_allowed (evaluate_request_confidence s.confidence_at_post) ≡ true)
          × ((run_claimed s owner op).operation.attempt_count ≡ op.attempt_count + 1))
unfolding run_claimed
run_claimed-sent s owner op = elim (Option-cases (load_payload s.cycle op)) [
  | inl e ↦ inl (rw (run_claimed, e) refl)
  | inr (p, e) ↦ elim (deliver-sent s owner p op) [
    | inl f ↦ inl (rw (run_claimed, e) f)
    | inr (a, b, c, d) ↦ inr (p, rw (run_claimed, e) a, e, b, c, rw (run_claimed, e) d)
  ]
]

held_payload :
    (s : Setting) (owner : Text) (op : Operation)
    → load_payload s.cycle (held owner s op) ≡ load_payload s.cycle op
unfolding load_payload
held_payload s owner op = elim (Option-cases s.cycle) [ inl e ↦ rw e refl | inr (c, e) ↦ rw e refl ]

run_operation-run_claimed :
    (s : Setting) (owner : Text) (op : Operation)
    → is_claimable op.state ≡ true
    → claim_owner_for s.owner s.fallback_owner ≡ ok owner
    → run_operation s op ≡ run_claimed s owner (held owner s op)
unfolding run_operation
run_operation-run_claimed s owner op e f =
    rw (is_claimable, e, f) (run_claim-run_claimed owner s op e)

-- One run sends nothing, or exactly one payload: the one loaded for the operation. It sends one
-- only if the operation is claimable (not started, or failed in a way that may be retried) and the
-- confidence is allowed both before the delivery and when it starts; then the operation it leaves
-- counts one attempt more.
pub run_operation-sent :
    (s : Setting) (op : Operation)
    → ((run_operation s op).sent ≡ [])
      ⊎ ((p : Payload) × ((run_operation s op).sent ≡ p ∷ [])
          × (load_payload s.cycle op ≡ some p)
          × (is_claimable op.state ≡ true)
          × (is_allowed (evaluate_request_confidence s.confidence) ≡ true)
          × (is_allowed (evaluate_request_confidence s.confidence_at_post) ≡ true)
          × ((run_operation s op).operation.attempt_count ≡ op.attempt_count + 1))
unfolding run_operation
run_operation-sent s op = elim (Bool-cases (is_claimable op.state)) [
  | inr e ↦ inl (ground (arith, e))
  | inl e ↦ elim (Result-cases (claim_owner_for s.owner s.fallback_owner)) [
    | inl (x, f) ↦ inl (ground (arith, e, f))
    | inr (owner, f) ↦
        rw (run_operation-run_claimed s owner op e f)
          elim (run_claimed-sent s owner (held owner s op)) [
            | inl a ↦ inl a
            | inr (p, a, b, c, d, n) ↦ inr (p, a, sym (held_payload s owner op) ∙ b, e, c, d, n)
          ]
  ]
]
