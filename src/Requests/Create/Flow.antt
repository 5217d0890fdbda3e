-- ===== src/Requests/Create/Flow.antt =====
-- What one run of `create_request_for_cycle` sends, and how it leaves the operation.
use cai_central_de_atendimen.Base.{
  ℕ, ◌+◌, ◌≡◌, ◌⊎◌, refl, true, false, ◌&&◌, Option, none, some, arith, inl, inr, is_none,
  Bool-cases, Option-cases,
}
use cai_central_de_atendimen.Base.Errors.{Result-cases}
use cai_central_de_atendimen.Base.Texts.{Text, text, same_refl}
use cai_central_de_atendimen.Cycle.Lease.{seconds}
use cai_central_de_atendimen.Requests.Safe.{claim_owner_for}
use cai_central_de_atendimen.Requests.Confidence.{evaluate_request_confidence, is_allowed}
use cai_central_de_atendimen.Requests.Payload.{
  Payload, Outcome, retryable, reconciliation, failure_outcome,
}
use cai_central_de_atendimen.Requests.Statements.Checks.{failure_passes}
use cai_central_de_atendimen.Requests.Row.{Operation, attempting, is_attempting, is_claimable}
use cai_central_de_atendimen.Requests.Statements.{
  claim_operation, finish_confidence_blocked, refresh_payload_metadata, mark_post_started,
  finish_operation, expire_claim, block_confidence, finish_row, is_success, has_no_id,
  passes_checks,
}
use cai_central_de_atendimen.Requests.Create.{
  Setting, load_payload, outcome_or_unknown, send, deliver, run_claimed, run_claim, run_operation,
  replied,
}

-- the worker `owner` holds the claim, and no delivery has started
abbrev IsHeld : Text → Operation → Type 0
IsHeld owner op =
    (op.state ≡ attempting) × (op.claim_owner ≡ some owner) × (is_none op.post_started_at ≡ true)

-- a success has an id, and the columns that the outcome sets pass the checks of the table
abbrev pub IsRecordable : Outcome → Type 0
IsRecordable o = ((is_success o.state && has_no_id o.solid_id) ≡ false) × (passes_checks o ≡ true)

-- a provider whose outcomes can be recorded
abbrev pub IsSound : (Payload → Option Outcome) → Type 0
IsSound provider = (p : Payload) (o : Outcome) → provider p ≡ some o → IsRecordable o

settles :
    (id : ℕ) (owner : Text) (o : Outcome) (t : ℕ) (op : Operation)
    → op.id ≡ id
    → op.state ≡ attempting
    → op.claim_owner ≡ some owner
    → IsRecordable o
    → is_attempting (finish_operation id owner o t op).1.state ≡ false
unfolding finish_operation finish_row
settles id owner o t op k e f g = ground (arith, e, f, g.0, g.1, k, same_refl owner)

fails :
    (id : ℕ) (owner category : Text) (t : ℕ) (op : Operation)
    → op.id ≡ id
    → op.state ≡ attempting
    → op.claim_owner ≡ some owner
    → is_attempting
        (finish_operation id owner (failure_outcome retryable category none) t op).1.state
      ≡ false
unfolding failure_outcome
fails id owner category t op k e f =
    settles id owner _ t op k e f (refl, failure_passes retryable category none refl)

blocks :
    (owner : Text) (s : Setting) (op : Operation)
    → IsHeld owner op
    → is_attempting
        (finish_confidence_blocked op.id owner
          (evaluate_request_confidence s.confidence)
          (s.at 2)
          op).state
      ≡ false
unfolding finish_confidence_blocked block_confidence
blocks owner s op h = ground (arith, same_refl owner)

refreshes :
    (owner : Text) (s : Setting) (p : Payload) (op : Operation)
    → IsHeld owner op
    → IsHeld owner
        (refresh_payload_metadata s.digest op.id owner p
          (evaluate_request_confidence s.confidence)
          (s.at 2)
          op).1
unfolding refresh_payload_metadata
refreshes owner s p op h = ground (arith, same_refl owner)

refreshed_id :
    (owner : Text) (s : Setting) (p : Payload) (op : Operation)
    → (refresh_payload_metadata s.digest op.id owner p
        (evaluate_request_confidence s.confidence)
        (s.at 2)
        op).1.id
      ≡ op.id
unfolding refresh_payload_metadata
refreshed_id owner s p op = ground arith

sound_outcome :
    (provider : Payload → Option Outcome) (p : Payload)
    → IsSound provider
    → IsRecordable (outcome_or_unknown (provider p))
unfolding failure_outcome
sound_outcome provider p h = elim (Option-cases (provider p)) [
  | inl e ↦ rw e (refl, failure_passes reconciliation (text "provider_exception") none refl)
  | inr (o, e) ↦ rw e (h p o e)
]

pub marked_true :
    (owner : Text) (s : Setting) (op : Operation)
    → (mark_post_started op.id owner s.confidence_at_post (s.at 3) op).0 ≡ true
    → (is_allowed (evaluate_request_confidence s.confidence_at_post) ≡ true)
      × ((mark_post_started op.id owner s.confidence_at_post (s.at 3) op).1.attempt_count
          ≡ op.attempt_count + 1)
unfolding mark_post_started
marked_true owner s op h = ground arith

marked_held :
    (owner : Text) (s : Setting) (op : Operation)
    → IsHeld owner op
    → (mark_post_started op.id owner s.confidence_at_post (s.at 3) op).0 ≡ true
    → ((mark_post_started op.id owner s.confidence_at_post (s.at 3) op).1.state ≡ attempting)
      × ((mark_post_started op.id owner s.confidence_at_post (s.at 3) op).1.claim_owner
          ≡ some owner)
      × ((mark_post_started op.id owner s.confidence_at_post (s.at 3) op).1.id ≡ op.id)
unfolding mark_post_started
marked_held owner s op h k = ground (arith, same_refl owner)

unmarked :
    (owner : Text) (s : Setting) (op : Operation)
    → IsHeld owner op
    → (mark_post_started op.id owner s.confidence_at_post (s.at 3) op).0 ≡ false
    → is_attempting (mark_post_started op.id owner s.confidence_at_post (s.at 3) op).1.state ≡ false
unfolding mark_post_started block_confidence
unmarked owner s op h k = ground (arith, same_refl owner)

send_settled :
    (owner : Text) (s : Setting) (p : Payload) (op : Operation)
    → IsSound s.provider
    → IsHeld owner op
    → is_attempting (send s owner p op).operation.state ≡ false
unfolding send
send_settled owner s p op sound h =
    elim (Bool-cases (mark_post_started op.id owner s.confidence_at_post (s.at 3) op).0) [
      | inr e ↦ rw e (unmarked owner s op h e)
      | inl e ↦
          let (a, b, c) = marked_held owner s op h e in
          rw e (
            settles op.id owner (outcome_or_unknown (s.provider p)) (s.at 4)
              (mark_post_started op.id owner s.confidence_at_post (s.at 3) op).1 c a b
              (sound_outcome s.provider p sound))
    ]

deliver_settled :
    (owner : Text) (s : Setting) (p : Payload) (op : Operation)
    → IsSound s.provider
    → IsHeld owner op
    → is_attempting (deliver s owner p op).operation.state ≡ false
unfolding deliver
deliver_settled owner s p op sound h =
    let fresh : Operation =
      (refresh_payload_metadata s.digest op.id owner p (evaluate_request_confidence s.confidence)
        (s.at 2) op).1 in
    let g : IsHeld owner fresh = refreshes owner s p op h in
    ground (
      arith,
      blocks owner s op h,
      send_settled owner s p fresh sound g,
      fails op.id owner (text "provider_setup_failed") (s.at 3) fresh (refreshed_id owner s p op)
          g.0 g.1,
    )

run_claimed_settled :
    (owner : Text) (s : Setting) (op : Operation)
    → IsSound s.provider
    → IsHeld owner op
    → is_attempting (run_claimed s owner op).operation.state ≡ false
unfolding run_claimed
run_claimed_settled owner s op sound h = elim (Option-cases (load_payload s.cycle op)) [
  | inl e ↦
      rw (is_attempting, e)
        (fails op.id owner (text "payload_load_failed") (s.at 2) op refl h.0 h.1)
  | inr (p, e) ↦ rw (is_attempting, e) (deliver_settled owner s p op sound h)
]

-- the row that the claim of a claimable operation leaves
abbrev pub held : Text → Setting → Operation → Operation
held owner s op = record op {
  state = attempting;
  claim_owner = some owner;
  claim_expires_at = some (s.at 1 + seconds s.lease_seconds);
  updated_at = s.at 1;
}

claim_operation-held :
    (owner : Text) (s : Setting) (op : Operation)
    → is_claimable op.state ≡ true
    → claim_operation op.id owner s.lease_seconds (s.at 1) op
      ≡ (some (held owner s op), held owner s op)
unfolding claim_operation expire_claim
claim_operation-held owner s op e = ground (arith, e)

pub run_claim-run_claimed :
    (owner : Text) (s : Setting) (op : Operation)
    → is_claimable op.state ≡ true
    → run_claim s owner op ≡ run_claimed s owner (held owner s op)
unfolding run_claim
run_claim-run_claimed owner s op e = rw (claim_operation-held owner s op e)

run_claim_settled :
    (owner : Text) (s : Setting) (op : Operation)
    → IsSound s.provider
    → is_claimable op.state ≡ true
    → is_none op.post_started_at ≡ true
    → is_attempting (run_claim s owner op).operation.state ≡ false
run_claim_settled owner s op sound e n =
    rw (run_claim-run_claimed owner s op e)
      (run_claimed_settled owner s (held owner s op) sound (refl, refl, n))

-- One run of `create_request_for_cycle` on an operation with no delivery started, with a provider
-- whose successes have an id and whose outcomes pass the checks of the table, does not leave behind a
-- claim of its own: either the operation is the same as before, or it is not 'attempting'.
pub run_operation-releases :
    (s : Setting) (op : Operation)
    → IsSound s.provider
    → is_none op.post_started_at ≡ true
    → ((run_operation s op).operation ≡ op)
      ⊎ (is_attempting (run_operation s op).operation.state ≡ false)
unfolding run_operation
run_operation-releases s op sound n = elim (Bool-cases (is_claimable op.state)) [
  | inr e ↦ inl (ground (arith, e))
  | inl e ↦ elim (Result-cases (claim_owner_for s.owner s.fallback_owner)) [
    | inl (x, f) ↦ inl (ground (arith, e, f))
    | inr (owner, f) ↦ inr (ground (arith, e, f, run_claim_settled owner s op sound e n))
  ]
]

-- An operation left 'attempting', as by a worker that stopped, is returned as it is by every later
-- run, also when its claim has run out: nothing is sent and its state does not change.
pub run_operation-attempting :
    (s : Setting) (op : Operation) → op.state ≡ attempting → run_operation s op ≡ replied op
unfolding run_operation
run_operation-attempting s op e = ground (arith, e)
