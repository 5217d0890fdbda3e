-- ===== src/Requests/Create.antt =====
-- `create_request_for_cycle`: the flow of one delivery. The transactions of one run are composed;
-- what others do between them is the matter of Requests/Calls. The provider is an argument.
pub mod Flow
pub mod Sending
use cai_central_de_atendimen.Base.{
  ℕ, ◌+◌, Bool, true, false, not, ◌&&◌, Option, none, some, List, [], ◌∷◌, if◌then◌else◌,
}
use cai_central_de_atendimen.Base.Errors.{Result, ok, err}
use cai_central_de_atendimen.Base.Lists.{length}
use cai_central_de_atendimen.Base.Texts.{Text, text}
use cai_central_de_atendimen.Cycle.Row.{Time}
use cai_central_de_atendimen.Requests.Safe.{claim_owner_for}
use cai_central_de_atendimen.Requests.Confidence.{evaluate_request_confidence, is_allowed}
use cai_central_de_atendimen.Requests.Payload.{
  Payload, Built, built, refused, build_request_payload, Outcome, retryable, reconciliation,
  failure_outcome,
}
use cai_central_de_atendimen.Requests.Row.{Operation, is_claimable}
use cai_central_de_atendimen.Requests.Facts.{CycleFacts, MappingFacts, Directory, ensure_operation}
use cai_central_de_atendimen.Requests.Statements.{
  Statement, claim_operation, finish_confidence_blocked, refresh_payload_metadata,
  mark_post_started, finish_operation,
}

-- what a run reads besides the operation: `at` gives the time of each of its transactions
pub record Setting : Type 0 where
  pub digest : Payload → Text
  pub directory : Directory
  pub cycle : Option CycleFacts
  pub mapping : Option MappingFacts
  pub new_id : ℕ
  pub owner : Option Text
  pub fallback_owner : Text
  pub lease_seconds : ℕ
  pub confidence : Option ℕ  -- as read before the delivery
  pub confidence_at_post : Option ℕ  -- as read when the delivery starts
  pub adapter_ready : Bool  -- the provider is given, or its adapter can be made
  pub provider : Payload → Option Outcome  -- `none` if the provider raises
  pub at : ℕ → Time

-- the reply, the operation as it is left, and the payloads sent
pub record Delivered : Type 0 where
  pub reply : Result Operation
  pub operation : Operation
  pub sent : List Payload

abbrev pub with_sent : List Payload → Result Operation × Operation → Delivered
with_sent sent r = record { reply = r.0; operation = r.1; sent = sent }

abbrev pub replied : Operation → Delivered
replied op = record { reply = ok op; operation = op; sent = [] }

abbrev pub built_payload : Built → Option Payload
built_payload (built p) = some p
built_payload (refused e) = none

-- `_load_payload_sync`; `none` where it raises
unfoldable pub load_payload : Option CycleFacts → Operation → Option Payload
load_payload none op = none
load_payload (some c) op = elim c.title [
  | none ↦ none
  | some title ↦ elim c.description [
    | none ↦ none
    | some description ↦ elim op.company_external_id [
      | none ↦ none
      | some company ↦ elim op.department_external_id [
        | none ↦ none
        | some department ↦
            built_payload (build_request_payload title description c.protocol company department)
      ]
    ]
  ]
]

abbrev pub outcome_or_unknown : Option Outcome → Outcome
outcome_or_unknown none = failure_outcome reconciliation (text "provider_exception") none
outcome_or_unknown (some o) = o

-- after the claim: the POST and its outcome
unfoldable pub send : Setting → Text → Payload → Operation → Delivered
send s owner p op =
    let marked = mark_post_started op.id owner s.confidence_at_post (s.at 3) op in
    if not marked.0
    then replied marked.1
    else with_sent (p ∷ [])
        (finish_operation op.id owner (outcome_or_unknown (s.provider p)) (s.at 4) marked.1)

unfoldable pub deliver : Setting → Text → Payload → Operation → Delivered
deliver s owner p op =
    let d = evaluate_request_confidence s.confidence in
    if not (is_allowed d)
    then replied (finish_confidence_blocked op.id owner d (s.at 2) op)
    else let fresh = (refresh_payload_metadata s.digest op.id owner p d (s.at 2) op).1 in
      if not s.adapter_ready
      then with_sent [] (
          finish_operation op.id owner
            (failure_outcome retryable (text "provider_setup_failed") none) (s.at 3) fresh)
      else send s owner p fresh

unfoldable pub run_claimed : Setting → Text → Operation → Delivered
run_claimed s owner op = elim (load_payload s.cycle op) [
  | none ↦ with_sent [] (
      finish_operation op.id owner (failure_outcome retryable (text "payload_load_failed") none)
        (s.at 2) op)
  | some p ↦ deliver s owner p op
]

abbrev pub after_claim : Setting → Text → Statement → Delivered
after_claim s owner (none, op) = replied op
after_claim s owner (some claimed, op) = run_claimed s owner op

unfoldable pub run_claim : Setting → Text → Operation → Delivered
run_claim s owner op = after_claim s owner (claim_operation op.id owner s.lease_seconds (s.at 1) op)

-- the flow on the operation that `_ensure_operation_sync` returns
unfoldable pub run_operation : Setting → Operation → Delivered
run_operation s op =
    if not (is_claimable op.state)
    then replied op
    else elim (claim_owner_for s.owner s.fallback_owner) [
      | err e ↦ record { reply = err e; operation = op; sent = [] }
      | ok owner ↦ run_claim s owner op
    ]

-- `none` is a cycle that has no operation; the run raises LookupError if there is no cycle
unfoldable pub create_request_for_cycle : Setting → Option Operation → Result Delivered
create_request_for_cycle s stored =
    elim (ensure_operation s.digest s.directory s.new_id s.cycle s.mapping (s.at 0) stored) [
      | err e ↦ err e
      | ok op ↦ ok (run_operation s op)
    ]
