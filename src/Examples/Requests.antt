-- ===== src/Examples/Requests.antt =====
-- Concrete requests: their transactions, one delivery, one recovery, and the attempts of the adapter.
use cai_central_de_atendimen.Base.{
  ℕ, ◌+◌, ◌≤◌, ◌≡◌, ◌⊎◌, refl, true, false, none, some, List, [], ◌∷◌, map, ◌==◌, if◌then◌else◌,
}
use cai_central_de_atendimen.Base.Errors.{Result, ok}
use cai_central_de_atendimen.Base.Texts.{Text, text, same, strip, lstrip, is_space}
use cai_central_de_atendimen.Cycle.Row.{completed}
use cai_central_de_atendimen.Retry.{RetrySettings}
use cai_central_de_atendimen.Requests.Safe.{is_safe_sol_id, is_reason_char, matches, safe_category}
use cai_central_de_atendimen.Requests.Statements.Checks.{safe_category-matches}
use cai_central_de_atendimen.Requests.Confidence.{evaluate_request_confidence, is_allowed}
use cai_central_de_atendimen.Requests.Payload.{Payload, retryable, success_outcome}
use cai_central_de_atendimen.Requests.Row.{
  Operation, attempting, is_attempting, is_claimable, definitive_failure,
}
use cai_central_de_atendimen.Requests.Facts.{CycleFacts, blank_operation}
use cai_central_de_atendimen.Requests.Statements.{claim_operation, is_untouched, mark_post_started}
use cai_central_de_atendimen.Requests.Calls.{Call, claim, start_post, phase, perform_calls}
use cai_central_de_atendimen.Requests.Calls.Phases.{Run, kind, perform_calls-Run}
use cai_central_de_atendimen.Requests.Calls.Delivery.{mark_post_started-once}
use cai_central_de_atendimen.Requests.Create.{Setting, load_payload, run_operation}
use cai_central_de_atendimen.Requests.Create.Flow.{IsSound, run_operation-releases}
use cai_central_de_atendimen.Requests.Create.Sending.{run_operation-sent}
use cai_central_de_atendimen.Requests.Recover.{
  Preparation, prepare_cycle_for_request, recover_mapping_missing_request,
}
use cai_central_de_atendimen.Requests.Recover.Sending.{
  IsPreparedSend, recover_mapping_missing_request-prepared,
}
use cai_central_de_atendimen.Requests.Adapter.{
  Reply, pre_send_error, response, post_request, post_from, judge, Posted,
}
use cai_central_de_atendimen.Requests.Adapter.Attempts.{
  AreUnprocessed, post_request-careful, post_request-IsSound,
}

abbrev facts : CycleFacts
facts = record {
  id = 7;
  conversation_id = text "c7";
  status = completed;
  classification_id = some 4;
  protocol = some (text "2024-1");
  confidence = some 900000;
  title = some (text "Invoice");
  description = some (text "Second copy");
}

abbrev fresh_operation : Operation
fresh_operation = record (blank_operation 1 facts none 5) {
  company_external_id = some (text "E1");
  department_external_id = some (text "12");
}

abbrev held_operation : Operation
held_operation = record fresh_operation {
  state = attempting;
  claim_owner = some (text "w1");
  claim_expires_at = some 100;
}

abbrev digest_of : Payload → Text
digest_of p = p.subject

abbrev short_waits : RetrySettings
short_waits = record { base = 2; max_delay = 10; margin = 1 }

-- a first connection fails before the POST, the second POST is answered with an id
abbrev transport : Payload → ℕ → Reply
transport p n =
    if n == 1
    then pre_send_error
    else response (record {
      status = 200;
      retry_after = none;
      body = some (record { id = some (text "981"); has_error = false });
    })

abbrev setting : Setting
setting = record {
  digest = digest_of;
  directory = record { company = λ c. some (text "E1"); is_related = λ c d. true };
  cycle = some facts;
  mapping = none;
  new_id = 1;
  owner = some (text "w1");
  fallback_owner = text "p:1:t:1";
  lease_seconds = 300;
  confidence = some 900000;
  confidence_at_post = some 900000;
  adapter_ready = true;
  provider = λ p. some (post_request short_waits (some (text "token")) 3 (transport p)).outcome;
  at = λ n. 10 + n;
}

setting-IsSound : IsSound setting.provider
setting-IsSound = post_request-IsSound short_waits (some (text "token")) 3 transport

two_workers : List Call
two_workers =
    claim 1 (text "w1") 300 10
    ∷ start_post 1 (text "w1") (some 900000) 11
    ∷ claim 1 (text "w2") 300 900000000
    ∷ []

perform_calls-Run_example :
    Run
      (map kind two_workers)
      (phase fresh_operation)
      (phase (perform_calls digest_of two_workers fresh_operation))
perform_calls-Run_example = perform_calls-Run digest_of two_workers fresh_operation

marked : (mark_post_started 1 (text "w1") (some 900000) 20 held_operation).0 ≡ true
unfolding mark_post_started evaluate_request_confidence same
marked = refl

-- another worker, long after the lease has run out
mark_post_started-once_example :
    ((claim_operation 1 (text "w3") 300 950000000 (
        perform_calls digest_of
          (claim 1 (text "w2") 300 900000000 ∷ [])
          (mark_post_started 1 (text "w1") (some 900000) 20 held_operation).1)).0
      ≡ none)
    × (same (text "w1") (text "w3") ≡ false
        → (mark_post_started 1 (text "w3") (some 900000) 950000000 (
            perform_calls digest_of
              (claim 1 (text "w2") 300 900000000 ∷ [])
              (mark_post_started 1 (text "w1") (some 900000) 20 held_operation).1)).0
          ≡ false)
mark_post_started-once_example =
    mark_post_started-once digest_of (text "w1") 1 (some 900000) 20 held_operation marked
      (claim 1 (text "w2") 300 900000000 ∷ []) (refl, tt) (text "w3") 300 (some 900000) 950000000

run_operation-releases_example :
    ((run_operation setting fresh_operation).operation ≡ fresh_operation)
    ⊎ (is_attempting (run_operation setting fresh_operation).operation.state ≡ false)
run_operation-releases_example = run_operation-releases setting fresh_operation setting-IsSound refl

run_operation-sent_example :
    ((run_operation setting fresh_operation).sent ≡ [])
    ⊎ ((p : Payload) × ((run_operation setting fresh_operation).sent ≡ p ∷ [])
        × (load_payload (some facts) fresh_operation ≡ some p)
        × (is_claimable fresh_operation.state ≡ true)
        × (is_allowed (evaluate_request_confidence (some 900000)) ≡ true)
        × (is_allowed (evaluate_request_confidence (some 900000)) ≡ true)
        × ((run_operation setting fresh_operation).operation.attempt_count ≡ 1))
run_operation-sent_example = run_operation-sent setting fresh_operation

abbrev some_payload : Payload
some_payload = record {
  subject = text "Invoice";
  company = text "E1";
  department = text "12";
  description = text "Second copy";
}

abbrev posted : Posted
posted = post_request short_waits (some (text "token")) 3 (transport some_payload)

two_posts : posted.posts ≡ 2
unfolding post_request post_from judge success_outcome is_safe_sol_id matches strip lstrip is_space
two_posts = refl

post_request-careful_example :
    (posted.posts ≤ 3)
    × AreUnprocessed (transport some_payload) 1 posted.posts
    × (posted.outcome.state ≡ retryable
        → AreUnprocessed (transport some_payload) 1 (1 + posted.posts))
post_request-careful_example =
    post_request-careful short_waits (some (text "token")) 3 (transport some_payload)

-- an operation that failed for want of a mapping, before any delivery
abbrev unmapped_operation : Operation
unmapped_operation = record fresh_operation {
  state = definitive_failure;
  failure_category = some (text "mapping_missing");
}

abbrev preparation : Result Preparation
preparation =
    prepare_cycle_for_request
      (λ id. ok (record { contact_id = some id; state = text "confirmed"; reason = none }))
      (ok (record { state = text "resolved"; reason = none }))
      (some (record {
        status = completed;
        contact_external_id = some (text "k1");
        contact_id = some 3;
      }))

recover_mapping_missing_request-prepared_example :
    ((recover_mapping_missing_request setting 20 preparation unmapped_operation).sent ≡ [])
    ⊎ ((is_untouched unmapped_operation ≡ true)
        × IsPreparedSend setting preparation
            (recover_mapping_missing_request setting 20 preparation unmapped_operation))
recover_mapping_missing_request-prepared_example =
    recover_mapping_missing_request-prepared setting 20 preparation unmapped_operation

safe_category-matches_example :
    matches is_reason_char 120 (safe_category (text "__ Bad Gateway: 502 __")) ≡ true
safe_category-matches_example = safe_category-matches (text "__ Bad Gateway: 502 __")

post_request-IsSound_example :
    IsSound (λ p. some (post_request short_waits (some (text "token")) 3 (transport p)).outcome)
post_request-IsSound_example = post_request-IsSound short_waits (some (text "token")) 3 transport
