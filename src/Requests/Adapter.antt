-- ===== src/Requests/Adapter.antt =====
-- `AcessoriasRequestAdapter.create_request`: the attempts to post one payload
-- (src/core/acessorias_request_provider.py). What the transport gives for each attempt is an
-- argument; durations are microseconds, and 2 ** (attempt - 1) is taken to fit a float.
pub mod Attempts
use cai_central_de_atendimen.Base.{
  ℕ, zero, suc, ◌+◌, ◌-◌, ◌*◌, ◌^◌, Bool, true, false, ◌&&◌, ◌||◌, Option, none, some, List, [],
  ◌∷◌, ◌==◌, leb, max, min, if◌then◌else◌,
}
use cai_central_de_atendimen.Base.Lists.{length}
use cai_central_de_atendimen.Base.Texts.{Text, text, strip}
use cai_central_de_atendimen.Retry.{RetrySettings}
use cai_central_de_atendimen.Requests.Payload.{
  Payload, Outcome, OutcomeState, definitive, retryable, reconciliation, failure_outcome,
  success_outcome,
}

-- a JSON object: `id` in its text form, if it is a text or an integer, and whether it has the key
-- 'Erro' or 'erro'
pub record Body : Type 0 where
  pub id : Option Text
  pub has_error : Bool

pub record Response : Type 0 where
  pub status : ℕ
  pub retry_after : Option ℕ
  pub body : Option Body

-- what `session.post` gives or raises
pub data Reply : Type 0 where
  pre_send_error timed_out connection_failed request_failed : Reply
  response : Response → Reply

-- what one attempt leads to: an outcome, or another attempt after the provider's delay; the outcome
-- of `again` is for the last attempt
pub data Verdict : Type 0 where
  finished : Outcome → Verdict
  again : Option ℕ → Outcome → Verdict

abbrev pub or_invalid : Option Outcome → ℕ → Outcome
or_invalid none status = failure_outcome reconciliation (text "invalid_provider_id") (some status)
or_invalid (some o) status = o

abbrev pub usable_id : Option Body → Option Text
usable_id none = none
usable_id (some b) = elim b.id [
  | none ↦ none
  | some v ↦ if length (strip v) == 0 then none else some v
]

abbrev pub reports_error : Option Body → Bool
reports_error none = false
reports_error (some b) = b.has_error

unfoldable pub judge_status : Response → Verdict
judge_status r =
    let status = some r.status in
    if r.status == 429
    then finished (failure_outcome reconciliation (text "uncertain_rate_limit") status)
    else if r.status == 408 || r.status == 425
    then again r.retry_after (failure_outcome retryable (text "safe_transient_rejection") status)
    else if r.status == 401 || r.status == 403
    then finished (failure_outcome definitive (text "authentication_or_permission") status)
    else if leb 500 r.status
    then finished (failure_outcome reconciliation (text "uncertain_5xx") status)
    else if reports_error r.body
    then finished (failure_outcome definitive (text "provider_error") status)
    else if leb 400 r.status
    then finished (failure_outcome definitive (text "provider_rejection") status)
    else finished (failure_outcome reconciliation (text "missing_id") status)

unfoldable pub judge : Reply → Verdict
judge pre_send_error = again none (failure_outcome retryable (text "pre_send_connection") none)
judge timed_out = finished (failure_outcome reconciliation (text "timeout_after_send") none)
judge connection_failed =
    finished (failure_outcome reconciliation (text "uncertain_transport") none)
judge request_failed = finished (failure_outcome reconciliation (text "uncertain_transport") none)
judge (response r) = elim (usable_id r.body) [
  | none ↦ judge_status r
  | some v ↦ finished (or_invalid (success_outcome v (some r.status)) r.status)
]

-- `_retry_delay`
unfoldable pub request_delay : RetrySettings → ℕ → Option ℕ → ℕ
request_delay s attempt provider_delay =
    let local_delay = min (s.base * 2 ^ (attempt - 1)) s.max_delay in
    elim provider_delay [ none ↦ local_delay | some d ↦ max local_delay (d + s.margin) ]

-- the outcome, the number of POSTs, and the sleeps between them
pub record Posted : Type 0 where
  pub outcome : Outcome
  pub posts : ℕ
  pub delays : List ℕ

-- the rest of the loop after the verdict on an attempt, with `left` attempts left
abbrev pub after_verdict : RetrySettings → ℕ → ℕ → Verdict → Posted → Posted
after_verdict s attempt left (finished o) rest = record { outcome = o; posts = 1; delays = [] }
after_verdict s attempt left (again delay o) rest =
    if left == 0 then record { outcome = o; posts = 1; delays = [] } else record {
      outcome = rest.outcome;
      posts = suc rest.posts;
      delays = request_delay s attempt delay ∷ rest.delays;
    }

-- the loop from `attempt` on, with `left` attempts left
unfoldable pub post_from : RetrySettings → (ℕ → Reply) → ℕ → ℕ → Posted
post_from s transport attempt zero = record {
  outcome = failure_outcome retryable (text "bounded_retry_exhausted") none;
  posts = 0;
  delays = [];
}
post_from s transport attempt (suc left) =
    let rest = post_from s transport (suc attempt) left in
    after_verdict s attempt left (judge (transport attempt)) rest

-- `__init__` wants at least one attempt
unfoldable pub post_request : RetrySettings → Option Text → ℕ → (ℕ → Reply) → Posted
post_request s none max_attempts transport = record {
  outcome = failure_outcome definitive (text "missing_credentials") none;
  posts = 0;
  delays = [];
}
post_request s (some token) max_attempts transport =
    if length (strip token) == 0
    then record {
      outcome = failure_outcome definitive (text "missing_credentials") none;
      posts = 0;
      delays = [];
    }
    else post_from s transport 1 max_attempts
