-- ===== src/Examples/Waiting.antt =====
-- Concrete delays, provider failures and admissions of the rate limiter.
use cai_central_de_atendimen.Base.{ℕ, ◌+◌, ◌≤◌, ◌≡◌, refl, false, none, some, List, [], ◌∷◌, arith}
use cai_central_de_atendimen.Base.Errors.{ok}
use cai_central_de_atendimen.Cycle.Row.{Time}
use cai_central_de_atendimen.Retry.{
  RetrySettings, retry_delay, local_delay, scaled, with_provider, ProviderException,
}
use cai_central_de_atendimen.Limiter.{Window, evict, wait_for, round, admitted, before_request}
use cai_central_de_atendimen.Limiter.Promise.{
  begin, admit, recent, recent-le-limit, before_request_total,
}

abbrev delays : RetrySettings
delays = record { base = 5; max_delay = 60; margin = 1 }

second : retry_delay delays 2 none ≡ ok 10
unfolding retry_delay local_delay scaled with_provider
second = refl

third : retry_delay delays 3 none ≡ ok 20
unfolding retry_delay local_delay scaled with_provider
third = refl

abbrev too_many : ProviderException
too_many = record {
  status_code = some 429;
  is_api_connection_error = false;
  is_connection_error = false;
  is_api_timeout_error = false;
  is_timeout_error = false;
}

first_admitted :
    round 7 (record { limit = 1; requests = [] })
    ≡ admitted (record { limit = 1; requests = 7 ∷ [] })
unfolding round
first_admitted = refl

recent-le-limit_example : recent 9 (7 ∷ []) ≤ 1
recent-le-limit_example =
    recent-le-limit 9 (admit 7 (begin 0) (omega arith) first_admitted) (omega arith)

abbrev full : Window
full = record { limit = 1; requests = 7 ∷ [] }

sleeps : 9 + wait_for 9 (evict 9 (7 ∷ [])) ≤ 60000007
unfolding wait_for evict
sleeps = omega arith

before_request_total_example :
    (r : Window × Time × List ℕ) × (before_request (9 ∷ 60000007 ∷ []) full [] ≡ some r)
before_request_total_example =
    before_request_total full 9 60000007 (omega arith) (omega arith) sleeps
