-- ===== src/Retry.antt =====
-- src/core/provider_retry.py: which provider failures are transient, and how long to wait. A
-- duration is a whole number of microseconds; the rounding of floats is not modelled, their range is.
pub mod Bounds
use cai_central_de_atendimen.Base.{
  ℕ, ◌+◌, ◌-◌, ◌*◌, ◌^◌, Bool, true, false, ◌&&◌, ◌||◌, Option, none, some, List, [], ◌∷◌, ◌==◌,
  leb, if◌then◌else◌, max, min,
}
use cai_central_de_atendimen.Base.Errors.{Result, ok, err, overflow_error}
use cai_central_de_atendimen.Base.Lists.{any}

pub data Category : Type 0 where
  rate_limit provider_server_error transient_http timeout connection : Category

-- what `transient_provider_error` reads of an exception
pub record ProviderException : Type 0 where
  pub status_code : Option ℕ
  pub is_api_connection_error : Bool
  pub is_connection_error : Bool
  pub is_api_timeout_error : Bool
  pub is_timeout_error : Bool

abbrev pub has_status : List ℕ → Option ℕ → Bool
has_status codes none = false
has_status codes (some c) = any (λ x. x == c) codes

-- TRANSIENT_PROVIDER_STATUSES
abbrev pub transient_provider_statuses : List ℕ
transient_provider_statuses = 408 ∷ 425 ∷ 429 ∷ 500 ∷ 502 ∷ 503 ∷ 504 ∷ []

unfoldable pub transient_provider_error : ProviderException → Option Category
transient_provider_error e =
    if has_status transient_provider_statuses e.status_code
      || e.is_api_connection_error
      || e.is_connection_error
      || e.is_timeout_error
    then (if has_status (429 ∷ []) e.status_code
        then some rate_limit
        else if has_status (500 ∷ 502 ∷ 503 ∷ 504 ∷ []) e.status_code
        then some provider_server_error
        else if has_status (408 ∷ 425 ∷ []) e.status_code
        then some transient_http
        else if e.is_api_timeout_error || e.is_timeout_error
        then some timeout
        else some connection)
    else none

-- `base * (2 ** exponent)` for a float `base`: the integer power is converted to a float, which
-- raises OverflowError from 2 ** 1024 on
unfoldable pub scaled : ℕ → ℕ → Result ℕ
scaled base exponent = if leb 1024 exponent then err overflow_error else ok (base * 2 ^ exponent)

-- what `retry_delay` reads besides the attempt and the provider's own delay
pub record RetrySettings : Type 0 where
  pub base : ℕ
  pub max_delay : ℕ
  pub margin : ℕ

-- the truncated `attempt - 1` is `max(0, attempt - 1)`
unfoldable pub local_delay : RetrySettings → ℕ → Result ℕ
local_delay s attempt = elim (scaled s.base (attempt - 1)) [
  | err e ↦ err e
  | ok d ↦ ok (min d s.max_delay)
]

unfoldable pub with_provider : RetrySettings → Option ℕ → ℕ → ℕ
with_provider s none d = d
with_provider s (some p) d = max d (p + s.margin)

unfoldable pub retry_delay : RetrySettings → ℕ → Option ℕ → Result ℕ
retry_delay s attempt provider_delay = elim (local_delay s attempt) [
  | err e ↦ err e
  | ok d ↦ ok (with_provider s provider_delay d)
]

-- here `base` is `base_seconds`
unfoldable pub provider_cooldown_delay : RetrySettings → Option ℕ → ℕ
provider_cooldown_delay s none = s.base
provider_cooldown_delay s (some p) = p + s.margin
