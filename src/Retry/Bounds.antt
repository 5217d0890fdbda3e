-- ===== src/Retry/Bounds.antt =====
-- Bounds, monotonicity and failure of the retry delay, and the meaning of the categories.
use cai_central_de_atendimen.Base.{
  ℕ, ◌+◌, ◌-◌, ◌*◌, ◌^◌, ◌≤◌, true, false, ◌||◌, Option, none, some, [], ◌∷◌, max, min, ◌≡◌, arith,
  ◌↔◌, ◌⊎◌,
}
use native.Mathlib.Nat.{pow-le-pow_right}
use cai_central_de_atendimen.Base.Errors.{ok, err, overflow_error}
use cai_central_de_atendimen.Retry.{
  ProviderException, rate_limit, provider_server_error, transient_http, timeout, connection,
  transient_provider_error, transient_provider_statuses, has_status, RetrySettings, scaled,
  local_delay, with_provider, retry_delay,
}

scaled_mono : (base a b : ℕ) → a ≤ b → base * 2 ^ a ≤ base * 2 ^ b
scaled_mono base a b h = grind (arith, pow-le-pow_right {n = 2} (omega arith) h)

-- The delay before attempt `a` is defined up to attempt 1024. It is at least the smaller of the base
-- and the maximum delay, and it is at most the maximum delay, or, if the provider named a delay, the
-- larger of that and the provider's delay with the margin; it is then at least the latter.
pub retry_delay_bounds :
    (s : RetrySettings) (attempt : ℕ) (provider : Option ℕ)
    → attempt ≤ 1024
    → (d : ℕ) × (retry_delay s attempt provider ≡ ok d)
      × (min s.base s.max_delay ≤ d)
      × (d ≤ with_provider s provider s.max_delay)
      × ((p : ℕ) → provider ≡ some p → p + s.margin ≤ d)
unfolding retry_delay local_delay scaled with_provider
retry_delay_bounds s attempt none h = (
  min (s.base * 2 ^ (attempt - 1)) s.max_delay,
  ground arith,
  grind (arith, scaled_mono s.base 0 (attempt - 1)),
  omega arith,
  λ p e. cc,
)
retry_delay_bounds s attempt (some p) h = (
  max (min (s.base * 2 ^ (attempt - 1)) s.max_delay) (p + s.margin),
  ground arith,
  grind (arith, scaled_mono s.base 0 (attempt - 1)),
  omega arith,
  λ q e. ground arith,
)

-- Later attempts wait at least as long, for the same provider delay.
pub retry_delay_mono :
    (s : RetrySettings) (a b : ℕ) (provider : Option ℕ) {d e : ℕ}
    → a ≤ b
    → retry_delay s a provider ≡ ok d
    → retry_delay s b provider ≡ ok e
    → d ≤ e
unfolding retry_delay local_delay scaled with_provider
retry_delay_mono s a b none h p q = ground (arith, scaled_mono s.base (a - 1) (b - 1))
retry_delay_mono s a b (some x) h p q = ground (arith, scaled_mono s.base (a - 1) (b - 1))

-- From attempt 1025 on the computation raises OverflowError, whatever the settings.
pub retry_delay_overflow :
    (s : RetrySettings) (attempt : ℕ) (provider : Option ℕ)
    → 1025 ≤ attempt
    → retry_delay s attempt provider ≡ err overflow_error
unfolding retry_delay local_delay scaled
retry_delay_overflow s attempt provider h = ground arith

-- What each category says of a failure: a rate limit is status 429, a provider server error one of
-- 500, 502, 503 and 504, a transient HTTP failure 408 or 425; a timeout or a connection failure has
-- another status or none, and is a timeout exactly if the exception is a timeout error.
pub transient_provider_error_iff :
    (e : ProviderException)
    → ((transient_provider_error e ≡ some rate_limit) ↔ (e.status_code ≡ some 429))
      × ((transient_provider_error e ≡ some provider_server_error)
          ↔ ((has_status (500 ∷ 502 ∷ 503 ∷ 504 ∷ []) e.status_code) ≡ true))
      × ((transient_provider_error e ≡ some transient_http)
          ↔ ((e.status_code ≡ some 408) ⊎ (e.status_code ≡ some 425)))
      × (transient_provider_error e ≡ some timeout
          → (has_status transient_provider_statuses e.status_code ≡ false)
            × ((e.is_api_timeout_error || e.is_timeout_error) ≡ true))
      × (transient_provider_error e ≡ some connection
          → (has_status transient_provider_statuses e.status_code ≡ false)
            × ((e.is_api_timeout_error || e.is_timeout_error) ≡ false))
unfolding transient_provider_error
transient_provider_error_iff e = (
  ((λ h. ground arith), (λ h. ground arith)),
  ((λ h. ground arith), (λ h. ground arith)),
  ((λ h. ground arith), (λ h. ground arith)),
  (λ h. (ground arith, ground arith)),
  (λ h. (ground arith, ground arith)),
)
