-- ===== src/Requests/Adapter/Attempts.antt =====
-- When the adapter posts a payload again, and what its outcomes promise.
use cai_central_de_atendimen.Base.{
  ℕ, zero, suc, ◌+◌, ◌-◌, ◌≤◌, ◌<◌, ◌≡◌, refl, subst, Bool, true, false, ◌&&◌, ◌||◌, Option, none,
  some, [], ◌==◌, arith, inl, inr, is_none, Bool-cases, Option-cases,
}
use cai_central_de_atendimen.Base.Lists.{length}
use cai_central_de_atendimen.Base.Texts.{Text, text, strip, same_iff}
use cai_central_de_atendimen.Retry.{RetrySettings}
use cai_central_de_atendimen.Requests.Safe.{is_safe_sol_id, matches}
use cai_central_de_atendimen.Requests.Payload.{
  Payload, Outcome, OutcomeState, retryable, definitive, reconciliation, failure_outcome,
  success_outcome,
}
use cai_central_de_atendimen.Requests.Statements.{is_success, has_no_id, passes_checks}
use cai_central_de_atendimen.Requests.Statements.Checks.{failure_passes, success_passes}
use cai_central_de_atendimen.Requests.Create.Flow.{IsRecordable, IsSound}
use cai_central_de_atendimen.Requests.Adapter.{
  Reply, pre_send_error, timed_out, connection_failed, request_failed, response, Response, Verdict,
  finished, again, usable_id, or_invalid, judge, judge_status, Posted, post_from, after_verdict,
  post_request,
}

-- a reply after which the provider has not made the request: the POST was not sent, or it was
-- rejected with 408 or 425 and no id
abbrev pub is_unprocessed : Reply → Bool
is_unprocessed pre_send_error = true
is_unprocessed (response r) = (r.status == 408 || r.status == 425) && is_none (usable_id r.body)
is_unprocessed _ = false

abbrev is_retryable : OutcomeState → Bool
is_retryable retryable = true
is_retryable _ = false

abbrev IsIdentified : Outcome → Type 0
IsIdentified o = (is_success o.state && has_no_id o.solid_id) ≡ false

-- a verdict that is right: another attempt, or a retryable outcome, only for an unprocessed request,
-- and no success without an id
abbrev IsJust : Reply → Verdict → Type 0
IsJust reply (finished o) = (is_retryable o.state ≡ false) × IsIdentified o
IsJust reply (again d o) = (is_unprocessed reply ≡ true) × IsIdentified o

success_outcome-IsJust :
    (reply : Reply) (v : Text) (status : ℕ)
    → IsJust reply (finished (or_invalid (success_outcome v (some status)) status))
unfolding success_outcome failure_outcome is_safe_sol_id matches
success_outcome-IsJust reply v status = ground (arith, same_iff (strip v) [])

judge_status-IsJust :
    (r : Response) → is_none (usable_id r.body) ≡ true → IsJust (response r) (judge_status r)
unfolding judge_status failure_outcome
judge_status-IsJust r e = ground (arith, e)

judge-IsJust : (reply : Reply) → IsJust reply (judge reply)
unfolding judge failure_outcome
judge-IsJust pre_send_error = (refl, refl)
judge-IsJust timed_out = (refl, refl)
judge-IsJust connection_failed = (refl, refl)
judge-IsJust request_failed = (refl, refl)
judge-IsJust (response r) = elim (Option-cases (usable_id r.body)) [
  | inl e ↦ rw (IsJust, e) (judge_status-IsJust r (rw e))
  | inr (v, e) ↦ rw (IsJust, e) (success_outcome-IsJust (response r) v r.status)
]

-- the attempts from `first` on and before `last` all got replies to unprocessed requests
abbrev pub AreUnprocessed : (ℕ → Reply) → ℕ → ℕ → Type 0
AreUnprocessed transport first last =
    (n : ℕ) → first ≤ n → n < last → is_unprocessed (transport n) ≡ true

one_more :
    (transport : ℕ → Reply) (first last : ℕ)
    → is_unprocessed (transport first) ≡ true
    → AreUnprocessed transport (suc first) last
    → AreUnprocessed transport first last
one_more transport first last e h n p q = elim (Bool-cases (n == first)) [
  | inl k ↦ let eq : n ≡ first = ground (arith, k) in rw (eq, e)
  | inr k ↦ h n (ground (arith, k, p)) q
]

-- what the loop promises from `attempt` on
abbrev IsCareful : (ℕ → Reply) → ℕ → ℕ → Posted → Type 0
IsCareful transport attempt left r =
    (r.posts ≤ left)
    × AreUnprocessed transport attempt (attempt + r.posts - 1)
    × (is_retryable r.outcome.state ≡ true → AreUnprocessed transport attempt (attempt + r.posts))
    × IsIdentified r.outcome

none_between :
    (transport : ℕ → Reply) (first last : ℕ) → last ≤ first → AreUnprocessed transport first last
none_between transport first last h n p q = absurd (omega arith)

after_verdict-IsCareful :
    (s : RetrySettings) (transport : ℕ → Reply) (attempt left : ℕ) (v : Verdict) (rest : Posted)
    → IsJust (transport attempt) v
    → IsCareful transport (suc attempt) left rest
    → IsCareful transport attempt (suc left) (after_verdict s attempt left v rest)
after_verdict-IsCareful s transport attempt left (finished o) rest j h =
    (omega arith, none_between transport attempt _ (omega arith), (λ r. cc (j.0, r)), j.1)
after_verdict-IsCareful s transport attempt left (again d o) rest j h =
    elim (Bool-cases (left == 0)) [
      | inl e ↦ rw e (
        omega arith,
        none_between transport attempt _ (omega arith),
        (λ r. one_more transport attempt _ j.0 (none_between transport _ _ (omega arith))),
        j.1,
      )
      | inr e ↦ rw e (
        omega (arith, h.0),
        one_more transport attempt _ j.0 (λ n p q. h.1 n p (omega (arith, q))),
        (λ r. one_more transport attempt _ j.0 (λ n p q. h.2 r n p (omega (arith, q)))),
        h.3,
      )
    ]

post_from-IsCareful :
    (s : RetrySettings) (transport : ℕ → Reply) (attempt left : ℕ)
    → IsCareful transport attempt left (post_from s transport attempt left)
unfolding post_from failure_outcome
post_from-IsCareful s transport attempt zero = (
  omega arith,
  none_between transport attempt _ (omega arith),
  (λ r. none_between transport attempt _ (omega arith)),
  refl,
)
post_from-IsCareful s transport attempt (suc left) =
    after_verdict-IsCareful s transport attempt left (judge (transport attempt)) _
      (judge-IsJust (transport attempt)) (post_from-IsCareful s transport (suc attempt) left)

post_request-IsCareful :
    (s : RetrySettings) (token : Option Text) (max_attempts : ℕ) (transport : ℕ → Reply)
    → IsCareful transport 1 max_attempts (post_request s token max_attempts transport)
unfolding post_request failure_outcome
post_request-IsCareful s none m transport =
    (omega arith, none_between transport 1 _ (omega arith), (λ r. cc), refl)
post_request-IsCareful s (some token) m transport = elim (Bool-cases (length (strip token) == 0)) [
  | inl e ↦ rw e (omega arith, none_between transport 1 _ (omega arith), (λ r. cc), refl)
  | inr e ↦ rw e (post_from-IsCareful s transport 1 m)
]

-- The adapter makes at most the configured number of POSTs of a payload. Every POST but the last
-- had a reply that tells that the provider did not make the request: it was not sent, or it was
-- rejected with 408 or 425 and no id. If the outcome is one that may be retried, the last POST had
-- such a reply too.
pub post_request-careful :
    (s : RetrySettings) (token : Option Text) (max_attempts : ℕ) (transport : ℕ → Reply)
    → ((post_request s token max_attempts transport).posts ≤ max_attempts)
      × AreUnprocessed transport 1 (post_request s token max_attempts transport).posts
      × ((post_request s token max_attempts transport).outcome.state ≡ retryable
          → AreUnprocessed transport 1 (1 + (post_request s token max_attempts transport).posts))
post_request-careful s token m transport =
    let h = post_request-IsCareful s token m transport in
    (h.0, (λ n p q. h.1 n p (omega (arith, q))), λ e. h.2 (rw e))

-- the outcome that a verdict carries
abbrev verdict_outcome : Verdict → Outcome
verdict_outcome (finished o) = o
verdict_outcome (again d o) = o

judge_status_passes : (r : Response) → passes_checks (verdict_outcome (judge_status r)) ≡ true
unfolding judge_status
judge_status_passes r =
    let status = some r.status in
    ground (
      arith,
      failure_passes reconciliation (text "uncertain_rate_limit") status refl,
      failure_passes retryable (text "safe_transient_rejection") status refl,
      failure_passes definitive (text "authentication_or_permission") status refl,
      failure_passes reconciliation (text "uncertain_5xx") status refl,
      failure_passes definitive (text "provider_error") status refl,
      failure_passes definitive (text "provider_rejection") status refl,
      failure_passes reconciliation (text "missing_id") status refl,
    )

identified_passes :
    (v : Text) (status : ℕ)
    → passes_checks (or_invalid (success_outcome v (some status)) status) ≡ true
identified_passes v status = elim (Option-cases (success_outcome v (some status))) [
  | inl e ↦ rw e (failure_passes reconciliation _ (some status) refl)
  | inr (o, e) ↦ rw e (success_passes v (some status) e)
]

judge_passes : (reply : Reply) → passes_checks (verdict_outcome (judge reply)) ≡ true
unfolding judge
judge_passes pre_send_error = failure_passes retryable _ none refl
judge_passes timed_out = failure_passes reconciliation _ none refl
judge_passes connection_failed = failure_passes reconciliation _ none refl
judge_passes request_failed = failure_passes reconciliation _ none refl
judge_passes (response r) = elim (Option-cases (usable_id r.body)) [
  | inl e ↦ rw (judge, e) (judge_status_passes r)
  | inr (v, e) ↦ rw (judge, e) (identified_passes v r.status)
]

after_verdict_passes :
    (s : RetrySettings) (attempt left : ℕ) (v : Verdict) (rest : Posted)
    → passes_checks (verdict_outcome v) ≡ true
    → passes_checks rest.outcome ≡ true
    → passes_checks (after_verdict s attempt left v rest).outcome ≡ true
after_verdict_passes s attempt left (finished o) rest h k = h
after_verdict_passes s attempt left (again d o) rest h k = ground (arith, h, k)

post_from_passes :
    (s : RetrySettings) (transport : ℕ → Reply) (attempt left : ℕ)
    → passes_checks (post_from s transport attempt left).outcome ≡ true
unfolding post_from
post_from_passes s transport attempt zero = failure_passes retryable _ none refl
post_from_passes s transport attempt (suc left) =
    after_verdict_passes s attempt left (judge (transport attempt)) _
      (judge_passes (transport attempt)) (post_from_passes s transport (suc attempt) left)

post_request_passes :
    (s : RetrySettings) (token : Option Text) (max_attempts : ℕ) (transport : ℕ → Reply)
    → passes_checks (post_request s token max_attempts transport).outcome ≡ true
unfolding post_request
post_request_passes s none m transport = failure_passes definitive _ none refl
post_request_passes s (some token) m transport = elim (Bool-cases (length (strip token) == 0)) [
  | inl e ↦ rw e (failure_passes definitive _ none refl)
  | inr e ↦ rw e (post_from_passes s transport 1 m)
]

-- The adapter is a sound provider for the delivery: whatever the transport answers, an outcome that
-- is a success has an id that is not empty, and every outcome passes the checks of the table.
pub post_request-IsSound :
    (s : RetrySettings) (token : Option Text) (max_attempts : ℕ) (transport : Payload → ℕ → Reply)
    → IsSound (λ p. some (post_request s token max_attempts (transport p)).outcome)
post_request-IsSound s token m transport p o e =
    let h = post_request-IsCareful s token m (transport p) in
    let k : (post_request s token m (transport p)).outcome ≡ o = cc in
    subst IsRecordable k (h.3, post_request_passes s token m (transport p))
