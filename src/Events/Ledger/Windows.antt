-- ===== src/Events/Ledger/Windows.antt =====
-- The ledger as a map from digests to the ends of their windows, which the statements implement.
use cai_central_de_atendimen.Base.{
  ◌+◌, ◌≡◌, refl, Bool, true, false, not, ◌&&◌, Option, none, some, List, [], ◌∷◌, ◌++◌, ltb,
  if◌then◌else◌, arith, inl, inr, is_none, Bool-cases, Option-cases,
}
use cai_central_de_atendimen.Base.Errors.{ok}
use cai_central_de_atendimen.Base.Lists.{find}
use cai_central_de_atendimen.Base.Tables.{update}
use cai_central_de_atendimen.Base.Texts.{Text, same, same_refl, same_iff}
use cai_central_de_atendimen.Cycle.Row.{Time}
use cai_central_de_atendimen.Events.Ledger.{
  EventKey, is_digest, has_digest, is_expired, event_ttl, event_key, renew, is_kept, EventDecision,
  upsert, record_webhook_event, decision,
}

-- the end of the window of a digest
unfoldable pub expiry : List EventKey → Text → Option Time
expiry [] d = none
expiry (k ∷ ks) d = let rest = expiry ks d in if has_digest d k then some k.expires_at else rest

-- the window is open at `now`
abbrev pub is_open : Time → Option Time → Bool
is_open now none = false
is_open now (some e) = ltb now e

abbrev expires : Option EventKey → Option Time
expires none = none
expires (some k) = some k.expires_at

expires-find : (d : Text) (t : List EventKey) → expires (find (has_digest d) t) ≡ expiry t d
unfolding find expiry
expires-find d [] = refl
expires-find d (k ∷ ks) = ground (arith, expires-find d ks)

expiry-append :
    (t : List EventKey) (k : EventKey) (d : Text)
    → expiry t k.event_digest ≡ none
    → expiry (t ++ k ∷ []) d ≡ (if has_digest d k then some k.expires_at else expiry t d)
unfolding expiry
expiry-append [] k d h = refl
expiry-append (x ∷ xs) k d h = ground (
  arith,
  h,
  expiry-append xs k d,
  same_iff x.event_digest d,
  same_iff k.event_digest d,
  same_refl k.event_digest,
)

expiry-update :
    (t : List EventKey) (k : EventKey) (d : Text)
    → expiry (update (has_digest k.event_digest) (renew k) t) d
      ≡ (if has_digest d k && not (is_none (expiry t d)) then some k.expires_at else expiry t d)
unfolding expiry
expiry-update [] k d = ground arith
expiry-update (x ∷ xs) k d = ground (
  arith,
  expiry-update xs k d,
  same_iff x.event_digest d,
  same_iff x.event_digest k.event_digest,
  same_iff k.event_digest d,
)

-- the promise of the statement on windows: a window that is not open is opened until the end that
-- is asked for, and an open one stays
pub upsert-expiry :
    (now : Time) (k : EventKey) (t : List EventKey)
    → (is_kept (upsert now k t).0 ≡ is_open now (expiry t k.event_digest))
      × ((d : Text)
          → expiry (upsert now k t).1 d ≡ (
              if has_digest d k && not (is_open now (expiry t k.event_digest))
              then some k.expires_at
              else expiry t d))
unfolding upsert
upsert-expiry now k t =
    let f = expires-find k.event_digest t in
    elim (Option-cases (find (has_digest k.event_digest) t)) [
      | inl e ↦
          let n : expiry t k.event_digest ≡ none = ground (arith, f, e) in
          (ground (arith, e, n), λ d. ground (arith, e, n, expiry-append t k d n))
      | inr (old, e) ↦
          let n : expiry t k.event_digest ≡ some old.expires_at = ground (arith, f, e) in
          elim (Bool-cases (is_expired now old)) [
            | inl x ↦ (
              ground (arith, e, n, x),
              λ d. ground (arith, e, n, x, expiry-update t k d, same_iff k.event_digest d),
            )
            | inr x ↦ (ground (arith, e, n, x), λ d. ground (arith, e, n, x))
          ]
    ]

-- For a valid digest: the event is accepted exactly if the digest's window is not open; then the
-- window is open for one hour from now, and the windows of the other digests stay. Otherwise no
-- window changes.
pub record_webhook_event-window :
    (d : Text) (now : Time) (t : List EventKey)
    → is_digest d ≡ true
    → (r : EventDecision) × ((record_webhook_event d now t).0 ≡ ok r)
      × (r.is_accepted ≡ not (is_open now (expiry t d)))
      × ((d' : Text)
          → expiry (record_webhook_event d now t).1 d'
            ≡ (if same d d' && r.is_accepted then some (now + event_ttl) else expiry t d'))
unfolding record_webhook_event
record_webhook_event-window d now t v =
    let r = upsert now (event_key d now) t in
    let (a, h) = upsert-expiry now (event_key d now) t in
    let b : (decision r.0).is_accepted ≡ not (is_open now (expiry t d)) = ground (arith, a) in
    (decision r.0, rw v refl, b, λ d'. rw (v, b) (h d'))
