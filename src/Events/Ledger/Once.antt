-- ===== src/Events/Ledger/Once.antt =====
-- The promise of the ledger to the webhook: within one hour an event is accepted once.
use cai_central_de_atendimen.Base.{
  ℕ, ◌+◌, ◌<◌, ◌≡◌, refl, ◌∙◌, true, false, not, some, List, [], ◌∷◌, lt→ltb, arith, inl, inr,
  Bool-cases,
}
use cai_central_de_atendimen.Base.Errors.{ok}
use cai_central_de_atendimen.Base.Lists.{All, All-mono}
use cai_central_de_atendimen.Base.Texts.{Text, same, same_iff, same_refl}
use cai_central_de_atendimen.Cycle.Row.{Time}
use cai_central_de_atendimen.Events.Ledger.{
  EventKey, EventDecision, is_digest, event_ttl, event_key, legacy_key, upsert, ledger_ok,
  record_webhook_event, import_legacy, import_entries,
}
use cai_central_de_atendimen.Events.Ledger.Windows.{
  expiry, is_open, upsert-expiry, record_webhook_event-window,
}
use cai_central_de_atendimen.Events.Ledger.Cleanup.{cleanup_expired-expiry}
use cai_central_de_atendimen.Events.Ledger.Calls.{
  EventCall, deliver, clean, hand_over, call_time, perform_event, perform_events,
  perform_event-ledger_ok,
}

upsert_open :
    (now : Time) (k : EventKey) (t : List EventKey) (d : Text)
    → is_open now (expiry t d) ≡ true
    → expiry (upsert now k t).1 d ≡ expiry t d
upsert_open now k t d o =
    let h = (upsert-expiry now k t).1 d in
    elim (Bool-cases (same k.event_digest d)) [
      | inl e ↦
          let eq : k.event_digest ≡ d = (same_iff _ _).0 e in
          let o' : is_open now (expiry t k.event_digest) ≡ true = rw eq o in ground (arith, h, o')
      | inr e ↦ ground (arith, h, e)
    ]

import_open :
    (captured_at now : Time) (es : List (Text × ℕ)) (t : List EventKey) (d : Text)
    → is_open now (expiry t d) ≡ true
    → expiry (import_entries captured_at now es t).1 d ≡ expiry t d
unfolding import_entries
import_open c now [] t d o = refl
import_open c now ((e, ttl) ∷ es) t d o =
    let k = legacy_key c e ttl in
    let h = upsert_open now k t d o in import_open c now es (upsert now k t).1 d (rw h o) ∙ h

perform_event-open :
    (c : EventCall) (t : List EventKey) (d : Text)
    → ledger_ok t ≡ true
    → is_open (call_time c) (expiry t d) ≡ true
    → expiry (perform_event c t) d ≡ expiry t d
unfolding perform_event
perform_event-open (deliver e now) t d h o =
    unfold record_webhook_event in ground (arith, upsert_open now (event_key e now) t d o)
perform_event-open (clean n now skip) t d h o = cleanup_expired-expiry n now skip t d h o
perform_event-open (hand_over c now es) t d h o =
    unfold import_legacy in ground (arith, import_open c now es t d o)

-- a window stays as it is until it closes
perform_events-open :
    (cs : List EventCall) (t : List EventKey) (d : Text)
    → ledger_ok t ≡ true
    → All (λ c. is_open (call_time c) (expiry t d) ≡ true) cs
    → expiry (perform_events cs t) d ≡ expiry t d
unfolding perform_events
perform_events-open [] t d h o = refl
perform_events-open (c ∷ cs) t d h o =
    let k = perform_event-open c t d h o.0 in
    perform_events-open cs (perform_event c t) d (perform_event-ledger_ok c t h) (rw k o.1) ∙ k

accepted_digest :
    (d : Text) (now : Time) (t : List EventKey) (r : EventDecision)
    → (record_webhook_event d now t).0 ≡ ok r
    → is_digest d ≡ true
unfolding record_webhook_event
accepted_digest d now t r e = ground (arith, e)

delivered_ok :
    (d : Text) (now : Time) (t : List EventKey)
    → ledger_ok t ≡ true
    → ledger_ok (record_webhook_event d now t).1 ≡ true
unfolding perform_event
delivered_ok d now t h = perform_event-ledger_ok (deliver d now) t h

opened :
    (d : Text) (now : Time) (t : List EventKey) (r : EventDecision)
    → (record_webhook_event d now t).0 ≡ ok r
    → r.is_accepted ≡ true
    → expiry (record_webhook_event d now t).1 d ≡ some (now + event_ttl)
opened d now t r e a =
    let (r', b, c, h) = record_webhook_event-window d now t (accepted_digest d now t r e) in
    let k : r' ≡ r = cc in
    let c' : r.is_accepted ≡ not (is_open now (expiry t d)) = rw (← k) c in
    let k' = h d in ground (arith, k, k', same_refl d, c', a)

-- If an event is accepted, then whatever follows in the hour (deliveries of this and of other
-- events, cleanups, hand-overs), a delivery of the same event within the hour is a duplicate. The
-- ledger meets the constraints of its table.
pub record_webhook_event-once :
    (d : Text) (first : Time) (t : List EventKey) (r : EventDecision)
    → ledger_ok t ≡ true
    → (record_webhook_event d first t).0 ≡ ok r
    → r.is_accepted ≡ true
    → (cs : List EventCall) → All (λ c. call_time c < first + event_ttl) cs
    → (now : Time) → now < first + event_ttl
    → (r' : EventDecision) × ((record_webhook_event d now
          (perform_events cs (record_webhook_event d first t).1)).0
        ≡ ok r')
      × (r'.is_accepted ≡ false)
record_webhook_event-once d first t r h e a cs q now l =
    let v : is_digest d ≡ true = accepted_digest d first t r e in
    let after = (record_webhook_event d first t).1 in
    let w : expiry after d ≡ some (first + event_ttl) = opened d first t r e a in
    let same_window =
      perform_events-open cs after d (delivered_ok d first t h)
        (All-mono _ _ (λ c k. rw w (lt→ltb _ _ k)) cs q) in
    let (r', b, c, _) = record_webhook_event-window d now (perform_events cs after) v in
    (r', b, ground (arith, c, same_window, w, l))
