-- ===== src/Events/Ledger/Calls.antt =====
-- Any sequence of statements on the ledger: deliveries of events, cleanups and hand-overs.
use cai_central_de_atendimen.Base.{ℕ, ◌≡◌, Bool, true, not, List, [], ◌∷◌, arith}
use cai_central_de_atendimen.Base.Texts.{Text}
use cai_central_de_atendimen.Cycle.Row.{Time}
use cai_central_de_atendimen.Events.Ledger.{
  EventKey, event_key, ledger_ok, is_in, expired_batch, record_webhook_event, import_legacy,
  cleanup_expired,
}
use cai_central_de_atendimen.Events.Ledger.Schema.{
  select-ledger_ok, upsert-ledger_ok, import_entries-ledger_ok,
}

pub data EventCall : Type 0 where
  deliver : Text → Time → EventCall
  clean : ℕ → Time → (EventKey → Bool) → EventCall
  hand_over : Time → Time → List (Text × ℕ) → EventCall

abbrev pub call_time : EventCall → Time
call_time (deliver d now) = now
call_time (clean n now skip) = now
call_time (hand_over captured_at now es) = now

unfoldable pub perform_event : EventCall → List EventKey → List EventKey
perform_event (deliver d now) t = (record_webhook_event d now t).1
perform_event (clean n now skip) t = (cleanup_expired n now skip t).1
perform_event (hand_over captured_at now es) t = (import_legacy captured_at now es t).1

unfoldable pub perform_events : List EventCall → List EventKey → List EventKey
perform_events [] t = t
perform_events (c ∷ cs) t = perform_events cs (perform_event c t)

pub perform_event-ledger_ok :
    (c : EventCall) (t : List EventKey) → ledger_ok t ≡ true → ledger_ok (perform_event c t) ≡ true
unfolding perform_event
perform_event-ledger_ok (deliver d now) t h =
    unfold record_webhook_event in ground (arith, h, upsert-ledger_ok now (event_key d now) t)
perform_event-ledger_ok (clean n now skip) t h =
    unfold cleanup_expired in
    ground (arith, h, select-ledger_ok (λ k. not (is_in (expired_batch n now skip t) k)) t h)
perform_event-ledger_ok (hand_over c now es) t h =
    unfold import_legacy in ground (arith, h, import_entries-ledger_ok c now es t)

-- Whatever events are delivered, with valid digests or not, whatever is cleaned up or handed over:
-- a ledger that meets the constraints of its table (distinct valid digests, an expiry after the
-- first sight) still meets them, so no statement is refused for a constraint.
pub perform_events-ledger_ok :
    (cs : List EventCall) (t : List EventKey)
    → ledger_ok t ≡ true
    → ledger_ok (perform_events cs t) ≡ true
unfolding perform_events
perform_events-ledger_ok [] t h = h
perform_events-ledger_ok (c ∷ cs) t h =
    perform_events-ledger_ok cs (perform_event c t) (perform_event-ledger_ok c t h)
