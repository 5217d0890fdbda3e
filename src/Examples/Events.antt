-- ===== src/Examples/Events.antt =====
-- Concrete webhook events and ticket assignments.
use cai_central_de_atendimen.Base.{
  ◌+◌, ◌≡◌, refl, true, false, not, ◌&&◌, Option, none, some, List, [], ◌∷◌, ◌++◌, if◌then◌else◌,
  arith, min,
}
use cai_central_de_atendimen.Base.Errors.{ok}
use cai_central_de_atendimen.Base.Lists.{count_where, find}
use cai_central_de_atendimen.Base.Tables.{pairwise, first_by, order_by}
use cai_central_de_atendimen.Base.Texts.{Text, text, same}
use cai_central_de_atendimen.Events.Ledger.{
  EventKey, EventDecision, is_digest, is_expired, ledger_ok, event_key, event_ttl, CleanupReport,
  record_webhook_event, cleanup_expired, count_expired, upsert, decision, inserted,
}
use cai_central_de_atendimen.Events.Ledger.Windows.{expiry, is_open, record_webhook_event-window}
use cai_central_de_atendimen.Events.Ledger.Calls.{
  EventCall, deliver, clean, hand_over, perform_events, perform_events-ledger_ok,
}
use cai_central_de_atendimen.Events.Ledger.Once.{record_webhook_event-once}
use cai_central_de_atendimen.Events.Ledger.Counts.{cleanup_expired-report}
use cai_central_de_atendimen.Events.Assignments.{
  Assignment, Assignments, AssignmentEvent, assignment, record_ticket_assignment, record_new,
  resolve_ticket_assignments,
}
use cai_central_de_atendimen.Events.Assignments.Recording.{record_ticket_assignment-redelivery}
use cai_central_de_atendimen.Events.Assignments.Resolving.{
  column_of, assigned, resolve_ticket_assignments_unique,
}

abbrev sixteen : Text → Text
sixteen t = t ++ (t ++ (t ++ t))

abbrev digest_a : Text
digest_a = sixteen (sixteen (text "0a1b"))

abbrev digest_b : Text
digest_b = sixteen (sixteen (text "ffee"))

abbrev ledger : List EventKey
ledger = event_key digest_b 0 ∷ []

ledger-holds : ledger_ok ledger ≡ true
unfolding ledger_ok is_digest pairwise
ledger-holds = refl

digest_a-holds : is_digest digest_a ≡ true
unfolding is_digest
digest_a-holds = refl

abbrev three_calls : List EventCall
three_calls =
    deliver digest_a 11
    ∷ clean 5 3600000001 (λ k. false)
    ∷ hand_over 12 12 ((digest_a, 60) ∷ [])
    ∷ []

record_webhook_event-window_example :
    (r : EventDecision) × ((record_webhook_event digest_a 10 ledger).0 ≡ ok r)
    × (r.is_accepted ≡ not (is_open 10 (expiry ledger digest_a)))
    × ((d : Text)
        → expiry (record_webhook_event digest_a 10 ledger).1 d
          ≡ (if same digest_a d && r.is_accepted then some (10 + event_ttl) else expiry ledger d))
record_webhook_event-window_example = record_webhook_event-window digest_a 10 ledger digest_a-holds

perform_events-ledger_ok_example : ledger_ok (perform_events three_calls ledger) ≡ true
perform_events-ledger_ok_example = perform_events-ledger_ok three_calls ledger ledger-holds

first_accepted : (record_webhook_event digest_a 10 ledger).0 ≡ ok (decision inserted)
unfolding record_webhook_event upsert is_digest same find
first_accepted = refl

record_webhook_event-once_example :
    (r : EventDecision) × ((record_webhook_event digest_a 3600000009
        (perform_events three_calls (record_webhook_event digest_a 10 ledger).1)).0
      ≡ ok r)
    × (r.is_accepted ≡ false)
record_webhook_event-once_example =
    record_webhook_event-once digest_a 10 ledger (decision inserted) ledger-holds first_accepted
      refl three_calls (omega arith, (omega arith, (omega arith, tt))) 3600000009 (omega arith)

cleanup_expired-report_example :
    (r : CleanupReport) × ((cleanup_expired 5 3600000001 (λ k. false) ledger).0 ≡ ok r)
    × (r.removed_count ≡ min 5 (count_where (λ k. is_expired 3600000001 k && not false) ledger))
    × (r.after_count + r.removed_count ≡ count_expired 3600000001 ledger)
    × (r.after_count
        ≡ count_expired 3600000001 (cleanup_expired 5 3600000001 (λ k. false) ledger).1)
    × ((d : Text)
        → is_open 3600000001 (expiry ledger d) ≡ true
        → expiry (cleanup_expired 5 3600000001 (λ k. false) ledger).1 d ≡ expiry ledger d)
cleanup_expired-report_example =
    cleanup_expired-report 5 3600000001 (λ k. false) ledger (omega arith) (omega arith) ledger-holds

abbrev no_assignments : Assignments
no_assignments = record { keys = []; history = [] }

abbrev moved : AssignmentEvent
moved = record {
  conversation_id = text "c7";
  department_id = some (text "d1");
  user_id = none;
  event_timestamp = some 30;
  event_key = text "k1";
  source_event_id = none;
  ticket_transfer_count = some 1;
}

moved_recorded : (record_ticket_assignment 1 40 moved no_assignments).0 ≡ ok true
unfolding record_ticket_assignment record_new first_by order_by
moved_recorded = refl

record_ticket_assignment-redelivery_example :
    record_ticket_assignment 2 50 moved (record_ticket_assignment 1 40 moved no_assignments).1
    ≡ (ok false, (record_ticket_assignment 1 40 moved no_assignments).1)
record_ticket_assignment-redelivery_example =
    record_ticket_assignment-redelivery 1 40 moved no_assignments refl true moved_recorded 2 50
      moved refl

abbrev names : Text → Option Text
names id = if same id (text "d1") then some (text " Fiscal ") else none

abbrev two_moves : List Assignment
two_moves =
    assignment 1 40 30 moved
    ∷ assignment 2 50 35
        (record moved { department_id = some (text "d2"); user_id = some (text "u1") })
    ∷ []

resolve_ticket_assignments_unique_example :
    resolve_ticket_assignments names (λ id. none) (text "c7") two_moves ≡ (
      column_of names (λ a. a.department_id) (assigned (text "c7") two_moves),
      column_of (λ id. none) (λ a. a.user_id) (assigned (text "c7") two_moves),
    )
resolve_ticket_assignments_unique_example =
    resolve_ticket_assignments_unique names (λ id. none) (text "c7") two_moves
