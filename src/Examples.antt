-- ===== src/Examples.antt =====
-- Concrete inputs for the theorems on the cycles, and what the operations do on them.
mod Leases
mod MediaCalls
mod Waiting
mod Snapshot
mod Work
mod Failures
mod Requests
mod Events
mod Processing
use cai_central_de_atendimen.Base.{
  ℕ, ◌+◌, ◌≤◌, ◌<◌, ◌≡◌, refl, Bool, true, false, Option, none, some, List, [], ◌∷◌, arith,
}
use mathlib.Core.List.{Memᴰ}
use cai_central_de_atendimen.Base.Errors.{ok}
use cai_central_de_atendimen.Base.Lists.{All, find, length, any, all}
use cai_central_de_atendimen.Base.Tables.{update, pairwise, first_by, order_by}
use cai_central_de_atendimen.Base.Texts.{Text, text, same, strip, lstrip, is_space}
use cai_central_de_atendimen.Cycle.Row.{Cycle, Time, completed, retryable_failure, pending}
use cai_central_de_atendimen.Cycle.Schema.{conforms, compatible, row_ok, nonblank, zero_uuid}
use cai_central_de_atendimen.Cycle.Admission.{
  OpenEvent, CloseEvent, blank_row, normalize_contact, create_open_cycle, close_cycle, opened_row,
  closed_row, close_row, has_open_key, has_close_key, is_open_in, last_sequence, unsafe_character,
}
use cai_central_de_atendimen.Cycle.Admission.Opening.{IsOpenable}
use cai_central_de_atendimen.Cycle.Admission.Opened.{
  IsOpened, create_open_cycle_total, create_open_cycle_redelivery,
}
use cai_central_de_atendimen.Cycle.Admission.Closing.{IsClosable}
use cai_central_de_atendimen.Cycle.Admission.Closed.{
  IsClosed, close_cycle_total, close_cycle_redelivery,
}
use cai_central_de_atendimen.Cycle.Admission.Isolation.{
  others, others-create_open_cycle, others-close_cycle,
}
use cai_central_de_atendimen.Cycle.Admission.Contact.{normalize_contact-IsSafe}

-- a ticket of another conversation, and an open one of the conversation "t1"
abbrev other_cycle : Cycle
other_cycle = record (blank_row 1 (text "u1") (text "t0") 1 (text "w") 10) {
  open_event_key = some (text "o0");
}

abbrev open_cycle : Cycle
open_cycle = record (blank_row 2 (text "u2") (text "t1") 1 (text "w") 11) {
  open_event_key = some (text "o1");
  cycle_started_at = some 5;
}

abbrev open_event : OpenEvent
open_event = record {
  conversation_id = text "t1";
  started_at = some 5;
  open_event_key = text "o1";
  start_strategy = text "w";
  contact_external_id = some (text " c9 ");
}

abbrev close_event : CloseEvent
close_event = record {
  conversation_id = text "t1";
  closed_at = some 90;
  close_event_key = text "k1";
  protocol = text "p";
  fallback_start_strategy = text "f";
  contact_external_id = some (text " c9 ");
}

accepted_example : normalize_contact (some (text " c9 ")) ≡ ok (some (text "c9"))
unfolding normalize_contact strip lstrip is_space
accepted_example = refl

one-conforms : conforms (other_cycle ∷ []) ≡ true
unfolding conforms pairwise row_ok nonblank same is_space
one-conforms = refl

two-conforms : conforms (other_cycle ∷ open_cycle ∷ []) ≡ true
unfolding conforms compatible pairwise row_ok nonblank same is_space
two-conforms = refl

openable : IsOpenable 2 (text "u2") open_event (other_cycle ∷ [])
unfolding same nonblank is_space
openable = record {
  valid = one-conforms;
  fresh = (record { fresh_id = refl; fresh_uuid = refl }, tt);
  uuid_ok = refl;
  key_ok = refl;
  strategy_ok = refl;
}

closable : IsClosable 3 (text "u3") close_event (other_cycle ∷ open_cycle ∷ [])
unfolding same nonblank is_space
closable = record {
  valid = two-conforms;
  fresh = (
    record { fresh_id = refl; fresh_uuid = refl },
    (record { fresh_id = refl; fresh_uuid = refl }, tt),
  );
  uuid_ok = refl;
  key_ok = refl;
  strategy_ok = refl;
}

create_open_cycle_total_example :
    (c : Cycle) × (created : Bool) × IsOpened open_event
      (create_open_cycle 2 (text "u2") 11 open_event (other_cycle ∷ []))
      c
      created
create_open_cycle_total_example =
    create_open_cycle_total 11 open_event openable accepted_example refl

abbrev new_cycle : Cycle
new_cycle = record open_cycle { digisac_contact_external_id = some (text "c9") }

created_example :
    (create_open_cycle 2 (text "u2") 11 open_event (other_cycle ∷ [])).0 ≡ ok (new_cycle, true)
unfolding create_open_cycle normalize_contact strip lstrip is_space conforms compatible pairwise
    row_ok nonblank same last_sequence opened_row find has_open_key is_open_in
created_example = refl

create_open_cycle_redelivery_example :
    create_open_cycle 3
      (text "u3")
      12
      open_event
      (create_open_cycle 2 (text "u2") 11 open_event (other_cycle ∷ [])).1
    ≡ (ok (new_cycle, false), (create_open_cycle 2 (text "u2") 11 open_event (other_cycle ∷ [])).1)
create_open_cycle_redelivery_example =
    create_open_cycle_redelivery 11 open_event openable accepted_example refl created_example 3
      (text "u3") 12

close_cycle_total_example :
    (c : Cycle) × (created : Bool) × IsClosed close_event
      (close_cycle 3 (text "u3") 95 30 close_event (other_cycle ∷ open_cycle ∷ []))
      c
      created
close_cycle_total_example = close_cycle_total 95 30 close_event closable accepted_example refl

abbrev closed_cycle : Cycle
closed_cycle = record open_cycle {
  protocol = some (text "p");
  ticket_closed_at = some 90;
  close_event_key = some (text "k1");
  status = pending;
  digisac_contact_external_id = some (text "c9");
  next_attempt_at = some 125;
  updated_at = 95;
}

returned_example :
    (close_cycle 3 (text "u3") 95 30 close_event (other_cycle ∷ open_cycle ∷ [])).0
    ≡ ok (closed_cycle, true)
unfolding close_cycle normalize_contact strip lstrip is_space conforms compatible pairwise row_ok
    nonblank same last_sequence close_row closed_row find has_close_key is_open_in
returned_example = refl

close_cycle_redelivery_example :
    close_cycle 4
      (text "u4")
      99
      30
      close_event
      (close_cycle 3 (text "u3") 95 30 close_event (other_cycle ∷ open_cycle ∷ [])).1
    ≡ (
      ok (closed_cycle, false),
      (close_cycle 3 (text "u3") 95 30 close_event (other_cycle ∷ open_cycle ∷ [])).1,
    )
close_cycle_redelivery_example =
    close_cycle_redelivery 95 30 close_event closable accepted_example refl returned_example 4
      (text "u4") 99 30
