-- ===== src/Events/Assignments/Recording.antt =====
-- What recording an assignment does to the history.
use cai_central_de_atendimen.Base.{
  ℕ, ◌≡◌, ◌⊎◌, Bool, true, false, ◌&&◌, List, [], ◌∷◌, ◌++◌, is_none, arith, none, some, ◌≤◌,
}
use mathlib.Core.List.{Memᴰ}
use cai_central_de_atendimen.Base.Errors.{Result, ok, err, value_error}
use cai_central_de_atendimen.Base.Lists.{All, any, any-append}
use cai_central_de_atendimen.Base.Texts.{same_refl}
use cai_central_de_atendimen.Cycle.Row.{Time}
use cai_central_de_atendimen.Events.Assignments.{
  Assignment, Assignments, AssignmentEvent, is_key, is_entry, assignment, assignment_key,
  record_new, record_ticket_assignment,
}

-- the foreign key of the history: every entry's key is stored
abbrev pub IsKeyed : Assignments → Type 0
IsKeyed s = All (λ a. any (is_key a.event_key) s.keys ≡ true) s.history

-- an entry of the conversation, none of whose entries has a greater time
abbrev pub IsLatest : AssignmentEvent → List Assignment → Assignment → Type 0
IsLatest e history a =
    Memᴰ a history
    × (a.conversation_id ≡ e.conversation_id)
    × All (λ b. b.conversation_id ≡ e.conversation_id → b.event_timestamp ≤ a.event_timestamp)
        history

abbrev pub SaysSame : AssignmentEvent → Assignment → Type 0
SaysSame e a = (a.department_id ≡ e.department_id) × (a.user_id ≡ e.user_id)

-- the event has its entry, at its own time, at the end of the history
pub record IsAdded (id : ℕ) (now : Time) (e : AssignmentEvent) (s : Assignments)
    (r : Result Bool × Assignments) : Type 0 where
  pub time : Time
  pub given : e.event_timestamp ≡ some time
  pub returned : r.0 ≡ ok true
  pub history : r.1.history ≡ s.history ++ assignment id now time e ∷ []
  pub is_named : (is_none e.department_id && is_none e.user_id) ≡ false
  pub is_new : any (is_key e.event_key) s.keys ≡ false
  pub differs :
      All (λ b. b.conversation_id ≡ e.conversation_id → ⊥) s.history
      ⊎ ((a : Assignment) × IsLatest e s.history a × (SaysSame e a → ⊥))

-- nothing is added, and why
pub record IsRefused (e : AssignmentEvent) (s : Assignments) (r : Result Bool × Assignments)
    : Type 0 where
  pub history : r.1.history ≡ s.history
  pub reason :
      ((r.0 ≡ ok false)
        × (((e.department_id ≡ none) × (e.user_id ≡ none))
            ⊎ ((any (is_key e.event_key) s.keys ≡ true)
                ⊎ ((a : Assignment) × IsLatest e s.history a × SaysSame e a))))
      ⊎ ((r.0 ≡ err value_error) × (e.event_timestamp ≡ none) × (r.1 ≡ s))

module _ (id : ℕ) (now : Time) (e : AssignmentEvent) (s stored : Assignments)
    (named : (is_none e.department_id && is_none e.user_id) ≡ false)
    (unknown : any (is_key e.event_key) s.keys ≡ false)
    (fresh : any (is_entry e.event_key) s.history ≡ false) (kept : stored.history ≡ s.history) where
  abbrev Recording : Type 0
  Recording =
      IsAdded id now e s (record_new id now e s stored)
      ⊎ IsRefused e s (record_new id now e s stored)

-- A redelivery of an event that named a department or a user, after a recording that did not
-- raise, reports false and changes nothing, whatever else the second delivery says.
pub record_ticket_assignment-redelivery :
    (id : ℕ) (now : Time) (e : AssignmentEvent) (s : Assignments)
    → (is_none e.department_id && is_none e.user_id) ≡ false
    → (b : Bool) → (record_ticket_assignment id now e s).0 ≡ ok b
    → (id' : ℕ) (now' : Time) (e' : AssignmentEvent) → e'.event_key ≡ e.event_key
    → record_ticket_assignment id' now' e' (record_ticket_assignment id now e s).1
      ≡ (ok false, (record_ticket_assignment id now e s).1)
unfolding record_ticket_assignment record_new
record_ticket_assignment-redelivery id now e s n b h id' now' e' k =
    let stored : any (is_key e.event_key) (record_ticket_assignment id now e s).1.keys ≡ true =
      ground (
        arith,
        h,
        n,
        any-append (is_key e.event_key) s.keys (assignment_key now e ∷ []),
        same_refl e.event_key,
      ) in
    let stored' : any (is_key e'.event_key) (record_ticket_assignment id now e s).1.keys ≡ true =
      rw k stored in
    ground (arith, stored')
