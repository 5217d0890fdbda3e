-- ===== src/Events/Assignments.antt =====
-- The tables `ticket_assignment_event_keys` and `ticket_assignment_history` (alembic/versions/0001),
-- and their statements. The timestamp of an event arrives parsed, `none` where parsing it raises.
pub mod Recording
pub mod Resolving
use cai_central_de_atendimen.Base.{
  ℕ, Bool, true, false, not, ◌&&◌, ◌||◌, Option, none, some, List, [], ◌∷◌, ◌++◌, ◌==◌, ltb,
  is_none, if◌then◌else◌,
}
use cai_central_de_atendimen.Base.Errors.{Result, ok, err, value_error}
use cai_central_de_atendimen.Base.Lists.{length, any, select}
use cai_central_de_atendimen.Base.Tables.{first_by, order_by}
use cai_central_de_atendimen.Base.Texts.{Text, same, same_some, strip, contains}
use cai_central_de_atendimen.Cycle.Row.{Time}

pub record AssignmentKey : Type 0 where
  pub event_key : Text
  pub conversation_id : Text
  pub created_at : Time

pub record Assignment : Type 0 where
  pub id : ℕ
  pub conversation_id : Text
  pub department_id : Option Text
  pub user_id : Option Text
  pub event_timestamp : Time
  pub source_event_id : Option Text
  pub event_key : Text
  pub ticket_transfer_count : Option ℕ
  pub created_at : Time

pub record Assignments : Type 0 where
  pub keys : List AssignmentKey
  pub history : List Assignment

pub record AssignmentEvent : Type 0 where
  pub conversation_id : Text
  pub department_id : Option Text
  pub user_id : Option Text
  pub event_timestamp : Option Time
  pub event_key : Text
  pub source_event_id : Option Text
  pub ticket_transfer_count : Option ℕ

-- Python's `==` on texts or None
abbrev pub same_option : Option Text → Option Text → Bool
same_option none none = true
same_option (some a) (some b) = same a b
same_option _ _ = false

abbrev pub is_key : Text → AssignmentKey → Bool
is_key key k = same k.event_key key

abbrev pub is_entry : Text → Assignment → Bool
is_entry key a = same a.event_key key

abbrev pub is_of : Text → Assignment → Bool
is_of conversation a = same a.conversation_id conversation

-- ORDER BY event_timestamp ASC, id ASC
abbrev pub earlier : Assignment → Assignment → Bool
earlier a b =
    ltb a.event_timestamp b.event_timestamp
    || a.event_timestamp == b.event_timestamp && not (ltb b.id a.id)

-- ORDER BY event_timestamp DESC, id DESC
abbrev pub later : Assignment → Assignment → Bool
later a b = earlier b a

abbrev pub is_repeated : AssignmentEvent → Option Assignment → Bool
is_repeated e none = false
is_repeated e (some a) =
    same_option a.department_id e.department_id && same_option a.user_id e.user_id

abbrev pub assignment : ℕ → Time → Time → AssignmentEvent → Assignment
assignment id now event_timestamp e = record {
  id = id;
  conversation_id = e.conversation_id;
  department_id = e.department_id;
  user_id = e.user_id;
  event_timestamp = event_timestamp;
  source_event_id = e.source_event_id;
  event_key = e.event_key;
  ticket_transfer_count = e.ticket_transfer_count;
  created_at = now;
}

abbrev pub assignment_key : Time → AssignmentEvent → AssignmentKey
assignment_key now e = record {
  event_key = e.event_key;
  conversation_id = e.conversation_id;
  created_at = now;
}

-- INSERT ... ON CONFLICT (event_key) DO NOTHING
unfoldable pub insert_assignment : Assignment → List Assignment → List Assignment
insert_assignment a t = if any (is_entry a.event_key) t then t else t ++ a ∷ []

-- the transaction after the key is stored, in `stored`; it is rolled back if it raises
unfoldable pub record_new :
    ℕ → Time → AssignmentEvent → Assignments → Assignments → Result Bool × Assignments
record_new id now e s stored =
    if is_repeated e (first_by later (is_of e.conversation_id) s.history)
    then (ok false, stored)
    else elim e.event_timestamp [
      | none ↦ (err value_error, s)
      | some t ↦
          (ok true, record stored { history = insert_assignment (assignment id now t e) s.history })
    ]

-- `_record_ticket_assignment_sync`
unfoldable pub record_ticket_assignment :
    ℕ → Time → AssignmentEvent → Assignments → Result Bool × Assignments
record_ticket_assignment id now e s =
    if is_none e.department_id && is_none e.user_id
    then (ok false, s)
    else if any (is_key e.event_key) s.keys
    then (ok false, s)
    else record_new id now e s (record s { keys = s.keys ++ assignment_key now e ∷ [] })

-- the names of the directory: `none` if the id is null or has no row
abbrev pub name_for : (Text → Option Text) → Option Text → Option Text
name_for names none = none
name_for names (some id) = names id

pub record Resolved : Type 0 where
  pub names : List Text
  pub unresolved : List Text

abbrev pub add_new : Text → List Text → List Text
add_new x seen = if contains seen x then seen else seen ++ x ∷ []

unfoldable pub nonblank : Option Text → Option Text
nonblank none = none
nonblank (some t) = if length (strip t) == 0 then none else some (strip t)

-- `elif id and id not in seen`
unfoldable pub nonempty : Option Text → Option Text
nonempty none = none
nonempty (some t) = if length t == 0 then none else some t

-- the branches of the loop, on a name that is not blank and an id that is not empty
abbrev pub put : Option Text → Option Text → Resolved → Resolved
put (some n) i r = record r { names = add_new n r.names }
put none (some i) r = record r { unresolved = add_new i r.unresolved }
put none none r = r

-- one id of one row of the loop, with its name
unfoldable pub resolve_one : Option Text → Option Text → Resolved → Resolved
resolve_one id name r = put (nonblank name) (nonempty id) r

-- the loop over the rows; the first component is for departments, the second for users
unfoldable pub resolve_rows :
    (Text → Option Text)
    → (Text → Option Text)
    → List Assignment
    → Resolved × Resolved
    → Resolved × Resolved
resolve_rows departments users [] r = r
resolve_rows departments users (a ∷ rows) r = resolve_rows departments users rows (
  resolve_one a.department_id (name_for departments a.department_id) r.0,
  resolve_one a.user_id (name_for users a.user_id) r.1,
)

abbrev pub nothing_resolved : Resolved
nothing_resolved = record { names = []; unresolved = [] }

-- `_resolve_ticket_assignments_sync`
unfoldable pub resolve_ticket_assignments :
    (Text → Option Text) → (Text → Option Text) → Text → List Assignment → Resolved × Resolved
resolve_ticket_assignments departments users conversation history =
    resolve_rows departments users (order_by earlier (select (is_of conversation) history))
      (nothing_resolved, nothing_resolved)
