-- ===== src/Cycle/Messages.antt =====
-- `save_cycle_messages`: the table `conversation_cycle_messages`, which says which cycle a message
-- belongs to. The statement locks the cycle, and a call is a function of the table.
pub mod Ownership
use cai_central_de_atendimen.Base.{
  ℕ, ◌+◌, Bool, true, false, not, ◌&&◌, Option, none, some, List, [], ◌∷◌, ◌++◌, ◌==◌,
  if◌then◌else◌,
}
use cai_central_de_atendimen.Base.Errors.{Result, ok, err, lookup_error, integrity_error, ◌>>=◌}
use cai_central_de_atendimen.Base.Lists.{find, select}
use cai_central_de_atendimen.Base.Tables.{update}
use cai_central_de_atendimen.Base.Texts.{Text, same}
use cai_central_de_atendimen.Cycle.Row.{Cycle, Time}
use cai_central_de_atendimen.Cycle.Schema.{nonblank}
use cai_central_de_atendimen.Cycle.Admission.{cycle_row}

pub record CycleMessage : Type 0 where
  pub cycle_id : ℕ
  pub message_id : Text
  pub position : ℕ
  pub message_type : Text
  pub message_timestamp : Time
  pub created_at : Time

-- what the code reads of a message of the snapshot
pub record SnapshotMessage : Type 0 where
  pub message_id : Text
  pub type : Text
  pub timestamp : Time

-- the table, and the two lists of the result, last entry first
pub record Saved : Type 0 where
  pub table : List CycleMessage
  pub accepted : List Text
  pub conflicts : List Text

abbrev pub is_of : ℕ → CycleMessage → Bool
is_of cycle_id r = r.cycle_id == cycle_id

abbrev pub is_message : Text → CycleMessage → Bool
is_message id r = same r.message_id id

abbrev pub new_message : ℕ → ℕ → Time → SnapshotMessage → CycleMessage
new_message cycle_id position now m = record {
  cycle_id = cycle_id;
  message_id = m.message_id;
  position = position;
  message_type = m.type;
  message_timestamp = m.timestamp;
  created_at = now;
}

-- DO UPDATE SET
abbrev pub reposition : ℕ → SnapshotMessage → CycleMessage → CycleMessage
reposition position m r = record r {
  position = position;
  message_type = m.type;
  message_timestamp = m.timestamp;
}

abbrev pub is_conflicting : ℕ → SnapshotMessage → CycleMessage → Bool
is_conflicting cycle_id m r = is_of cycle_id r && is_message m.message_id r

-- INSERT ... ON CONFLICT (cycle_id, message_id) DO UPDATE, for a message of no other cycle
unfoldable pub upsert_message :
    ℕ → ℕ → Time → SnapshotMessage → List CycleMessage → List CycleMessage
upsert_message cycle_id position now m rows = elim (find (is_message m.message_id) rows) [
  | none ↦ rows ++ new_message cycle_id position now m ∷ []
  | some r ↦ update (is_conflicting cycle_id m) (reposition position m) rows
]

-- the CHECK constraints on the message's id and type
unfoldable pub is_storable : SnapshotMessage → Bool
is_storable m = nonblank m.message_id && nonblank m.type

abbrev pub accept : ℕ → ℕ → Time → SnapshotMessage → Saved → Saved
accept cycle_id position now m s = record {
  table = upsert_message cycle_id position now m s.table;
  accepted = m.message_id ∷ s.accepted;
  conflicts = s.conflicts;
}

abbrev pub store : ℕ → ℕ → Time → SnapshotMessage → Saved → Result Saved
store cycle_id position now m s =
    if is_storable m then ok (accept cycle_id position now m s) else err integrity_error

abbrev pub refuse : SnapshotMessage → Saved → Saved
refuse m s = record s { conflicts = m.message_id ∷ s.conflicts }

-- one round of the loop: `owner is not None and int(owner[0]) != cycle_id`
unfoldable pub save_message : ℕ → ℕ → Time → SnapshotMessage → Saved → Result Saved
save_message cycle_id position now m s = elim (find (is_message m.message_id) s.table) [
  | none ↦ store cycle_id position now m s
  | some owner ↦ if is_of cycle_id owner then store cycle_id position now m s else ok (refuse m s)
]

unfoldable pub save_messages : ℕ → ℕ → Time → List SnapshotMessage → Saved → Result Saved
save_messages cycle_id position now [] s = ok s
save_messages cycle_id position now (m ∷ ms) s =
    save_message cycle_id position now m s >>= save_messages cycle_id (position + 1) now ms

-- a broken constraint raises, and rolls the transaction back
unfoldable pub save_cycle_messages :
    Text → List SnapshotMessage → Time → List Cycle → List CycleMessage → Result Saved
save_cycle_messages public_id messages now cycles rows = elim (cycle_row public_id cycles) [
  | none ↦ err lookup_error
  | some c ↦
      save_messages c.id 0 now messages
        (record { table = select (λ r. not (is_of c.id r)) rows; accepted = []; conflicts = [] })
]
