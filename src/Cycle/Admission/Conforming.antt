-- ===== src/Cycle/Admission/Conforming.antt =====
-- The code's own guards keep the table of cycles within the database's constraints.
use cai_central_de_atendimen.Base.{
  ℕ, ◌≤◌, true, false, Option, some, List, [], ◌∷◌, ◌==◌, ◌≡◌, arith, Bool-cases, inl, inr,
}
use cai_central_de_atendimen.Base.Lists.{All, All-mono}
use cai_central_de_atendimen.Base.Texts.{Text, same, same_some_comm}
use cai_central_de_atendimen.Base.Tables.{set_where}
use cai_central_de_atendimen.Cycle.Row.{Cycle, Time}
use cai_central_de_atendimen.Cycle.Schema.{compatible}
use cai_central_de_atendimen.Cycle.Admission.{
  last_sequence, OpenEvent, CloseEvent, close_row, opened_row, closed_row, is_open_in,
  has_close_key, has_open_key,
}

-- sequence numbers of a conversation stay at most its last
pub last_sequence-le :
    (conversation : Text) (rows : List Cycle)
    → All
        (λ c.
          same c.conversation_id conversation ≡ true
          → c.sequence_number ≤ last_sequence conversation rows)
        rows
unfolding last_sequence
last_sequence-le conversation [] = tt
last_sequence-le conversation (c ∷ rows) = (
  (λ h. ground arith),
  All-mono _ _ (λ x k h. ground (arith, k h)) rows (last_sequence-le conversation rows),
)

-- closing the open row of a conversation keeps it compatible with the others
pub close_row-compatible :
    (now : Time) (delay : ℕ) (e : CloseEvent) (closed : Time) (contact : Option Text) (id : ℕ)
    (a b : Cycle)
    → has_close_key e.close_event_key a ≡ false
    → has_close_key e.close_event_key b ≡ false
    → compatible a b ≡ true
    → compatible
        (set_where (λ r. r.id == id) (close_row now delay e closed contact) a)
        (set_where (λ r. r.id == id) (close_row now delay e closed contact) b)
      ≡ true
unfolding compatible close_row has_close_key
close_row-compatible now delay e closed contact id a b ha hb h = elim (Bool-cases (a.id == id)) [
  | inl p ↦ elim (Bool-cases (b.id == id)) [
    | inl q ↦ ground arith
    | inr q ↦ rw (p, q) (ground (arith, same_some_comm (some e.close_event_key) b.close_event_key))
  ]
  | inr p ↦ elim (Bool-cases (b.id == id)) [
    | inl q ↦ rw (p, q) (ground arith)
    | inr q ↦ rw (p, q) h
  ]
]

-- the identity and the UUID of a new row are not those of a row of the table
pub record IsFresh (id : ℕ) (uuid : Text) (c : Cycle) : Type 0 where
  pub fresh_id : (c.id == id) ≡ false
  pub fresh_uuid : same c.public_id uuid ≡ false

module _ (id : ℕ) (uuid : Text) (now : Time) (rows : List Cycle) (c : Cycle)
    (f : IsFresh id uuid c) where
  -- the new row of an open event is compatible with every row of the table
  pub opened_row-compatible :
      (e : OpenEvent) (started : Time) (contact : Option Text)
      → has_open_key e.open_event_key c ≡ false
      → is_open_in e.conversation_id c ≡ false
      → (same c.conversation_id e.conversation_id ≡ true
          → c.sequence_number ≤ last_sequence e.conversation_id rows)
      → compatible c (opened_row id uuid now e started contact rows) ≡ true
  unfolding compatible opened_row has_open_key is_open_in
  opened_row-compatible e started contact k o s = ground (arith, f.fresh_id, f.fresh_uuid)

  -- and so is the row of a close event with no open event
  pub closed_row-compatible :
      (delay : ℕ) (e : CloseEvent) (closed : Time) (contact : Option Text)
      → has_close_key e.close_event_key c ≡ false
      → (same c.conversation_id e.conversation_id ≡ true
          → c.sequence_number ≤ last_sequence e.conversation_id rows)
      → compatible c (closed_row id uuid now delay e closed contact rows) ≡ true
  unfolding compatible closed_row has_close_key
  closed_row-compatible delay e closed contact k s = ground (arith, f.fresh_id, f.fresh_uuid)
