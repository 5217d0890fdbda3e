-- ===== src/Cycle/Transition/Guards.antt =====
-- What `transition_cycle` does on each branch.
use cai_central_de_atendimen.Base.{
  Bool, true, false, ◌&&◌, none, some, List, [], ◌∷◌, if◌then◌else◌, ◌≡◌, refl, arith, Bool-cases,
  Option-cases, inl, inr, ap, ◌∙◌, and_left, and_right, and_intro,
}
use mathlib.Core.List.{Memᴰ}
use cai_central_de_atendimen.Base.Errors.{ok}
use cai_central_de_atendimen.Base.Lists.{find, any, all, find-mem, find_holds, find_of_mem, All-of}
use cai_central_de_atendimen.Base.Texts.{Text, same, same_refl}
use cai_central_de_atendimen.Base.Tables.{update}
use cai_central_de_atendimen.Cycle.Row.{Cycle, Time, Status, opened}
use cai_central_de_atendimen.Cycle.Schema.{
  conforms, compatible, row_ok, eq_of_public_id, conforms-map,
}
use cai_central_de_atendimen.Cycle.Transition.{
  status_text, parse_status, Field, cycle_start_strategy, classification_id, protocol, assign,
  assign_all, is_unsupported, unsupported, is_expected, moved, transition_cycle,
}

-- The text written for a status is read back as that status.
pub parse_status-status_text : (s : Status) → parse_status (status_text s) ≡ some s
unfolding parse_status find same
parse_status-status_text opened = refl
parse_status-status_text _ = refl

-- the columns that the constraints of the table name
record SameKeys (a b : Cycle) : Type 0 where
  id : a.id ≡ b.id
  public_id : a.public_id ≡ b.public_id
  conversation_id : a.conversation_id ≡ b.conversation_id
  sequence_number : a.sequence_number ≡ b.sequence_number
  ticket_closed_at : a.ticket_closed_at ≡ b.ticket_closed_at
  strategy : a.cycle_start_strategy ≡ b.cycle_start_strategy
  open_event_key : a.open_event_key ≡ b.open_event_key
  close_event_key : a.close_event_key ≡ b.close_event_key
  contact : a.digisac_contact_external_id ≡ b.digisac_contact_external_id
  classification : a.classification_id ≡ b.classification_id

SameKeys-compatible :
    (a b a' b' : Cycle)
    → SameKeys a a'
    → SameKeys b b'
    → compatible a b ≡ true
    → compatible a' b' ≡ true
unfolding compatible
SameKeys-compatible a b a' b' p q h =
    rw
      (
        ← p.id,
        ← p.public_id,
        ← p.conversation_id,
        ← p.sequence_number,
        ← p.ticket_closed_at,
        ← p.open_event_key,
        ← p.close_event_key,
        ← p.classification,
        ← q.id,
        ← q.public_id,
        ← q.conversation_id,
        ← q.sequence_number,
        ← q.ticket_closed_at,
        ← q.open_event_key,
        ← q.close_event_key,
        ← q.classification,
      )
      h

SameKeys-row_ok : (a a' : Cycle) → SameKeys a a' → row_ok a ≡ true → row_ok a' ≡ true
unfolding row_ok
SameKeys-row_ok a a' p h =
    rw
      (
        ← p.sequence_number,
        ← p.public_id,
        ← p.strategy,
        ← p.open_event_key,
        ← p.close_event_key,
        ← p.contact,
      )
      h

-- a field that no constraint names
abbrev pub is_plain : Field → Bool
is_plain (cycle_start_strategy v) = false
is_plain (classification_id v) = false
is_plain (unsupported name) = false
is_plain _ = true

assign-SameKeys : (f : Field) (c : Cycle) → is_plain f ≡ true → SameKeys c (assign f c)
unfolding assign
assign-SameKeys (protocol v) c h = record {
  id = refl;
  public_id = refl;
  conversation_id = refl;
  sequence_number = refl;
  ticket_closed_at = refl;
  strategy = refl;
  open_event_key = refl;
  close_event_key = refl;
  contact = refl;
  classification = refl;
}
assign-SameKeys _ c h = ground arith

SameKeys-trans : (a b c : Cycle) → SameKeys a b → SameKeys b c → SameKeys a c
SameKeys-trans a b c p q = ground arith

assign_all-SameKeys :
    (fields : List Field) (c d : Cycle)
    → all is_plain fields ≡ true
    → SameKeys c d
    → SameKeys c (assign_all fields d)
unfolding assign_all
assign_all-SameKeys [] c d h k = k
assign_all-SameKeys (f ∷ fs) c d h k =
    assign_all-SameKeys fs c (assign f d) (and_right (is_plain f) _ h)
      (SameKeys-trans c d (assign f d) k (assign-SameKeys f d (and_left (is_plain f) _ h)))

moved-SameKeys :
    (s : Status) (fields : List Field) (now : Time) (c : Cycle)
    → all is_plain fields ≡ true
    → SameKeys c (moved s fields now c)
moved-SameKeys s fields now c h = assign_all-SameKeys fields c _ h (ground arith)

plain_supported :
    (fields : List Field) → all is_plain fields ≡ true → any is_unsupported fields ≡ false
plain_supported [] h = refl
plain_supported (f ∷ fs) h = ground (
  arith,
  plain_supported fs (and_right (is_plain f) _ h),
  plain_field f (and_left (is_plain f) _ h),
)
  where
    plain_field : (g : Field) → is_plain g ≡ true → is_unsupported g ≡ false
    plain_field (unsupported name) k = cc
    plain_field (protocol v) k = refl
    plain_field _ k = refl

-- an update that keeps the constrained columns keeps the table within its constraints
pub moved-conforms :
    (p : Cycle → Bool) (s : Status) (fields : List Field) (now : Time) (rows : List Cycle)
    → all is_plain fields ≡ true
    → conforms rows ≡ true
    → conforms (update p (moved s fields now) rows) ≡ true
moved-conforms p s fields now rows plain valid =
    conforms-map (λ _. Unit {0}) _ (λ x _ k. SameKeys-row_ok x _ (keys x) k)
      (λ x y _ _ k. SameKeys-compatible x y _ _ (keys x) (keys y) k) rows
      (All-of (λ _. Unit {0}) (λ _. tt) rows) valid
  where
    keys : (x : Cycle) → SameKeys x (if p x then moved s fields now x else x)
    keys x = elim (Bool-cases (p x)) [
      | inl e ↦ rw e (moved-SameKeys s fields now x plain)
      | inr e ↦ rw e (ground arith)
    ]

module _ (rows : List Cycle) (c : Cycle) (s : Status) (expected : List Status) (fields : List Field)
    (now : Time) (valid : conforms rows ≡ true) (stored : Memᴰ c rows) where
  abbrev pub picks : Cycle → Bool
  picks r = same r.public_id c.public_id && is_expected expected r.status

  only_c : {d : Cycle} → find picks rows ≡ some d → d ≡ c
  only_c e =
      eq_of_public_id rows c stored (find-mem picks rows e) valid
        (and_left _ _ (find_holds picks rows e))

  -- A transition of a stored cycle of a conforming table, with fields that no constraint names, whose
  -- expected statuses are given and do not include the cycle's own does nothing:
  -- it returns no row and leaves the table as it is.
  pub transition_cycle_guarded :
      all is_plain fields ≡ true
      → is_expected expected c.status ≡ false
      → transition_cycle c.public_id (status_text s) expected fields now rows ≡ (ok none, rows)
  transition_cycle_guarded plain other =
      unfold transition_cycle in
      ground (arith, parse_status-status_text s, plain_supported fields plain, missed)
    where
      missed : find picks rows ≡ none
      missed = elim (Option-cases (find picks rows)) [
        | inl e ↦ e
        | inr (d, e) ↦
            let k = and_right (same d.public_id c.public_id) _ (find_holds picks rows e) in
            let k' = rw (only_c e) at k in cc
      ]

  -- A transition of a stored cycle of a conforming table, to any status, succeeds if its status is
  -- expected and its fields are ones that no constraint names: it returns the row with the status, the
  -- fields and the time, updates the rows that the statement picks, and the table conforms again.
  pub transition_cycle_moves :
      all is_plain fields ≡ true
      → is_expected expected c.status ≡ true
      → (transition_cycle c.public_id (status_text s) expected fields now rows
          ≡ (ok (some (moved s fields now c)), update picks (moved s fields now) rows))
        × (conforms (update picks (moved s fields now) rows) ≡ true)
  transition_cycle_moves plain here =
      let good = moved-conforms picks s fields now rows plain valid in
      let (d, e) = find_of_mem picks rows stored (and_intro _ _ (same_refl c.public_id) here) in
      let e' : find picks rows ≡ some c = e ∙ ap some (only_c e) in
      (
        (unfold transition_cycle in
            ground (arith, parse_status-status_text s, plain_supported fields plain, e', good)),
        good,
      )

-- a row that a transition returns is a row of the table with the status, the fields and the time
pub transition_cycle-returned :
    (public_id : Text) (s : Status) (expected : List Status) (fields : List Field) (now : Time)
    (rows : List Cycle) (row : Cycle)
    → (transition_cycle public_id (status_text s) expected fields now rows).0 ≡ ok (some row)
    → (c : Cycle) × (row ≡ moved s fields now c)
unfolding transition_cycle
transition_cycle-returned public_id s expected fields now rows row h =
    elim (Option-cases
      (find (λ c. same c.public_id public_id && is_expected expected c.status) rows)) [
        | inl e ↦ absurd (ground (arith, parse_status-status_text s, e, h))
        | inr (c, e) ↦ (c, ground (arith, parse_status-status_text s, e, h))
      ]
