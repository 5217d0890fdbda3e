-- ===== src/Cycle/Admission/Isolation.antt =====
-- No delivery touches the cycles of another conversation.
use cai_central_de_atendimen.Base.{
  ℕ, Bool, true, not, Option, some, List, [], ◌∷◌, ◌++◌, ◌==◌, ◌≡◌, refl, arith, Bool-cases,
  Option-cases, inl, inr, ◌∙◌,
}
use mathlib.Core.List.{append-nil}
use cai_central_de_atendimen.Base.Errors.{ok}
use cai_central_de_atendimen.Base.Lists.{
  All, find, All-mem, All-mono, find-mem, find_holds, select-map, select, select-append,
}
use cai_central_de_atendimen.Base.Texts.{Text, same, same_refl}
use cai_central_de_atendimen.Base.Tables.{update, set_where}
use cai_central_de_atendimen.Cycle.Row.{Cycle, Time}
use cai_central_de_atendimen.Cycle.Schema.{eq_of_id, eq_of_public_id}
use cai_central_de_atendimen.Cycle.Admission.{
  OpenEvent, CloseEvent, close_row, closed_row, opened_row, is_open_in, has_close_key, has_open_key,
  close_cycle, create_open_cycle, normalize_contact,
}
use cai_central_de_atendimen.Cycle.Admission.Opening.{
  IsOpenable, open_duplicate, open_second, open_second_contact, open_first,
}
use cai_central_de_atendimen.Cycle.Admission.Closing.{
  IsClosable, close_duplicate, close_opened, close_unopened,
}

-- the rows of the other conversations, in the table's order
abbrev pub others : Text → List Cycle → List Cycle
others conversation = select (λ r. not (same r.conversation_id conversation))

-- an update of rows of this conversation only
others-update :
    (conversation : Text) (p : Cycle → Bool) (g : Cycle → Cycle) (rows : List Cycle)
    → ((r : Cycle) → (g r).conversation_id ≡ r.conversation_id)
    → All (λ r. p r ≡ true → same r.conversation_id conversation ≡ true) rows
    → others conversation (update p g rows) ≡ others conversation rows
others-update conversation p g rows keeps only =
    select-map (λ r. not (same r.conversation_id conversation)) (set_where p g) rows
      (All-mono _ _
        (λ r k. elim (Bool-cases (p r)) [
          | inl e ↦ rw e ((rw (keeps r)), (λ n. let y = k e in cc))
          | inr e ↦ rw e (refl, (λ n. refl))
        ])
        rows only)

-- an insertion of a row of this conversation
others-append :
    (conversation : Text) (rows : List Cycle) (y : Cycle)
    → same y.conversation_id conversation ≡ true
    → others conversation (rows ++ y ∷ []) ≡ others conversation rows
others-append conversation rows y e = select-append _ rows (y ∷ []) ∙ rw e (append-nil _)

is_open_in-same :
    (conversation : Text) (c : Cycle)
    → is_open_in conversation c ≡ true
    → same c.conversation_id conversation ≡ true
unfolding is_open_in
is_open_in-same conversation c h = ground arith

module _ {id : ℕ} {uuid : Text} (now : Time) (delay : ℕ) (e : CloseEvent) {rows : List Cycle}
    (h : IsClosable id uuid e rows) {contact : Option Text} {closed : Time}
    (accepted : normalize_contact e.contact_external_id ≡ ok contact)
    (time : e.closed_at ≡ some closed) where
  -- Over a conforming table, for an event with a nonblank key and strategy, an accepted contact id
  -- and a time that parses, and with a new identity and UUID: a delivery of a close event leaves every cycle of another conversation as it was: the rows of
  -- the other conversations, in their order, are the same before and after.
  pub others-close_cycle :
      others e.conversation_id (close_cycle id uuid now delay e rows).1
      ≡ others e.conversation_id rows
  others-close_cycle = elim (Option-cases (find (has_close_key e.close_event_key) rows)) [
    | inr (d, f) ↦ rw (close_duplicate id uuid now delay e rows h.valid accepted time f)
    | inl no_key ↦ elim (Option-cases (find (is_open_in e.conversation_id) rows)) [
      | inl no_open ↦ rw (close_unopened now delay h closed contact accepted time no_key no_open) (
          others-append e.conversation_id rows _ (unfold closed_row in same_refl e.conversation_id))
      | inr (x, f) ↦ rw (close_opened now delay h closed contact accepted time no_key f) (
          others-update e.conversation_id (λ r. r.id == x.id) _ rows (λ r. unfold close_row in refl)
            (All-mono _ _
              (λ r m p.
                let y : r ≡ x =
                  eq_of_id rows x (find-mem (is_open_in e.conversation_id) rows f) m h.valid p in
                rw y (
                  is_open_in-same e.conversation_id x
                    (find_holds (is_open_in e.conversation_id) rows f)))
              rows (All-mem rows)))
    ]
  ]

module _ {id : ℕ} {uuid : Text} (now : Time) (e : OpenEvent) {rows : List Cycle}
    (h : IsOpenable id uuid e rows) {contact : Option Text} {started : Time}
    (accepted : normalize_contact e.contact_external_id ≡ ok contact)
    (time : e.started_at ≡ some started) where
  -- Over a conforming table, for an event with a nonblank key and strategy, an accepted contact id
  -- and a time that parses, and with a new identity and UUID: a delivery of an open event leaves every cycle of another conversation as it was: the rows of
  -- the other conversations, in their order, are the same before and after.
  pub others-create_open_cycle :
      others e.conversation_id (create_open_cycle id uuid now e rows).1
      ≡ others e.conversation_id rows
  others-create_open_cycle = elim (Option-cases (find (has_open_key e.open_event_key) rows)) [
    | inr (d, f) ↦ rw (open_duplicate id uuid now e rows h.valid accepted f)
    | inl no_key ↦ elim (Option-cases (find (is_open_in e.conversation_id) rows)) [
      | inl no_open ↦ rw (open_first now h accepted no_key no_open time) (
          others-append e.conversation_id rows _ (unfold opened_row in same_refl e.conversation_id))
      | inr (x, f) ↦ elim (Option-cases contact) [
        | inl no_contact ↦ rw (open_second now h accepted no_key f no_contact)
        | inr (v, some_contact) ↦ rw (open_second_contact now h accepted no_key f some_contact) (
            others-update e.conversation_id (λ r. same r.public_id x.public_id) _ rows (λ r. refl)
              (All-mono _ _
                (λ r m p.
                  let y : r ≡ x =
                    eq_of_public_id rows x (find-mem (is_open_in e.conversation_id) rows f) m
                      h.valid p in
                  rw y (
                    is_open_in-same e.conversation_id x
                      (find_holds (is_open_in e.conversation_id) rows f)))
                rows (All-mem rows)))
      ]
    ]
  ]
