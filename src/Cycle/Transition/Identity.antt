-- ===== src/Cycle/Transition/Identity.antt =====
-- A transition keeps the identities of the rows.
use cai_central_de_atendimen.Base.{
  ◌≡◌, ◌⊎◌, refl, ◌∙◌, Bool, ◌&&◌, some, List, [], ◌∷◌, map, arith, inl, inr, Bool-cases,
  Option-cases,
}
use cai_central_de_atendimen.Base.Lists.{find}
use cai_central_de_atendimen.Base.Tables.{update, set_where}
use cai_central_de_atendimen.Base.Texts.{Text, same}
use cai_central_de_atendimen.Cycle.Row.{Cycle, Time, Status}
use cai_central_de_atendimen.Cycle.Admission.{cycle_row}
use cai_central_de_atendimen.Cycle.Transition.{
  status_text, Field, protocol, assign, assign_all, is_expected, moved, transition_cycle,
}
use cai_central_de_atendimen.Cycle.Transition.Guards.{parse_status-status_text}

abbrev HasIdentity : Cycle → Cycle → Type 0
HasIdentity x y = (x.id ≡ y.id) × (x.public_id ≡ y.public_id)

assign-HasIdentity : (f : Field) (c : Cycle) → HasIdentity (assign f c) c
unfolding assign
assign-HasIdentity (protocol v) c = (refl, refl)
assign-HasIdentity _ c = (refl, refl)

assign_all-HasIdentity : (fields : List Field) (c : Cycle) → HasIdentity (assign_all fields c) c
unfolding assign_all
assign_all-HasIdentity [] c = (refl, refl)
assign_all-HasIdentity (f ∷ fs) c =
    let (a, b) = assign_all-HasIdentity fs (assign f c) in
    let (d, e) = assign-HasIdentity f c in (a ∙ d, b ∙ e)

moved-HasIdentity :
    (p : Cycle → Bool) (s : Status) (fields : List Field) (now : Time) (c : Cycle)
    → HasIdentity (set_where p (moved s fields now) c) c
moved-HasIdentity p s fields now c = elim (Bool-cases (p c)) [
  | inl e ↦ rw e (assign_all-HasIdentity fields _)
  | inr e ↦ rw e (refl, refl)
]

identity_of :
    (public_id : Text) (g : Cycle → Cycle) (rows : List Cycle) {x : Cycle}
    → ((y : Cycle) → HasIdentity (g y) y)
    → cycle_row public_id (map g rows) ≡ some x
    → (y : Cycle) × (cycle_row public_id rows ≡ some y) × (x.id ≡ y.id)
unfolding find
identity_of public_id g [] k e = cc
identity_of public_id g (r ∷ rows) {x} k e =
    let (a, b) = k r in
    elim (Bool-cases (same r.public_id public_id)) [
      | inl h ↦ let q : g r ≡ x = (let e' = rw (b, h) at e in cc) in (r, rw h refl, rw (← q) a)
      | inr h ↦ let (y, e', i) = identity_of public_id g rows k (rw (b, h) at e) in (y, rw h e', i)
    ]

transition_cycle-rows :
    (public_id : Text) (s : Status) (expected : List Status) (fields : List Field) (now : Time)
    (rows : List Cycle)
    → ((transition_cycle public_id (status_text s) expected fields now rows).1 ≡ rows)
      ⊎ ((transition_cycle public_id (status_text s) expected fields now rows).1
          ≡ update
              (λ c. same c.public_id public_id && is_expected expected c.status)
              (moved s fields now)
              rows)
unfolding transition_cycle
transition_cycle-rows public_id s expected fields now rows =
    elim (Option-cases
      (find (λ c. same c.public_id public_id && is_expected expected c.status) rows)) [
        | inl e ↦ inl (ground (arith, parse_status-status_text s, e))
        | inr (c, e) ↦ ground (arith, parse_status-status_text s, e)
      ]

-- the row with a public id after a transition is that before it, by its id
pub transition_cycle-identity :
    (public_id other : Text) (s : Status) (expected : List Status) (fields : List Field)
    (now : Time) (rows : List Cycle) {x : Cycle}
    → cycle_row public_id (transition_cycle other (status_text s) expected fields now rows).1
      ≡ some x
    → (y : Cycle) × (cycle_row public_id rows ≡ some y) × (x.id ≡ y.id)
transition_cycle-identity public_id other s expected fields now rows {x} h =
    elim (transition_cycle-rows other s expected fields now rows) [
      | inl e ↦ (x, rw e at h, refl)
      | inr e ↦ identity_of public_id _ rows (moved-HasIdentity _ s fields now) (rw e at h)
    ]
