-- ===== src/Cycle/Schema.antt =====
-- The constraints of `conversation_processing_cycles` (alembic/versions/0013 and 0020): the
-- database refuses a statement whose table does not conform.
use cai_central_de_atendimen.Base.{
  ℕ, Bool, true, false, not, ◌&&◌, Option, none, some, List, ◌≡◌, arith, ◌==◌, ltb, is_none, [],
  ◌∷◌, ◌++◌, map, and_left, and_right, and_intro, ◌⊎◌, inl, inr, ap, ◌∙◌,
}
use cai_central_de_atendimen.Base.Lists.{
  all, any, All, all→All, All→all, All-map, All-mono, All-zip, all-append_one, find, find_of_mem,
  find-mem, find_holds,
}
use cai_central_de_atendimen.Base.Texts.{
  Text, text, same, same_some, same_comm, same_some_comm, same_some_trans, same_refl,
}
use cai_central_de_atendimen.Base.Tables.{pairwise, pairwise-at, pairwise-map, pairwise-append_one}
use mathlib.Core.List.{Memᴰ}
use cai_central_de_atendimen.Cycle.Row.{Cycle}

abbrev same_number : Option ℕ → Option ℕ → Bool
same_number (some a) (some b) = a == b
same_number _ _ = false

-- the unique constraints, and the partial unique index ux_conversation_cycles_one_open
unfoldable pub compatible : Cycle → Cycle → Bool
compatible a b =
    not (a.id == b.id)
    && not (same a.public_id b.public_id)
    && not (same a.conversation_id b.conversation_id && a.sequence_number == b.sequence_number)
    && not (same_some a.open_event_key b.open_event_key)
    && not (same_some a.close_event_key b.close_event_key)
    && not (same_number a.classification_id b.classification_id)
    && not (
        same a.conversation_id b.conversation_id
        && is_none a.ticket_closed_at
        && is_none b.ticket_closed_at)

-- `btrim(value) <> ''`: `btrim` removes spaces only
unfoldable pub nonblank : Text → Bool
nonblank = any (λ c. not (c == 32))

abbrev pub nonblank_if_some : Option Text → Bool
nonblank_if_some none = true
nonblank_if_some (some t) = nonblank t

abbrev pub zero_uuid : Text
zero_uuid = text "00000000-0000-0000-0000-000000000000"

-- the CHECK constraints on one row; those that say that a count is not negative hold by its type
unfoldable pub row_ok : Cycle → Bool
row_ok c =
    ltb 0 c.sequence_number
    && not (same c.public_id zero_uuid)
    && nonblank c.cycle_start_strategy
    && nonblank_if_some c.open_event_key
    && nonblank_if_some c.close_event_key
    && nonblank_if_some c.digisac_contact_external_id

unfoldable pub conforms : List Cycle → Bool
conforms rows = all row_ok rows && pairwise compatible rows

-- the three ways in which a statement keeps the constraints
conforms_parts :
    (rows : List Cycle)
    → conforms rows ≡ true
    → (all row_ok rows ≡ true) × (pairwise compatible rows ≡ true)
unfolding conforms
conforms_parts rows h = (and_left _ _ h, and_right (all row_ok rows) _ h)

pub conforms-append_one :
    (rows : List Cycle) (y : Cycle)
    → conforms rows ≡ true
    → row_ok y ≡ true
    → All (λ x. compatible x y ≡ true) rows
    → conforms (rows ++ y ∷ []) ≡ true
unfolding conforms
conforms-append_one rows y h k c =
    let (p, q) = conforms_parts rows h in
    and_intro _ _ (all-append_one row_ok rows y p k) (pairwise-append_one compatible rows y q c)

pub conforms-map {κ} :
    (P : Cycle → Type κ) (g : Cycle → Cycle)
    → ((x : Cycle) → P x → row_ok x ≡ true → row_ok (g x) ≡ true)
    → ((x y : Cycle) → P x → P y → compatible x y ≡ true → compatible (g x) (g y) ≡ true)
    → (rows : List Cycle) → All P rows
    → conforms rows ≡ true
    → conforms (map g rows) ≡ true
unfolding conforms
conforms-map P g keep_row keep_pair rows ps h =
    let (p, q) = conforms_parts rows h in
    and_intro _ _
      (All→all row_ok (map g rows) (
        All-map (λ x. row_ok x ≡ true) g rows
          (All-mono _ _ (λ x k. keep_row x k.0 k.1) rows
            (All-zip P (λ x. row_ok x ≡ true) rows ps (all→All row_ok rows p)))))
      (pairwise-map compatible P g keep_pair rows ps q)

-- two rows of a conforming table are one row or are compatible
pub conforms-at :
    (rows : List Cycle) {a b : Cycle}
    → Memᴰ a rows
    → Memᴰ b rows
    → conforms rows ≡ true
    → (a ≡ b) ⊎ ((compatible a b ≡ true) ⊎ (compatible b a ≡ true))
conforms-at rows m n h = pairwise-at compatible m n (conforms_parts rows h).1

pub conforms-row_ok : (rows : List Cycle) → conforms rows ≡ true → All (λ c. row_ok c ≡ true) rows
conforms-row_ok rows h = all→All row_ok rows (conforms_parts rows h).0

-- the keys identify a row of a conforming table
module _ (rows : List Cycle) (c : Cycle) {d : Cycle} (at_c : Memᴰ c rows) (at_d : Memᴰ d rows)
    (valid : conforms rows ≡ true) where
  pub eq_of_id : (d.id == c.id) ≡ true → d ≡ c
  unfolding compatible
  eq_of_id h = elim (conforms-at rows at_d at_c valid) [
    | inl e ↦ e
    | inr (inl k) ↦ ground arith
    | inr (inr k) ↦ ground arith
  ]

  pub eq_of_public_id : same d.public_id c.public_id ≡ true → d ≡ c
  unfolding compatible
  eq_of_public_id h = elim (conforms-at rows at_d at_c valid) [
    | inl e ↦ e
    | inr (inl k) ↦ ground arith
    | inr (inr k) ↦ ground (arith, same_comm d.public_id c.public_id)
  ]

  pub eq_of_open :
      same d.conversation_id c.conversation_id ≡ true
      → is_none d.ticket_closed_at ≡ true
      → is_none c.ticket_closed_at ≡ true
      → d ≡ c
  unfolding compatible
  eq_of_open h p q = elim (conforms-at rows at_d at_c valid) [
    | inl e ↦ e
    | inr (inl k) ↦ ground arith
    | inr (inr k) ↦ ground (arith, same_comm d.conversation_id c.conversation_id)
  ]

  pub eq_of_open_key :
      (key : Text)
      → same_some d.open_event_key (some key) ≡ true
      → same_some c.open_event_key (some key) ≡ true
      → d ≡ c
  unfolding compatible
  eq_of_open_key key p q =
      let k = same_some_trans d.open_event_key c.open_event_key key p q in
      elim (conforms-at rows at_d at_c valid) [
        | inl e ↦ e
        | inr (inl h) ↦ ground arith
        | inr (inr h) ↦ ground (arith, same_some_comm d.open_event_key c.open_event_key)
      ]

  pub eq_of_close_key :
      (key : Text)
      → same_some d.close_event_key (some key) ≡ true
      → same_some c.close_event_key (some key) ≡ true
      → d ≡ c
  unfolding compatible
  eq_of_close_key key p q =
      let k = same_some_trans d.close_event_key c.close_event_key key p q in
      elim (conforms-at rows at_d at_c valid) [
        | inl e ↦ e
        | inr (inl h) ↦ ground arith
        | inr (inr h) ↦ ground (arith, same_some_comm d.close_event_key c.close_event_key)
      ]

-- reading a row of a conforming table by its public id finds that row
pub find-public_id :
    (rows : List Cycle) (c : Cycle)
    → Memᴰ c rows
    → conforms rows ≡ true
    → find (λ r. same r.public_id c.public_id) rows ≡ some c
find-public_id rows c m h =
    let (d, e) = find_of_mem (λ r. same r.public_id c.public_id) rows m (same_refl c.public_id) in
    e ∙ ap some (eq_of_public_id rows c m (find-mem _ rows e) h (find_holds _ rows e))
