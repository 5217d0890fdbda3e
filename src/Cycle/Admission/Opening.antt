-- ===== src/Cycle/Admission/Opening.antt =====
-- `create_open_cycle` on every branch, over a table that conforms.
use cai_central_de_atendimen.Base.{
  ℕ, true, false, Option, none, some, List, [], ◌∷◌, ◌++◌, ◌≡◌, arith, Bool-cases, inl, inr, ap,
  ◌∙◌,
}
use mathlib.Core.List.{Memᴰ}
use cai_central_de_atendimen.Base.Errors.{ok}
use cai_central_de_atendimen.Base.Lists.{
  All, find, All-zip, All-mono, find-eq_none, find_of_none, find-append, find-map, find-mem, All-of,
}
use cai_central_de_atendimen.Base.Texts.{Text, same, same_refl}
use cai_central_de_atendimen.Base.Tables.{update}
use cai_central_de_atendimen.Cycle.Row.{Cycle, Time}
use cai_central_de_atendimen.Cycle.Schema.{
  conforms, compatible, row_ok, nonblank, nonblank_if_some, zero_uuid, conforms-append_one,
  conforms-map, find-public_id,
}
use cai_central_de_atendimen.Cycle.Admission.{
  OpenEvent, opened_row, is_open_in, has_open_key, create_open_cycle, keep_contact, cycle_row,
  normalize_contact,
}
use cai_central_de_atendimen.Cycle.Admission.Conforming.{
  IsFresh, opened_row-compatible, last_sequence-le,
}
use cai_central_de_atendimen.Cycle.Admission.Contact.{normalize_contact-nonblank}

-- a delivery of an event that opened a cycle before finds that cycle and changes nothing
pub open_duplicate :
    (id : ℕ) (uuid : Text) (now : Time) (e : OpenEvent) (rows : List Cycle) {contact : Option Text}
    {d : Cycle}
    → conforms rows ≡ true
    → normalize_contact e.contact_external_id ≡ ok contact
    → find (has_open_key e.open_event_key) rows ≡ some d
    → create_open_cycle id uuid now e rows ≡ (ok (d, false), rows)
unfolding create_open_cycle
open_duplicate id uuid now e rows {d = d} valid accepted f =
    ground (arith, find-public_id rows d (find-mem (has_open_key e.open_event_key) rows f) valid)

-- the call's arguments are usable, and the database's identity and the UUID are new
pub record IsOpenable (id : ℕ) (uuid : Text) (e : OpenEvent) (rows : List Cycle) : Type 0 where
  pub valid : conforms rows ≡ true
  pub fresh : All (IsFresh id uuid) rows
  pub uuid_ok : same uuid zero_uuid ≡ false
  pub key_ok : nonblank e.open_event_key ≡ true
  pub strategy_ok : nonblank e.start_strategy ≡ true

module _ {id : ℕ} {uuid : Text} (now : Time) {e : OpenEvent} {rows : List Cycle}
    (h : IsOpenable id uuid e rows) where
  pub opened_row-conforms :
      (started : Time) (contact : Option Text)
      → nonblank_if_some contact ≡ true
      → find (has_open_key e.open_event_key) rows ≡ none
      → find (is_open_in e.conversation_id) rows ≡ none
      → conforms (rows ++ opened_row id uuid now e started contact rows ∷ []) ≡ true
  unfolding row_ok opened_row
  opened_row-conforms started contact c no_key no_open =
      conforms-append_one rows _ h.valid (ground (arith, h.uuid_ok, h.key_ok, h.strategy_ok)) (
        All-mono _ _
          (λ x k.
            opened_row-compatible id uuid now rows x (k.0).0 e started contact ((k.0).1).0
              ((k.0).1).1 k.1)
          rows
          (All-zip _ _ rows
            (All-zip _ _ rows h.fresh (
              All-zip _ _ rows (find-eq_none (has_open_key e.open_event_key) rows no_key)
                (find-eq_none (is_open_in e.conversation_id) rows no_open)))
            (last_sequence-le e.conversation_id rows)))

  -- the row read back after an insertion is the row inserted
  cycle_row-opened :
      (started : Time) (contact : Option Text)
      → let row = opened_row id uuid now e started contact rows in
        cycle_row uuid (rows ++ row ∷ []) ≡ some row
  unfolding opened_row
  cycle_row-opened started contact =
      find-append (λ c. same c.public_id uuid) rows _
        (find_of_none (λ c. same c.public_id uuid) rows
          (All-mono _ _ (λ c k. k.fresh_uuid) rows h.fresh))
        (same_refl uuid)

  pub keep_contact-conforms :
      (contact : Text) (public_id : Text)
      → nonblank contact ≡ true
      → conforms (update (λ r. same r.public_id public_id) (keep_contact (some contact) now) rows)
        ≡ true
  unfolding row_ok compatible
  keep_contact-conforms contact public_id k =
      conforms-map (λ _. Unit {0}) _
        (λ x _ ok. elim (Bool-cases (same x.public_id public_id)) [
          | inl p ↦ rw p (ground (arith, k))
          | inr p ↦ rw p ok
        ])
        (λ x y _ _ ok. elim (Bool-cases (same x.public_id public_id)) [
          | inl p ↦ elim (Bool-cases (same y.public_id public_id)) [
            | inl q ↦ rw (p, q) ok
            | inr q ↦ rw (p, q) ok
          ]
          | inr p ↦ elim (Bool-cases (same y.public_id public_id)) [
            | inl q ↦ rw (p, q) ok
            | inr q ↦ rw (p, q) ok
          ]
        ])
        rows (All-of (λ _. Unit {0}) (λ _. tt) rows) h.valid

  row_kept :
      (x : Cycle) (v : Text)
      → Memᴰ x rows
      → cycle_row x.public_id
          (update (λ r. same r.public_id x.public_id) (keep_contact (some v) now) rows)
        ≡ some (keep_contact (some v) now x)
  row_kept x v m =
      find-map (λ r. same r.public_id x.public_id) _ rows
        (λ r. elim (Bool-cases (same r.public_id x.public_id)) [ inl p ↦ rw p p | inr p ↦ rw p p ])
        (find-public_id rows x m h.valid)
      ∙ ap some (rw (same_refl x.public_id))

  module _ {contact : Option Text}
      (accepted : normalize_contact e.contact_external_id ≡ ok contact) where
    module _ (no_key : find (has_open_key e.open_event_key) rows ≡ none) where
      pub open_second :
          {x : Cycle}
          → find (is_open_in e.conversation_id) rows ≡ some x
          → contact ≡ none
          → create_open_cycle id uuid now e rows ≡ (ok (x, false), rows)
      unfolding create_open_cycle
      open_second {x} f n =
          ground
            (arith, find-public_id rows x (find-mem (is_open_in e.conversation_id) rows f) h.valid)

      pub open_second_contact :
          {x : Cycle} {v : Text}
          → find (is_open_in e.conversation_id) rows ≡ some x
          → contact ≡ some v
          → create_open_cycle id uuid now e rows ≡ (
            ok (keep_contact (some v) now x, false),
            update (λ r. same r.public_id x.public_id) (keep_contact (some v) now) rows,
          )
      unfolding create_open_cycle
      open_second_contact {x} {v} f n = ground (
        arith,
        row_kept x v (find-mem (is_open_in e.conversation_id) rows f),
        keep_contact-conforms v x.public_id
            (normalize_contact-nonblank e.contact_external_id (some v) (accepted ∙ ap ok n)),
      )

      pub open_first :
          {started : Time}
          → find (is_open_in e.conversation_id) rows ≡ none
          → e.started_at ≡ some started
          → let row = opened_row id uuid now e started contact rows in
            create_open_cycle id uuid now e rows ≡ (ok (row, true), rows ++ row ∷ [])
      unfolding create_open_cycle
      open_first {started} f n = ground (
        arith,
        cycle_row-opened started contact,
        opened_row-conforms started contact
            (normalize_contact-nonblank e.contact_external_id contact accepted) no_key f,
      )
