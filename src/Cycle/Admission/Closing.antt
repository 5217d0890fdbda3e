-- ===== src/Cycle/Admission/Closing.antt =====
-- `close_cycle` on every branch, over a table that conforms.
use cai_central_de_atendimen.Base.{
  ℕ, true, false, Option, none, some, List, [], ◌∷◌, ◌++◌, ◌==◌, ◌≡◌, refl, arith, Bool-cases, inl,
  inr, ap, ◌∙◌,
}
use mathlib.Core.List.{Memᴰ}
use cai_central_de_atendimen.Base.Errors.{ok}
use cai_central_de_atendimen.Base.Lists.{
  All, find, All-zip, All-mono, find-eq_none, find_of_none, find-append, find-map, find-mem,
}
use cai_central_de_atendimen.Base.Texts.{Text, same, same_refl}
use cai_central_de_atendimen.Base.Tables.{update}
use cai_central_de_atendimen.Cycle.Row.{Cycle, Time}
use cai_central_de_atendimen.Cycle.Schema.{
  conforms, row_ok, nonblank, nonblank_if_some, zero_uuid, conforms-append_one, conforms-map,
  find-public_id,
}
use cai_central_de_atendimen.Cycle.Admission.{
  CloseEvent, close_row, closed_row, is_open_in, has_close_key, close_cycle, cycle_row,
  normalize_contact,
}
use cai_central_de_atendimen.Cycle.Admission.Conforming.{
  IsFresh, close_row-compatible, closed_row-compatible, last_sequence-le,
}
use cai_central_de_atendimen.Cycle.Admission.Contact.{normalize_contact-nonblank}

-- a delivery of an event that closed a cycle before finds that cycle and changes nothing
pub close_duplicate :
    (id : ℕ) (uuid : Text) (now : Time) (delay : ℕ) (e : CloseEvent) (rows : List Cycle)
    {closed : Time} {contact : Option Text} {d : Cycle}
    → conforms rows ≡ true
    → normalize_contact e.contact_external_id ≡ ok contact
    → e.closed_at ≡ some closed
    → find (has_close_key e.close_event_key) rows ≡ some d
    → close_cycle id uuid now delay e rows ≡ (ok (d, false), rows)
unfolding close_cycle
close_duplicate id uuid now delay e rows {d = d} valid accepted time f =
    ground (arith, find-public_id rows d (find-mem (has_close_key e.close_event_key) rows f) valid)

-- the call's arguments are usable, and the database's identity and the UUID are new
pub record IsClosable (id : ℕ) (uuid : Text) (e : CloseEvent) (rows : List Cycle) : Type 0 where
  pub valid : conforms rows ≡ true
  pub fresh : All (IsFresh id uuid) rows
  pub uuid_ok : same uuid zero_uuid ≡ false
  pub key_ok : nonblank e.close_event_key ≡ true
  pub strategy_ok : nonblank e.fallback_start_strategy ≡ true

module _ {id : ℕ} {uuid : Text} (now : Time) (delay : ℕ) {e : CloseEvent} {rows : List Cycle}
    (h : IsClosable id uuid e rows) (closed : Time) (contact : Option Text) where
  -- closing the cycle with identity `k` keeps the table within its constraints
  pub close_row-conforms :
      (k : ℕ)
      → nonblank_if_some contact ≡ true
      → find (has_close_key e.close_event_key) rows ≡ none
      → conforms (update (λ r. r.id == k) (close_row now delay e closed contact) rows) ≡ true
  close_row-conforms k c no_key =
      conforms-map (λ x. has_close_key e.close_event_key x ≡ false) _
        (λ x _ ok. elim (Bool-cases (x.id == k)) [
          | inl p ↦ rw p (unfold row_ok close_row in ground (arith, c, h.key_ok))
          | inr p ↦ rw p ok
        ])
        (λ x y px py ok. close_row-compatible now delay e closed contact k x y px py ok) rows
        (find-eq_none (has_close_key e.close_event_key) rows no_key) h.valid

  pub closed_row-conforms :
      nonblank_if_some contact ≡ true
      → find (has_close_key e.close_event_key) rows ≡ none
      → conforms (rows ++ closed_row id uuid now delay e closed contact rows ∷ []) ≡ true
  unfolding row_ok closed_row
  closed_row-conforms c no_key =
      conforms-append_one rows _ h.valid (ground (arith, h.uuid_ok, h.key_ok, h.strategy_ok)) (
        All-mono _ _
          (λ x k.
            closed_row-compatible id uuid now rows x (k.0).0 delay e closed contact (k.0).1 k.1)
          rows
          (All-zip _ _ rows
            (All-zip _ _ rows h.fresh (find-eq_none (has_close_key e.close_event_key) rows no_key))
            (last_sequence-le e.conversation_id rows)))

  -- the row read back after an insertion is the row inserted
  cycle_row-closed :
      let row = closed_row id uuid now delay e closed contact rows in
      cycle_row uuid (rows ++ row ∷ []) ≡ some row
  unfolding closed_row
  cycle_row-closed =
      find-append (λ c. same c.public_id uuid) rows _
        (find_of_none (λ c. same c.public_id uuid) rows
          (All-mono _ _ (λ c k. k.fresh_uuid) rows h.fresh))
        (same_refl uuid)

  row_closed :
      (x : Cycle)
      → Memᴰ x rows
      → cycle_row x.public_id
          (update (λ r. r.id == x.id) (close_row now delay e closed contact) rows)
        ≡ some (close_row now delay e closed contact x)
  row_closed x m =
      find-map (λ r. same r.public_id x.public_id) _ rows
        (λ r. elim (Bool-cases (r.id == x.id)) [
          | inl p ↦ rw p (unfold close_row in refl)
          | inr p ↦ rw p
        ])
        (find-public_id rows x m h.valid)
      ∙ ap some (let p : (x.id == x.id) ≡ true = ground arith in rw p)

  module _ (accepted : normalize_contact e.contact_external_id ≡ ok contact)
      (time : e.closed_at ≡ some closed) where
    module _ (no_key : find (has_close_key e.close_event_key) rows ≡ none) where
      pub close_opened :
          {x : Cycle}
          → find (is_open_in e.conversation_id) rows ≡ some x
          → close_cycle id uuid now delay e rows ≡ (
            ok (close_row now delay e closed contact x, true),
            update (λ r. r.id == x.id) (close_row now delay e closed contact) rows,
          )
      unfolding close_cycle
      close_opened {x} f = ground (
        arith,
        row_closed x (find-mem (is_open_in e.conversation_id) rows f),
        close_row-conforms x.id (normalize_contact-nonblank e.contact_external_id contact accepted)
            no_key,
      )

      pub close_unopened :
          find (is_open_in e.conversation_id) rows ≡ none
          → let row = closed_row id uuid now delay e closed contact rows in
            close_cycle id uuid now delay e rows ≡ (ok (row, true), rows ++ row ∷ [])
      unfolding close_cycle
      close_unopened f = ground (
        arith,
        cycle_row-closed,
        closed_row-conforms (normalize_contact-nonblank e.contact_external_id contact accepted)
            no_key,
      )
