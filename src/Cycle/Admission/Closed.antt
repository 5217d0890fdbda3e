-- ===== src/Cycle/Admission/Closed.antt =====
-- Deliveries of ticket-close events over a conforming table: `close_cycle`.
use cai_central_de_atendimen.Base.{
  ℕ, Bool, true, false, Option, none, some, List, ◌==◌, ◌≡◌, refl, arith, Bool-cases, Option-cases,
  inl, inr, ap, sym, ◌∙◌,
}
use mathlib.Core.List.{Memᴰ}
use cai_central_de_atendimen.Base.Errors.{ok}
use cai_central_de_atendimen.Base.Lists.{
  All, find, All-mem, All-mono, find-eq_none, find-mem, find_holds, find_of_mem, mem-append_one,
  All-append, All-map,
}
use cai_central_de_atendimen.Base.Texts.{Text, same_iff, same_refl}
use cai_central_de_atendimen.Base.Tables.{update, mem-update}
use cai_central_de_atendimen.Cycle.Row.{Cycle, Time}
use cai_central_de_atendimen.Cycle.Schema.{conforms, eq_of_open, eq_of_close_key}
use cai_central_de_atendimen.Cycle.Admission.{
  Outcome, CloseEvent, close_row, closed_row, is_open_in, has_close_key, close_cycle,
  normalize_contact,
}
use cai_central_de_atendimen.Cycle.Admission.Closing.{
  IsClosable, close_duplicate, close_opened, close_unopened, close_row-conforms,
  closed_row-conforms,
}
use cai_central_de_atendimen.Cycle.Admission.Contact.{normalize_contact-nonblank}

-- what a successful delivery of a close event gives
pub record IsClosed (e : CloseEvent) (o : Outcome) (c : Cycle) (created : Bool) : Type 0 where
  pub returned : o.0 ≡ ok (c, created)
  pub valid : conforms o.1 ≡ true
  pub stored : Memᴰ c o.1
  pub keyed : has_close_key e.close_event_key c ≡ true
  pub none_open : created ≡ true → All (λ r. is_open_in e.conversation_id r ≡ false) o.1

abbrev delivered_close :
    (e : CloseEvent) (o : Outcome) (c : Cycle) (b : Bool) (rows' : List Cycle)
    → o ≡ (ok (c, b), rows')
    → IsClosed e (ok (c, b), rows') c b
    → (c : Cycle) × (b : Bool) × IsClosed e o c b
delivered_close e o c b rows' p h = (c, b, rw p h)

module _ {id : ℕ} {uuid : Text} (now : Time) (delay : ℕ) (e : CloseEvent) {rows : List Cycle}
    (h : IsClosable id uuid e rows) {contact : Option Text} {closed : Time}
    (accepted : normalize_contact e.contact_external_id ≡ ok contact)
    (time : e.closed_at ≡ some closed) where
  -- closing the one open row of the conversation leaves none open
  closes-All :
      (x : Cycle)
      → Memᴰ x rows
      → is_open_in e.conversation_id x ≡ true
      → All
          (λ r. is_open_in e.conversation_id r ≡ false)
          (update (λ r. r.id == x.id) (close_row now delay e closed contact) rows)
  unfolding is_open_in
  closes-All x m is_open =
      All-map (λ r. is_open_in e.conversation_id r ≡ false) _ rows
        (All-mono _ _
          (λ r k. elim (Bool-cases (r.id == x.id)) [
            | inl p ↦ rw p (unfold close_row in ground arith)
            | inr p ↦ rw p (elim (Bool-cases (is_open_in e.conversation_id r)) [
              | inl q ↦
                  let y : r ≡ x =
                    eq_of_open rows x m k h.valid
                      (ground (
                        arith,
                        same_iff r.conversation_id e.conversation_id,
                        same_iff x.conversation_id e.conversation_id,
                        same_iff r.conversation_id x.conversation_id,
                      ))
                      (ground arith) (ground arith) in
                  let i : r.id ≡ x.id = ap (λ z. z.id) y in absurd (ground arith)
              | inr q ↦ q
            ])
          ])
          rows (All-mem rows))

  close_unseen :
      find (has_close_key e.close_event_key) rows ≡ none
      → (c : Cycle) × (created : Bool) × IsClosed e (close_cycle id uuid now delay e rows) c created
  close_unseen no_key =
      let ok_contact = normalize_contact-nonblank e.contact_external_id contact accepted in
      elim (Option-cases (find (is_open_in e.conversation_id) rows)) [
        | inl no_open ↦
            delivered_close e _ _ true _
              (close_unopened now delay h closed contact accepted time no_key no_open)
              (record {
                returned = refl;
                valid = closed_row-conforms now delay h closed contact ok_contact no_key;
                stored = mem-append_one rows _;
                keyed = unfold has_close_key closed_row in same_refl e.close_event_key;
                none_open = λ _.
                    All-append (λ r. is_open_in e.conversation_id r ≡ false) rows _
                      (find-eq_none (is_open_in e.conversation_id) rows no_open)
                      ((unfold is_open_in closed_row in ground arith), tt);
              })
        | inr (x, f) ↦
            let m = find-mem (is_open_in e.conversation_id) rows f in
            delivered_close e _ _ true _
              (close_opened now delay h closed contact accepted time no_key f)
              (record {
                returned = refl;
                valid = close_row-conforms now delay h closed contact x.id ok_contact no_key;
                stored =
                    mem-update (λ r. r.id == x.id) (close_row now delay e closed contact) m
                      (let p : (x.id == x.id) ≡ true = ground arith in p);
                keyed = unfold has_close_key close_row in same_refl e.close_event_key;
                none_open = λ _. closes-All x m (find_holds (is_open_in e.conversation_id) rows f);
              })
      ]

  -- Over a table that conforms to the database's constraints, with a new identity and UUID, a
  -- nonblank event key and strategy, a contact id that is accepted and a time that parses,
  -- `close_cycle` returns a row, with the event's key, of the table that it leaves; that table
  -- conforms again. If the row is said to be new to the event, the conversation has no open cycle
  -- left.
  pub close_cycle_total :
      (c : Cycle) × (created : Bool) × IsClosed e (close_cycle id uuid now delay e rows) c created
  close_cycle_total = elim (Option-cases (find (has_close_key e.close_event_key) rows)) [
    | inl no_key ↦ close_unseen no_key
    | inr (d, f) ↦
        delivered_close e _ d false rows
          (close_duplicate id uuid now delay e rows h.valid accepted time f)
          (record {
            returned = refl;
            valid = h.valid;
            stored = find-mem (has_close_key e.close_event_key) rows f;
            keyed = find_holds (has_close_key e.close_event_key) rows f;
            none_open = λ p. cc;
          })
  ]

-- Over a conforming table, for an event with a nonblank key and strategy, an accepted contact id and a
-- time that parses, and with a new identity and UUID: a second delivery of a close event, whatever identity, UUID and time it comes with, returns the
-- cycle that the first one returned, says that nothing is new, and leaves the table as it is.
pub close_cycle_redelivery :
    {id : ℕ} {uuid : Text} (now : Time) (delay : ℕ) (e : CloseEvent) {rows : List Cycle}
    {contact : Option Text} {closed : Time} {c : Cycle} {created : Bool}
    → IsClosable id uuid e rows
    → normalize_contact e.contact_external_id ≡ ok contact
    → e.closed_at ≡ some closed
    → (close_cycle id uuid now delay e rows).0 ≡ ok (c, created)
    → (id' : ℕ) (uuid' : Text) (now' : Time) (delay' : ℕ)
    → close_cycle id' uuid' now' delay' e (close_cycle id uuid now delay e rows).1
      ≡ (ok (c, false), (close_cycle id uuid now delay e rows).1)
close_cycle_redelivery {id} {uuid} now delay e {rows} {c = c} h accepted time returned id' uuid'
      now' delay' =
    let (c', b, r) = close_cycle_total now delay e h accepted time in
    let same_c : c' ≡ c = (let q = sym r.returned ∙ returned in cc) in
    let after = (close_cycle id uuid now delay e rows).1 in
    let (d, f) = find_of_mem (has_close_key e.close_event_key) after r.stored r.keyed in
    let same_d : d ≡ c' =
      eq_of_close_key after c' r.stored (find-mem (has_close_key e.close_event_key) after f) r.valid
        e.close_event_key
        (unfold has_close_key in find_holds (has_close_key e.close_event_key) after f)
        (unfold has_close_key in r.keyed) in
    close_duplicate id' uuid' now' delay' e after r.valid accepted time
      (f ∙ ap some (same_d ∙ same_c))
