-- ===== src/Cycle/Admission/Opened.antt =====
-- Deliveries of ticket-open events over a conforming table: `create_open_cycle`.
use cai_central_de_atendimen.Base.{
  ℕ, Bool, true, false, Option, none, some, List, ◌≡◌, refl, Option-cases, inl, inr, ◌⊎◌, ap, sym,
  ◌∙◌,
}
use mathlib.Core.List.{Memᴰ}
use cai_central_de_atendimen.Base.Errors.{ok}
use cai_central_de_atendimen.Base.Lists.{find, find-mem, find_holds, find_of_mem, mem-append_one}
use cai_central_de_atendimen.Base.Texts.{Text, same, same_refl}
use cai_central_de_atendimen.Base.Tables.{mem-update}
use cai_central_de_atendimen.Cycle.Row.{Cycle, Time}
use cai_central_de_atendimen.Cycle.Schema.{conforms, eq_of_open_key}
use cai_central_de_atendimen.Cycle.Admission.{
  Outcome, OpenEvent, opened_row, keep_contact, is_open_in, has_open_key, create_open_cycle,
  normalize_contact,
}
use cai_central_de_atendimen.Cycle.Admission.Opening.{
  IsOpenable, open_duplicate, open_second, open_second_contact, open_first, opened_row-conforms,
  keep_contact-conforms,
}
use cai_central_de_atendimen.Cycle.Admission.Contact.{normalize_contact-nonblank}

-- what a successful delivery of an open event gives
pub record IsOpened (e : OpenEvent) (o : Outcome) (c : Cycle) (created : Bool) : Type 0 where
  pub returned : o.0 ≡ ok (c, created)
  pub valid : conforms o.1 ≡ true
  pub stored : Memᴰ c o.1
  pub keyed : created ≡ true → has_open_key e.open_event_key c ≡ true
  pub answers : (has_open_key e.open_event_key c ≡ true) ⊎ (is_open_in e.conversation_id c ≡ true)

abbrev delivered_open :
    (e : OpenEvent) (o : Outcome) (c : Cycle) (b : Bool) (rows' : List Cycle)
    → o ≡ (ok (c, b), rows')
    → IsOpened e (ok (c, b), rows') c b
    → (c : Cycle) × (b : Bool) × IsOpened e o c b
delivered_open e o c b rows' p h = (c, b, rw p h)

module _ {id : ℕ} {uuid : Text} (now : Time) (e : OpenEvent) {rows : List Cycle}
    (h : IsOpenable id uuid e rows) {contact : Option Text} {started : Time}
    (accepted : normalize_contact e.contact_external_id ≡ ok contact)
    (time : e.started_at ≡ some started) where
  open_unseen :
      find (has_open_key e.open_event_key) rows ≡ none
      → (c : Cycle) × (created : Bool) × IsOpened e (create_open_cycle id uuid now e rows) c created
  open_unseen no_key = elim (Option-cases (find (is_open_in e.conversation_id) rows)) [
    | inl none_open ↦
        delivered_open e _ _ true _ (open_first now h accepted no_key none_open time) (record {
          returned = refl;
          valid =
              opened_row-conforms now h started contact
                (normalize_contact-nonblank e.contact_external_id contact accepted) no_key
                none_open;
          stored = mem-append_one rows _;
          keyed = λ _. unfold has_open_key opened_row in same_refl e.open_event_key;
          answers = inl (unfold has_open_key opened_row in same_refl e.open_event_key);
        })
    | inr (x, f) ↦
        let m = find-mem (is_open_in e.conversation_id) rows f in
        let is_open = find_holds (is_open_in e.conversation_id) rows f in
        elim (Option-cases contact) [
          | inl no_contact ↦
              delivered_open e _ x false rows (open_second now h accepted no_key f no_contact)
                (record {
                  returned = refl;
                  valid = h.valid;
                  stored = m;
                  keyed = λ p. cc;
                  answers = inr is_open;
                })
          | inr (v, some_contact) ↦
              delivered_open e _ _ false _
                (open_second_contact now h accepted no_key f some_contact)
                (record {
                  returned = refl;
                  valid = keep_contact-conforms now h v x.public_id (
                      normalize_contact-nonblank e.contact_external_id (some v)
                        (accepted ∙ ap ok some_contact));
                  stored =
                      mem-update (λ r. same r.public_id x.public_id) (keep_contact (some v) now) m
                        (same_refl x.public_id);
                  keyed = λ p. cc;
                  answers = inr (unfold is_open_in in is_open);
                })
        ]
  ]

  -- Over a table that conforms to the database's constraints, with a new identity and UUID, a
  -- nonblank event key and strategy, a contact id that is accepted and a time that parses,
  -- `create_open_cycle` returns a row of the table that it leaves; that table conforms again. The row
  -- carries the event's key or is the open cycle of the conversation, and it carries the key if it is
  -- said to be created.
  pub create_open_cycle_total :
      (c : Cycle) × (created : Bool) × IsOpened e (create_open_cycle id uuid now e rows) c created
  create_open_cycle_total = elim (Option-cases (find (has_open_key e.open_event_key) rows)) [
    | inl no_key ↦ open_unseen no_key
    | inr (d, f) ↦
        let keyed = find_holds (has_open_key e.open_event_key) rows f in
        delivered_open e _ d false rows (open_duplicate id uuid now e rows h.valid accepted f)
          (record {
            returned = refl;
            valid = h.valid;
            stored = find-mem (has_open_key e.open_event_key) rows f;
            keyed = λ _. keyed;
            answers = inl keyed;
          })
  ]

-- Over a conforming table, for an event with a nonblank key and strategy, an accepted contact id and a
-- time that parses, and with a new identity and UUID: when a delivery of the event created a cycle, a later delivery of the same event, whatever
-- identity, UUID and time it comes with, returns that cycle, says that it created none, and leaves
-- the table as it is.
pub create_open_cycle_redelivery :
    {id : ℕ} {uuid : Text} (now : Time) (e : OpenEvent) {rows : List Cycle} {contact : Option Text}
    {started : Time} {c : Cycle}
    → IsOpenable id uuid e rows
    → normalize_contact e.contact_external_id ≡ ok contact
    → e.started_at ≡ some started
    → (create_open_cycle id uuid now e rows).0 ≡ ok (c, true)
    → (id' : ℕ) (uuid' : Text) (now' : Time)
    → create_open_cycle id' uuid' now' e (create_open_cycle id uuid now e rows).1
      ≡ (ok (c, false), (create_open_cycle id uuid now e rows).1)
create_open_cycle_redelivery {id} {uuid} now e {rows} {c = c} h accepted time created id' uuid'
      now' =
    let (c', b, r) = create_open_cycle_total now e h accepted time in
    let same_c : c' ≡ c = (let q = sym r.returned ∙ created in cc) in
    let is_new : b ≡ true = (let q = sym r.returned ∙ created in cc) in
    let after = (create_open_cycle id uuid now e rows).1 in
    let keyed = r.keyed is_new in
    let (d, f) = find_of_mem (has_open_key e.open_event_key) after r.stored keyed in
    let same_d : d ≡ c' =
      eq_of_open_key after c' r.stored (find-mem (has_open_key e.open_event_key) after f) r.valid
        e.open_event_key (unfold has_open_key in find_holds (has_open_key e.open_event_key) after f)
        (unfold has_open_key in keyed) in
    open_duplicate id' uuid' now' e after r.valid accepted (f ∙ ap some (same_d ∙ same_c))
