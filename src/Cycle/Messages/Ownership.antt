-- ===== src/Cycle/Messages/Ownership.antt =====
-- A message belongs to one cycle: saving the messages of a cycle takes none from another.
use cai_central_de_atendimen.Base.{
  ℕ, ◌+◌, ◌≡◌, ◌⊎◌, refl, subst, ap, sym, ◌∙◌, map, none, Bool, true, false, not, some, List, [],
  ◌∷◌, arith, inl, inr, Bool-cases, Option-cases, and_left, and_right, and_intro,
}
use mathlib.Core.List.{append-nil, reverse, reverse_aux, Memᴰ}
use cai_central_de_atendimen.Base.Errors.{ok}
use cai_central_de_atendimen.Base.Lists.{
  all, All→all, all→All, All-select, All-mono, All-mem, All-zip, All-of, any, any-eq_false,
  any_of_mem, find, find-eq_none, find-mem, find_holds, select, select_holds, select-append,
  select-map,
}
use cai_central_de_atendimen.Base.Tables.{
  set_where, pairwise, pairwise-at, pairwise-append_one, pairwise-map,
}
use cai_central_de_atendimen.Base.Texts.{Text, same, same_iff}
use cai_central_de_atendimen.Cycle.Row.{Cycle, Time}
use cai_central_de_atendimen.Cycle.Admission.{cycle_row}
use cai_central_de_atendimen.Cycle.Messages.{
  CycleMessage, SnapshotMessage, Saved, new_message, reposition, is_conflicting, is_of, is_message,
  upsert_message, is_storable, accept, store, refuse, save_message, save_messages,
  save_cycle_messages,
}

-- the rows of the other cycles
abbrev pub other_rows : ℕ → List CycleMessage → List CycleMessage
other_rows cycle_id = select (λ r. not (is_of cycle_id r))

-- uq_conversation_cycle_messages_id
abbrev pub different_messages : CycleMessage → CycleMessage → Bool
different_messages a b = not (same a.message_id b.message_id)

unfoldable pub owned_once : List CycleMessage → Bool
owned_once = pairwise different_messages

module _ (cycle_id position : ℕ) (now : Time) (m : SnapshotMessage) where
  not_other : not (is_of cycle_id (new_message cycle_id position now m)) ≡ false
  not_other = ground arith

  reposition-other :
      (x : CycleMessage)
      → (not (is_of cycle_id (set_where (is_conflicting cycle_id m) (reposition position m) x))
          ≡ not (is_of cycle_id x))
        × (not (is_of cycle_id x) ≡ true
            → set_where (is_conflicting cycle_id m) (reposition position m) x ≡ x)
  reposition-other x = elim (Bool-cases (is_conflicting cycle_id m x)) [
    | inr e ↦ rw e (refl, λ _. refl)
    | inl e ↦ rw e (refl, λ k. absurd (ground (arith, e, k)))
  ]

  reposition-id :
      (x : CycleMessage)
      → (set_where (is_conflicting cycle_id m) (reposition position m) x).message_id ≡ x.message_id
  reposition-id x = elim (Bool-cases (is_conflicting cycle_id m x)) [ inr e ↦ rw e | inl e ↦ rw e ]

  upsert-other_rows :
      (rows : List CycleMessage)
      → other_rows cycle_id (upsert_message cycle_id position now m rows) ≡ other_rows cycle_id rows
  unfolding upsert_message
  upsert-other_rows rows = elim (Option-cases (find (is_message m.message_id) rows)) [
    | inl e ↦
        rw (e, upsert_message)
          (select-append (λ r. not (is_of cycle_id r)) rows
              (new_message cycle_id position now m ∷ [])
            ∙ rw not_other (append-nil (other_rows cycle_id rows)))
    | inr (r, e) ↦
        rw (e, upsert_message)
          (select-map (λ r. not (is_of cycle_id r))
            (set_where (is_conflicting cycle_id m) (reposition position m)) rows
            (All-of _ reposition-other rows))
  ]

  upsert-owned_once :
      (rows : List CycleMessage)
      → owned_once rows ≡ true
      → owned_once (upsert_message cycle_id position now m rows) ≡ true
  unfolding upsert_message owned_once
  upsert-owned_once rows h = elim (Option-cases (find (is_message m.message_id) rows)) [
    | inl e ↦
        rw (e, upsert_message)
          (pairwise-append_one different_messages rows (new_message cycle_id position now m) h
            (All-mono _ _ (λ r k. rw k) rows (find-eq_none (is_message m.message_id) rows e)))
    | inr (r, e) ↦
        rw (e, upsert_message)
          (pairwise-map different_messages (λ _. Unit {0})
            (set_where (is_conflicting cycle_id m) (reposition position m))
            (λ x y _ _ k. rw (reposition-id x, reposition-id y) k) rows
            (All-of (λ _. Unit {0}) (λ _. tt) rows) h)
  ]

-- a message that a row of another cycle has
abbrev pub is_taken : List CycleMessage → SnapshotMessage → Bool
is_taken others m = any (is_message m.message_id) others

abbrev pub ids_of : (SnapshotMessage → Bool) → List SnapshotMessage → List Text
ids_of p ms = map (λ m. m.message_id) (select p ms)

mem-select :
    {A : Type 0} (p : A → Bool) {x : A} {xs : List A}
    → Memᴰ x xs
    → p x ≡ true
    → Memᴰ x (select p xs)
mem-select p {x} (Memᴰ.head {x = y} e) h =
    let h' : p y ≡ true = subst (λ z. p z ≡ true) e h in rw h' (Memᴰ.head e)
mem-select p (Memᴰ.tail {x = y} m) h =
    let rest = mem-select p m h in
    elim (Bool-cases (p y)) [ inl e ↦ rw e (Memᴰ.tail rest) | inr e ↦ rw e rest ]

-- the row that the loop finds for a message tells whether another cycle has it
taken_by :
    (cycle_id : ℕ) (m : SnapshotMessage) (rows : List CycleMessage) {r : CycleMessage}
    → find (is_message m.message_id) rows ≡ some r
    → is_of cycle_id r ≡ false
    → is_taken (other_rows cycle_id rows) m ≡ true
taken_by cycle_id m rows {r} e f =
    any_of_mem (is_message m.message_id)
      (mem-select (λ r. not (is_of cycle_id r)) (find-mem (is_message m.message_id) rows e)
        (rw f refl))
      (find_holds (is_message m.message_id) rows e)

not_taken_none :
    (cycle_id : ℕ) (m : SnapshotMessage) (rows : List CycleMessage)
    → find (is_message m.message_id) rows ≡ none
    → is_taken (other_rows cycle_id rows) m ≡ false
not_taken_none cycle_id m rows e =
    any-eq_false (is_message m.message_id) (other_rows cycle_id rows) (
      All-select _ (λ r. not (is_of cycle_id r)) rows
        (find-eq_none (is_message m.message_id) rows e))

not_taken_own :
    (cycle_id : ℕ) (m : SnapshotMessage) (rows : List CycleMessage) {r : CycleMessage}
    → owned_once rows ≡ true
    → find (is_message m.message_id) rows ≡ some r
    → is_of cycle_id r ≡ true
    → is_taken (other_rows cycle_id rows) m ≡ false
unfolding owned_once
not_taken_own cycle_id m rows {r} once e f =
    any-eq_false (is_message m.message_id) (other_rows cycle_id rows) (
      All-mono _ _
        (λ x (k, o). elim (Bool-cases (is_message m.message_id x)) [
          | inr g ↦ g
          | inl g ↦
              let a : x.message_id ≡ m.message_id = (same_iff _ _).0 g in
              let b : r.message_id ≡ m.message_id =
                (same_iff _ _).0 (find_holds (is_message m.message_id) rows e) in
              let ab : same x.message_id r.message_id ≡ true = (same_iff _ _).1 (a ∙ sym b) in
              let ba : same r.message_id x.message_id ≡ true = (same_iff _ _).1 (b ∙ sym a) in
              elim (pairwise-at different_messages k (find-mem (is_message m.message_id) rows e)
                once) [
                  | inl q ↦ let o' = rw q at o in absurd (ground (arith, o', f))
                  | inr (inl d) ↦ absurd (ground (arith, d, ab))
                  | inr (inr d) ↦ absurd (ground (arith, d, ba))
                ]
        ])
        _
        (All-zip _ _ _
          (All-select (λ x. Memᴰ x rows) (λ r. not (is_of cycle_id r)) rows (All-mem rows))
          (select_holds (λ r. not (is_of cycle_id r)) rows)))

-- where the loop stands: nobody else's rows have changed, and every message is one row's
record IsLoop (cycle_id : ℕ) (others : List CycleMessage) (s : Saved) : Type 0 where
  others_kept : other_rows cycle_id s.table ≡ others
  once : owned_once s.table ≡ true

module _ (cycle_id : ℕ) (now : Time) (others : List CycleMessage) where
  -- a storable message is refused exactly if another cycle has it
  abbrev Round : ℕ → SnapshotMessage → Saved → Saved → Type 0
  Round position m s s' =
      (save_message cycle_id position now m s ≡ ok s')
      × IsLoop cycle_id others s'
      × (((is_taken others m ≡ true)
            × (s'.accepted ≡ s.accepted)
            × (s'.conflicts ≡ m.message_id ∷ s.conflicts))
          ⊎ ((is_taken others m ≡ false)
              × (s'.accepted ≡ m.message_id ∷ s.accepted)
              × (s'.conflicts ≡ s.conflicts)))

  accepted_round :
      (position : ℕ) (m : SnapshotMessage) (s : Saved)
      → is_storable m ≡ true
      → IsLoop cycle_id others s
      → is_taken others m ≡ false
      → save_message cycle_id position now m s ≡ store cycle_id position now m s
      → Round position m s (accept cycle_id position now m s)
  accepted_round position m s v l t e = (
    e ∙ rw v refl,
    record {
      others_kept = upsert-other_rows cycle_id position now m s.table ∙ l.others_kept;
      once = upsert-owned_once cycle_id position now m s.table l.once;
    },
    inr (t, refl, refl),
  )

  round :
      (position : ℕ) (m : SnapshotMessage) (s : Saved)
      → is_storable m ≡ true
      → IsLoop cycle_id others s
      → (s' : Saved) × Round position m s s'
  unfolding save_message
  round position m s v l = elim (Option-cases (find (is_message m.message_id) s.table)) [
    | inl e ↦ (
      accept cycle_id position now m s,
      accepted_round position m s v l (rw (← l.others_kept) (not_taken_none cycle_id m s.table e))
          (rw (save_message, e) refl),
    )
    | inr (r, e) ↦ elim (Bool-cases (is_of cycle_id r)) [
      | inl f ↦ (
        accept cycle_id position now m s,
        accepted_round position m s v l
            (rw (← l.others_kept) (not_taken_own cycle_id m s.table l.once e f))
            (rw (save_message, e, f) refl),
      )
      | inr f ↦ (
        refuse m s,
        (
          rw (save_message, e, f) refl,
          record { others_kept = l.others_kept; once = l.once },
          inl (rw (← l.others_kept) (taken_by cycle_id m s.table e f), refl, refl),
        ),
      )
    ]
  ]

  rounds :
      (position : ℕ) (ms : List SnapshotMessage) (s : Saved)
      → all is_storable ms ≡ true
      → IsLoop cycle_id others s
      → (s' : Saved) × (save_messages cycle_id position now ms s ≡ ok s')
        × IsLoop cycle_id others s'
        × (s'.accepted ≡ reverse_aux (ids_of (λ m. not (is_taken others m)) ms) s.accepted)
        × (s'.conflicts ≡ reverse_aux (ids_of (is_taken others) ms) s.conflicts)
  unfolding save_messages
  rounds position [] s v l = (s, refl, l, refl, refl)
  rounds position (m ∷ ms) s v l =
      let (t, (e, k, r)) = round position m s (and_left _ _ v) l in
      let (s', e', k', a, c) = rounds (position + 1) ms t (and_right (is_storable m) _ v) k in
      elim r [
        | inl (h, p, q) ↦ (s', rw e e', k', rw h (a ∙ rw p refl), rw h (c ∙ rw q refl))
        | inr (h, p, q) ↦ (s', rw e e', k', rw h (a ∙ rw p refl), rw h (c ∙ rw q refl))
      ]

select_twice : {A : Type 0} (p : A → Bool) (xs : List A) → select p (select p xs) ≡ select p xs
select_twice p [] = refl
select_twice p (x ∷ xs) = elim (Bool-cases (p x)) [
  | inl e ↦ rw e (rw e (ap (◌∷◌ x) (select_twice p xs)))
  | inr e ↦ rw e (select_twice p xs)
]

select-owned_once :
    (p : CycleMessage → Bool) (rows : List CycleMessage)
    → owned_once rows ≡ true
    → owned_once (select p rows) ≡ true
unfolding owned_once pairwise
select-owned_once p [] h = refl
select-owned_once p (r ∷ rows) h = elim (Bool-cases (p r)) [
  | inl e ↦ rw e (
      and_intro _ _
        (All→all (different_messages r) (select p rows)
          (All-select _ p rows (all→All (different_messages r) rows (and_left _ _ h))))
        (select-owned_once p rows (and_right (all (different_messages r) rows) _ h)))
  | inr e ↦ rw e (select-owned_once p rows (and_right (all (different_messages r) rows) _ h))
]

-- When the cycle is stored, no message belongs to two rows, and the ids and the types of the
-- messages given are not blank: `save_cycle_messages` succeeds. It reports as conflicts exactly the
-- messages that another cycle's rows have, and accepts all others (both lists last first), changes
-- no row of another cycle, and no message belongs to two rows after it.
pub save_cycle_messages-keeps :
    (public_id : Text) (ms : List SnapshotMessage) (now : Time) (cycles : List Cycle)
    (rows : List CycleMessage) {c : Cycle}
    → cycle_row public_id cycles ≡ some c
    → owned_once rows ≡ true
    → all is_storable ms ≡ true
    → (s : Saved) × (save_cycle_messages public_id ms now cycles rows ≡ ok s)
      × (s.accepted ≡ reverse (ids_of (λ m. not (is_taken (other_rows c.id rows) m)) ms))
      × (s.conflicts ≡ reverse (ids_of (is_taken (other_rows c.id rows)) ms))
      × (other_rows c.id s.table ≡ other_rows c.id rows)
      × (owned_once s.table ≡ true)
unfolding save_cycle_messages
save_cycle_messages-keeps public_id ms now cycles rows {c} found h v =
    let start : Saved = record { table = other_rows c.id rows; accepted = []; conflicts = [] } in
    let loop : IsLoop c.id (other_rows c.id rows) start = record {
      others_kept = select_twice (λ r. not (is_of c.id r)) rows;
      once = select-owned_once (λ r. not (is_of c.id r)) rows h;
    } in
    let (s, e, l, a, k) = rounds c.id now (other_rows c.id rows) 0 ms start v loop in
    (s, rw (save_cycle_messages, found) e, a, k, l.others_kept, l.once)
