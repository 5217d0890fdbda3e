-- ===== src/Worker/Recovery/Owned.antt =====
-- The messages of a recovered snapshot belong to its cycle.
use cai_central_de_atendimen.Base.{
  ℕ, ◌+◌, ◌≡◌, refl, subst, Bool, true, ◌&&◌, some, List, [], ◌∷◌, arith, inl, inr, Bool-cases,
  Option-cases,
}
use cai_central_de_atendimen.Base.Errors.{Result, ok, err, Result-cases}
use cai_central_de_atendimen.Base.Lists.{
  All, All-mono, select_holds, any, any-append, any_of_mem, find, find_holds, find-mem,
}
use cai_central_de_atendimen.Base.Tables.{update}
use cai_central_de_atendimen.Base.Texts.{Text, same, same_refl, same_iff, contains}
use cai_central_de_atendimen.Cycle.Row.{Cycle, Time, recovering_messages}
use cai_central_de_atendimen.Cycle.Admission.{cycle_row}
use cai_central_de_atendimen.Cycle.Messages.{
  CycleMessage, SnapshotMessage, Saved, is_of, is_message, is_conflicting, new_message, reposition,
  upsert_message, is_storable, accept, store, refuse, save_message, save_messages,
  save_cycle_messages,
}
use cai_central_de_atendimen.Cycle.Transition.{Moved}
use cai_central_de_atendimen.Cycle.Transition.Identity.{transition_cycle-identity}
use cai_central_de_atendimen.Finalization.History.{NormalizedHistory}
use cai_central_de_atendimen.Worker.Process.{Snapshot}
use cai_central_de_atendimen.Worker.Recovery.{
  Fetched, CycleTables, Recovered, unless_raised, recovered_snapshot, after_save, build_snapshot,
  after_fetch, after_start, recover_messages, normalize_for,
}

-- the cycle has a row for the message
abbrev pub owns : ℕ → Text → List CycleMessage → Bool
owns cycle_id id rows = any (λ r. is_of cycle_id r && is_message id r) rows

owns-update :
    (cycle_id position : ℕ) (m : SnapshotMessage) (id : Text) (rows : List CycleMessage)
    → owns cycle_id id (update (is_conflicting cycle_id m) (reposition position m) rows)
      ≡ owns cycle_id id rows
owns-update cycle_id position m id [] = refl
owns-update cycle_id position m id (r ∷ rows) =
    ground (arith, owns-update cycle_id position m id rows)

module _ (cycle_id position : ℕ) (now : Time) (m : SnapshotMessage) where
  upsert-owns :
      (id : Text) (rows : List CycleMessage)
      → owns cycle_id id rows ≡ true
      → owns cycle_id id (upsert_message cycle_id position now m rows) ≡ true
  unfolding upsert_message
  upsert-owns id rows h = elim (Option-cases (find (is_message m.message_id) rows)) [
    | inl e ↦
        let k =
          any-append (λ r. is_of cycle_id r && is_message id r) rows
            (new_message cycle_id position now m ∷ []) in
        ground (arith, e, k, h)
    | inr (r, e) ↦ ground (arith, e, h, owns-update cycle_id position m id rows)
  ]

  -- the message is new, or its row is the cycle's
  upserted_owns :
      (rows : List CycleMessage)
      → ((r : CycleMessage)
          → find (is_message m.message_id) rows ≡ some r
          → is_of cycle_id r ≡ true)
      → owns cycle_id m.message_id (upsert_message cycle_id position now m rows) ≡ true
  unfolding upsert_message
  upserted_owns rows h = elim (Option-cases (find (is_message m.message_id) rows)) [
    | inl e ↦
        let k =
          any-append (λ r. is_of cycle_id r && is_message m.message_id r) rows
            (new_message cycle_id position now m ∷ []) in
        ground (arith, e, k, same_refl m.message_id)
    | inr (r, e) ↦
        let own : owns cycle_id m.message_id rows ≡ true =
          any_of_mem _ (find-mem (is_message m.message_id) rows e)
            (ground (arith, h r e, find_holds (is_message m.message_id) rows e)) in
        ground (arith, e, own, owns-update cycle_id position m m.message_id rows)
  ]

abbrev IsOwned : ℕ → Saved → Type 0
IsOwned cycle_id s = All (λ id. owns cycle_id id s.table ≡ true) s.accepted

module _ (cycle_id position : ℕ) (now : Time) (m : SnapshotMessage) (s : Saved)
    (h : IsOwned cycle_id s) where
  store-IsOwned :
      {s' : Saved}
      → ((r : CycleMessage)
          → find (is_message m.message_id) s.table ≡ some r
          → is_of cycle_id r ≡ true)
      → store cycle_id position now m s ≡ ok s'
      → IsOwned cycle_id s'
  store-IsOwned {s'} own e = elim (Bool-cases (is_storable m)) [
    | inr v ↦ cc (rw v at e)
    | inl v ↦
        let q : accept cycle_id position now m s ≡ s' = (let e' = rw v at e in cc) in
        subst (IsOwned cycle_id) q (
          upserted_owns cycle_id position now m s.table own,
          All-mono _ _ (λ id k. upsert-owns cycle_id position now m id s.table k) s.accepted h,
        )
  ]

  save_message-IsOwned :
      {s' : Saved} → save_message cycle_id position now m s ≡ ok s' → IsOwned cycle_id s'
  unfolding save_message
  save_message-IsOwned {s'} e = elim (Option-cases (find (is_message m.message_id) s.table)) [
    | inl k ↦ store-IsOwned (λ r q. cc (q, k)) (rw (save_message, k) at e)
    | inr (r, k) ↦ elim (Bool-cases (is_of cycle_id r)) [
      | inl f ↦
          store-IsOwned (λ x q. (let eq : r ≡ x = cc in rw (← eq) f)) (rw (save_message, k, f) at e)
      | inr f ↦
          let q : refuse m s ≡ s' = (let e' = rw (save_message, k, f) at e in cc) in
          subst (IsOwned cycle_id) q h
    ]
  ]

save_messages-IsOwned :
    (cycle_id position : ℕ) (now : Time) (ms : List SnapshotMessage) (s : Saved) {s' : Saved}
    → IsOwned cycle_id s
    → save_messages cycle_id position now ms s ≡ ok s'
    → IsOwned cycle_id s'
unfolding save_messages
save_messages-IsOwned cycle_id position now [] s {s'} h e =
    let q : s ≡ s' = cc in subst (IsOwned cycle_id) q h
save_messages-IsOwned cycle_id position now (m ∷ ms) s h e =
    elim (Result-cases (save_message cycle_id position now m s)) [
      | inl (x, k) ↦ cc (rw k at e)
      | inr (t, k) ↦
          save_messages-IsOwned cycle_id (position + 1) now ms t
            (save_message-IsOwned cycle_id position now m s h k) (rw k at e)
    ]

owned_of :
    (cycle_id : ℕ) (rows : List CycleMessage) (ids : List Text) (id : Text)
    → All (λ x. owns cycle_id x rows ≡ true) ids
    → contains ids id ≡ true
    → owns cycle_id id rows ≡ true
unfolding contains
owned_of cycle_id rows [] id h k = cc
owned_of cycle_id rows (x ∷ xs) id h k = elim (Bool-cases (same x id)) [
  | inl e ↦ let eq : x ≡ id = (same_iff x id).0 e in rw (← eq) h.0
  | inr e ↦ owned_of cycle_id rows xs id h.1 (ground (arith, k, e))
]

-- the cycle `x` is the one that a row of the table has under the public id
saved_by :
    (public_id : Text) (ms : List SnapshotMessage) (now : Time) (cycles : List Cycle)
    (rows : List CycleMessage) (saved : Saved)
    → save_cycle_messages public_id ms now cycles rows ≡ ok saved
    → (x : Cycle) × (cycle_row public_id cycles ≡ some x) × IsOwned x.id saved
unfolding save_cycle_messages
saved_by public_id ms now cycles rows saved h = elim (Option-cases (cycle_row public_id cycles)) [
  | inl e ↦ cc (rw (save_cycle_messages, e) at h)
  | inr (x, e) ↦ (x, e, save_messages-IsOwned x.id 0 now ms _ tt (rw (save_cycle_messages, e) at h))
]

-- what a recovery comes to: in the table that it leaves, the cycle owns every message of the
-- snapshot
abbrev pub IsOwnSnapshot : Cycle → Recovered → Type 0
IsOwnSnapshot x (err e, t) = Unit
IsOwnSnapshot x (ok snapshot, t) =
    All (λ m. owns x.id m.message_id t.messages ≡ true) snapshot.messages

module _ (serialise : Snapshot → Text) (details : Text) (c x : Cycle) (now : Time) where
  moved_own :
      (snapshot : Snapshot) (messages : List CycleMessage) (m : Moved)
      → All (λ k. owns x.id k.message_id messages ≡ true) snapshot.messages
      → IsOwnSnapshot x (unless_raised snapshot messages m)
  moved_own snapshot messages (err e, rows) h = tt
  moved_own snapshot messages (ok row, rows) h = h

  snapshot_own :
      (n : NormalizedHistory) (saved : Saved)
      → IsOwned x.id saved
      → All
          (λ k. owns x.id k.message_id saved.table ≡ true)
          (recovered_snapshot details n saved).messages
  unfolding recovered_snapshot
  snapshot_own n saved h =
      All-mono _ _ (λ k e. owned_of x.id saved.table saved.accepted k.message_id h e) _
        (select_holds (λ k. contains saved.accepted k.message_id) n.messages)

-- the same, for the cycle that a row of `cycles` has under the public id of `c`
abbrev pub IsRecovered : List Cycle → Cycle → Recovered → Type 0
IsRecovered cycles c (err e, t) = Unit
IsRecovered cycles c (ok snapshot, t) =
    (x : Cycle) × (cycle_row c.public_id cycles ≡ some x)
    × All (λ m. owns x.id m.message_id t.messages ≡ true) snapshot.messages

recovered_by :
    (cycles : List Cycle) (c x : Cycle) (r : Recovered)
    → cycle_row c.public_id cycles ≡ some x
    → IsOwnSnapshot x r
    → IsRecovered cycles c r
recovered_by cycles c x (err e, t) p h = tt
recovered_by cycles c x (ok snapshot, t) p h = (x, p, h)

module _ (serialise : Snapshot → Text) (details : Text) (c : Cycle) (now : Time) where
  saved-IsRecovered :
      (n : NormalizedHistory) (h : Fetched) (t : CycleTables) (r : Result Saved)
      → ((saved : Saved)
          → r ≡ ok saved
          → (x : Cycle) × (cycle_row c.public_id t.cycles ≡ some x) × IsOwned x.id saved)
      → IsRecovered t.cycles c (after_save serialise details c n h now t r)
  saved-IsRecovered n h t (err e) k = tt
  saved-IsRecovered n h t (ok saved) k =
      let (x, p, o) = k saved refl in
      recovered_by t.cycles c x _ p (
        moved_own serialise details c x now (recovered_snapshot details n saved) saved.table _
          (snapshot_own serialise details c x now n saved o))

  fetched-IsRecovered :
      (t : CycleTables) (r : Result Fetched)
      → IsRecovered t.cycles c (after_fetch serialise details c now t r)
  unfolding build_snapshot
  fetched-IsRecovered t (err e) = tt
  fetched-IsRecovered t (ok h) = elim (Option-cases c.ticket_closed_at) [
    | inl e ↦ rw (after_fetch, e) tt
    | inr (closed_at, e) ↦
        rw (after_fetch, e)
          (saved-IsRecovered (normalize_for c closed_at h t.cycles) h t _
            (saved_by c.public_id _ now t.cycles t.messages))
  ]

  started-IsRecovered :
      (attempts : ℕ) (fetch : ℕ → Result Fetched) (messages : List CycleMessage) (m : Moved)
      → IsRecovered m.1 c (after_start serialise details attempts fetch c now messages m)
  started-IsRecovered attempts fetch messages (err e, rows) = tt
  started-IsRecovered attempts fetch messages (ok row, rows) = fetched-IsRecovered _ _

-- what is recovered for the rows after a transition is for those before it
recovered_before :
    (before after : List Cycle) (c : Cycle) (r : Recovered)
    → ((x : Cycle)
        → cycle_row c.public_id after ≡ some x
        → (y : Cycle) × (cycle_row c.public_id before ≡ some y) × (x.id ≡ y.id))
    → IsRecovered after c r
    → IsRecovered before c r
recovered_before before after c (err e, t) k h = tt
recovered_before before after c (ok snapshot, t) k (x, e, o) =
    let (y, e', i) = k x e in
    (y, e', subst (λ id. All (λ m. owns id m.message_id t.messages ≡ true) snapshot.messages) i o)

-- A recovery that does not raise found a row with the cycle's public id in the table of the cycles,
-- and leaves a snapshot whose messages all belong to the cycle of that row in the table of the
-- messages: a message that another cycle owns is left out.
pub recover_messages-IsRecovered :
    (serialise : Snapshot → Text) (details : Text) (attempts : ℕ) (fetch : ℕ → Result Fetched)
    (c : Cycle) (now : Time) (t : CycleTables)
    → IsRecovered t.cycles c (recover_messages serialise details attempts fetch c now t)
unfolding recover_messages
recover_messages-IsRecovered serialise details attempts fetch c now t =
    recovered_before t.cycles _ c _
      (λ x. transition_cycle-identity c.public_id _ recovering_messages _ _ now t.cycles)
      (started-IsRecovered serialise details c now attempts fetch t.messages _)
