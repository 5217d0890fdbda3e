-- ===== src/Events/Ledger/Schema.antt =====
-- The constraints of the ledger hold after every statement, and what the primary key gives.
use cai_central_de_atendimen.Base.{
  ℕ, ◌≡◌, refl, Bool, true, none, List, [], ◌∷◌, ◌++◌, arith, inl, inr, Bool-cases, Option-cases,
  and_left, and_right, and_intro,
}
use cai_central_de_atendimen.Base.Lists.{
  find, find-eq_none, all, all→All, All→all, All-map, All-mono, All-select, All-of, select,
  all-append_one,
}
use cai_central_de_atendimen.Base.Tables.{
  update, set_where, pairwise, pairwise-append_one, pairwise-map,
}
use cai_central_de_atendimen.Base.Texts.{Text}
use cai_central_de_atendimen.Cycle.Row.{Time}
use cai_central_de_atendimen.Events.Ledger.{
  EventKey, has_digest, renew, distinct, key_ok, ledger_ok, upsert, legacy_key, entry_ok,
  import_entries,
}

pub pairwise-select :
    (p : EventKey → Bool) (t : List EventKey)
    → pairwise distinct t ≡ true
    → pairwise distinct (select p t) ≡ true
unfolding pairwise
pairwise-select p [] h = refl
pairwise-select p (x ∷ xs) h =
    let rest = pairwise-select p xs (and_right (all (distinct x) xs) _ h) in
    elim (Bool-cases (p x)) [
      | inr e ↦ rw e rest
      | inl e ↦ rw e (
          and_intro _ _
            (All→all (distinct x) _ (All-select _ p xs (all→All (distinct x) xs (and_left _ _ h))))
            rest)
    ]

pub select-ledger_ok :
    (p : EventKey → Bool) (t : List EventKey) → ledger_ok t ≡ true → ledger_ok (select p t) ≡ true
unfolding ledger_ok
select-ledger_ok p t h =
    and_intro _ _ (pairwise-select p t (and_left _ _ h))
      (All→all key_ok _ (All-select _ p t (all→All key_ok t (and_right (pairwise distinct t) _ h))))

append-ledger_ok :
    (k : EventKey) (t : List EventKey)
    → key_ok k ≡ true
    → find (has_digest k.event_digest) t ≡ none
    → ledger_ok t ≡ true
    → ledger_ok (t ++ k ∷ []) ≡ true
unfolding ledger_ok
append-ledger_ok k t v e h =
    and_intro _ _
      (pairwise-append_one distinct t k (and_left _ _ h)
        (All-mono _ _ (λ x n. ground (arith, n)) t (find-eq_none (has_digest k.event_digest) t e)))
      (all-append_one key_ok t k (and_right (pairwise distinct t) _ h) v)

renew-ledger_ok :
    (k : EventKey) (t : List EventKey)
    → key_ok k ≡ true
    → ledger_ok t ≡ true
    → ledger_ok (update (has_digest k.event_digest) (renew k) t) ≡ true
unfolding ledger_ok
renew-ledger_ok k t v h =
    let g = set_where (has_digest k.event_digest) (renew k) in
    and_intro _ _
      (pairwise-map {0, 0} distinct (λ x. Unit) g (λ x y _ _ q. ground (arith, q)) t
        (All-of _ (λ x. tt) t) (and_left _ _ h))
      (All→all key_ok _ (
        All-map _ g t (
          All-mono _ _ (λ x q. ground (arith, q, v)) t
            (all→All key_ok t (and_right (pairwise distinct t) _ h)))))

pub upsert-ledger_ok :
    (now : Time) (k : EventKey) (t : List EventKey)
    → key_ok k ≡ true
    → ledger_ok t ≡ true
    → ledger_ok (upsert now k t).1 ≡ true
unfolding upsert
upsert-ledger_ok now k t v h = elim (Option-cases (find (has_digest k.event_digest) t)) [
  | inl e ↦ ground (arith, e, append-ledger_ok k t v e h)
  | inr (old, e) ↦ ground (arith, e, h, renew-ledger_ok k t v h)
]

pub import_entries-ledger_ok :
    (captured_at now : Time) (es : List (Text × ℕ)) (t : List EventKey)
    → all entry_ok es ≡ true
    → ledger_ok t ≡ true
    → ledger_ok (import_entries captured_at now es t).1 ≡ true
unfolding import_entries
import_entries-ledger_ok c now [] t v h = h
import_entries-ledger_ok c now ((d, ttl) ∷ es) t v h =
    import_entries-ledger_ok c now es (upsert now (legacy_key c d ttl) t).1
      (and_right (entry_ok (d, ttl)) _ v)
      (upsert-ledger_ok now (legacy_key c d ttl) t (ground (arith, v)) h)
