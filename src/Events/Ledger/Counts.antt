-- ===== src/Events/Ledger/Counts.antt =====
-- The report of a cleanup: how many rows it removes, and how many expired ones are left.
use cai_central_de_atendimen.Base.{
  ℕ, zero, suc, ◌+◌, ◌≤◌, ◌≡◌, refl, sym, subst, Bool, true, false, not, ◌&&◌, ◌||◌, List, [], ◌∷◌,
  leb, arith, inl, inr, Bool-cases, and_left, and_right, and_intro, min,
}
use mathlib.Core.List.{Memᴰ}
use cai_central_de_atendimen.Base.Errors.{ok}
use cai_central_de_atendimen.Base.Lists.{
  All, all, all→All, All→all, All-mono, All-take, All-select, All-at, All-mem, any-eq_false, length,
  take, select, count_where,
}
use cai_central_de_atendimen.Base.Tables.{
  pairwise, order_by, insert_by, All-order_by, All-insert_by, length-order_by,
}
use cai_central_de_atendimen.Base.Texts.{Text, same, same_refl, same_iff, same_comm}
use cai_central_de_atendimen.Cycle.Row.{Time}
use cai_central_de_atendimen.Events.Ledger.{
  EventKey, is_expired, distinct, ledger_ok, is_in, expires_first, expired_batch, cleanup_expired,
  count_expired, CleanupReport, max_batch_size,
}
use cai_central_de_atendimen.Events.Ledger.Schema.{pairwise-select}
use cai_central_de_atendimen.Events.Ledger.Windows.{expiry, is_open}
use cai_central_de_atendimen.Events.Ledger.Cleanup.{
  expiry_rows, removed_expired, cleanup_expired-expiry,
}

-- rows with the digest of `d`
abbrev is_same : EventKey → EventKey → Bool
is_same d k = same k.event_digest d.event_digest

count_none :
    (p : EventKey → Bool) (t : List EventKey) → All (λ k. p k ≡ false) t → count_where p t ≡ 0
count_none p [] h = refl
count_none p (x ∷ xs) h = rw h.0 (count_none p xs h.1)

count_first :
    (x : EventKey) (xs : List EventKey)
    → pairwise distinct (x ∷ xs) ≡ true
    → count_where (is_same x) (x ∷ xs) ≡ 1
unfolding pairwise
count_first x xs h =
    let rest = count_none (is_same x) xs (
      All-mono _ _ (λ y q. ground (arith, q, same_comm x.event_digest y.event_digest)) xs
        (all→All (distinct x) xs (and_left _ _ h))) in
    ground (arith, rest, same_refl x.event_digest)

-- the primary key: one row has the digest of a row of the table
count_one :
    (d : EventKey) (t : List EventKey)
    → pairwise distinct t ≡ true
    → Memᴰ d t
    → count_where (is_same d) t ≡ 1
unfolding pairwise
count_one d [] h m = elim m [ ]
count_one d (x ∷ xs) h (Memᴰ.head e) =
    subst (λ v. count_where (is_same v) (x ∷ xs) ≡ 1) (sym e) (count_first x xs h)
count_one d (x ∷ xs) h (Memᴰ.tail m) =
    let q = All-at _ m (all→All (distinct x) xs (and_left _ _ h)) in
    let rest = count_one d xs (and_right (all (distinct x) xs) _ h) m in ground (arith, q, rest)

count_either :
    (p q : EventKey → Bool) (t : List EventKey)
    → ((k : EventKey) → p k ≡ true → q k ≡ false)
    → count_where (λ k. p k || q k) t ≡ count_where p t + count_where q t
count_either p q [] h = refl
count_either p q (x ∷ xs) h = ground (arith, h x, count_either p q xs h)

count_select : (p : EventKey → Bool) (t : List EventKey) → length (select p t) ≡ count_where p t
count_select p [] = refl
count_select p (x ∷ xs) = ground (arith, count_select p xs)

-- distinct rows of the table have as many rows of their digests
count_batch :
    (batch t : List EventKey)
    → pairwise distinct t ≡ true
    → pairwise distinct batch ≡ true
    → All (λ k. Memᴰ k t) batch
    → count_where (is_in batch) t ≡ length batch
unfolding pairwise
count_batch [] t h b m = count_none (is_in []) t (all_outside t)
  where
    all_outside : (t : List EventKey) → All (λ k. is_in [] k ≡ false) t
    all_outside [] = tt
    all_outside (x ∷ xs) = (refl, all_outside xs)
count_batch (d ∷ ds) t h b m =
    let apart : (k : EventKey) → is_same d k ≡ true → is_in ds k ≡ false = λ k e.
      any-eq_false _ ds (
        All-mono _ _
          (λ y q.
            let eq : k.event_digest ≡ d.event_digest = (same_iff _ _).0 e in
            rw eq (ground (arith, q)))
          ds (all→All (distinct d) ds (and_left _ _ b))) in
    let rest = count_batch ds t h (and_right (all (distinct d) ds) _ b) m.1 in
    let one = count_one d t h m.0 in
    let both = count_either (is_same d) (is_in ds) t apart in omega (arith, both, one, rest)

insert_by-distinct :
    (x : EventKey) (xs : List EventKey)
    → All (λ y. distinct x y ≡ true) xs
    → pairwise distinct xs ≡ true
    → pairwise distinct (insert_by expires_first x xs) ≡ true
unfolding pairwise
insert_by-distinct x [] h k = refl
insert_by-distinct x (y ∷ ys) h k = elim (Bool-cases (expires_first x y)) [
  | inl e ↦ rw e (and_intro _ _ (All→all (distinct x) (y ∷ ys) h) k)
  | inr e ↦ rw e (
      and_intro _ _
        (All→all (distinct y) _ (
          All-insert_by expires_first (λ z. distinct y z ≡ true) x ys
            (ground (arith, h.0, same_comm x.event_digest y.event_digest))
            (all→All (distinct y) ys (and_left _ _ k))))
        (insert_by-distinct x ys h.1 (and_right (all (distinct y) ys) _ k)))
]

order_by-distinct :
    (xs : List EventKey)
    → pairwise distinct xs ≡ true
    → pairwise distinct (order_by expires_first xs) ≡ true
unfolding order_by pairwise
order_by-distinct [] h = refl
order_by-distinct (x ∷ xs) h =
    insert_by-distinct x (order_by expires_first xs)
      (All-order_by expires_first (λ y. distinct x y ≡ true) xs
        (all→All (distinct x) xs (and_left _ _ h)))
      (order_by-distinct xs (and_right (all (distinct x) xs) _ h))

take-distinct :
    (n : ℕ) (xs : List EventKey)
    → pairwise distinct xs ≡ true
    → pairwise distinct (take n xs) ≡ true
unfolding pairwise
take-distinct zero xs h = refl
take-distinct (suc n) [] h = refl
take-distinct (suc n) (x ∷ xs) h =
    and_intro _ _
      (All→all (distinct x) _ (All-take _ n xs (all→All (distinct x) xs (and_left _ _ h))))
      (take-distinct n xs (and_right (all (distinct x) xs) _ h))

length-take : (n : ℕ) (xs : List EventKey) → length (take n xs) ≡ min n (length xs)
length-take zero xs = omega arith
length-take (suc n) [] = omega arith
length-take (suc n) (x ∷ xs) = omega (arith, length-take n xs)

-- what is left and what is removed are the rows of the table
count_split :
    (p q : EventKey → Bool) (t : List EventKey)
    → All (λ k. q k ≡ true → p k ≡ true) t
    → count_where p (select (λ k. not (q k)) t) + length (select q t) ≡ count_where p t
count_split p q [] h = refl
count_split p q (x ∷ xs) h = ground (arith, h.0, count_split p q xs h.1)

removed_rows :
    (n : ℕ) (now : Time) (skip : EventKey → Bool) (t : List EventKey)
    → pairwise distinct t ≡ true
    → length (select (is_in (expired_batch n now skip t)) t)
      ≡ min n (count_where (λ k. is_expired now k && not (skip k)) t)
unfolding expired_batch
removed_rows n now skip t h =
    let p : EventKey → Bool = λ k. is_expired now k && not (skip k) in
    let ordered = order_by expires_first (select p t) in
    let batch =
      count_batch (take n ordered) t h
        (take-distinct n ordered (order_by-distinct (select p t) (pairwise-select p t h)))
        (All-take _ n _ (All-order_by expires_first _ _ (All-select _ p t (All-mem t)))) in
    omega (
      arith,
      count_select (is_in (take n ordered)) t,
      batch,
      length-take n ordered,
      length-order_by expires_first (select p t),
      count_select p t,
    )

-- A cleanup with a batch size from 1 to 1000 of a ledger that meets its constraints succeeds. It
-- removes as many rows as there are expired ones that are not skipped, up to the batch size; the
-- expired rows left and the removed ones add up to those before; and a window that is open stays.
pub cleanup_expired-report :
    (n : ℕ) (now : Time) (skip : EventKey → Bool) (t : List EventKey)
    → 1 ≤ n
    → n ≤ max_batch_size
    → ledger_ok t ≡ true
    → (r : CleanupReport) × ((cleanup_expired n now skip t).0 ≡ ok r)
      × (r.removed_count ≡ min n (count_where (λ k. is_expired now k && not (skip k)) t))
      × (r.after_count + r.removed_count ≡ count_expired now t)
      × (r.after_count ≡ count_expired now (cleanup_expired n now skip t).1)
      × ((d : Text)
          → is_open now (expiry t d) ≡ true
          → expiry (cleanup_expired n now skip t).1 d ≡ expiry t d)
unfolding cleanup_expired ledger_ok count_expired
cleanup_expired-report n now skip t lo hi h =
    let keys = and_left (pairwise distinct t) _ h in
    let batch = expired_batch n now skip t in
    let split = count_split (is_expired now) (is_in batch) t (
      All-mono _ _
        (λ k w e. let out = removed_expired n now skip t k keys e in ground (arith, w, out)) t
        (expiry_rows t keys)) in
    let v : (leb 1 n && leb n max_batch_size) ≡ true = ground (arith, lo, hi) in
    rw v (
      _,
      refl,
      removed_rows n now skip t keys,
      split,
      refl,
      (λ d o. rw v at (cleanup_expired-expiry n now skip t d h o)),
    )
