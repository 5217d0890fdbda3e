-- ===== src/Base/Tables.antt =====
-- SQL statements over a table kept as the list of its rows: `UPDATE ... WHERE`, `ORDER BY`,
-- `LIMIT`, and the pairwise constraints (`UNIQUE`, partial unique indexes) of a table.
use cai_central_de_atendimen.Base.Tests.{if◌then◌else◌, Bool-cases, and_left, and_right, and_intro}
use cai_central_de_atendimen.Base.Lists.{
  All, all, length, select, head?, mem-map, all→All, all-append_one, All-at, All-select, All-mono,
  All-mem, All→all, select_holds,
}
use Prim.Native.Nat.{suc}
use mathlib.Core.Path.{◌≡◌, refl, subst, sym, ◌∙◌}
use mathlib.Core.Logic.{inl, inr, ◌⊎◌}
use mathlib.Core.Bool.{Bool, true, false, ◌&&◌}
use mathlib.Core.Option.{Option, none, some}
use mathlib.Core.List.{List, [], ◌∷◌, ◌++◌, map, Memᴰ}
use native.Mathlib.Omega.{arith}

module _ {ℓ} {A : Type ℓ} where
  -- UPDATE t SET f WHERE p
  abbrev pub set_where : (A → Bool) → (A → A) → A → A
  set_where p f x = if p x then f x else x

  abbrev pub update : (A → Bool) → (A → A) → List A → List A
  update p f = map (set_where p f)

  -- ORDER BY: insertion into a sorted list, stable for rows that compare equal
  abbrev pub insert_by : (A → A → Bool) → A → List A → List A
  insert_by le x [] = x ∷ []
  insert_by le x (y ∷ ys) = let rest = insert_by le x ys in if le x y then x ∷ y ∷ ys else y ∷ rest

  unfoldable pub order_by : (A → A → Bool) → List A → List A
  order_by le [] = []
  order_by le (x ∷ xs) = insert_by le x (order_by le xs)

  -- every pair of rows of the table, an earlier and a later one, is compatible
  unfoldable pub pairwise : (A → A → Bool) → List A → Bool
  pairwise r [] = true
  pairwise r (x ∷ xs) = all (r x) xs && pairwise r xs

module _ {ℓ} {A : Type ℓ} (r : A → A → Bool) where
  -- a row that is compatible with every row of the table can be inserted at its end
  pub pairwise-append_one :
      (xs : List A) (y : A)
      → pairwise r xs ≡ true
      → All (λ x. r x y ≡ true) xs
      → pairwise r (xs ++ y ∷ []) ≡ true
  unfolding pairwise
  pairwise-append_one [] y h k = refl
  pairwise-append_one (x ∷ xs) y h k =
      and_intro _ _ (all-append_one (r x) xs y (and_left _ _ h) k.0)
        (pairwise-append_one xs y (and_right (all (r x) xs) _ h) k.1)

  module _ {κ} (P : A → Type κ) (g : A → A)
      (keep : (x y : A) → P x → P y → r x y ≡ true → r (g x) (g y) ≡ true) where
    all-map :
        (x : A) (xs : List A)
        → P x
        → All P xs
        → all (r x) xs ≡ true
        → all (r (g x)) (map g xs) ≡ true
    all-map x [] px ps h = refl
    all-map x (y ∷ ys) px ps h =
        and_intro _ _ (keep x y px ps.0 (and_left (r x y) _ h))
          (all-map x ys px ps.1 (and_right (r x y) _ h))

    -- an update that keeps every pair of rows compatible keeps the table so
    pub pairwise-map :
        (xs : List A) → All P xs → pairwise r xs ≡ true → pairwise r (map g xs) ≡ true
    unfolding pairwise
    pairwise-map [] ps h = refl
    pairwise-map (x ∷ xs) ps h =
        and_intro _ _ (all-map x xs ps.0 ps.1 (and_left _ _ h))
          (pairwise-map xs ps.1 (and_right (all (r x) xs) _ h))

module _ {ℓ} {A : Type ℓ} (le : A → A → Bool) where
  pub All-insert_by {κ} :
      (P : A → Type κ) (x : A) (xs : List A) → P x → All P xs → All P (insert_by le x xs)
  All-insert_by P x [] px ps = (px, tt)
  All-insert_by P x (y ∷ ys) px ps = elim (Bool-cases (le x y)) [
    | inl e ↦ rw e (px, ps)
    | inr e ↦ rw e (ps.0, All-insert_by P x ys px ps.1)
  ]

  -- ordering a table loses no row and adds none, as far as a property of all rows can tell
  pub All-order_by {κ} : (P : A → Type κ) (xs : List A) → All P xs → All P (order_by le xs)
  unfolding order_by
  All-order_by P [] h = tt
  All-order_by P (x ∷ xs) h = All-insert_by P x (order_by le xs) h.0 (All-order_by P xs h.1)

  pub All-of_insert_by {κ} :
      (P : A → Type κ) (x : A) (xs : List A) → All P (insert_by le x xs) → P x × All P xs
  All-of_insert_by P x [] h = (h.0, tt)
  All-of_insert_by P x (y ∷ ys) h = elim (Bool-cases (le x y)) [
    | inl e ↦ let k = rw e at h in (k.0, k.1)
    | inr e ↦ let k = rw e at h in let (px, pys) = All-of_insert_by P x ys k.1 in (px, (k.0, pys))
  ]

  pub All-of_order_by {κ} : (P : A → Type κ) (xs : List A) → All P (order_by le xs) → All P xs
  unfolding order_by
  All-of_order_by P [] h = tt
  All-of_order_by P (x ∷ xs) h =
      let (px, rest) = All-of_insert_by P x (order_by le xs) h in (px, All-of_order_by P xs rest)

  length-insert_by : (x : A) (xs : List A) → length (insert_by le x xs) ≡ suc (length xs)
  length-insert_by x [] = refl
  length-insert_by x (y ∷ ys) = ground (arith, length-insert_by x ys)

  pub length-order_by : (xs : List A) → length (order_by le xs) ≡ length xs
  unfolding order_by
  length-order_by [] = refl
  length-order_by (x ∷ xs) = omega (arith, length-insert_by x (order_by le xs), length-order_by xs)

-- two rows of a table are one row, or they are compatible in the order in which they stand
pub pairwise-at {ℓ} :
    {A : Type ℓ} (r : A → A → Bool) {a b : A} {xs : List A}
    → Memᴰ a xs
    → Memᴰ b xs
    → pairwise r xs ≡ true
    → (a ≡ b) ⊎ ((r a b ≡ true) ⊎ (r b a ≡ true))
unfolding pairwise
pairwise-at r (Memᴰ.head p) (Memᴰ.head q) h = inl (p ∙ sym q)
pairwise-at r (Memᴰ.head p) (Memᴰ.tail m) h =
    inr (inl (rw p (All-at _ m (all→All (r _) _ (and_left _ _ h)))))
pairwise-at r (Memᴰ.tail m) (Memᴰ.head q) h =
    inr (inr (rw q (All-at _ m (all→All (r _) _ (and_left _ _ h)))))
pairwise-at r (Memᴰ.tail m) (Memᴰ.tail n) h = pairwise-at r m n (and_right (all (r _) _) _ h)

-- a row that the `WHERE` test picks stands updated in the table
pub mem-update {ℓ} :
    {A : Type ℓ} (p : A → Bool) (g : A → A) {x : A} {xs : List A}
    → Memᴰ x xs
    → p x ≡ true
    → Memᴰ (g x) (update p g xs)
mem-update p g {x} {xs} m e = subst (λ y. Memᴰ y (update p g xs)) (rw e) (mem-map (set_where p g) m)

-- a row that it does not pick stands as it was
pub mem-update_ne {ℓ} :
    {A : Type ℓ} (p : A → Bool) (g : A → A) {x : A} {xs : List A}
    → Memᴰ x xs
    → p x ≡ false
    → Memᴰ x (update p g xs)
mem-update_ne p g {x} {xs} m e =
    subst (λ y. Memᴰ y (update p g xs)) (rw e) (mem-map (set_where p g) m)

-- SELECT ... WHERE p ORDER BY le LIMIT 1
module _ {ℓ} {A : Type ℓ} (le : A → A → Bool) (p : A → Bool) where
  unfoldable pub first_by : List A → Option A
  first_by t = head? (order_by le (select p t))

  head?-eq_none : (xs : List A) → head? xs ≡ none → xs ≡ []
  head?-eq_none [] h = refl
  head?-eq_none (x ∷ xs) h = cc

  select_nil : (t : List A) → select p t ≡ [] → All (λ x. p x ≡ false) t
  select_nil [] h = tt
  select_nil (x ∷ xs) h = elim (Bool-cases (p x)) [
    | inl e ↦ cc (rw e at h)
    | inr e ↦ (e, select_nil xs (rw e at h))
  ]

  insert_by_ne_nil : (x : A) (xs : List A) → insert_by le x xs ≡ [] → ⊥
  insert_by_ne_nil x [] h = cc
  insert_by_ne_nil x (y ∷ ys) h = elim (Bool-cases (le x y)) [
    | inl e ↦ cc (rw e at h)
    | inr e ↦ cc (rw e at h)
  ]

  order_by_nil : (xs : List A) → order_by le xs ≡ [] → xs ≡ []
  unfolding order_by
  order_by_nil [] h = refl
  order_by_nil (x ∷ xs) h = absurd (insert_by_ne_nil x (order_by le xs) h)

  -- no row is found only if no row passes the test
  pub first_by-eq_none : (t : List A) → first_by t ≡ none → All (λ x. p x ≡ false) t
  unfolding first_by
  first_by-eq_none t h = select_nil t (order_by_nil (select p t) (head?-eq_none _ h))

  All-head? {κ} : (P : A → Type κ) (xs : List A) {c : A} → All P xs → head? xs ≡ some c → P c
  All-head? P [] h e = cc
  All-head? P (x ∷ xs) {c} h e = let k : x ≡ c = cc in subst P k h.0

  -- what holds of every row holds of the row that is found
  pub first_by-All {κ} : (P : A → Type κ) (t : List A) {c : A} → All P t → first_by t ≡ some c → P c
  unfolding first_by
  first_by-All P t h e = All-head? P _ (All-order_by le P _ (All-select P p t h)) e

  -- the row that is found passes the test
  pub first_by_holds : (t : List A) {c : A} → first_by t ≡ some c → p c ≡ true
  unfolding first_by
  first_by_holds t e =
      All-head? (λ x. p x ≡ true) _ (All-order_by le (λ x. p x ≡ true) _ (select_holds p t)) e

  -- the row that is found is a row of the table
  pub first_by-mem : (t : List A) {c : A} → first_by t ≡ some c → Memᴰ c t
  first_by-mem t e = first_by-All (λ x. Memᴰ x t) t (All-mem t) e

-- a total order, as the columns of an `ORDER BY` give
pub record IsOrder {ℓ} {A : Type ℓ} (le : A → A → Bool) : Type ℓ where
  pub total : (x y : A) → le x y ≡ false → le y x ≡ true
  pub trans : (x y z : A) → le x y ≡ true → le y z ≡ true → le x z ≡ true

module _ {ℓ} {A : Type ℓ} {le : A → A → Bool} (o : IsOrder le) where
  le_self : (x : A) → le x x ≡ true
  le_self x = elim (Bool-cases (le x x)) [ inl e ↦ e | inr e ↦ o.total x x e ]

  abbrev IsLeast : List A → Type 0
  IsLeast [] = Unit
  IsLeast (x ∷ xs) = All (λ y. le x y ≡ true) (x ∷ xs)

  insert_by-IsLeast : (x : A) (xs : List A) → IsLeast xs → IsLeast (insert_by le x xs)
  insert_by-IsLeast x [] h = (le_self x, tt)
  insert_by-IsLeast x (y ∷ ys) h = elim (Bool-cases (le x y)) [
    | inl e ↦ rw e (le_self x, All-mono _ _ (λ z k. o.trans x y z e k) (y ∷ ys) h)
    | inr e ↦ rw e (h.0, All-insert_by le (λ z. le y z ≡ true) x ys (o.total x y e) h.1)
  ]

  order_by-IsLeast : (xs : List A) → IsLeast (order_by le xs)
  unfolding order_by
  order_by-IsLeast [] = tt
  order_by-IsLeast (x ∷ xs) = insert_by-IsLeast x (order_by le xs) (order_by-IsLeast xs)

  least_head : (xs : List A) {c : A} → IsLeast xs → head? xs ≡ some c → All (λ y. le c y ≡ true) xs
  least_head [] h e = cc
  least_head (x ∷ xs) {c} h e =
      let k : x ≡ c = cc in subst (λ v. All (λ y. le v y ≡ true) (x ∷ xs)) k h

  All-of_select {κ} :
      (P : A → Type κ) (p : A → Bool) (t : List A)
      → All P (select p t)
      → All (λ x. p x ≡ true → P x) t
  All-of_select P p [] h = tt
  All-of_select P p (x ∷ xs) h = elim (Bool-cases (p x)) [
    | inl e ↦ let k = rw e at h in ((λ _. k.0), All-of_select P p xs k.1)
    | inr e ↦ ((λ t. cc), All-of_select P p xs (rw e at h))
  ]

  -- the row that is found comes first among the rows that pass the test
  pub first_by_least :
      (p : A → Bool) (t : List A) {c : A}
      → first_by le p t ≡ some c
      → All (λ x. p x ≡ true → le c x ≡ true) t
  unfolding first_by
  first_by_least p t {c} e =
      All-of_select (λ x. le c x ≡ true) p t
        (All-of_order_by le (λ x. le c x ≡ true) (select p t)
          (least_head (order_by le (select p t)) (order_by-IsLeast (select p t)) e))

  insert_by-pairwise :
      (x : A) (xs : List A) → pairwise le xs ≡ true → pairwise le (insert_by le x xs) ≡ true
  unfolding pairwise
  insert_by-pairwise x [] h = refl
  insert_by-pairwise x (y ∷ ys) h =
      let below = all→All (le y) ys (and_left _ _ h) in
      let rest = and_right (all (le y) ys) _ h in
      elim (Bool-cases (le x y)) [
        | inl e ↦ rw e (
            and_intro _ _
              (and_intro _ _ e
                (All→all (le x) ys (All-mono _ _ (λ z k. o.trans x y z e k) ys below)))
              h)
        | inr e ↦ rw e (
            and_intro _ _
              (All→all (le y) _ (All-insert_by le (λ z. le y z ≡ true) x ys (o.total x y e) below))
              (insert_by-pairwise x ys rest))
      ]

  -- an ordered table is sorted
  pub order_by-pairwise : (xs : List A) → pairwise le (order_by le xs) ≡ true
  unfolding order_by pairwise
  order_by-pairwise [] = refl
  order_by-pairwise (x ∷ xs) = insert_by-pairwise x (order_by le xs) (order_by-pairwise xs)
