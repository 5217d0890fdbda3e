-- ===== src/Base/Lists.antt =====
-- Lists measured by native numbers, Boolean and propositional quantifiers over them, and the
-- `WHERE` filter.
use cai_central_de_atendimen.Base.Tests.{if◌then◌else◌, Bool-cases, and_left, and_right}
use Prim.Native.Nat.{ℕ, zero, suc, ◌+◌, ◌≤◌}
use mathlib.Core.Path.{◌≡◌, refl, sym, subst, ap}
use mathlib.Core.Logic.{inl, inr}
use mathlib.Core.Bool.{Bool, true, false, ◌&&◌, ◌||◌}
use mathlib.Core.Option.{Option, none, some}
use mathlib.Core.List.{List, [], ◌∷◌, ◌++◌, map, reverse, reverse-append, Memᴰ}
use native.Mathlib.Omega.{arith}

module _ {ℓ} {A : Type ℓ} where
  abbrev pub length : List A → ℕ
  length [] = 0
  length (x ∷ xs) = suc (length xs)

  abbrev pub take : ℕ → List A → List A
  take zero xs = []
  take (suc n) [] = []
  take (suc n) (x ∷ xs) = x ∷ take n xs

  pub length-append : (xs ys : List A) → length (xs ++ ys) ≡ length xs + length ys
  length-append [] ys = omega arith
  length-append (x ∷ xs) ys = omega (arith, length-append xs ys)

  pub length-take-le : (n : ℕ) (xs : List A) → length (take n xs) ≤ n
  length-take-le zero xs = omega arith
  length-take-le (suc n) [] = omega arith
  length-take-le (suc n) (x ∷ xs) = omega (arith, length-take-le n xs)

  abbrev pub head? : List A → Option A
  head? [] = none
  head? (x ∷ xs) = some x

  abbrev pub All {κ} : (A → Type κ) → List A → Type κ
  All P [] = Unit
  All P (x ∷ xs) = P x × All P xs

  abbrev pub all : (A → Bool) → List A → Bool
  all p [] = true
  all p (x ∷ xs) = p x && all p xs

  abbrev pub any : (A → Bool) → List A → Bool
  any p [] = false
  any p (x ∷ xs) = p x || any p xs

  -- the rows that pass a `WHERE` test, in the table's order
  abbrev pub select : (A → Bool) → List A → List A
  select p [] = []
  select p (x ∷ xs) = let rest = select p xs in if p x then x ∷ rest else rest

  abbrev pub count_where : (A → Bool) → List A → ℕ
  count_where p [] = 0
  count_where p (x ∷ xs) = let rest = count_where p xs in if p x then suc rest else rest

module _ {ℓ κ} {A : Type ℓ} (P : A → Type κ) where
  pub All-append : (xs ys : List A) → All P xs → All P ys → All P (xs ++ ys)
  All-append [] ys hx hy = hy
  All-append (x ∷ xs) ys hx hy = (hx.0, All-append xs ys hx.1 hy)

  pub All-take : (n : ℕ) (xs : List A) → All P xs → All P (take n xs)
  All-take zero xs h = tt
  All-take (suc n) [] h = tt
  All-take (suc n) (x ∷ xs) h = (h.0, All-take n xs h.1)

  pub All-select : (p : A → Bool) (xs : List A) → All P xs → All P (select p xs)
  All-select p [] h = tt
  All-select p (x ∷ xs) h = elim (Bool-cases (p x)) [
    | inl e ↦ rw e (h.0, All-select p xs h.1)
    | inr e ↦ rw e (All-select p xs h.1)
  ]

  pub All-of : ((x : A) → P x) → (xs : List A) → All P xs
  All-of f [] = tt
  All-of f (x ∷ xs) = (f x, All-of f xs)

module _ {ℓ} {A : Type ℓ} where
  -- what a filter keeps passes its test
  pub select_holds : (p : A → Bool) (xs : List A) → All (λ x. p x ≡ true) (select p xs)
  select_holds p [] = tt
  select_holds p (x ∷ xs) = elim (Bool-cases (p x)) [
    | inl e ↦ rw e (e, select_holds p xs)
    | inr e ↦ rw e (select_holds p xs)
  ]

  pub All-map {ι κ} :
      {B : Type ι} (P : B → Type κ) (f : A → B) (xs : List A)
      → All (λ x. P (f x)) xs
      → All P (map f xs)
  All-map P f [] h = tt
  All-map P f (x ∷ xs) h = (h.0, All-map P f xs h.1)

  pub All-mono {κ ι} :
      (P : A → Type κ) (Q : A → Type ι)
      → ((x : A) → P x → Q x)
      → (xs : List A) → All P xs
      → All Q xs
  All-mono P Q f [] h = tt
  All-mono P Q f (x ∷ xs) h = (f x h.0, All-mono P Q f xs h.1)

  pub All-zip {κ ι} :
      (P : A → Type κ) (Q : A → Type ι) (xs : List A)
      → All P xs
      → All Q xs
      → All (λ x. P x × Q x) xs
  All-zip P Q [] h k = tt
  All-zip P Q (x ∷ xs) h k = ((h.0, k.0), All-zip P Q xs h.1 k.1)

  pub all→All : (p : A → Bool) (xs : List A) → all p xs ≡ true → All (λ x. p x ≡ true) xs
  all→All p [] h = tt
  all→All p (x ∷ xs) h = (and_left (p x) _ h, all→All p xs (and_right (p x) _ h))

  pub All→all : (p : A → Bool) (xs : List A) → All (λ x. p x ≡ true) xs → all p xs ≡ true
  All→all p [] h = refl
  All→all p (x ∷ xs) h = rw (h.0, All→all p xs h.1)

  pub All-mem : (xs : List A) → All (λ x. Memᴰ x xs) xs
  All-mem [] = tt
  All-mem (x ∷ xs) = (Memᴰ.head refl, All-mono _ _ (λ y m. Memᴰ.tail m) xs (All-mem xs))

  pub All-at {κ} : (P : A → Type κ) {x : A} {xs : List A} → Memᴰ x xs → All P xs → P x
  All-at P (Memᴰ.head e) h = subst P (sym e) h.0
  All-at P (Memᴰ.tail m) h = All-at P m h.1

-- `fetchone` of a query with no order
module _ {ℓ} {A : Type ℓ} (p : A → Bool) where
  unfoldable pub find : List A → Option A
  find [] = none
  find (x ∷ xs) = if p x then some x else find xs

  pub find-eq_none : (xs : List A) → find xs ≡ none → All (λ x. p x ≡ false) xs
  unfolding find
  find-eq_none [] h = tt
  find-eq_none (x ∷ xs) h = elim (Bool-cases (p x)) [
    | inl e ↦ cc (rw e at h)
    | inr e ↦ (e, find-eq_none xs (rw e at h))
  ]

  pub find_of_none : (xs : List A) → All (λ x. p x ≡ false) xs → find xs ≡ none
  unfolding find
  find_of_none [] h = refl
  find_of_none (x ∷ xs) h = rw h.0 (find_of_none xs h.1)

  pub find_holds : (xs : List A) {c : A} → find xs ≡ some c → p c ≡ true
  unfolding find
  find_holds [] h = cc
  find_holds (x ∷ xs) h = elim (Bool-cases (p x)) [
    | inl e ↦ ground (arith, e)
    | inr e ↦ find_holds xs (rw e at h)
  ]

  pub find-mem : (xs : List A) {c : A} → find xs ≡ some c → Memᴰ c xs
  unfolding find
  find-mem [] h = cc
  find-mem (x ∷ xs) {c} h = elim (Bool-cases (p x)) [
    | inl e ↦ let k : c ≡ x = (let k' = rw e at h in cc) in Memᴰ.head k
    | inr e ↦ Memᴰ.tail (find-mem xs (rw e at h))
  ]

  pub find-append :
      (xs : List A) (y : A) → find xs ≡ none → p y ≡ true → find (xs ++ y ∷ []) ≡ some y
  unfolding find
  find-append [] y h k = rw k
  find-append (x ∷ xs) y h k = elim (Bool-cases (p x)) [
    | inl e ↦ cc (rw e at h)
    | inr e ↦ rw e (find-append xs y (rw e at h) k)
  ]

  pub find_of_mem : (xs : List A) {c : A} → Memᴰ c xs → p c ≡ true → (d : A) × (find xs ≡ some d)
  unfolding find
  find_of_mem [] m h = elim m [ ]
  find_of_mem (x ∷ xs) {c} m h = elim (Bool-cases (p x)) [
    | inl e ↦ (x, rw e)
    | inr e ↦ rw e (find_of_mem xs (tail_of_ne m (λ k. cc (rw k at h, e))) h)
  ]
    where
      tail_of_ne : Memᴰ c (x ∷ xs) → (c ≡ x → ⊥) → Memᴰ c xs
      tail_of_ne (Memᴰ.head k) n = absurd (n k)
      tail_of_ne (Memᴰ.tail k) n = k

-- a search through updated rows
pub find-map {ℓ} :
    {A : Type ℓ} (p : A → Bool) (g : A → A) (xs : List A)
    → ((x : A) → p (g x) ≡ p x)
    → {c : A} → find p xs ≡ some c
    → find p (map g xs) ≡ some (g c)
unfolding find
find-map p g [] k e = cc
find-map p g (x ∷ xs) k {c} e = elim (Bool-cases (p x)) [
  | inl h ↦ let q : x ≡ c = (let e' = rw h at e in cc) in rw (k x, h, q)
  | inr h ↦ rw (k x, h) (find-map p g xs k (rw h at e))
]

module _ {ℓ} {A : Type ℓ} (p : A → Bool) where
  pub all-append_one :
      (xs : List A) (y : A) → all p xs ≡ true → p y ≡ true → all p (xs ++ y ∷ []) ≡ true
  all-append_one [] y h k = rw k
  all-append_one (x ∷ xs) y h k =
      rw (and_left (p x) _ h) (all-append_one xs y (and_right (p x) _ h) k)

  pub any-append : (xs ys : List A) → any p (xs ++ ys) ≡ (any p xs || any p ys)
  any-append [] ys = refl
  any-append (x ∷ xs) ys = ground (arith, any-append xs ys)

  pub any-reverse : (xs : List A) → any p (reverse xs) ≡ any p xs
  any-reverse [] = refl
  any-reverse (x ∷ xs) =
      rw (reverse-append (x ∷ []) xs)
        (rw (any-append (reverse xs) (x ∷ [])) (ground (arith, any-reverse xs)))

  pub select-append : (xs ys : List A) → select p (xs ++ ys) ≡ select p xs ++ select p ys
  select-append [] ys = refl
  select-append (x ∷ xs) ys = elim (Bool-cases (p x)) [
    | inl e ↦ rw (e, select-append xs ys)
    | inr e ↦ rw (e, select-append xs ys)
  ]

  -- an update that leaves the selected rows and the test alone is not seen by the selection
  pub select-map :
      (g : A → A) (xs : List A)
      → All (λ x. (p (g x) ≡ p x) × (p x ≡ true → g x ≡ x)) xs
      → select p (map g xs) ≡ select p xs
  select-map g [] h = refl
  select-map g (x ∷ xs) h = elim (Bool-cases (p x)) [
    | inl e ↦ rw ((h.0).0, e, (h.0).1 e, select-map g xs h.1)
    | inr e ↦ rw ((h.0).0, e, select-map g xs h.1)
  ]

pub mem-map {ℓ} : {A : Type ℓ} (g : A → A) {x : A} {xs : List A} → Memᴰ x xs → Memᴰ (g x) (map g xs)
mem-map g (Memᴰ.head e) = Memᴰ.head (ap g e)
mem-map g (Memᴰ.tail m) = Memᴰ.tail (mem-map g m)

pub mem-append_one {ℓ} : {A : Type ℓ} (xs : List A) (y : A) → Memᴰ y (xs ++ y ∷ [])
mem-append_one [] y = Memᴰ.head refl
mem-append_one (x ∷ xs) y = Memᴰ.tail (mem-append_one xs y)

pub map_self {ℓ} : {A : Type ℓ} (xs : List A) → map (λ x. x) xs ≡ xs
map_self [] = refl
map_self (x ∷ xs) = ap (◌∷◌ x) (map_self xs)

pub All-any {ℓ κ} :
    {A : Type ℓ} (P : A → Type κ) (p : A → Bool) (xs : List A)
    → All P xs
    → any p xs ≡ true
    → (x : A) × P x × (p x ≡ true)
All-any P p [] h e = cc
All-any P p (x ∷ xs) h e = elim (Bool-cases (p x)) [
  | inl k ↦ (x, h.0, k)
  | inr k ↦ All-any P p xs h.1 (rw k at e)
]

pub mem-append_left {ℓ} :
    {A : Type ℓ} {x : A} {xs : List A} (ys : List A) → Memᴰ x xs → Memᴰ x (xs ++ ys)
mem-append_left ys (Memᴰ.head e) = Memᴰ.head e
mem-append_left ys (Memᴰ.tail m) = Memᴰ.tail (mem-append_left ys m)

module _ {ℓ} {A : Type ℓ} (p : A → Bool) where
  pub any-eq_false : (xs : List A) → All (λ x. p x ≡ false) xs → any p xs ≡ false
  any-eq_false [] h = refl
  any-eq_false (x ∷ xs) h = rw (h.0, any-eq_false xs h.1)

  pub any_of_mem : {x : A} {xs : List A} → Memᴰ x xs → p x ≡ true → any p xs ≡ true
  any_of_mem (Memᴰ.head {xs = ys} e) h = rw (← e, h)
  any_of_mem (Memᴰ.tail {x = y} m) h = ground (arith, any_of_mem m h)
