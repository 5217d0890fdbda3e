-- ===== src/Events/Assignments/Resolving.antt =====
-- What resolving the assignments of a conversation returns.
use cai_central_de_atendimen.Base.{
  ◌≡◌, refl, sym, ◌∙◌, Bool, true, not, ◌&&◌, ◌||◌, Option, none, some, List, [], ◌∷◌, ◌++◌, arith,
  inl, inr, Bool-cases,
}
use mathlib.Core.List.{append_assoc, append-nil}
use cai_central_de_atendimen.Base.Lists.{select}
use cai_central_de_atendimen.Base.Tables.{order_by}
use cai_central_de_atendimen.Base.Texts.{Text, same, same_iff, contains, unique}
use cai_central_de_atendimen.Events.Assignments.{
  Assignment, is_of, earlier, name_for, Resolved, add_new, nonblank, nonempty, put, resolve_one,
  resolve_rows, resolve_ticket_assignments, nothing_resolved,
}

-- the texts that a reading of the rows finds
abbrev pub prepend : Option Text → List Text → List Text
prepend none ts = ts
prepend (some t) ts = t ∷ ts

unfoldable pub found : (Assignment → Option Text) → List Assignment → List Text
found f [] = []
found f (a ∷ rows) = prepend (f a) (found f rows)

abbrev pub known : (Text → Option Text) → Option Text → Option Text
known names id = nonblank (name_for names id)

abbrev pub unless_known : Option Text → Option Text → Option Text
unless_known none id = id
unless_known (some n) id = none

abbrev pub unknown : (Text → Option Text) → Option Text → Option Text
unknown names id = unless_known (known names id) (nonempty id)

add_all : List Text → List Text → List Text
add_all [] seen = seen
add_all (x ∷ xs) seen = add_all xs (add_new x seen)

select-select :
    (p q r : Text → Bool) (xs : List Text)
    → ((x : Text) → (q x && p x) ≡ r x)
    → select p (select q xs) ≡ select r xs
select-select p q r [] h = refl
select-select p q r (x ∷ xs) h = ground (arith, h x, select-select p q r xs h)

contains-append :
    (xs : List Text) (x y : Text) → contains (xs ++ x ∷ []) y ≡ (contains xs y || same x y)
unfolding contains
contains-append [] x y = ground arith
contains-append (z ∷ zs) x y = ground (arith, contains-append zs x y)

contains_of :
    (x y : Text) (seen : List Text)
    → contains seen x ≡ true
    → same x y ≡ true
    → contains seen y ≡ true
contains_of x y seen h e = let eq : x ≡ y = (same_iff x y).0 e in rw (← eq) h

-- adding texts one by one is appending the first occurrences of those not seen before
add_all-unique :
    (xs seen : List Text)
    → add_all xs seen ≡ seen ++ select (λ y. not (contains seen y)) (unique xs)
unfolding add_all unique
add_all-unique [] seen = sym (append-nil seen)
add_all-unique (x ∷ xs) seen = elim (Bool-cases (contains seen x)) [
  | inl e ↦ rw (
    e,
    add_all-unique xs seen,
    select-select (λ y. not (contains seen y)) (λ y. not (same x y)) (λ y. not (contains seen y))
        (unique xs) (λ y. ground (arith, e, contains_of x y seen e)),
  )
  | inr e ↦ rw (
    e,
    add_all-unique xs (seen ++ x ∷ []),
    append_assoc seen (x ∷ []) (select (λ y. not (contains (seen ++ x ∷ []) y)) (unique xs)),
    select-select (λ y. not (contains seen y)) (λ y. not (same x y))
        (λ y. not (contains (seen ++ x ∷ []) y)) (unique xs)
        (λ y. ground (arith, contains-append seen x y)),
  )
]

select-true : (p : Text → Bool) (xs : List Text) → ((x : Text) → p x ≡ true) → select p xs ≡ xs
select-true p [] h = refl
select-true p (x ∷ xs) h = rw (h x, select-true p xs h)

add_all_empty : (xs : List Text) → add_all xs [] ≡ unique xs
unfolding contains
add_all_empty xs = add_all-unique xs [] ∙ select-true _ (unique xs) (λ x. refl)

abbrev pair : List Text → List Text → Resolved
pair ns us = record { names = ns; unresolved = us }

module _ (names : Text → Option Text) (id : Assignment → Option Text) where
  -- one column of the loop
  resolve_column : List Assignment → Resolved → Resolved
  resolve_column [] r = r
  resolve_column (a ∷ rows) r = resolve_column rows (resolve_one (id a) (name_for names (id a)) r)

  -- two readings of the rows in its place
  abbrev readings : List Assignment → Resolved → Resolved
  readings rows r = record {
    names = add_all (found (λ a. known names (id a)) rows) r.names;
    unresolved = add_all (found (λ a. unknown names (id a)) rows) r.unresolved;
  }

  put_step :
      (k i : Option Text) (ns us : List Text) (r : Resolved)
      → pair (add_all (prepend k ns) r.names) (add_all (prepend (unless_known k i) us) r.unresolved)
        ≡ pair (add_all ns (put k i r).names) (add_all us (put k i r).unresolved)
  unfolding add_all
  put_step (some n) i ns us r = refl
  put_step none (some i) ns us r = refl
  put_step none none ns us r = refl

  readings_step :
      (a : Assignment) (rows : List Assignment) (r : Resolved)
      → readings (a ∷ rows) r ≡ readings rows (resolve_one (id a) (name_for names (id a)) r)
  unfolding found resolve_one
  readings_step a rows r = put_step (known names (id a)) (nonempty (id a)) _ _ r

  column_readings :
      (rows : List Assignment) (r : Resolved) → resolve_column rows r ≡ readings rows r
  unfolding resolve_column add_all found
  column_readings [] r = refl
  column_readings (a ∷ rows) r =
      column_readings rows (resolve_one (id a) (name_for names (id a)) r)
      ∙ sym (readings_step a rows r)

rows_columns :
    (departments users : Text → Option Text) (rows : List Assignment) (r : Resolved × Resolved)
    → resolve_rows departments users rows r ≡ (
      resolve_column departments (λ a. a.department_id) rows r.0,
      resolve_column users (λ a. a.user_id) rows r.1,
    )
unfolding resolve_rows resolve_column
rows_columns d u [] r = refl
rows_columns d u (a ∷ rows) r = rows_columns d u rows _

-- the reference: every reading of the ordered rows in the order of first occurrence
unfoldable pub column_of :
    (Text → Option Text) → (Assignment → Option Text) → List Assignment → Resolved
column_of names id rows = record {
  names = unique (found (λ a. known names (id a)) rows);
  unresolved = unique (found (λ a. unknown names (id a)) rows);
}

column_unique :
    (names : Text → Option Text) (id : Assignment → Option Text) (rows : List Assignment)
    → resolve_column names id rows nothing_resolved ≡ column_of names id rows
unfolding column_of
column_unique names id rows = rw (
  column_readings names id rows nothing_resolved,
  add_all_empty (found (λ a. known names (id a)) rows),
  add_all_empty (found (λ a. unknown names (id a)) rows),
)

-- the assignments of a conversation in their order
abbrev pub assigned : Text → List Assignment → List Assignment
assigned conversation history = order_by earlier (select (is_of conversation) history)

-- Resolving a conversation is four independent readings of its assignments in their order: of the
-- departments' and of the users' names, trimmed, where they are not blank, and of the ids that have
-- no such name and are not empty; each reading without its repetitions, in the order of the first
-- occurrences.
pub resolve_ticket_assignments_unique :
    (departments users : Text → Option Text) (conversation : Text) (history : List Assignment)
    → resolve_ticket_assignments departments users conversation history ≡ (
      column_of departments (λ a. a.department_id) (assigned conversation history),
      column_of users (λ a. a.user_id) (assigned conversation history),
    )
unfolding resolve_ticket_assignments
resolve_ticket_assignments_unique d u conversation history =
    let rows = assigned conversation history in
    rw (
      rows_columns d u rows (nothing_resolved, nothing_resolved),
      column_unique d (λ a. a.department_id) rows,
      column_unique u (λ a. a.user_id) rows,
    )
