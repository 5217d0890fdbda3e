-- ===== src/Requests/Statements/Checks.antt =====
-- The outcomes that the code makes itself pass the checks of the table.
use cai_central_de_atendimen.Base.{
  ℕ, zero, suc, if◌then◌else◌, ◌≤◌, ◌≡◌, refl, subst, ◌∙◌, ap, sym, Bool, true, false, not, Option,
  some, [], ◌∷◌, ◌==◌, arith, Bool-cases, inl, inr, and_intro,
}
use mathlib.Core.List.{reverse}
use cai_central_de_atendimen.Base.Lists.{all, any, any-reverse, length, take, length-take-le}
use cai_central_de_atendimen.Base.Texts.{Text, text, strip, is_space}
use cai_central_de_atendimen.Requests.Safe.{
  is_reason_char, is_id_char, casefold, is_safe_sol_id, matches, replace_unsafe, drop_underscores,
  safe_category,
}
use cai_central_de_atendimen.Requests.Payload.{
  Outcome, OutcomeState, failure_outcome, success_outcome,
}
use cai_central_de_atendimen.Requests.Statements.{is_success, is_nonblank, passes_checks}

module _ (p : ℕ → Bool) where
  all-any : (t : Text) → all p t ≡ not (any (λ c. not (p c)) t)
  all-any [] = refl
  all-any (c ∷ cs) = ground (arith, all-any cs)

  all-reverse : (t : Text) → all p t ≡ true → all p (reverse t) ≡ true
  all-reverse t h =
      all-any (reverse t) ∙ ap not (any-reverse (λ c. not (p c)) t) ∙ sym (all-any t) ∙ h

  all-take : (n : ℕ) (t : Text) → all p t ≡ true → all p (take n t) ≡ true
  all-take zero t h = refl
  all-take (suc n) [] h = refl
  all-take (suc n) (c ∷ cs) h = ground (arith, h, all-take n cs)

  all-drop_underscores : (t : Text) → all p t ≡ true → all p (drop_underscores t) ≡ true
  unfolding drop_underscores
  all-drop_underscores [] h = refl
  all-drop_underscores (c ∷ cs) h = ground (arith, h, all-drop_underscores cs)

replaced_safe : (r : Bool) (t : Text) → all is_reason_char (replace_unsafe r t) ≡ true
unfolding replace_unsafe
replaced_safe r [] = refl
replaced_safe r (c ∷ cs) =
    let rest = λ (b : Bool). replaced_safe b cs in
    elim (Bool-cases (is_reason_char c)) [
      | inl e ↦ rw e (and_intro _ _ e (rest false))
      | inr e ↦ elim (Bool-cases r) [
        | inl h ↦ rw (e, h) (rest true)
        | inr h ↦ rw (e, h) (rest true)
      ]
    ]

matches_or :
    (p : ℕ → Bool) (n : ℕ) (cut other : Text)
    → all p cut ≡ true
    → length cut ≤ n
    → matches p n other ≡ true
    → matches p n (if length cut == 0 then other else cut) ≡ true
matches_or p n cut other h l k = elim (Bool-cases (length cut == 0)) [
  | inl e ↦ rw e k
  | inr e ↦ rw e (unfold matches in ground (arith, h, l, e))
]

-- Whatever the text, what `_safe_category` makes of it has one to 120 characters, all of them lower
-- case letters, digits or one of `_:-`, as the checks of the table want a category.
pub safe_category-matches : (t : Text) → matches is_reason_char 120 (safe_category t) ≡ true
unfolding safe_category
safe_category-matches t =
    let replaced = replace_unsafe false (casefold t) in
    let right = reverse (drop_underscores replaced) in
    let stripped = reverse (drop_underscores right) in
    let safe : all is_reason_char stripped ≡ true =
      all-reverse is_reason_char (drop_underscores right) (
        all-drop_underscores is_reason_char right (
          all-reverse is_reason_char (drop_underscores replaced)
            (all-drop_underscores is_reason_char replaced (replaced_safe false (casefold t))))) in
    matches_or is_reason_char 120 (take 120 stripped) (text "provider_error")
      (all-take is_reason_char 120 stripped safe) (length-take-le 120 stripped)
      (unfold matches in refl)

pub failure_passes :
    (state : OutcomeState) (category : Text) (status : Option ℕ)
    → is_success state ≡ false
    → passes_checks (failure_outcome state category status) ≡ true
unfolding passes_checks failure_outcome
failure_passes state category status h = ground (arith, safe_category-matches category)

matches_all : (p : ℕ → Bool) (n : ℕ) (c : ℕ) (cs : Text) → matches p n (c ∷ cs) ≡ true → p c ≡ true
unfolding matches
matches_all p n c cs h = ground (arith, h)

id_nonblank : (t : Text) → is_safe_sol_id t ≡ true → is_nonblank (some t) ≡ true
unfolding is_safe_sol_id is_space
id_nonblank [] h = unfold matches in cc h
id_nonblank (c ∷ cs) h = elim (Bool-cases (c == 32)) [
  | inr e ↦ rw e refl
  | inl e ↦
      let q : c ≡ 32 = ground (arith, e) in
      let k : is_id_char c ≡ true = matches_all is_id_char 160 c cs h in
      let k' : is_id_char 32 ≡ true = subst (λ x. is_id_char x ≡ true) q k in cc
]

pub success_passes :
    (v : Text) (status : Option ℕ) {o : Outcome}
    → success_outcome v status ≡ some o
    → passes_checks o ≡ true
unfolding passes_checks success_outcome
success_passes v status {o} h = elim (Bool-cases (is_safe_sol_id (strip v))) [
  | inl e ↦ ground (arith, h, e, id_nonblank (strip v) e)
  | inr e ↦ cc (rw e at h)
]
