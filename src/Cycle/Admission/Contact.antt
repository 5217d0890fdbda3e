-- ===== src/Cycle/Admission/Contact.antt =====
-- `_normalize_cycle_contact_external_id`: what an accepted contact id looks like.
use cai_central_de_atendimen.Base.{
  ℕ, ◌≤◌, ◌<◌, Bool, true, false, not, Option, none, some, [], ◌∷◌, ◌≡◌, refl, arith, ◌==◌, ◌∙◌,
}
use mathlib.Core.List.{reverse}
use cai_central_de_atendimen.Base.Errors.{ok}
use cai_central_de_atendimen.Base.Lists.{any, length, any-reverse}
use cai_central_de_atendimen.Base.Texts.{Text, strip, lstrip, is_space}
use cai_central_de_atendimen.Cycle.Schema.{nonblank, nonblank_if_some}
use cai_central_de_atendimen.Cycle.Admission.{normalize_contact, unsafe_character}

not_blank : ℕ → Bool
not_blank c = not (c == 32)

-- what is left of a text begins with a character that is no space
any-lstrip : (s : Text) → (length (lstrip s) == 0) ≡ false → any not_blank (lstrip s) ≡ true
unfolding lstrip is_space not_blank
any-lstrip [] h = cc
any-lstrip (c ∷ cs) h = ground (arith, any-lstrip cs)

length-reverse-zero : (s : Text) → (length (reverse s) == 0) ≡ false → (length s == 0) ≡ false
length-reverse-zero [] h = h
length-reverse-zero (c ∷ cs) h = ground arith

nonblank-strip : (s : Text) → (length (strip s) == 0) ≡ false → nonblank (strip s) ≡ true
unfolding nonblank strip not_blank
nonblank-strip s h =
    any-reverse not_blank (lstrip (reverse (lstrip s)))
    ∙ any-lstrip (reverse (lstrip s)) (length-reverse-zero (lstrip (reverse (lstrip s))) h)

-- An accepted contact id is nonblank, has from 1 to 240 characters, and contains no carriage
-- return, no line feed and no NUL.
pub normalize_contact-IsSafe :
    (value : Option Text) (n : Text)
    → normalize_contact value ≡ ok (some n)
    → (nonblank n ≡ true) × (0 < length n) × (length n ≤ 240) × (any unsafe_character n ≡ false)
unfolding normalize_contact
normalize_contact-IsSafe none n h = cc
normalize_contact-IsSafe (some value) n h =
    (ground (arith, nonblank-strip value), ground arith, ground arith, ground arith)

pub normalize_contact-nonblank :
    (value : Option Text) (contact : Option Text)
    → normalize_contact value ≡ ok contact
    → nonblank_if_some contact ≡ true
normalize_contact-nonblank value none h = refl
normalize_contact-nonblank value (some n) h = (normalize_contact-IsSafe value n h).0
