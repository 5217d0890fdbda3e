-- ===== src/Base/Texts.antt =====
-- Python texts as lists of code points: equality, `str.strip`, and `str.lower` on ASCII letters.
use cai_central_de_atendimen.Base.Tests.{leb, ◌==◌, if◌then◌else◌}
use cai_central_de_atendimen.Base.Lists.{select}
use Prim.Native.Nat.{ℕ, ◌+◌}
use Prim.Native.Char.{code}
use Prim.Native.String.{String}
use mathlib.Core.Path.{◌≡◌, refl}
use mathlib.Core.Logic.{◌↔◌}
use mathlib.Core.Bool.{Bool, true, false, not, ◌&&◌, ◌||◌}
use mathlib.Core.Option.{Option, none, some}
use mathlib.Core.List.{List, [], ◌∷◌, map, reverse}
use native.Mathlib.Omega.{arith}

abbrev pub Text : Type 0
Text = List ℕ

abbrev pub text : String → Text
text String.[] = []
text (String.◌∷◌ c s) = code c ∷ text s

unfoldable pub same : Text → Text → Bool
same [] [] = true
same (x ∷ xs) (y ∷ ys) = x == y && same xs ys
same _ _ = false

same→eq : (s t : Text) → same s t ≡ true → s ≡ t
unfolding same
same→eq [] [] h = refl
same→eq [] (y ∷ ys) h = cc
same→eq (x ∷ xs) [] h = cc
same→eq (x ∷ xs) (y ∷ ys) h = ground (arith, same→eq xs ys)

pub same_refl : (s : Text) → same s s ≡ true
unfolding same
same_refl [] = refl
same_refl (x ∷ xs) = ground (arith, same_refl xs)

-- the test decides equality
pub same_iff : (s t : Text) → (same s t ≡ true) ↔ (s ≡ t)
same_iff s t = (same→eq s t, λ e. rw e (same_refl t))

pub same_comm : (s t : Text) → same s t ≡ same t s
same_comm s t = ground (arith, same_iff s t, same_iff t s)

-- SQL `a = b` on a nullable column: null equals nothing
abbrev pub same_some : Option Text → Option Text → Bool
same_some (some a) (some b) = same a b
same_some _ _ = false

pub same_some_comm : (a b : Option Text) → same_some a b ≡ same_some b a
same_some_comm none none = refl
same_some_comm none (some b) = refl
same_some_comm (some a) none = refl
same_some_comm (some a) (some b) = same_comm a b

pub same_some_trans :
    (a b : Option Text) (k : Text)
    → same_some a (some k) ≡ true
    → same_some b (some k) ≡ true
    → same_some a b ≡ true
same_some_trans none b k p q = cc
same_some_trans (some a) none k p q = cc
same_some_trans (some a) (some b) k p q = ground (arith, same_iff a k, same_iff b k, same_iff a b)

-- the code points of which `str.isspace` holds
unfoldable pub is_space : ℕ → Bool
is_space c =
    leb 9 c && leb c 13
    || leb 28 c && leb c 32
    || c == 133
    || c == 160
    || c == 5760
    || leb 8192 c && leb c 8202
    || c == 8232
    || c == 8233
    || c == 8239
    || c == 8287
    || c == 12288

unfoldable pub lstrip : Text → Text
lstrip [] = []
lstrip (c ∷ cs) = let rest = lstrip cs in if is_space c then rest else c ∷ cs

unfoldable pub strip : Text → Text
unfolding lstrip is_space
strip s = reverse (lstrip (reverse (lstrip s)))

unfoldable pub lower : Text → Text
lower = map (λ c. if leb b'A' c && leb c b'Z' then c + 32 else c)

unfoldable pub starts_with : Text → Text → Bool
starts_with [] s = true
starts_with (p ∷ ps) [] = false
starts_with (p ∷ ps) (c ∷ cs) = p == c && starts_with ps cs

unfoldable pub contains : List Text → Text → Bool
contains [] t = false
contains (s ∷ ss) t = same s t || contains ss t

-- the texts in the order in which they first occur
unfoldable pub unique : List Text → List Text
unique [] = []
unique (x ∷ xs) = x ∷ select (λ y. not (same x y)) (unique xs)
