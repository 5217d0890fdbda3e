-- ===== src/Requests/Safe.antt =====
-- The character classes of the patterns, `str.casefold`, and the functions that make a text safe.
use cai_central_de_atendimen.Base.{
  ℕ, ◌+◌, Bool, false, not, ◌&&◌, ◌||◌, Option, none, some, [], ◌∷◌, ◌++◌, ◌==◌, leb, if◌then◌else◌,
}
use mathlib.Core.List.{reverse}
use cai_central_de_atendimen.Base.Errors.{Result, ok, err, value_error}
use cai_central_de_atendimen.Base.Lists.{length, all, take}
use cai_central_de_atendimen.Base.Texts.{Text, text, strip, is_space}

-- the code points whose folded form has an ASCII character, and what it is; any other code point
-- above 127 folds to code points above 127, and stands for itself
abbrev pub fold_char : ℕ → Text
fold_char c =
    if leb b'A' c && leb c b'Z'
    then (c + 32) ∷ []
    else if c == 0xDF || c == 0x1E9E
    then text "ss"
    else if c == 0x130
    then b'i' ∷ 0x307 ∷ []
    else if c == 0x149
    then 0x2BC ∷ b'n' ∷ []
    else if c == 0x17F
    then text "s"
    else if c == 0x1F0
    then b'j' ∷ 0x30C ∷ []
    else if c == 0x1E96
    then b'h' ∷ 0x331 ∷ []
    else if c == 0x1E97
    then b't' ∷ 0x308 ∷ []
    else if c == 0x1E98
    then b'w' ∷ 0x30A ∷ []
    else if c == 0x1E99
    then b'y' ∷ 0x30A ∷ []
    else if c == 0x1E9A
    then b'a' ∷ 0x2BE ∷ []
    else if c == 0x212A
    then text "k"
    else if c == 0xFB00
    then text "ff"
    else if c == 0xFB01
    then text "fi"
    else if c == 0xFB02
    then text "fl"
    else if c == 0xFB03
    then text "ffi"
    else if c == 0xFB04
    then text "ffl"
    else if c == 0xFB05 || c == 0xFB06
    then text "st"
    else c ∷ []

unfoldable pub casefold : Text → Text
casefold [] = []
casefold (c ∷ cs) = fold_char c ++ casefold cs

abbrev pub is_digit : ℕ → Bool
is_digit c = leb b'0' c && leb c b'9'

abbrev pub is_lower : ℕ → Bool
is_lower c = leb b'a' c && leb c b'z'

-- [a-z0-9_:-]
abbrev pub is_reason_char : ℕ → Bool
is_reason_char c = is_lower c || is_digit c || c == b'_' || c == b':' || c == b'-'

-- [a-zA-Z0-9_.:@-]
abbrev pub is_key_char : ℕ → Bool
is_key_char c = is_reason_char c || leb b'A' c && leb c b'Z' || c == b'.' || c == b'@'

-- [^\s\x00-\x1f\x7f]
abbrev pub is_id_char : ℕ → Bool
is_id_char c = not (is_space c || leb c 0x1F || c == 0x7F)

-- `^[class]{1,limit}$` with `fullmatch`
unfoldable pub matches : (ℕ → Bool) → ℕ → Text → Bool
matches class limit t = leb 1 (length t) && leb (length t) limit && all class t

unfoldable pub is_safe_sol_id : Text → Bool
unfolding matches
is_safe_sol_id = matches is_id_char 160

-- `^[0-9]+$`
unfoldable pub is_department_id : Text → Bool
is_department_id t = leb 1 (length t) && all is_digit t

unfoldable pub safe_reason : Text → Result Text
safe_reason value =
    let normalized = casefold (strip value) in
    if matches is_reason_char 120 normalized then ok normalized else err value_error

unfoldable pub safe_operation_key : Text → Result Text
safe_operation_key value =
    let normalized = strip value in
    if matches is_key_char 240 normalized then ok normalized else err value_error

unfoldable pub safe_actor : Option Text → Result (Option Text)
safe_actor none = ok none
safe_actor (some value) =
    let normalized = strip value in
    if leb (length normalized) 160 && matches is_key_char 240 normalized
    then ok (some normalized)
    else err value_error

-- `re.sub(r"[^a-z0-9_:-]+", "_", ...)`; `in_run` says that the character before was replaced
unfoldable pub replace_unsafe : Bool → Text → Text
replace_unsafe in_run [] = []
replace_unsafe in_run (c ∷ cs) =
    let rest = replace_unsafe (not (is_reason_char c)) cs in
    if is_reason_char c then c ∷ rest else if in_run then rest else b'_' ∷ rest

unfoldable pub drop_underscores : Text → Text
drop_underscores [] = []
drop_underscores (c ∷ cs) = let rest = drop_underscores cs in if c == b'_' then rest else c ∷ cs

-- `_safe_category`
unfoldable pub safe_category : Text → Text
safe_category value =
    let replaced = replace_unsafe false (casefold value) in
    let stripped = reverse (drop_underscores (reverse (drop_underscores replaced))) in
    let cut = take 120 stripped in if length cut == 0 then text "provider_error" else cut

-- `re.sub(r"[^a-zA-Z0-9_.:@-]", "-", candidate)[:160]`
unfoldable pub replace_each : Text → Text
replace_each [] = []
replace_each (c ∷ cs) = (if is_key_char c then c else b'-') ∷ replace_each cs

-- `value or ...`: the text made of the process and the task serves for an empty owner too
unfoldable pub or_fallback : Option Text → Text → Text
or_fallback none fallback = fallback
or_fallback (some v) fallback = if length v == 0 then fallback else v

unfoldable pub claim_owner_for : Option Text → Text → Result Text
unfolding or_fallback
claim_owner_for value fallback =
    let normalized = take 160 (replace_each (or_fallback value fallback)) in
    if length normalized == 0 then err value_error else ok normalized
