-- ===== src/Finalization/Chunks.antt =====
-- core/finalization.py: `estimate_tokens` and `chunk_messages`.
pub mod Limits
use cai_central_de_atendimen.Base.{
  ℕ, ◌+◌, ◌/◌, Bool, ◌&&◌, not, List, [], ◌∷◌, ◌++◌, ◌==◌, ltb, if◌then◌else◌,
}
use cai_central_de_atendimen.Base.Lists.{length}
use cai_central_de_atendimen.Base.Texts.{Text}
use cai_central_de_atendimen.Finalization.Messages.{Message}

-- the bytes of a code point in UTF-8
unfoldable pub utf8_size : ℕ → ℕ
utf8_size c = if ltb c 128 then 1 else if ltb c 2048 then 2 else if ltb c 65536 then 3 else 4

unfoldable pub utf8_length : Text → ℕ
utf8_length [] = 0
utf8_length (c ∷ cs) = utf8_size c + utf8_length cs

-- `math.ceil(n / 3)`
unfoldable pub estimate_tokens : Text → ℕ
estimate_tokens t = (utf8_length t + 2) / 3

unfoldable pub cost : Message → ℕ
cost m = estimate_tokens m.content + 40

-- the variables of the loop
pub record Progress : Type 0 where
  pub chunks : List (List Message)
  pub current : List Message
  pub current_tokens : ℕ

abbrev pub is_empty {ℓ} : {A : Type ℓ} → List A → Bool
is_empty xs = length xs == 0

-- one round of the loop
unfoldable pub add_message : ℕ → Progress → Message → Progress
add_message token_limit p m =
    if not (is_empty p.current) && ltb token_limit (p.current_tokens + cost m)
    then record { chunks = p.chunks ++ p.current ∷ []; current = m ∷ []; current_tokens = cost m }
    else record {
      chunks = p.chunks;
      current = p.current ++ m ∷ [];
      current_tokens = p.current_tokens + cost m;
    }

unfoldable pub add_messages : ℕ → List Message → Progress → Progress
add_messages token_limit [] p = p
add_messages token_limit (m ∷ ms) p = add_messages token_limit ms (add_message token_limit p m)

-- what the loop has gathered, the last chunk included
unfoldable pub finished : Progress → List (List Message)
finished p = if is_empty p.current then p.chunks else p.chunks ++ p.current ∷ []

unfoldable pub chunk_messages : List Message → ℕ → List (List Message)
chunk_messages messages token_limit =
    finished
      (add_messages token_limit messages (record { chunks = []; current = []; current_tokens = 0 }))
