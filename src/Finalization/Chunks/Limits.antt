-- ===== src/Finalization/Chunks/Limits.antt =====
-- The chunks hold the messages in order and keep to the token limit.
use cai_central_de_atendimen.Base.{
  ℕ, ◌+◌, ◌≤◌, ◌≡◌, refl, sym, ◌∙◌, ap, Bool, true, false, not, ◌&&◌, List, [], ◌∷◌, ◌++◌, inl, inr,
  ◌⊎◌, ltb, arith, Bool-cases,
}
use cai_central_de_atendimen.Base.Lists.{length, All, All-append}
use cai_central_de_atendimen.Finalization.Messages.{Message}
use cai_central_de_atendimen.Finalization.Chunks.{
  cost, Progress, is_empty, add_message, add_messages, finished, chunk_messages,
}
use mathlib.Core.List.{append_assoc, append-nil}

abbrev pub concat {ℓ} : {A : Type ℓ} → List (List A) → List A
concat [] = []
concat (xs ∷ xss) = xs ++ concat xss

abbrev pub total_cost : List Message → ℕ
total_cost [] = 0
total_cost (m ∷ ms) = cost m + total_cost ms

-- a chunk within the limit, or one message that alone is above it
abbrev pub Fits : ℕ → List Message → Type 0
Fits limit c = (1 ≤ length c) × ((total_cost c ≤ limit) ⊎ (length c ≡ 1))

total_cost-append : (a b : List Message) → total_cost (a ++ b) ≡ total_cost a + total_cost b
total_cost-append [] b = omega arith
total_cost-append (m ∷ ms) b = omega (arith, total_cost-append ms b)

length_snoc : (xs : List Message) (m : Message) → length (xs ++ m ∷ []) ≡ length xs + 1
length_snoc [] m = refl
length_snoc (x ∷ xs) m = omega (arith, length_snoc xs m)

concat_snoc :
    {A : Type 0} (xss : List (List A)) (xs : List A) → concat (xss ++ xs ∷ []) ≡ concat xss ++ xs
concat_snoc [] xs = append-nil xs
concat_snoc (ys ∷ yss) xs =
    ap (◌++◌ ys) (concat_snoc yss xs) ∙ sym (append_assoc ys (concat yss) xs)

abbrev gathered : Progress → List Message
gathered p = concat p.chunks ++ p.current

-- the loop's variables agree and its chunks fit
abbrev Sound : ℕ → Progress → Type 0
Sound limit p =
    (p.current_tokens ≡ total_cost p.current)
    × ((length p.current ≡ 0) ⊎ Fits limit p.current)
    × All (Fits limit) p.chunks

module _ (limit : ℕ) where
  -- the test of the loop
  abbrev is_full : Progress → Message → Bool
  is_full p m = not (is_empty p.current) && ltb limit (p.current_tokens + cost m)

  add_message-gathered :
      (p : Progress) (m : Message) → gathered (add_message limit p m) ≡ gathered p ++ m ∷ []
  unfolding add_message
  add_message-gathered p m = elim (Bool-cases (is_full p m)) [
    | inl e ↦ rw e (ap (λ v. v ++ m ∷ []) (concat_snoc p.chunks p.current))
    | inr e ↦ rw e (sym (append_assoc (concat p.chunks) p.current (m ∷ [])))
  ]

  add_messages-gathered :
      (ms : List Message) (p : Progress) → gathered (add_messages limit ms p) ≡ gathered p ++ ms
  unfolding add_messages
  add_messages-gathered [] p = sym (append-nil (gathered p))
  add_messages-gathered (m ∷ ms) p =
      add_messages-gathered ms (add_message limit p m)
      ∙ (ap (λ v. v ++ ms) (add_message-gathered p m) ∙ append_assoc (gathered p) (m ∷ []) ms)

  current-Fits :
      (p : Progress) (m : Message)
      → Sound limit p
      → is_full p m ≡ false
      → Fits limit (p.current ++ m ∷ [])
  current-Fits p m h e =
      ground (arith, h.0, total_cost-append p.current (m ∷ []), length_snoc p.current m)

  add_message-Sound :
      (p : Progress) (m : Message) → Sound limit p → Sound limit (add_message limit p m)
  unfolding add_message
  add_message-Sound p m h = elim (Bool-cases (is_full p m)) [
    | inl e ↦ rw e (
      omega arith,
      inr (omega arith, inr refl),
      All-append (Fits limit) p.chunks (p.current ∷ []) h.2 (open_chunk e, tt),
    )
    | inr e ↦
        rw e (
          ground (arith, h.0, total_cost-append p.current (m ∷ [])),
          inr (current-Fits p m h e),
          h.2,
        )
  ]
    where
      open_chunk : is_full p m ≡ true → Fits limit p.current
      open_chunk e = ground (arith, e)

  add_messages-Sound :
      (ms : List Message) (p : Progress) → Sound limit p → Sound limit (add_messages limit ms p)
  unfolding add_messages
  add_messages-Sound [] p h = h
  add_messages-Sound (m ∷ ms) p h =
      add_messages-Sound ms (add_message limit p m) (add_message-Sound p m h)

  finished-concat : (p : Progress) → concat (finished p) ≡ gathered p
  unfolding finished
  finished-concat p = elim (Bool-cases (is_empty p.current)) [
    | inl e ↦
        rw e (sym (append-nil (concat p.chunks)) ∙ ap (◌++◌ (concat p.chunks)) (nil p.current e))
    | inr e ↦ rw e (concat_snoc p.chunks p.current)
  ]
    where
      nil : (c : List Message) → is_empty c ≡ true → [] ≡ c
      nil [] e = refl
      nil (x ∷ xs) e = ground arith

  finished-Fits : (p : Progress) → Sound limit p → All (Fits limit) (finished p)
  unfolding finished
  finished-Fits p h = elim (Bool-cases (is_empty p.current)) [
    | inl e ↦ rw e h.2
    | inr e ↦ rw e (All-append (Fits limit) p.chunks (p.current ∷ []) h.2 (open_chunk e, tt))
  ]
    where
      open_chunk : is_empty p.current ≡ false → Fits limit p.current
      open_chunk e = ground (arith, e)

-- For any messages and token limit: the chunks, one after the other, hold the messages in their
-- order, none lost and none twice.
pub concat-chunk_messages : (ms : List Message) (limit : ℕ) → concat (chunk_messages ms limit) ≡ ms
unfolding chunk_messages
concat-chunk_messages ms limit = finished-concat limit _ ∙ add_messages-gathered limit ms _

-- For any messages and token limit: every chunk has a message, and its estimated cost is within
-- the limit unless it is a single message.
pub chunk_messages-Fits :
    (ms : List Message) (limit : ℕ) → All (Fits limit) (chunk_messages ms limit)
unfolding chunk_messages
chunk_messages-Fits ms limit =
    finished-Fits limit _ (add_messages-Sound limit ms _ (refl, inl refl, tt))
