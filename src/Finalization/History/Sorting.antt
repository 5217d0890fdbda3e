-- ===== src/Finalization/History/Sorting.antt =====
-- The order in which `normalize_history` leaves the messages.
use cai_central_de_atendimen.Base.{◌≡◌, refl, true, false, Option, List, [], ◌∷◌, arith}
use cai_central_de_atendimen.Base.Tables.{IsOrder, pairwise, order_by-pairwise}
use cai_central_de_atendimen.Base.Texts.{Text}
use cai_central_de_atendimen.Cycle.Row.{Time}
use cai_central_de_atendimen.Finalization.Messages.{RawMessage}
use cai_central_de_atendimen.Finalization.History.{text_le, message_before, normalize_history}

text_le_total : (a b : Text) → text_le a b ≡ false → text_le b a ≡ true
unfolding text_le
text_le_total [] b h = cc
text_le_total (x ∷ xs) [] h = refl
text_le_total (x ∷ xs) (y ∷ ys) h = ground (arith, text_le_total xs ys)

text_le_trans : (a b c : Text) → text_le a b ≡ true → text_le b c ≡ true → text_le a c ≡ true
unfolding text_le
text_le_trans [] b c h k = refl
text_le_trans (x ∷ xs) [] c h k = cc
text_le_trans (x ∷ xs) (y ∷ ys) [] h k = cc
text_le_trans (x ∷ xs) (y ∷ ys) (z ∷ zs) h k = ground (arith, text_le_trans xs ys zs)

message_before-IsOrder : IsOrder message_before
unfolding message_before
message_before-IsOrder = record {
  total = λ a b h. ground (arith, text_le_total a.message_id b.message_id);
  trans = λ a b c h k. ground (arith, text_le_trans a.message_id b.message_id c.message_id);
}

module _ (rs : List RawMessage) (configured ticket_start previous : Option Time)
    (closed : Time) where
  -- For any raw messages, configured start, ticket start, previous close and close: of two
  -- normalized messages the earlier one in the list has the smaller time, or the same time and an
  -- id that is not greater.
  pub normalize_history_sorted :
      pairwise message_before
        (normalize_history rs configured ticket_start previous closed).messages
      ≡ true
  unfolding normalize_history
  normalize_history_sorted = order_by-pairwise message_before-IsOrder _
