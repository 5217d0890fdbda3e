-- ===== src/Media/Calls.antt =====
-- Any sequence of calls on one media table, and the form that the effect of every call has.
use cai_central_de_atendimen.Base.{
  ℕ, ◌≤◌, Bool, true, false, not, Option, none, List, [], ◌∷◌, ◌++◌, is_none, ◌≡◌, refl, sym, arith,
  inl, inr,
}
use mathlib.Core.List.{Memᴰ}
use cai_central_de_atendimen.Base.Lists.{All, All-of, map_self}
use cai_central_de_atendimen.Base.Texts.{Text, same, same_comm}
use cai_central_de_atendimen.Base.Tables.{update, pairwise, pairwise-at}
use cai_central_de_atendimen.Cycle.Row.{Time}
use cai_central_de_atendimen.Media.Row.{
  ContentStatus, pending, processing, completed, failed, is_pending, is_completed, Content,
}
use cai_central_de_atendimen.Media.Ops.{
  reserve_content, StatusChange, set_content_status, claim_content, recover_content,
  release_content_publication,
}

-- a call, with its arguments and the times and locks that it meets
pub data Call : Type 0 where
  reserve : Text → Option Text → Text → Bool → Time → Call
  set_status : Text → StatusChange → Time → Time → Call
  claim : (Text → Bool) → Text → ℕ → Option Text → Time → Call
  recover : (Text → Bool) → ℕ → ℕ → Time → Call
  release : Text → Text → Time → Call

-- the call leaves the expected statuses to their defaults, as every caller in the repository does
abbrev pub is_default : Call → Bool
is_default (set_status m change clock now) = is_none change.expected_statuses
is_default (release m e now) = true
is_default _ = true

module _ (text_le : Text → Text → Bool) where
  unfoldable pub perform : Call → List Content → List Content
  perform (reserve m conversation model marker clock) rows =
      (reserve_content m conversation model marker clock rows).1
  perform (set_status m change clock now) rows = (set_content_status m change clock now rows).1
  perform (claim locked owner lease_seconds m now) rows =
      (claim_content text_le locked owner lease_seconds m now rows).1
  perform (recover locked lease_seconds batch_size now) rows =
      (recover_content text_le locked lease_seconds batch_size now rows).1
  perform (release m e now) rows = (release_content_publication m e now rows).1

  unfoldable pub perform_all : List Call → List Content → List Content
  perform_all [] rows = rows
  perform_all (c ∷ cs) rows = perform_all cs (perform c rows)

-- the edges of the status diagram; `stay` is a call that passes the row over
infix 40 ◌⟶◌
pub data ◌⟶◌ : ContentStatus → ContentStatus → Type 0 where
  stay : {s : ContentStatus} → s ⟶ s
  start : pending ⟶ processing
  yield_back : processing ⟶ pending
  finish : processing ⟶ completed
  give_up : processing ⟶ failed
  reject : pending ⟶ failed
  retry : failed ⟶ pending

-- how a row that a call touches compares with what it was
pub record Follows (a b : Content) : Type 0 where
  pub same_id : a.message_id ≡ b.message_id
  pub same_creation : a.created_at ≡ b.created_at
  pub attempts : a.attempt_count ≤ b.attempt_count
  pub edge : a.status ⟶ b.status

pub Follows-refl : (a : Content) → Follows a a
Follows-refl a = record {
  same_id = refl;
  same_creation = refl;
  attempts = omega arith;
  edge = stay;
}

-- what holds of a row between two calls: only a pending row is scheduled, and a row has a completion
-- time exactly if it is completed
pub record IsWellFormed (c : Content) : Type 0 where
  pub scheduled : is_pending c.status ≡ false → c.next_attempt_at ≡ none
  pub finished : is_none c.completed_at ≡ not (is_completed c.status)

abbrev pub different_ids : Content → Content → Bool
different_ids a b = not (same a.message_id b.message_id)

-- the primary key
unfoldable pub keyed : List Content → Bool
keyed = pairwise different_ids

-- the effect of a call on a row that its statement picks
pub record IsTouched (a b : Content) : Type 0 where
  pub follows : Follows a b
  pub unfinished : is_completed a.status ≡ false
  pub well_formed : IsWellFormed a → IsWellFormed b

-- the effect of a call on the table
pub data Effect (rows rows' : List Content) : Type 0 where
  updates :
      (p : Content → Bool) (g : Content → Content)
      → rows' ≡ update p g rows
      → ((c : Content) → (g c).message_id ≡ c.message_id)
      → All (λ c. p c ≡ true → IsTouched c (g c)) rows
      → Effect rows rows'
  inserts :
      (c : Content)
      → rows' ≡ rows ++ c ∷ []
      → All (λ r. same r.message_id c.message_id ≡ false) rows
      → IsWellFormed c
      → Effect rows rows'

pub unchanged : (rows : List Content) → Effect rows rows
unchanged rows =
    updates (λ _. false) (λ c. c) (sym (map_self rows)) (λ c. refl) (All-of _ (λ c h. cc) rows)

-- two rows of a table with the same key are one row
pub eq_of_key :
    {rows : List Content} {a b : Content}
    → Memᴰ a rows
    → Memᴰ b rows
    → keyed rows ≡ true
    → same a.message_id b.message_id ≡ true
    → a ≡ b
unfolding keyed
eq_of_key {a = a} {b = b} m n h e = elim (pairwise-at different_ids m n h) [
  | inl k ↦ k
  | inr (inl k) ↦ ground arith
  | inr (inr k) ↦ ground (arith, same_comm a.message_id b.message_id)
]
