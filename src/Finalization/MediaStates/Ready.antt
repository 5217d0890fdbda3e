-- ===== src/Finalization/MediaStates/Ready.antt =====
-- When no message is awaited and none blocks, the snapshot is complete.
use cai_central_de_atendimen.Base.{
  ℕ, ◌≡◌, ◌≤◌, refl, true, false, Option, none, some, List, [], ◌∷◌, inl, inr, arith, Bool-cases,
  get_or,
}
use cai_central_de_atendimen.Base.Lists.{length}
use cai_central_de_atendimen.Base.Texts.{Text, strip}
use cai_central_de_atendimen.Media.Row.{ContentStatus, pending, processing, completed, failed}
use cai_central_de_atendimen.Finalization.Messages.{Message}
use cai_central_de_atendimen.Finalization.MediaStates.{
  MediaState, Outcome, settled, is_awaited, is_blocking, is_media, apply_status, apply_state,
  apply_one, apply_media_states, add_if_awaited, add_if_blocking,
}

module _ (states : Text → Option MediaState) (max_attempts : ℕ) where
  -- a message of another type is as it was, a media message has the text of its completed row
  abbrev pub IsReady : Message → Message → Type 0
  IsReady m r =
      (is_media m ≡ false → r ≡ m)
      × (is_media m ≡ true
          → (s : MediaState) × (states m.message_id ≡ some s)
            × (s.status ≡ completed)
            × (r.content ≡ strip (get_or s.transcript []))
            × (1 ≤ length r.content))

  apply_status_settled :
      (m : Message) (attempts : ℕ) (t : Text) (status : ContentStatus)
      → (apply_status max_attempts m attempts t status).1 ≡ settled
      → (status ≡ completed)
        × ((apply_status max_attempts m attempts t status).0.content ≡ t)
        × (1 ≤ length ((apply_status max_attempts m attempts t status).0.content))
  unfolding apply_status
  apply_status_settled m attempts t completed h = (refl, refl, ground arith)
  apply_status_settled m attempts t pending h = cc
  apply_status_settled m attempts t processing h = cc
  apply_status_settled m attempts t failed h = ground arith

  apply_state_settled :
      (m : Message) (o : Option MediaState)
      → (apply_state max_attempts m o).1 ≡ settled
      → (s : MediaState) × (o ≡ some s)
        × (s.status ≡ completed)
        × ((apply_state max_attempts m o).0.content ≡ strip (get_or s.transcript []))
        × (1 ≤ length ((apply_state max_attempts m o).0.content))
  unfolding apply_state
  apply_state_settled m none h = cc
  apply_state_settled m (some s) h =
      let (a, b, c) =
        apply_status_settled m s.attempt_count (strip (get_or s.transcript [])) s.status h in
      (s, refl, a, b, c)

  apply_one-IsReady :
      (m : Message)
      → (apply_one states max_attempts m).1 ≡ settled
      → IsReady m (apply_one states max_attempts m).0
  unfolding apply_one
  apply_one-IsReady m h = elim (Bool-cases (is_media m)) [
    | inr e ↦ rw e ((λ _. refl), λ k. cc)
    | inl e ↦ rw e ((λ k. cc), λ _. apply_state_settled m (states m.message_id) (rw e at h))
  ]

  abbrev pub AllReady : List Message → List Message → Type 0
  AllReady [] [] = Unit
  AllReady (m ∷ ms) (r ∷ rs) = IsReady m r × AllReady ms rs
  AllReady _ _ = ⊥

  -- an outcome that adds to neither list
  settled_of :
      (o : Outcome) (id : Text) (ps bs : List Text)
      → add_if_awaited o id ps ≡ []
      → add_if_blocking o id bs ≡ []
      → (o ≡ settled) × (ps ≡ []) × (bs ≡ [])
  settled_of settled id ps bs h k = (refl, h, k)
  settled_of is_awaited id ps bs h k = cc
  settled_of is_blocking id ps bs h k = cc

-- For any messages, states and attempt limit: if no message is awaited and none blocks, the output
-- has a message for each message, in order; one that is no media message is unchanged, and a media
-- message has a completed row whose stripped text, not empty, is its content.
pub apply_media_states-AllReady :
    (ms : List Message) (states : Text → Option MediaState) (max_attempts : ℕ)
    → (apply_media_states ms states max_attempts).pending_ids ≡ []
    → (apply_media_states ms states max_attempts).blocked_ids ≡ []
    → AllReady states max_attempts ms (apply_media_states ms states max_attempts).output
unfolding apply_media_states
apply_media_states-AllReady [] states n h k = tt
apply_media_states-AllReady (m ∷ ms) states n h k =
    let (a, b, c) = settled_of states n (apply_one states n m).1 m.message_id _ _ h k in
    (apply_one-IsReady states n m a, apply_media_states-AllReady ms states n b c)
