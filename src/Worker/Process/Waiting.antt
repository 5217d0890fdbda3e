-- ===== src/Worker/Process/Waiting.antt =====
-- How a run leaves a cycle whose media are not ready.
use cai_central_de_atendimen.Base.{
  ℕ, ◌≤◌, ◌<◌, ◌≡◌, ◌⊎◌, refl, true, false, Option, none, some, List, [], ◌∷◌, inl, inr, Bool-cases,
}
use mathlib.Core.List.{Memᴰ}
use cai_central_de_atendimen.Base.Errors.{ok}
use cai_central_de_atendimen.Base.Lists.{all}
use cai_central_de_atendimen.Base.Tables.{mem-update}
use cai_central_de_atendimen.Base.Texts.{Text, same_refl}
use cai_central_de_atendimen.Cycle.Row.{Cycle, Time, Status, waiting_media, media_blocked}
use cai_central_de_atendimen.Cycle.Schema.{conforms}
use cai_central_de_atendimen.Cycle.Transition.{
  Field, status_text, moved, assign, assign_all, is_expected, transition_cycle, Moved,
}
use cai_central_de_atendimen.Cycle.Transition.Guards.{is_plain, picks, transition_cycle_moves}
use cai_central_de_atendimen.Finalization.MediaStates.{Applied, MediaState, apply_media_states}
use cai_central_de_atendimen.Finalization.MediaStates.Ready.{AllReady, apply_media_states-AllReady}
use cai_central_de_atendimen.Worker.Media.{
  MediaTables, MediaSettings, media_state, next_media_check_at,
}
use cai_central_de_atendimen.Worker.Media.Rechecks.{next_media_check_at-least}
use cai_central_de_atendimen.Worker.Process.{
  Snapshot, States, may_wait, is_empty, MediaPass, stopped, hydrated, block_cycle, wait_for_media,
  settle_media, states_after, pass_media, blocked_fields, waiting_fields,
}

-- the stored cycle `x` is left in status `s`, due at `next`, and under no lease
pub record IsLeft (x : Cycle) (s : Status) (next : Option Time) (r : Moved) : Type 0 where
  pub row : Cycle
  pub returned : r.0 ≡ ok (some row)
  pub stored : Memᴰ row r.1
  pub same_id : row.public_id ≡ x.public_id
  pub status : row.status ≡ s
  pub due : row.next_attempt_at ≡ next
  pub no_owner : row.lease_owner ≡ none
  pub no_lease : row.lease_expires_at ≡ none
  pub valid : conforms r.1 ≡ true

-- the states that the run reads after it has reserved the jobs
abbrev pub final_states :
    MediaSettings → Cycle → (ℕ → Time) → Snapshot → MediaTables → Text → Option MediaState
final_states s c clocks snapshot t id =
    media_state ((states_after s clocks c snapshot.messages t).1 id)

-- what a pass over the media of the cycle comes to, at the time of the clock
abbrev pub IsPassed :
    MediaSettings → Cycle → Time → (Text → Option MediaState) → Snapshot → MediaPass → Type 0
IsPassed s c clock states snapshot (stopped m) =
    IsLeft c media_blocked none m ⊎ ((t : Time) × (clock < t) × IsLeft c waiting_media (some t) m)
IsPassed s c clock states snapshot (hydrated ms) =
    AllReady states s.max_retries snapshot.messages ms

module _ (s : MediaSettings) (serialise : Snapshot → Text) (c : Cycle) (clock now : Time)
    (rows : List Cycle) (valid : conforms rows ≡ true) (stored : Memᴰ c rows)
    (waits : is_expected may_wait c.status ≡ true) where
  left :
      (status : Status) (next : Option Time) (fields : List Field)
      → all is_plain fields ≡ true
      → (moved status fields now c).public_id ≡ c.public_id
      → (moved status fields now c).status ≡ status
      → (moved status fields now c).next_attempt_at ≡ next
      → (moved status fields now c).lease_owner ≡ none
      → (moved status fields now c).lease_expires_at ≡ none
      → IsLeft c status next
          (transition_cycle c.public_id (status_text status) may_wait fields now rows)
  left status next fields plain p q a o l =
      let (e, good) =
        transition_cycle_moves rows c status may_wait fields now valid stored plain waits in
      rw e (record {
        row = moved status fields now c;
        returned = refl;
        stored =
            mem-update (picks rows c status may_wait fields now valid stored)
              (moved status fields now) stored (rw (same_refl c.public_id) waits);
        same_id = p;
        status = q;
        due = a;
        no_owner = o;
        no_lease = l;
        valid = good;
      })

  block_cycle-IsLeft :
      (snapshot : Snapshot) (applied : Applied) (states : States)
      → IsLeft c media_blocked none
          (block_cycle s serialise c snapshot applied states clock now rows)
  unfolding block_cycle assign_all assign
  block_cycle-IsLeft snapshot applied states =
      left media_blocked none (blocked_fields _ _) refl refl refl refl refl refl

  wait_for_media-IsLeft :
      (snapshot : Snapshot) (applied : Applied) (states : States)
      → IsLeft c waiting_media
          (some (next_media_check_at s.recheck_seconds clock states applied.pending_ids))
          (wait_for_media s serialise c snapshot applied states clock now rows)
  unfolding wait_for_media assign_all assign
  wait_for_media-IsLeft snapshot applied states =
      left waiting_media _ (waiting_fields _ _) refl refl refl refl refl refl

  -- how the media are settled
  abbrev pub IsSettled : Snapshot → Applied → MediaPass → Type 0
  IsSettled snapshot applied (stopped m) =
      ((is_empty applied.blocked_ids ≡ false) × IsLeft c media_blocked none m)
      ⊎ ((is_empty applied.blocked_ids ≡ true)
          × (is_empty applied.pending_ids ≡ false)
          × ((t : Time) × (clock < t) × IsLeft c waiting_media (some t) m))
  IsSettled snapshot applied (hydrated ms) =
      (is_empty applied.blocked_ids ≡ true)
      × (is_empty applied.pending_ids ≡ true)
      × (ms ≡ applied.output)

  settle_media-IsSettled :
      (snapshot : Snapshot) (applied : Applied) (states : States)
      → 1 ≤ s.recheck_seconds
      → IsSettled snapshot applied
          (settle_media s serialise c snapshot applied states clock now rows)
  unfolding settle_media
  settle_media-IsSettled snapshot applied states r =
      elim (Bool-cases (is_empty applied.blocked_ids)) [
        | inr e ↦ rw e (inl (e, block_cycle-IsLeft snapshot applied states))
        | inl e ↦ elim (Bool-cases (is_empty applied.pending_ids)) [
          | inr f ↦
              let (later, _, _) =
                next_media_check_at-least s.recheck_seconds clock states applied.pending_ids r in
              rw (e, f) (inr (e, f, (_, later, wait_for_media-IsLeft snapshot applied states)))
          | inl f ↦ rw (e, f) (e, f, refl)
        ]
      ]

  empty_nil : (ts : List Text) → is_empty ts ≡ true → ts ≡ []
  empty_nil [] h = refl
  empty_nil (t ∷ ts) h = cc

  settled-IsPassed :
      (states : Text → Option MediaState) (snapshot : Snapshot) (r : MediaPass)
      → IsSettled snapshot (apply_media_states snapshot.messages states s.max_retries) r
      → IsPassed s c clock states snapshot r
  settled-IsPassed states snapshot (stopped m) (inl (e, h)) = inl h
  settled-IsPassed states snapshot (stopped m) (inr (e, f, h)) = inr h
  settled-IsPassed states snapshot (hydrated ms) (e, f, k) = rw k (
      apply_media_states-AllReady snapshot.messages states s.max_retries (empty_nil _ f)
        (empty_nil _ e))

  -- For a cycle that a conforming table holds as it was claimed, in a status from which it may wait
  -- for media, and a recheck interval of at least a second: the pass over the media leaves it
  -- blocked with no next attempt, or waiting with a next attempt after now, each time under no
  -- lease and in a conforming table; or it goes on, with every medium's message carrying the text,
  -- not empty, of a completed row, and the other messages as they were.
  pub pass_media-IsPassed :
      (clocks : ℕ → Time) (snapshot : Snapshot) (t : MediaTables)
      → 1 ≤ s.recheck_seconds
      → IsPassed s c clock
          (final_states s c clocks snapshot t)
          snapshot
          (pass_media s serialise clocks c snapshot t clock now rows).1
  unfolding pass_media
  pass_media-IsPassed clocks snapshot t r =
      settled-IsPassed (final_states s c clocks snapshot t) snapshot _
        (settle_media-IsSettled snapshot _ _ r)
