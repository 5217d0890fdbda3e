-- ===== src/Cycle/Wake/Woken.antt =====
-- Which cycles are woken, and as what.
use cai_central_de_atendimen.Base.{
  ℕ, Bool, true, false, ◌&&◌, none, some, List, [], ◌∷◌, ◌==◌, ◌≡◌, ◌<◌, refl, arith, max, and_left,
  Bool-cases, inl, inr,
}
use mathlib.Core.List.{Memᴰ}
use cai_central_de_atendimen.Base.Lists.{
  any, select, take, All, All-mono, All-take, All-select, All-mem, All-map, All-any, All-zip,
  select_holds,
}
use cai_central_de_atendimen.Base.Tables.{order_by, All-order_by, mem-update}
use cai_central_de_atendimen.Base.Texts.{Text, text, same_iff}
use cai_central_de_atendimen.Cycle.Row.{Cycle, Time, media_blocked, waiting_media, is_blocked}
use cai_central_de_atendimen.Cycle.Schema.{conforms, eq_of_id}
use cai_central_de_atendimen.Cycle.Messages.{CycleMessage, is_of}
use cai_central_de_atendimen.Cycle.Wake.{
  is_exhausted, is_stuck, is_unblocked, is_free, updated_before, woken, wake_unblocked_media_cycles,
}
use cai_central_de_atendimen.Media.Row.{Content, failed}
use cai_central_de_atendimen.Finalization.Messages.{is_audio}

-- the rows of a message that have failed have attempts left
abbrev pub HaveAttempts : ℕ → Text → List Content → Type 0
HaveAttempts max_attempts id =
    All (λ c. c.message_id ≡ id → c.status ≡ failed → c.attempt_count < max_attempts)

-- `w` is the woken row of a cycle of `rows`, and stands in the table `after`
pub record IsWoken (locked : ℕ → Bool) (max_attempts : ℕ) (now : Time)
    (messages : List CycleMessage) (transcriptions images : List Content) (rows after : List Cycle)
    (w : Cycle) : Type 0 where
  pub cycle : Cycle
  pub was_stored : Memᴰ cycle rows
  pub blocked : cycle.status ≡ media_blocked
  pub unlocked : locked cycle.id ≡ false
  pub audios :
      All
        (λ m.
          m.cycle_id ≡ cycle.id
          → is_audio m.message_type ≡ true
          → HaveAttempts max_attempts m.message_id transcriptions)
        messages
  pub pictures :
      All
        (λ m.
          m.cycle_id ≡ cycle.id
          → m.message_type ≡ text "image"
          → HaveAttempts max_attempts m.message_id images)
        messages
  pub same_id : w.id ≡ cycle.id
  pub same_public_id : w.public_id ≡ cycle.public_id
  pub status : w.status ≡ waiting_media
  pub due : w.next_attempt_at ≡ some now
  pub unpublished : w.enqueued_at ≡ none
  pub no_phase : w.error_phase ≡ none
  pub no_message : w.error_message ≡ none
  pub is_stored : Memᴰ w after

none_passes :
    {A : Type 0} (p : A → Bool) (xs : List A) → any p xs ≡ false → All (λ x. p x ≡ false) xs
none_passes p [] h = tt
none_passes p (x ∷ xs) h = elim (Bool-cases (p x)) [
  | inl e ↦ cc (rw e at h)
  | inr e ↦ (e, none_passes p xs (rw e at h))
]

unexhausted :
    (max_attempts : ℕ) (id : Text) (cs : List Content)
    → any (is_exhausted max_attempts id) cs ≡ false
    → HaveAttempts max_attempts id cs
unfolding is_exhausted
unexhausted max_attempts id cs h =
    All-mono _ _
      (λ c k i f. let same_id = (same_iff c.message_id id).1 i in ground (arith, k, same_id, f)) cs
      (none_passes (is_exhausted max_attempts id) cs h)

module _ (max_attempts : ℕ) (transcriptions images : List Content) (m : CycleMessage)
    (free : is_stuck max_attempts transcriptions images m ≡ false) where
  unstuck_audio :
      is_audio m.message_type ≡ true → HaveAttempts max_attempts m.message_id transcriptions
  unfolding is_stuck
  unstuck_audio a = unexhausted max_attempts m.message_id transcriptions (ground (arith, a, free))

  unstuck_image : m.message_type ≡ text "image" → HaveAttempts max_attempts m.message_id images
  unfolding is_stuck
  unstuck_image i =
      let k = (same_iff m.message_type (text "image")).1 i in
      unexhausted max_attempts m.message_id images (ground (arith, k, free))

module _ (locked : ℕ → Bool) (max_attempts limit : ℕ) (now : Time) (messages : List CycleMessage)
    (transcriptions images : List Content) where
  not_stuck :
      (c : Cycle)
      → is_unblocked max_attempts messages transcriptions images c ≡ true
      → All
          (λ m. m.cycle_id ≡ c.id → is_stuck max_attempts transcriptions images m ≡ false)
          messages
  unfolding is_unblocked
  not_stuck c h =
      All-mono _ _ (λ m k e. ground (arith, k, e)) messages
        (none_passes (λ m. is_of c.id m && is_stuck max_attempts transcriptions images m) messages
          (ground (arith, h)))

  blocked_status : (c : Cycle) → is_blocked c.status ≡ true → c.status ≡ media_blocked
  blocked_status c h = ground (arith, h)

  woken-IsWoken :
      (rows after : List Cycle) (c : Cycle)
      → Memᴰ c rows
      → is_free locked max_attempts limit now messages transcriptions images c ≡ true
      → Memᴰ (woken now c) after
      → IsWoken locked max_attempts now messages transcriptions images rows after (woken now c)
  woken-IsWoken rows after c m f a =
      let u : is_unblocked max_attempts messages transcriptions images c ≡ true = and_left _ _ f in
      record {
        cycle = c;
        was_stored = m;
        blocked = blocked_status c (unfold is_unblocked in ground (arith, u));
        unlocked = ground (arith, f);
        audios =
            All-mono _ _ (λ x k e. unstuck_audio max_attempts transcriptions images x (k e))
              messages (not_stuck c u);
        pictures =
            All-mono _ _ (λ x k e. unstuck_image max_attempts transcriptions images x (k e))
              messages (not_stuck c u);
        same_id = refl;
        same_public_id = refl;
        status = refl;
        due = refl;
        unpublished = refl;
        no_phase = refl;
        no_message = refl;
        is_stored = a;
      }

  -- Over a conforming table: every cycle that is returned was a row of the table, blocked by media
  -- and free of other transactions' locks, and every failed row of its audios among the
  -- transcriptions and of its images among the image texts has attempts left. It is returned with
  -- its identity, waiting for media, due at once, without publication marker and error, and stands
  -- so in the table.
  pub wake_unblocked_media_cycles-IsWoken :
      (rows : List Cycle)
      → conforms rows ≡ true
      → All
          (IsWoken locked max_attempts now messages transcriptions images rows
            (wake_unblocked_media_cycles locked max_attempts limit now messages transcriptions
              images rows).1)
          (wake_unblocked_media_cycles locked max_attempts limit now messages transcriptions images
            rows).0
  unfolding wake_unblocked_media_cycles
  wake_unblocked_media_cycles-IsWoken rows valid =
      let able : Cycle → Bool =
        is_free locked max_attempts limit now messages transcriptions images in
      let candidates = take (max 1 limit) (order_by updated_before (select able rows)) in
      let picked : Cycle → Bool = λ r. any (λ c. r.id == c.id) candidates in
      let free : All (λ c. Memᴰ c rows × (able c ≡ true)) candidates = All-take _ (max 1 limit) _ (
        All-order_by updated_before _ _ (
          All-zip _ _ _ (All-select (λ c. Memᴰ c rows) able rows (All-mem rows))
            (select_holds able rows))) in
      All-map _ (woken now) _ (
        All-mono _ _
          (λ r (m, p).
            let (x, (mx, fx), e) = All-any _ (λ c. r.id == c.id) candidates free p in
            let q : r ≡ x = eq_of_id rows x mx m valid e in
            woken-IsWoken rows _ r m (rw q fx) (mem-update picked (woken now) m p))
          _
          (All-zip _ _ _ (All-select (λ c. Memᴰ c rows) picked rows (All-mem rows))
            (select_holds picked rows)))
