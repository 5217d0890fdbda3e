-- ===== src/Worker/Media/Rechecks.antt =====
-- When a cycle that waits for media is looked at again.
use cai_central_de_atendimen.Base.{
  ℕ, ◌+◌, ◌≤◌, ◌<◌, ◌≡◌, ◌⊎◌, refl, subst, Bool, true, false, ◌||◌, Option, none, some, List, [],
  ◌∷◌, ◌==◌, leb, leb→le, leb_flip, min, if◌then◌else◌, arith, inl, inr, Bool-cases, Option-cases,
}
use cai_central_de_atendimen.Base.Lists.{All, All-mono, any}
use cai_central_de_atendimen.Base.Texts.{Text}
use cai_central_de_atendimen.Cycle.Row.{Time}
use cai_central_de_atendimen.Cycle.Lease.{seconds}
use cai_central_de_atendimen.Media.Row.{Content}
use cai_central_de_atendimen.Worker.Media.{
  MediaKind, scheduled_at, Checks, sooner, add_check, gather_checks, least_check,
  next_media_check_at,
}

-- the time at which a medium is due: its schedule, or the fallback if it has none after `now`
abbrev pub due_at : ℕ → Time → Option Time → Time
due_at recheck now none = now + seconds recheck
due_at recheck now (some t) = if leb t now then now + seconds recheck else t

-- a result of the loop that covers a medium with this schedule
abbrev covers : Time → Option Time → Checks → Bool
covers now none c = c.needs_fallback
covers now (some t) c =
    if leb t now then c.needs_fallback else elim c.soonest [ none ↦ false | some s ↦ leb s t ]

covers_more :
    (now : Time) (o p : Option Time) (c : Checks)
    → covers now o c ≡ true
    → covers now o (add_check now p c) ≡ true
covers_more now none none c h = refl
covers_more now none (some t) c h = ground (arith, h)
covers_more now (some s) none c h = ground (arith, h)
covers_more now (some s) (some t) c h = elim (Option-cases c.soonest) [
  | inl e ↦ ground (arith, h, e)
  | inr (r, e) ↦ ground (arith, h, e)
]

covers_own : (now : Time) (p : Option Time) (c : Checks) → covers now p (add_check now p c) ≡ true
covers_own now none c = refl
covers_own now (some t) c = elim (Option-cases c.soonest) [
  | inl e ↦ ground (arith, e)
  | inr (r, e) ↦ ground (arith, e)
]

-- the soonest time is after `now`, and passes a test
IsSoonest : Time → (Time → Bool) → Option Time → Type 0
IsSoonest now test none = Unit
IsSoonest now test (some s) = (now < s) × (test s ≡ true)

widen :
    (now : Time) (test wider : Time → Bool) (o : Option Time)
    → ((s : Time) → test s ≡ true → wider s ≡ true)
    → IsSoonest now test o
    → IsSoonest now wider o
unfolding IsSoonest
widen now test wider none f h = tt
widen now test wider (some s) f h = (h.0, f s h.1)

sooner-IsSoonest :
    (now t : Time) (o : Option Time) (test : Time → Bool)
    → now < t
    → IsSoonest now test o
    → IsSoonest now (λ s. t == s || test s) (sooner o t)
unfolding IsSoonest
sooner-IsSoonest now t none test l h = (l, ground arith)
sooner-IsSoonest now t (some s) test l h = elim (Bool-cases (leb s t)) [
  | inl e ↦ let k : min s t ≡ s = omega (arith, leb→le s t e) in rw k (h.0, ground (arith, h.1))
  | inr e ↦
      let k : min s t ≡ t = omega (arith, leb→le t s (leb_flip s t e)) in rw k (l, ground arith)
]

add_check-IsSoonest :
    (recheck : ℕ) (now : Time) (o : Option Time) (c : Checks) (test : Time → Bool)
    → IsSoonest now test c.soonest
    → IsSoonest now (λ s. due_at recheck now o == s || test s) (add_check now o c).soonest
add_check-IsSoonest recheck now none c test h =
    widen now test _ c.soonest (λ s k. ground (arith, k)) h
add_check-IsSoonest recheck now (some t) c test h = elim (Bool-cases (leb t now)) [
  | inl e ↦ rw e (widen now test _ c.soonest (λ s k. ground (arith, k)) h)
  | inr e ↦ rw e (sooner-IsSoonest now t c.soonest test (ground (arith, e)) h)
]

module _ (now : Time) (states : Text → Option (MediaKind × Content)) where
  gathered_covers :
      (ids : List Text)
      → All (λ id. covers now (scheduled_at (states id)) (gather_checks now states ids) ≡ true) ids
  unfolding gather_checks
  gathered_covers [] = tt
  gathered_covers (id ∷ ids) = (
    covers_own now (scheduled_at (states id)) (gather_checks now states ids),
    All-mono _ _ (λ x h. covers_more now (scheduled_at (states x)) (scheduled_at (states id)) _ h)
        ids (gathered_covers ids),
  )

  gathered_soonest :
      (recheck : ℕ) (ids : List Text)
      → IsSoonest now
          (λ s. any (λ id. due_at recheck now (scheduled_at (states id)) == s) ids)
          (gather_checks now states ids).soonest
  unfolding gather_checks IsSoonest
  gathered_soonest recheck [] = tt
  gathered_soonest recheck (id ∷ ids) =
      add_check-IsSoonest recheck now (scheduled_at (states id)) (gather_checks now states ids) _
        (gathered_soonest recheck ids)

check_after :
    (recheck : ℕ) (now : Time) (c : Checks) (test : Time → Bool)
    → 1 ≤ recheck
    → IsSoonest now test c.soonest
    → now < least_check recheck now c
unfolding IsSoonest
check_after recheck now c test l h = elim (Option-cases c.soonest) [
  | inl e ↦ rw e (omega (arith, l))
  | inr (s, e) ↦
      let k : IsSoonest now test (some s) = subst (IsSoonest now test) e h in
      elim (Bool-cases c.needs_fallback) [
        | inl f ↦ rw (e, f) (omega (arith, l, k.0))
        | inr f ↦ rw (e, f) k.0
      ]
]

check_le :
    (recheck : ℕ) (now : Time) (o : Option Time) (c : Checks)
    → covers now o c ≡ true
    → least_check recheck now c ≤ due_at recheck now o
check_le recheck now o c h = elim (Option-cases c.soonest) [
  | inl e ↦ ground (arith, e, h)
  | inr (s, e) ↦ ground (arith, e, h)
]

-- a result of the loop that needs the fallback has a medium that is due then
fallback_due :
    (recheck : ℕ) (now : Time) (states : Text → Option (MediaKind × Content)) (ids : List Text)
    → (gather_checks now states ids).needs_fallback ≡ true
    → any (λ id. due_at recheck now (scheduled_at (states id)) == now + seconds recheck) ids ≡ true
unfolding gather_checks
fallback_due recheck now states [] h = cc
fallback_due recheck now states (id ∷ ids) h =
    let rest = fallback_due recheck now states ids in
    elim (Option-cases (scheduled_at (states id))) [
      | inl e ↦ ground (arith, e)
      | inr (t, e) ↦ elim (Bool-cases (leb t now)) [
        | inl f ↦ ground (arith, e, f)
        | inr f ↦ let k = rest (rw (e, f) at h) in ground (arith, k)
      ]
    ]

-- the least of the candidates is one of them
check_among :
    (recheck : ℕ) (now : Time) (c : Checks) (test : Time → Bool)
    → IsSoonest now test c.soonest
    → (c.needs_fallback ≡ true → test (now + seconds recheck) ≡ true)
    → (c.soonest ≡ none → c.needs_fallback ≡ true)
    → test (least_check recheck now c) ≡ true
unfolding IsSoonest
check_among recheck now c test h fallback needed = elim (Option-cases c.soonest) [
  | inl e ↦ rw e (fallback (needed e))
  | inr (s, e) ↦
      let k : IsSoonest now test (some s) = subst (IsSoonest now test) e h in
      elim (Bool-cases c.needs_fallback) [
        | inr f ↦ rw (e, f) k.1
        | inl f ↦ elim (Bool-cases (leb s (now + seconds recheck))) [
          | inl g ↦
              let m : min s (now + seconds recheck) ≡ s = omega (arith, leb→le _ _ g) in
              rw (e, f, m) k.1
          | inr g ↦
              let m : min s (now + seconds recheck) ≡ now + seconds recheck =
                omega (arith, leb→le _ _ (leb_flip _ _ g)) in
              rw (e, f, m) (fallback f)
        ]
      ]
]

covered_needs :
    (now : Time) (o : Option Time) (c : Checks)
    → covers now o c ≡ true
    → c.soonest ≡ none
    → c.needs_fallback ≡ true
covered_needs now none c h e = h
covered_needs now (some t) c h e = ground (arith, h, e)

check_some_due :
    (recheck : ℕ) (now : Time) (states : Text → Option (MediaKind × Content)) (ids : List Text)
    → (any
          (λ id.
            due_at recheck now (scheduled_at (states id))
            == next_media_check_at recheck now states ids)
          ids
        ≡ true)
      ⊎ ((ids ≡ []) × (next_media_check_at recheck now states ids ≡ now + seconds recheck))
unfolding next_media_check_at
check_some_due recheck now states [] = inr (refl, unfold gather_checks in refl)
check_some_due recheck now states (id ∷ ids) = inl (
    check_among recheck now (gather_checks now states (id ∷ ids)) _
      (gathered_soonest now states recheck (id ∷ ids)) (fallback_due recheck now states (id ∷ ids))
      (covered_needs now (scheduled_at (states id)) _ (gathered_covers now states (id ∷ ids)).0))

-- With a recheck interval of at least a second, the time of the next look is after now, and it is
-- the least of the times at which the pending media are due: a medium is due at its schedule, or at
-- now and the interval if it has none that is after now. Without pending media it is now and the
-- interval.
pub next_media_check_at-least :
    (recheck : ℕ) (now : Time) (states : Text → Option (MediaKind × Content)) (ids : List Text)
    → 1 ≤ recheck
    → (now < next_media_check_at recheck now states ids)
      × All
          (λ id.
            next_media_check_at recheck now states ids
            ≤ due_at recheck now (scheduled_at (states id)))
          ids
      × ((any
              (λ id.
                due_at recheck now (scheduled_at (states id))
                == next_media_check_at recheck now states ids)
              ids
            ≡ true)
          ⊎ ((ids ≡ []) × (next_media_check_at recheck now states ids ≡ now + seconds recheck)))
next_media_check_at-least recheck now states ids l =
    let c = gather_checks now states ids in
    let a = gathered_soonest now states recheck ids in
    (
      (unfold next_media_check_at in check_after recheck now c _ l a),
      (unfold next_media_check_at in
          All-mono _ _ (λ id k. check_le recheck now (scheduled_at (states id)) c k) ids
            (gathered_covers now states ids)),
      check_some_due recheck now states ids,
    )
