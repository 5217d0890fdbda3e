-- ===== src/Cycle/Lease/Exclusion.antt =====
-- Mutual exclusion: while a lease runs, no claim of any worker returns the leased cycle.
use cai_central_de_atendimen.Base.{
  ℕ, ◌+◌, ◌<◌, Bool, true, false, Option, none, some, List, [], ◌∷◌, ◌==◌, ◌≡◌, refl, arith,
  Bool-cases, Option-cases, inl, inr, ◌⊎◌, sym, ◌∙◌, ap, subst, and_right,
}
use mathlib.Core.List.{Memᴰ}
use cai_central_de_atendimen.Base.Lists.{
  find, All, All-mono, All-of, All-mem, All-at, find-mem, find_holds,
}
use cai_central_de_atendimen.Base.Texts.{Text, same}
use cai_central_de_atendimen.Base.Tables.{update, mem-update, mem-update_ne}
use cai_central_de_atendimen.Cycle.Row.{Cycle, Time}
use cai_central_de_atendimen.Cycle.Schema.{conforms, eq_of_id}
use cai_central_de_atendimen.Cycle.Lease.{seconds, is_due, lease_row, claim_cycle, claim_next_cycle}
use cai_central_de_atendimen.Cycle.Lease.Claims.{
  claim_next_cycle-eq_none, claim_next_cycle-eq_some, claim_cycle-eq_none, claim_cycle-eq_some,
  picked_by_id, lease-conforms,
}

-- one worker's call: `claim_cycle` of a named cycle, or `claim_next_cycle`
pub record Attempt : Type 0 where
  pub target : Option Text
  pub owner : Text
  pub lease_seconds : ℕ
  pub now : Time
  pub locked : ℕ → Bool

unfoldable pub attempt : Attempt → List Cycle → Option Cycle × List Cycle
attempt a rows = elim a.target [
  | none ↦ claim_next_cycle a.locked a.owner a.lease_seconds a.now rows
  | some public_id ↦ claim_cycle public_id a.owner a.lease_seconds a.now rows
]

-- the results of successive calls, whichever workers make them
unfoldable pub results : List Attempt → List Cycle → List (Option Cycle)
results [] rows = []
results (a ∷ later) rows = (attempt a rows).0 ∷ results later (attempt a rows).1

-- an attempt leased the row `c`: it and what else the statement updated was due
pub record IsLeased (a : Attempt) (rows : List Cycle) (c : Cycle) (p : Cycle → Bool) : Type 0 where
  pub stored : Memᴰ c rows
  pub due : is_due a.now c ≡ true
  pub result : attempt a rows ≡ (
    some (lease_row a.owner a.lease_seconds a.now c),
    update p (lease_row a.owner a.lease_seconds a.now) rows,
  )
  pub picked : p c ≡ true
  pub only_due : All (λ r. p r ≡ true → is_due a.now r ≡ true) rows

abbrev Attempted : Attempt → List Cycle → Type 0
Attempted a rows =
    (attempt a rows ≡ (none, rows)) ⊎ ((c : Cycle) × (p : Cycle → Bool) × IsLeased a rows c p)

next-Attempted :
    (a : Attempt) (rows : List Cycle) → conforms rows ≡ true → a.target ≡ none → Attempted a rows
next-Attempted a rows valid t =
    elim (Option-cases (claim_next_cycle a.locked a.owner a.lease_seconds a.now rows).0) [
      | inl e ↦ inl (
          unfold attempt in
          ground
            (arith, (claim_next_cycle-eq_none a.locked a.owner a.lease_seconds a.now rows e).1))
      | inr (c', e) ↦
          let (c, taken, same_c, after) =
            claim_next_cycle-eq_some a.locked a.owner a.lease_seconds a.now rows e in
          inr (
            c,
            (λ r. r.id == c.id),
            record {
              stored = taken.stored;
              due = taken.due;
              result = unfold attempt in ground (arith, e, after, same_c);
              picked = ground arith;
              only_due =
                  All-mono _ _ (λ r m p. rw (eq_of_id rows c taken.stored m valid p) taken.due) rows
                    (All-mem rows);
            },
          )
    ]

named-Attempted :
    (a : Attempt) (rows : List Cycle) (public_id : Text)
    → a.target ≡ some public_id
    → Attempted a rows
named-Attempted a rows public_id t =
    let p = picked_by_id public_id a.owner a.lease_seconds a.now rows in
    elim (Option-cases (find p rows)) [
      | inl e ↦ inl (
          unfold attempt in
          ground (arith, claim_cycle-eq_none public_id a.owner a.lease_seconds a.now rows e))
      | inr (c, e) ↦
          let holds = find_holds p rows e in
          inr (
            c,
            p,
            record {
              stored = find-mem p rows e;
              due = and_right (same c.public_id public_id) _ holds;
              result =
                  unfold attempt in
                  ground
                    (arith, claim_cycle-eq_some public_id a.owner a.lease_seconds a.now rows e);
              picked = holds;
              only_due = All-of _ (λ r h. and_right (same r.public_id public_id) _ h) rows;
            },
          )
    ]

attempted : (a : Attempt) (rows : List Cycle) → conforms rows ≡ true → Attempted a rows
attempted a rows valid = elim (Option-cases a.target) [
  | inl t ↦ next-Attempted a rows valid t
  | inr (public_id, t) ↦ named-Attempted a rows public_id t
]

-- the cycle with identity `k` is not what a call returned
abbrev pub IsNot : ℕ → Option Cycle → Type 0
IsNot k none = Unit
IsNot k (some d) = (d.id == k) ≡ false

-- a row with a running lease
pub record IsHeld (c : Cycle) (rows : List Cycle) (until : Time) : Type 0 where
  pub valid : conforms rows ≡ true
  pub stored : Memᴰ c rows
  pub lease : c.lease_expires_at ≡ some until

not_due :
    (c : Cycle) (until now : Time)
    → c.lease_expires_at ≡ some until
    → now < until
    → is_due now c ≡ false
unfolding is_due
not_due c until now h lt = ground arith

attempt-IsHeld :
    (a : Attempt) {c : Cycle} {rows : List Cycle} {until : Time}
    → IsHeld c rows until
    → a.now < until
    → IsNot c.id (attempt a rows).0 × IsHeld c (attempt a rows).1 until
attempt-IsHeld a {c} {rows} {until} h early =
    let idle = not_due c until a.now h.lease early in
    elim (attempted a rows h.valid) [
      | inl e ↦ rw e (tt, h)
      | inr (d, p, l) ↦ rw l.result (
        elim (Bool-cases (d.id == c.id)) [
          | inl k ↦
              let e = eq_of_id rows c h.stored l.stored h.valid k in let q = rw e at l.due in cc
          | inr k ↦ unfold lease_row in k
        ],
        record {
          valid = lease-conforms p a.owner a.lease_seconds a.now rows h.valid;
          stored =
              mem-update_ne p (lease_row a.owner a.lease_seconds a.now) h.stored
                (elim (Bool-cases (p c)) [
                  | inl k ↦ let q = All-at _ h.stored l.only_due k in cc
                  | inr k ↦ k
                ]);
          lease = h.lease;
        },
      )
    ]

results-IsHeld :
    (later : List Attempt) {c : Cycle} {rows : List Cycle} {until : Time}
    → IsHeld c rows until
    → All (λ a. a.now < until) later
    → All (IsNot c.id) (results later rows)
unfolding results
results-IsHeld [] h early = tt
results-IsHeld (a ∷ later) {c} {rows} h early =
    let (other, held) = attempt-IsHeld a h early.0 in (other, results-IsHeld later held early.1)

-- Over a table that conforms to the database's constraints: while the lease that a claim took runs, no later claim, by name or by polling, by this worker or
-- any other, returns the same cycle, however many claims are made.
pub lease_exclusion :
    (a : Attempt) (rows : List Cycle) {c : Cycle}
    → conforms rows ≡ true
    → (attempt a rows).0 ≡ some c
    → (later : List Attempt) → All (λ b. b.now < a.now + seconds a.lease_seconds) later
    → All (IsNot c.id) (results later (attempt a rows).1)
lease_exclusion a rows {c} valid got later early = elim (attempted a rows valid) [
  | inl e ↦ let k = rw e at got in cc
  | inr (d, p, l) ↦
      let e : lease_row a.owner a.lease_seconds a.now d ≡ c = (let k = rw l.result at got in cc) in
      results-IsHeld later {c = c} {until = a.now + seconds a.lease_seconds}
        (rw (l.result) (record {
          valid = lease-conforms p a.owner a.lease_seconds a.now rows valid;
          stored =
              subst (λ x. Memᴰ x (update p (lease_row a.owner a.lease_seconds a.now) rows)) e
                (mem-update p (lease_row a.owner a.lease_seconds a.now) l.stored l.picked);
          lease = sym (ap (λ (x : Cycle). x.lease_expires_at) e) ∙ (unfold lease_row in refl);
        }))
        early
]
