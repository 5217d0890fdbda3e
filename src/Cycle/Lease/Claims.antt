-- ===== src/Cycle/Lease/Claims.antt =====
-- What a claim returns and what it does to the table.
use cai_central_de_atendimen.Base.{
  ℕ, Bool, true, false, ◌&&◌, Option, none, some, List, ◌==◌, ◌≡◌, arith, Bool-cases, Option-cases,
  inl, inr, sym, ◌∙◌, ap,
}
use mathlib.Core.List.{Memᴰ}
use cai_central_de_atendimen.Base.Lists.{find, All, All-of}
use cai_central_de_atendimen.Base.Texts.{Text, same}
use cai_central_de_atendimen.Base.Tables.{
  update, first_by, first_by-eq_none, first_by_holds, first_by-mem, first_by_least,
}
use cai_central_de_atendimen.Cycle.Row.{Cycle, Time}
use cai_central_de_atendimen.Cycle.Schema.{conforms, conforms-map, compatible, row_ok}
use cai_central_de_atendimen.Cycle.Lease.{
  is_due, lease_row, claim_cycle, claim_next_cycle, before, free_and_due,
}
use cai_central_de_atendimen.Cycle.Lease.Order.{before-IsOrder}

-- leasing rows touches no column that a constraint names
pub lease-conforms :
    (picked : Cycle → Bool) (owner : Text) (lease_seconds : ℕ) (now : Time) (rows : List Cycle)
    → conforms rows ≡ true
    → conforms (update picked (lease_row owner lease_seconds now) rows) ≡ true
unfolding row_ok compatible lease_row
lease-conforms picked owner lease_seconds now rows h =
    conforms-map (λ _. Unit {0}) _
      (λ x _ k. elim (Bool-cases (picked x)) [ inl p ↦ rw p k | inr p ↦ rw p k ])
      (λ x y _ _ k. elim (Bool-cases (picked x)) [
        | inl p ↦ elim (Bool-cases (picked y)) [ inl q ↦ rw (p, q) k | inr q ↦ rw (p, q) k ]
        | inr p ↦ elim (Bool-cases (picked y)) [ inl q ↦ rw (p, q) k | inr q ↦ rw (p, q) k ]
      ])
      rows (All-of (λ _. Unit {0}) (λ _. tt) rows) h

-- the cycle `c` is what a claim of `claim_next_cycle` takes from `rows`
pub record IsTaken (locked : ℕ → Bool) (now : Time) (rows : List Cycle) (c : Cycle) : Type 0 where
  pub stored : Memᴰ c rows
  pub due : is_due now c ≡ true
  pub unlocked : locked c.id ≡ false
  pub first : All (λ r. free_and_due locked now r ≡ true → before c r ≡ true) rows

module _ (locked : ℕ → Bool) (owner : Text) (lease_seconds : ℕ) (now : Time)
    (rows : List Cycle) where
  abbrev pub claimed : Option Cycle × List Cycle
  claimed = claim_next_cycle locked owner lease_seconds now rows

  claim_first :
      {c : Cycle}
      → first_by before (free_and_due locked now) rows ≡ some c
      → claimed ≡ (
        some (lease_row owner lease_seconds now c),
        update (λ r. r.id == c.id) (lease_row owner lease_seconds now) rows,
      )
  unfolding claim_next_cycle
  claim_first e = rw (e, claim_next_cycle)

  -- `claim_next_cycle` returns no cycle only if no cycle is both due and free of other transactions'
  -- locks, and then it leaves the table as it is.
  pub claim_next_cycle-eq_none :
      claimed.0 ≡ none → All (λ r. free_and_due locked now r ≡ false) rows × (claimed.1 ≡ rows)
  claim_next_cycle-eq_none h =
      elim (Option-cases (first_by before (free_and_due locked now) rows)) [
        | inl e ↦ (
          first_by-eq_none before (free_and_due locked now) rows e,
          unfold claim_next_cycle in rw (e, claim_next_cycle),
        )
        | inr (c, e) ↦ let k = rw (claim_first e) at h in cc
      ]

  -- A cycle that `claim_next_cycle` returns is a row of the table that is due and that no other
  -- transaction has locked, the first such row in the polling order; the worker gets it under its own
  -- lease, and only rows with its identity are changed.
  pub claim_next_cycle-eq_some :
      {c' : Cycle}
      → claimed.0 ≡ some c'
      → (c : Cycle) × IsTaken locked now rows c
        × (c' ≡ lease_row owner lease_seconds now c)
        × (claimed.1 ≡ update (λ r. r.id == c.id) (lease_row owner lease_seconds now) rows)
  claim_next_cycle-eq_some {c'} h =
      elim (Option-cases (first_by before (free_and_due locked now) rows)) [
        | inl e ↦
            let k : claimed.0 ≡ none = (unfold claim_next_cycle in rw (e, claim_next_cycle)) in
            let k' = sym k ∙ h in cc
        | inr (c, e) ↦
            let holds = first_by_holds before (free_and_due locked now) rows e in
            (
              c,
              record {
                stored = first_by-mem before (free_and_due locked now) rows e;
                due = ground arith;
                unlocked = ground arith;
                first = first_by_least before-IsOrder (free_and_due locked now) rows e;
              },
              (let k = sym h ∙ ap (λ (p : Option Cycle × List Cycle). p.0) (claim_first e) in cc),
              ap (λ (p : Option Cycle × List Cycle). p.1) (claim_first e),
            )
      ]

module _ (public_id owner : Text) (lease_seconds : ℕ) (now : Time) (rows : List Cycle) where
  abbrev pub picked_by_id : Cycle → Bool
  picked_by_id c = same c.public_id public_id && is_due now c

  pub claim_cycle-eq_none :
      find picked_by_id rows ≡ none
      → claim_cycle public_id owner lease_seconds now rows ≡ (none, rows)
  claim_cycle-eq_none e = unfold claim_cycle in rw (e, claim_cycle)

  pub claim_cycle-eq_some :
      {c : Cycle}
      → find picked_by_id rows ≡ some c
      → claim_cycle public_id owner lease_seconds now rows ≡ (
        some (lease_row owner lease_seconds now c),
        update picked_by_id (lease_row owner lease_seconds now) rows,
      )
  claim_cycle-eq_some e = unfold claim_cycle in rw (e, claim_cycle)
