-- ===== src/Cycle/Lease.antt =====
-- `claim_cycle`, `claim_next_cycle`, `get_recoverable_cycles` and `release_cycle_publication`: the
-- leases by which polling workers take cycles. Each is one UPDATE statement, so a call is a function
-- of the table. `now` is CURRENT_TIMESTAMP, and `locked` tells the rows that another transaction
-- holds a lock on, which FOR UPDATE SKIP LOCKED passes over.
pub mod Order
pub mod Claims
pub mod Taken
pub mod Exclusion
use cai_central_de_atendimen.Base.{
  ℕ, ◌+◌, ◌*◌, Bool, true, false, not, ◌&&◌, ◌||◌, Option, none, some, List, [], ◌∷◌, ◌==◌, ltb,
  leb, get_or, if◌then◌else◌, max, map,
}
use cai_central_de_atendimen.Base.Lists.{find, any, select, take}
use cai_central_de_atendimen.Base.Texts.{Text, same}
use cai_central_de_atendimen.Base.Tables.{update, first_by, order_by}
use cai_central_de_atendimen.Cycle.Row.{Cycle, Time, is_recoverable}

abbrev pub seconds : ℕ → ℕ
seconds n = n * 1000000

-- `column IS NULL OR column <= now`
abbrev pub elapsed : Option Time → Time → Bool
elapsed none now = true
elapsed (some t) now = leb t now

unfoldable pub is_due : Time → Cycle → Bool
is_due now c =
    is_recoverable c.status && elapsed c.next_attempt_at now && elapsed c.lease_expires_at now

unfoldable pub lease_row : Text → ℕ → Time → Cycle → Cycle
lease_row owner lease_seconds now c = record c {
  lease_owner = some owner;
  lease_expires_at = some (now + seconds lease_seconds);
  enqueued_at = none;
  updated_at = now;
}

unfoldable pub claim_cycle : Text → Text → ℕ → Time → List Cycle → Option Cycle × List Cycle
claim_cycle public_id owner lease_seconds now rows =
    let picked = λ (c : Cycle). same c.public_id public_id && is_due now c in
    elim (find picked rows) [
      | none ↦ (none, rows)
      | some c ↦ (
        some (lease_row owner lease_seconds now c),
        update picked (lease_row owner lease_seconds now) rows,
      )
    ]

-- ORDER BY COALESCE(next_attempt_at, updated_at), id
abbrev pub sort_time : Cycle → Time
sort_time c = get_or c.next_attempt_at c.updated_at

unfoldable pub before : Cycle → Cycle → Bool
before a b = ltb (sort_time a) (sort_time b) || sort_time a == sort_time b && leb a.id b.id

abbrev pub free_and_due : (ℕ → Bool) → Time → Cycle → Bool
free_and_due locked now c = is_due now c && not (locked c.id)

unfoldable pub claim_next_cycle :
    (ℕ → Bool) → Text → ℕ → Time → List Cycle → Option Cycle × List Cycle
claim_next_cycle locked owner lease_seconds now rows =
    elim (first_by before (free_and_due locked now) rows) [
      | none ↦ (none, rows)
      | some c ↦ (
        some (lease_row owner lease_seconds now c),
        update (λ r. r.id == c.id) (lease_row owner lease_seconds now) rows,
      )
    ]

-- the publication marker is absent or older than the lease
abbrev unpublished : ℕ → Time → Cycle → Bool
unpublished lease_seconds now c = elim c.enqueued_at [
  | none ↦ true
  | some t ↦ ltb (t + seconds lease_seconds) now
]

abbrev publish_row : Time → Cycle → Cycle
publish_row now c = record c { enqueued_at = some now; updated_at = now }

-- `_recoverable_cycles_sync`
unfoldable pub recoverable_cycles : (ℕ → Bool) → ℕ → ℕ → Time → List Cycle → List Cycle × List Cycle
recoverable_cycles locked lease_seconds limit now rows =
    let candidates = take (max 1 limit) (
      order_by before
        (select (λ c. free_and_due locked now c && unpublished lease_seconds now c) rows)) in
    let picked = λ (r : Cycle). any (λ c. r.id == c.id) candidates in
    (map (publish_row now) (select picked rows), update picked (publish_row now) rows)

unfoldable pub release_cycle_publication : Text → Time → List Cycle → Bool × List Cycle
release_cycle_publication public_id now rows =
    let picked = λ (c : Cycle). same c.public_id public_id && is_recoverable c.status in
    (any picked rows, update picked (λ c. record c { enqueued_at = none; updated_at = now }) rows)
