-- ===== src/Cycle/Queries.antt =====
-- The queries of `conversation_cycle_repository.py` that read the table, and the counters of the
-- work that is left.
pub mod Work
use cai_central_de_atendimen.Base.{
  ℕ, Bool, true, false, not, ◌&&◌, Option, none, some, List, [], ◌∷◌, ltb, leb, max, min, map,
  if◌then◌else◌, ◌==◌,
}
use cai_central_de_atendimen.Base.Lists.{any, find, select, take, length, count_where}
use cai_central_de_atendimen.Base.Tables.{first_by, order_by}
use cai_central_de_atendimen.Base.Texts.{Text, same, strip, contains}
use cai_central_de_atendimen.Cycle.Row.{Cycle, Time, Status, is_recoverable}
use cai_central_de_atendimen.Cycle.Admission.{cycle_row}
use cai_central_de_atendimen.Cycle.Lease.{is_due}

unfoldable pub get_cycle : Text → List Cycle → Option Cycle
get_cycle = cycle_row

-- the stripped ids, without the empty ones; repeated ids ask for the same rows
unfoldable pub asked_ids : List Text → List Text
asked_ids [] = []
asked_ids (t ∷ ts) =
    let rest = asked_ids ts in if length (strip t) == 0 then rest else strip t ∷ rest

unfoldable pub get_cycles_by_public_ids : List Text → List Cycle → List Cycle
get_cycles_by_public_ids public_ids = select (λ c. contains (asked_ids public_ids) c.public_id)

-- ORDER BY sequence_number DESC
unfoldable pub later_first : Cycle → Cycle → Bool
later_first a b = leb b.sequence_number a.sequence_number

unfoldable pub get_latest_cycle : Text → List Cycle → Option Cycle
get_latest_cycle conversation = first_by later_first (λ c. same c.conversation_id conversation)

unfoldable pub get_previous_cycle : Text → ℕ → List Cycle → Option Cycle
get_previous_cycle conversation sequence =
    first_by later_first
      (λ c. same c.conversation_id conversation && ltb c.sequence_number sequence)

unfoldable pub list_cycles : Text → ℕ → List Cycle → List Cycle
list_cycles conversation limit rows =
    take (max 1 (min limit 100))
      (order_by later_first (select (λ c. same c.conversation_id conversation) rows))

-- `column > now`, which is not true of NULL
abbrev pub is_later : Option Time → Time → Bool
is_later none now = false
is_later (some t) now = ltb now t

pub record WorkMetrics : Type 0 where
  pub due : ℕ
  pub scheduled : ℕ
  pub leased : ℕ

unfoldable pub cycle_work_metrics : Time → List Cycle → WorkMetrics
cycle_work_metrics now rows = record {
  due = count_where (is_due now) rows;
  scheduled = count_where (λ c. is_recoverable c.status && is_later c.next_attempt_at now) rows;
  leased = count_where (λ c. is_recoverable c.status && is_later c.lease_expires_at now) rows;
}
