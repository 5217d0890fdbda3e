-- ===== src/Events/Ledger.antt =====
-- The table `webhook_event_keys` (alembic/versions/0025) and its statements. `now` is
-- CURRENT_TIMESTAMP, and `skip` says which rows SKIP LOCKED passes over.
pub mod Schema
pub mod Windows
pub mod Calls
pub mod Once
pub mod Counts
pub mod Cleanup
use cai_central_de_atendimen.Base.{
  ℕ, ◌+◌, ◌-◌, Bool, true, false, not, ◌&&◌, ◌||◌, Option, none, some, List, [], ◌∷◌, ◌++◌, ◌==◌,
  ltb, leb, if◌then◌else◌,
}
use cai_central_de_atendimen.Base.Errors.{Result, ok, err, ◌>>=◌, value_error}
use cai_central_de_atendimen.Base.Lists.{length, all, any, take, select, count_where, find}
use cai_central_de_atendimen.Base.Tables.{update, order_by, pairwise}
use cai_central_de_atendimen.Base.Texts.{Text, same}
use cai_central_de_atendimen.Cycle.Row.{Time}
use cai_central_de_atendimen.Cycle.Lease.{seconds}
use cai_central_de_atendimen.Finalization.History.{text_le}

pub record EventKey : Type 0 where
  pub event_digest : Text
  pub first_seen_at : Time
  pub expires_at : Time

-- [0-9a-f]
abbrev pub is_hex : ℕ → Bool
is_hex c = leb b'0' c && leb c b'9' || leb b'a' c && leb c b'f'

unfoldable pub is_digest : Text → Bool
is_digest d = length d == 64 && all is_hex d

abbrev pub validate_event_digest : Text → Result Text
validate_event_digest d = if is_digest d then ok d else err value_error

abbrev pub event_ttl : Time
event_ttl = seconds 3600

abbrev pub has_digest : Text → EventKey → Bool
has_digest d k = same k.event_digest d

-- `expires_at <= now`
abbrev pub is_expired : Time → EventKey → Bool
is_expired now k = leb k.expires_at now

-- the constraints of the table: the primary key and the two checks
abbrev pub distinct : EventKey → EventKey → Bool
distinct a b = not (same a.event_digest b.event_digest)

abbrev pub key_ok : EventKey → Bool
key_ok k = is_digest k.event_digest && ltb k.first_seen_at k.expires_at

unfoldable pub ledger_ok : List EventKey → Bool
ledger_ok t = pairwise distinct t && all key_ok t

-- what an INSERT ... ON CONFLICT (event_digest) DO UPDATE ... WHERE expires_at <= now did
pub data Upserted : Type 0 where
  inserted replaced kept : Upserted

abbrev pub renew : EventKey → EventKey → EventKey
renew k old = record old { first_seen_at = k.first_seen_at; expires_at = k.expires_at }

unfoldable pub upsert : Time → EventKey → List EventKey → Upserted × List EventKey
upsert now k t = elim (find (has_digest k.event_digest) t) [
  | none ↦ (inserted, t ++ k ∷ [])
  | some old ↦
      if is_expired now old
      then (replaced, update (has_digest k.event_digest) (renew k) t)
      else (kept, t)
]

pub data EventOutcome : Type 0 where
  accepted expired_replaced duplicate : EventOutcome

pub record EventDecision : Type 0 where
  pub is_accepted : Bool
  pub outcome : EventOutcome

abbrev pub decision : Upserted → EventDecision
decision inserted = record { is_accepted = true; outcome = accepted }
decision replaced = record { is_accepted = true; outcome = expired_replaced }
decision kept = record { is_accepted = false; outcome = duplicate }

abbrev pub event_key : Text → Time → EventKey
event_key d now = record { event_digest = d; first_seen_at = now; expires_at = now + event_ttl }

-- `_record_webhook_event_sync`
unfoldable pub record_webhook_event :
    Text → Time → List EventKey → Result EventDecision × List EventKey
record_webhook_event d now t =
    if is_digest d
    then (let r = upsert now (event_key d now) t in (ok (decision r.0), r.1))
    else (err value_error, t)

pub record CleanupReport : Type 0 where
  pub before_count : ℕ
  pub removed_count : ℕ
  pub after_count : ℕ
  pub batch_size : ℕ

abbrev pub max_batch_size : ℕ
max_batch_size = 1000

-- ORDER BY expires_at, event_digest
abbrev pub expires_first : EventKey → EventKey → Bool
expires_first a b =
    ltb a.expires_at b.expires_at
    || a.expires_at == b.expires_at && text_le a.event_digest b.event_digest

unfoldable pub expired_batch : ℕ → Time → (EventKey → Bool) → List EventKey → List EventKey
expired_batch batch_size now skip t =
    take batch_size (order_by expires_first (select (λ k. is_expired now k && not (skip k)) t))

-- `USING expired WHERE ledger.event_digest = expired.event_digest`
abbrev pub is_in : List EventKey → EventKey → Bool
is_in batch k = any (λ e. same k.event_digest e.event_digest) batch

-- `_cleanup_expired_webhook_event_keys_sync`
unfoldable pub cleanup_expired :
    ℕ → Time → (EventKey → Bool) → List EventKey → Result CleanupReport × List EventKey
cleanup_expired batch_size now skip t =
    if leb 1 batch_size && leb batch_size max_batch_size
    then (let batch = expired_batch batch_size now skip t in
        let left = select (λ k. not (is_in batch k)) t in
        (
          ok (record {
            before_count = count_where (is_expired now) t;
            removed_count = length (select (is_in batch) t);
            after_count = count_where (is_expired now) left;
            batch_size = batch_size;
          }),
          left,
        ))
    else (err value_error, t)

-- `_count_expired_webhook_event_keys_sync`
unfoldable pub count_expired : Time → List EventKey → ℕ
count_expired now t = count_where (is_expired now) t

-- an entry of the hand-over is valid if its digest and its TTL are; a TTL below zero is refused as
-- zero is
abbrev pub entry_ok : Text × ℕ → Bool
entry_ok (d, ttl) = is_digest d && leb 1 ttl

abbrev pub legacy_key : Time → Text → ℕ → EventKey
legacy_key captured_at d ttl = record {
  event_digest = d;
  first_seen_at = captured_at + seconds ttl - event_ttl;
  expires_at = captured_at + seconds ttl;
}

abbrev pub is_kept : Upserted → Bool
is_kept kept = true
is_kept _ = false

unfoldable pub import_entries : Time → Time → List (Text × ℕ) → List EventKey → ℕ × List EventKey
import_entries captured_at now [] t = (0, t)
import_entries captured_at now ((d, ttl) ∷ es) t =
    let r = upsert now (legacy_key captured_at d ttl) t in
    let rest = import_entries captured_at now es r.1 in
    (if is_kept r.0 then rest.0 else rest.0 + 1, rest.1)

-- `_import_legacy_webhook_event_keys_sync`: every entry is checked before the first one is written
unfoldable pub import_legacy :
    Time → Time → List (Text × ℕ) → List EventKey → Result ℕ × List EventKey
import_legacy captured_at now entries t =
    if all entry_ok entries
    then (let r = import_entries captured_at now entries t in (ok r.0, r.1))
    else (err value_error, t)
