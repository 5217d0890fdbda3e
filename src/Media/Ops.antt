-- ===== src/Media/Ops.antt =====
-- The statements of `durable_media_repository.py`. Each changes the table in one UPDATE or INSERT,
-- so a call is a function of the table. `now` is CURRENT_TIMESTAMP (`clock` where the code reads its
-- own clock); `locked` tells the rows that FOR UPDATE SKIP LOCKED passes over.
use cai_central_de_atendimen.Base.{
  ℕ, ◌+◌, Bool, true, false, not, ◌&&◌, ◌||◌, Option, none, some, List, [], ◌∷◌, ◌++◌, ◌==◌, ltb,
  get_or, coalesce, if◌then◌else◌, map, is_none,
}
use cai_central_de_atendimen.Base.Errors.{Result, ok, err, value_error}
use cai_central_de_atendimen.Base.Lists.{find, any, select, take, length}
use cai_central_de_atendimen.Base.Texts.{Text, text, same_some, strip}
use cai_central_de_atendimen.Base.Tables.{update, first_by, order_by}
use cai_central_de_atendimen.Cycle.Row.{Time}
use cai_central_de_atendimen.Cycle.Lease.{elapsed, seconds}
use cai_central_de_atendimen.Media.Row.{
  ContentStatus, pending, processing, completed, failed, parse_content_status, is_pending,
  is_processing, is_completed, is_failed, Content, has_id,
}

-- the row of a first reservation
abbrev pub new_content : Text → Option Text → Text → Option Time → Time → Content
new_content message_id conversation model marker clock = record {
  message_id = message_id;
  conversation_id = conversation;
  transcript = none;
  model = model;
  status = pending;
  attempt_count = 0;
  error_message = none;
  next_attempt_at = some clock;
  enqueued_at = marker;
  lease_owner = none;
  lease_expires_at = none;
  created_at = clock;
  updated_at = clock;
  completed_at = none;
}

-- DO UPDATE SET ...: a failed row goes back to pending
abbrev pub renew : Option Text → Text → Option Time → Time → Content → Content
renew conversation model marker clock c = record c {
  conversation_id = coalesce conversation c.conversation_id;
  model = model;
  status = pending;
  error_message = none;
  next_attempt_at = some clock;
  enqueued_at = marker;
  updated_at = clock;
}

-- `_reserve_content_sync`
unfoldable pub reserve_content :
    Text → Option Text → Text → Bool → Time → List Content → Bool × List Content
reserve_content message_id conversation model legacy_publication_marker clock rows =
    let marker = if legacy_publication_marker then some clock else none in
    elim (find (has_id message_id) rows) [
      | none ↦ (true, rows ++ new_content message_id conversation model marker clock ∷ [])
      | some c ↦
          if is_failed c.status
          then (
            true,
            update (λ r. has_id message_id r && is_failed r.status)
                (renew conversation model marker clock) rows,
          )
          else (false, rows)
    ]

-- the keyword arguments of `_set_content_status_sync`
pub record StatusChange : Type 0 where
  pub status : Text
  pub transcript : Option Text
  pub error_message : Option Text
  pub increment_attempt : Bool
  pub next_attempt_at : Option Time
  pub expected_statuses : Option (List ContentStatus)
  pub expected_updated_at : Option Time
  pub expected_lease_owner : Option Text

-- the statuses from which a status may be reached, if the call names none
unfoldable pub default_expected : ContentStatus → List ContentStatus
default_expected processing = pending ∷ []
default_expected pending = processing ∷ []
default_expected completed = processing ∷ []
default_expected failed = pending ∷ processing ∷ []

abbrev pub same_content_status : ContentStatus → ContentStatus → Bool
same_content_status pending s = is_pending s
same_content_status processing s = is_processing s
same_content_status completed s = is_completed s
same_content_status failed s = is_failed s

-- `%s IS NULL OR column = %s`
abbrev pub unless_given : Option Time → Time → Bool
unless_given none t = true
unless_given (some e) t = t == e

abbrev pub owner_matches : Option Text → Option Text → Bool
owner_matches none owner = true
owner_matches (some e) owner = same_some owner (some e)

unfoldable pub accepts : StatusChange → ContentStatus → Text → Content → Bool
accepts change status message_id c =
    has_id message_id c
    && any (λ s. same_content_status s c.status)
        (get_or change.expected_statuses (default_expected status))
    && unless_given change.expected_updated_at c.updated_at
    && owner_matches change.expected_lease_owner c.lease_owner

unfoldable pub changed : StatusChange → ContentStatus → Time → Time → Content → Content
changed change status clock now c = record c {
  status = status;
  transcript = coalesce change.transcript c.transcript;
  error_message = change.error_message;
  attempt_count = if change.increment_attempt then c.attempt_count + 1 else c.attempt_count;
  next_attempt_at = if is_pending status then change.next_attempt_at else none;
  enqueued_at = none;
  lease_owner = if is_none change.expected_lease_owner then c.lease_owner else none;
  lease_expires_at = if is_none change.expected_lease_owner then c.lease_expires_at else none;
  updated_at = now;
  completed_at = if is_completed status then some clock else none;
}

abbrev pub ChangeOutcome : Type 0
ChangeOutcome = Result (Option Time) × List Content

-- the UPDATE of `_set_content_status_sync`, which returns the new `updated_at`
unfoldable pub change_status :
    Text → StatusChange → Time → Time → List Content → ContentStatus → ChangeOutcome
change_status message_id change clock now rows status =
    if any (accepts change status message_id) rows
    then (
      ok (some now),
      update (accepts change status message_id) (changed change status clock now) rows,
    )
    else (ok none, rows)

-- `_set_content_status_sync`
unfoldable pub set_content_status : Text → StatusChange → Time → Time → List Content → ChangeOutcome
set_content_status message_id change clock now rows = elim (parse_content_status change.status) [
  | none ↦ (err value_error, rows)
  | some status ↦ change_status message_id change clock now rows status
]

-- ORDER BY COALESCE(next_attempt_at, updated_at), message_id; `text_le` is the collation of the
-- database
abbrev pub content_time : Content → Time
content_time c = get_or c.next_attempt_at c.updated_at

unfoldable pub content_before : (Text → Text → Bool) → Content → Content → Bool
content_before text_le a b =
    ltb (content_time a) (content_time b)
    || content_time a == content_time b && text_le a.message_id b.message_id

-- a pending row whose time has come, or a processing row whose lease has run out
unfoldable pub is_claimable : Time → Content → Bool
is_claimable now c =
    is_pending c.status && elapsed c.next_attempt_at now
    || is_processing c.status && elapsed c.lease_expires_at now

abbrev pub message_filter : Option Text → Content → Bool
message_filter none c = true
message_filter (some message_id) c = has_id message_id c

abbrev pub lease_expired_message : Text
lease_expired_message = text "recovered after processing lease expired"

unfoldable pub claimed_content : Text → ℕ → Time → Content → Content
claimed_content owner lease_seconds now c = record c {
  status = processing;
  attempt_count = c.attempt_count + 1;
  error_message = if is_processing c.status then some lease_expired_message else c.error_message;
  next_attempt_at = none;
  enqueued_at = none;
  lease_owner = some owner;
  lease_expires_at = some (now + seconds lease_seconds);
  completed_at = none;
  updated_at = now;
}

unfoldable pub free_claimable : (Text → Bool) → Option Text → Time → Content → Bool
free_claimable locked message_id now c =
    is_claimable now c && message_filter message_id c && not (locked c.message_id)

-- `_claim_content_sync`; the second part of a result is the row's previous status
unfoldable pub claim_content :
    (Text → Text → Bool)
    → (Text → Bool)
    → Text
    → ℕ
    → Option Text
    → Time
    → List Content
    → Result (Option (Content × ContentStatus)) × List Content
claim_content text_le locked owner lease_seconds message_id now rows =
    let normalized_owner = strip owner in
    if length normalized_owner == 0 || lease_seconds == 0
    then (err value_error, rows)
    else elim (first_by (content_before text_le) (free_claimable locked message_id now) rows) [
      | none ↦ (ok none, rows)
      | some c ↦ (
        ok (some (claimed_content normalized_owner lease_seconds now c, c.status)),
        update (has_id c.message_id) (claimed_content normalized_owner lease_seconds now) rows,
      )
    ]

-- the rows that `_claim_due_content_sync` recovers
unfoldable pub is_recoverable_content : ℕ → Time → Content → Bool
is_recoverable_content lease_seconds now c =
    is_pending c.status
      && elapsed c.next_attempt_at now
      && elim c.enqueued_at [ none ↦ true | some t ↦ ltb (t + seconds lease_seconds) now ]
    || is_processing c.status && ltb (c.updated_at + seconds lease_seconds) now

unfoldable pub recovered : Time → Content → Content
recovered now c = record c {
  status = pending;
  error_message = if is_processing c.status then some lease_expired_message else c.error_message;
  next_attempt_at = none;
  enqueued_at = some now;
  updated_at = now;
  completed_at = none;
}

-- `_claim_due_content_sync`; a result is a row as it was and as it is
unfoldable pub recover_content :
    (Text → Text → Bool)
    → (Text → Bool)
    → ℕ
    → ℕ
    → Time
    → List Content
    → Result (List (Content × Content)) × List Content
recover_content text_le locked lease_seconds batch_size now rows =
    let candidates = take batch_size (
      order_by (content_before text_le) (
        select (λ c. is_recoverable_content lease_seconds now c && not (locked c.message_id))
          rows)) in
    let picked = λ (r : Content). any (λ c. has_id c.message_id r) candidates in
    if lease_seconds == 0 || batch_size == 0 then (err value_error, rows) else (
      ok (map (λ c. (c, recovered now c)) (select picked rows)),
      update picked (recovered now) rows,
    )

-- `_release_content_publication_sync`
unfoldable pub release_content_publication : Text → Text → Time → List Content → Bool × List Content
release_content_publication message_id error_message now rows =
    let picked = λ (c : Content). has_id message_id c && is_pending c.status in
    (
      any picked rows,
      update picked
          (λ c. record c {
            enqueued_at = none;
            error_message = some error_message;
            updated_at = now;
          })
          rows,
    )
