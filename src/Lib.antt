-- ===== src/Lib.antt =====
-- The processing of DigiSac conversations: a ticket is opened and closed by webhook events, its
-- cycle is queued in PostgreSQL, workers lease it, recover its messages, wait for the transcriptions
-- and image texts, and send the snapshot to the model.
--
-- Parts, and the code they follow:
--   Cycle (src/core/conversation_cycle_repository.py, alembic/versions/0013): the table of cycles is
--   the list of its rows. Row and Schema hold the columns and the constraints; Admission the
--   statements of open and close events; Transition the change of status; Lease the claims; Messages
--   the messages of a snapshot; Wake the cycles blocked by media; Queries what is only read. Every
--   transaction is one function of the table, since it locks what it changes; a statement whose
--   table would not conform is refused with integrity_error. The identity, the UUID, the clock and
--   the rows that SKIP LOCKED passes over are arguments.
--   Media (src/core/durable_media_repository.py): the two tables of media texts, which have the same
--   columns. Ops holds the statements, Calls any sequence of them, Queries what is only read.
--   Finalization (src/core/finalization.py, src/core/media.py, src/core/message_filter.py): Messages
--   reads the entries of a message, History the normalization, MediaStates the texts of the media,
--   Chunks the split by tokens.
--   Retry (src/core/provider_retry.py): the kinds of transient failure and the delays.
--   Limiter (src/core/provider_coordination.py): the sliding window of admissions.
--   Worker (src/workers/ia_worker.py): the finalization worker. Its root holds the provider window
--   and the recording of failures, over Cycle and Retry; Media the jobs that a cycle's media need
--   and the time of the next look at them, over the tables of Media; Recovery, Process and Classify
--   the processing of a cycle, from the recovery of its history to its end, which composes Media,
--   Finalization, and the messages and transitions of Cycle. The DigiSac client, the renderings, the
--   calls of the model, the insertion of the classification and the text of a snapshot's column are
--   arguments. The attempts to recover a history recur on their number.
--   Requests (src/core/acessorias_requests.py, src/core/acessorias_request_provider.py,
--   alembic/versions/0019): one request per cycle to the provider Acessorias. Row is the operation,
--   Facts what `_operation_state` and `_ensure_operation_sync` read, Statements and Manual the
--   transactions, Payload the payload and its outcomes, Create the flow of one delivery, Adapter
--   the attempts to post, and Recover the recovery of a request whose preparation failed, with the
--   preparation itself (src/core/acessorias_preparation.py). Calls takes any sequence of
--   transactions, as workers and operators interleave them, and gives the phases that they
--   implement. A confidence is in millionths; the digest of a payload, the directory, the provider,
--   the transport, the identity and the mapping of a preparation are arguments.
--   Events (src/core/webhook_event_repository.py, src/core/ticket_assignment_repository.py): Ledger
--   holds the deduplication of webhook events, with its cleanup and hand-over, Assignments the
--   history of departments and users of a conversation.
--   Base holds lists measured by native numbers, texts as lists of code points, and the SQL forms
--   UPDATE ... WHERE, ORDER BY and LIMIT. Examples runs the theorems on concrete inputs.
--
-- Times are whole microseconds since 1970 and delays whole units, where the code has floating-point
-- seconds. `before_request` recurs on the list of what the clock reads; two readings are shown to
-- be enough. Texts of DigiSac arrive parsed: a timestamp is a number or none. Not modelled: HTTP,
-- the model calls, the rendering of the context in local time, the connection pool, the check of
-- the schema version (the migrations are taken as applied), the checks that migration 0002 adds to
-- the tables of media texts and of assignments, the directory of Acessorias, and the services on
-- identities and on the mapping of departments.
pub mod Base
pub mod Cycle
pub mod Media
pub mod Retry
pub mod Finalization
pub mod Limiter
pub mod Worker
pub mod Requests
pub mod Events
pub mod Examples
