-- ===== src/Examples/Processing.antt =====
-- Concrete media of a cycle, and the end of its processing.
use cai_central_de_atendimen.Base.{
  ℕ, ◌+◌, ◌≤◌, ◌<◌, ◌≡◌, ◌⊎◌, refl, true, false, Option, none, some, List, [], ◌∷◌, ◌==◌, arith,
}
use mathlib.Core.List.{Memᴰ}
use cai_central_de_atendimen.Base.Errors.{Result, ok}
use cai_central_de_atendimen.Base.Lists.{All, any}
use cai_central_de_atendimen.Base.Texts.{Text, text, same, is_space}
use cai_central_de_atendimen.Base.Tables.{pairwise}
use cai_central_de_atendimen.Cycle.Row.{Cycle, Time, pending, building_context}
use cai_central_de_atendimen.Cycle.Schema.{conforms, row_ok, nonblank}
use cai_central_de_atendimen.Cycle.Admission.{blank_row}
use cai_central_de_atendimen.Cycle.Transition.{is_expected, same_status}
use cai_central_de_atendimen.Cycle.Lease.{seconds}
use cai_central_de_atendimen.Media.Row.{Content, failed}
use cai_central_de_atendimen.Media.Ops.{new_content}
use cai_central_de_atendimen.Finalization.Messages.{RawMessage, Message, client}
use cai_central_de_atendimen.Worker.Media.{
  MediaTables, MediaKind, audio_kind, MediaSettings, scheduled_at, next_media_check_at,
}
use cai_central_de_atendimen.Worker.Media.Rechecks.{due_at, next_media_check_at-least}
use cai_central_de_atendimen.Worker.Process.{Snapshot, may_wait, pass_media}
use cai_central_de_atendimen.Worker.Process.Waiting.{IsPassed, final_states, pass_media-IsPassed}
use cai_central_de_atendimen.Worker.Classify.{Services, finish_cycle}
use cai_central_de_atendimen.Worker.Classify.Limits.{IsSafeRun, finish_cycle-IsSafeRun}
use cai_central_de_atendimen.Worker.Recovery.{Fetched, CycleTables, recover_messages}
use cai_central_de_atendimen.Worker.Recovery.Owned.{IsRecovered, recover_messages-IsRecovered}

abbrev message : Text → Text → Message
message id type = record {
  message_id = id;
  timestamp = 10;
  sender_type = client;
  sender_id = none;
  type = type;
  content = text "hello";
  quoted_message_id = none;
  media_status = none;
  file = record {
    id = none;
    name = none;
    public_filename = none;
    extension = none;
    mimetype = none;
  };
}

-- a text, an audio whose job has failed once, and an image with no job
abbrev messages : List Message
messages =
    message (text "m1") (text "chat")
    ∷ message (text "m2") (text "ptt")
    ∷ message (text "m3") (text "image")
    ∷ []

abbrev tables : MediaTables
tables = record {
  audio =
      record (new_content (text "m2") (some (text "t1")) (text "whisper") none 5) {
        status = failed;
        attempt_count = 1;
      }
      ∷ [];
  images = [];
}

abbrev media_settings : MediaSettings
media_settings = record {
  audio_model = text "whisper";
  image_model = text "vision";
  max_retries = 3;
  recheck_seconds = 30;
}

abbrev clocks : ℕ → Time
clocks n = 100 + n

abbrev pending_states : Text → Option (MediaKind × Content)
pending_states id = some (audio_kind, new_content id (some (text "t1")) (text "whisper") none 200)

next_media_check_at-least_example :
    (100 < next_media_check_at 30 100 pending_states (text "m2" ∷ []))
    × All
        (λ id.
          next_media_check_at 30 100 pending_states (text "m2" ∷ [])
          ≤ due_at 30 100 (scheduled_at (pending_states id)))
        (text "m2" ∷ [])
    × ((any
            (λ id.
              due_at 30 100 (scheduled_at (pending_states id))
              == next_media_check_at 30 100 pending_states (text "m2" ∷ []))
            (text "m2" ∷ [])
          ≡ true)
        ⊎ ((text "m2" ∷ [] ≡ [])
            × (next_media_check_at 30 100 pending_states (text "m2" ∷ []) ≡ 100 + seconds 30)))
next_media_check_at-least_example =
    next_media_check_at-least 30 100 pending_states (text "m2" ∷ []) (omega arith)

abbrev leased_cycle : Cycle
leased_cycle = record (blank_row 1 (text "u1") (text "t1") 1 (text "w") 10) {
  ticket_closed_at = some 9;
  close_event_key = some (text "k1");
  status = building_context;
  lease_owner = some (text "worker");
  lease_expires_at = some 900;
}

leased-conforms : conforms (leased_cycle ∷ []) ≡ true
unfolding conforms pairwise row_ok nonblank same is_space
leased-conforms = refl

abbrev snapshot : Snapshot
snapshot = record { details = []; messages = messages; warnings = []; media_wait = none }

abbrev serialise : Snapshot → Text
serialise s = s.details

leased-waits : is_expected may_wait leased_cycle.status ≡ true
unfolding is_expected same_status same
leased-waits = refl

pass_media-IsPassed_example :
    IsPassed media_settings leased_cycle 100
      (final_states media_settings leased_cycle clocks snapshot tables)
      snapshot
      (pass_media media_settings serialise clocks leased_cycle snapshot tables 100 100
        (leased_cycle ∷ [])).1
pass_media-IsPassed_example =
    pass_media-IsPassed media_settings serialise leased_cycle 100 100 (leased_cycle ∷ [])
      leased-conforms (Memᴰ.head refl) leased-waits clocks snapshot tables (omega arith)

abbrev services : Services
services = record {
  serialise = serialise;
  serialise_reductions = λ rs. [];
  str = λ n. text "1";
  render = λ names ms. text "chat";
  heading = λ m. text "10 client";
  complete = λ t. ok (record { is_cut = false; content = some (text "short") });
  analyze = λ context n. ok (text "other");
  empty_analysis = text "other";
  insert = λ result ids context. ok 5;
  safe_tokens = 100;
  chunk_tokens = 50;
  processing_ms = 3;
}

finish_cycle-IsSafeRun_example :
    IsSafeRun services leased_cycle 100 100
      (finish_cycle services leased_cycle snapshot 100 100 (leased_cycle ∷ []))
finish_cycle-IsSafeRun_example =
    finish_cycle-IsSafeRun services leased_cycle 100 100 snapshot (leased_cycle ∷ [])

abbrev chat : RawMessage
chat = record {
  id = some (text "m1");
  type = some (text "chat");
  ticket_open = false;
  hidden = false;
  deleted_at = none;
  is_from_bot = none;
  origin = none;
  timestamp = some 8;
  is_from_me = false;
  user_id = none;
  contact_id = some (text "c9");
  content = some (text "hello");
  file = none;
  quoted_message_id = none;
}

-- the first history is not complete, the second one is
abbrev fetch : ℕ → Result Fetched
fetch n = ok (record {
  messages = chat ∷ [];
  ticket_started_at = some 3;
  page_count = 1;
  is_complete = 2 == n;
})

abbrev closed_cycle : Cycle
closed_cycle = record leased_cycle { status = pending }

abbrev cycle_tables : CycleTables
cycle_tables = record { cycles = closed_cycle ∷ []; messages = [] }

recover_messages-IsRecovered_example :
    IsRecovered cycle_tables.cycles closed_cycle
      (recover_messages serialise [] 3 fetch closed_cycle 100 cycle_tables)
recover_messages-IsRecovered_example =
    recover_messages-IsRecovered serialise [] 3 fetch closed_cycle 100 cycle_tables
