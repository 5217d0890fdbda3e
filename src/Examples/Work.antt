-- ===== src/Examples/Work.antt =====
-- Concrete tables for the queries, the counters, the saved messages and the wake of cycles.
use cai_central_de_atendimen.Base.{◌≡◌, not, refl, true, false, none, some, List, [], ◌∷◌}
use mathlib.Core.List.{reverse}
use cai_central_de_atendimen.Base.Errors.{ok}
use cai_central_de_atendimen.Base.Lists.{All, all, find}
use cai_central_de_atendimen.Base.Tables.{pairwise, first_by, order_by}
use cai_central_de_atendimen.Base.Texts.{text, same, is_space}
use cai_central_de_atendimen.Cycle.Row.{Cycle, media_blocked}
use cai_central_de_atendimen.Cycle.Schema.{conforms, row_ok, nonblank}
use cai_central_de_atendimen.Cycle.Admission.{blank_row, cycle_row}
use cai_central_de_atendimen.Cycle.Queries.{get_latest_cycle, later_first}
use cai_central_de_atendimen.Cycle.Messages.{
  CycleMessage, SnapshotMessage, Saved, is_storable, save_cycle_messages,
}
use cai_central_de_atendimen.Cycle.Messages.Ownership.{
  owned_once, other_rows, is_taken, ids_of, save_cycle_messages-keeps,
}
use cai_central_de_atendimen.Cycle.Wake.{wake_unblocked_media_cycles}
use cai_central_de_atendimen.Cycle.Wake.Woken.{IsWoken, wake_unblocked_media_cycles-IsWoken}
use cai_central_de_atendimen.Media.Row.{Content, failed}
use cai_central_de_atendimen.Media.Ops.{new_content}

abbrev blocked_cycle : Cycle
blocked_cycle = record (blank_row 1 (text "u1") (text "t1") 1 (text "w") 10) {
  ticket_closed_at = some 9;
  close_event_key = some (text "k1");
  status = media_blocked;
}

abbrev cycles : List Cycle
cycles = blocked_cycle ∷ []

cycles-conforms : conforms cycles ≡ true
unfolding conforms pairwise row_ok nonblank same is_space
cycles-conforms = refl

abbrev saved_before : List CycleMessage
saved_before =
    record {
      cycle_id = 2;
      message_id = text "m1";
      position = 0;
      message_type = text "ptt";
      message_timestamp = 3;
      created_at = 4;
    }
    ∷ []

abbrev snapshot : List SnapshotMessage
snapshot =
    record { message_id = text "m1"; type = text "ptt"; timestamp = 3 }
    ∷ record { message_id = text "m2"; type = text "chat"; timestamp = 5 }
    ∷ []

abbrev transcriptions : List Content
transcriptions =
    record (new_content (text "m1") none (text "whisper") none 10) {
      status = failed;
      attempt_count = 3;
      next_attempt_at = none;
    }
    ∷ []

latest : get_latest_cycle (text "t1") cycles ≡ some blocked_cycle
unfolding get_latest_cycle first_by order_by same later_first
latest = refl

before-owned_once : owned_once saved_before ≡ true
unfolding owned_once pairwise
before-owned_once = refl

stored : cycle_row (text "u1") cycles ≡ some blocked_cycle
unfolding find same
stored = refl

snapshot-is_storable : all is_storable snapshot ≡ true
unfolding is_storable nonblank
snapshot-is_storable = refl

save_cycle_messages-keeps_example :
    (s : Saved) × (save_cycle_messages (text "u1") snapshot 40 cycles saved_before ≡ ok s)
    × (s.accepted ≡ reverse (ids_of (λ m. not (is_taken (other_rows 1 saved_before) m)) snapshot))
    × (s.conflicts ≡ reverse (ids_of (is_taken (other_rows 1 saved_before)) snapshot))
    × (other_rows 1 s.table ≡ other_rows 1 saved_before)
    × (owned_once s.table ≡ true)
save_cycle_messages-keeps_example =
    save_cycle_messages-keeps (text "u1") snapshot 40 cycles saved_before stored before-owned_once
      snapshot-is_storable

wake_unblocked_media_cycles-IsWoken_example :
    All
      (IsWoken
        (λ _. false)
        3
        50
        saved_before
        transcriptions
        []
        cycles
        (wake_unblocked_media_cycles (λ _. false) 3 10 50 saved_before transcriptions [] cycles).1)
      (wake_unblocked_media_cycles (λ _. false) 3 10 50 saved_before transcriptions [] cycles).0
wake_unblocked_media_cycles-IsWoken_example =
    wake_unblocked_media_cycles-IsWoken (λ _. false) 3 10 50 saved_before transcriptions [] cycles
      cycles-conforms
