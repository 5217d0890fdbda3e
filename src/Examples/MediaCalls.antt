-- ===== src/Examples/MediaCalls.antt =====
-- Concrete calls on a table of media rows.
use cai_central_de_atendimen.Base.{◌≡◌, refl, true, false, none, some, List, [], ◌∷◌}
use mathlib.Core.List.{Memᴰ}
use cai_central_de_atendimen.Base.Errors.{ok}
use cai_central_de_atendimen.Base.Lists.{find}
use cai_central_de_atendimen.Base.Tables.{pairwise, first_by, order_by}
use cai_central_de_atendimen.Base.Texts.{Text, text, same, strip, lstrip, is_space}
use cai_central_de_atendimen.Finalization.History.{text_le}
use cai_central_de_atendimen.Media.Row.{
  Content, pending, processing, completed, parse_content_status,
}
use cai_central_de_atendimen.Media.Ops.{
  StatusChange, new_content, claim_content, claimed_content, is_claimable, free_claimable,
  set_content_status, content_before,
}
use cai_central_de_atendimen.Media.Calls.{Call, reserve, set_status, claim, perform_all, keyed}
use cai_central_de_atendimen.Media.Lifecycle.{IsTable, perform_all-IsTable, perform_all-completed}
use cai_central_de_atendimen.Media.Fencing.{claim_result, claim_content-fences}

abbrev done_row : Content
done_row = record (new_content (text "m1") none (text "whisper") none 10) {
  status = completed;
  transcript = some (text "hello");
  attempt_count = 1;
  next_attempt_at = none;
  completed_at = some 12;
}

abbrev due_row : Content
due_row = new_content (text "m2") none (text "whisper") none 10

abbrev rows : List Content
rows = done_row ∷ due_row ∷ []

rows-keyed : keyed rows ≡ true
unfolding keyed pairwise same
rows-keyed = refl

rows-IsTable : IsTable rows
rows-IsTable = record {
  key = rows-keyed;
  well_formed = (
    record { scheduled = λ _. refl; finished = refl },
    (record { scheduled = λ h. cc; finished = refl }, tt),
  );
}

abbrev result_of : Text → StatusChange
result_of owner = record {
  status = text "completed";
  transcript = some (text "hi");
  error_message = none;
  increment_attempt = false;
  next_attempt_at = none;
  expected_statuses = none;
  expected_updated_at = some 30;
  expected_lease_owner = some owner;
}

abbrev calls : List Call
calls =
    claim (λ _. false) (text "w1") 60 none 30
    ∷ set_status (text "m2") (result_of (text "w1")) 40 40
    ∷ reserve (text "m3") none (text "whisper") true 41
    ∷ []

perform_all-IsTable_example : IsTable (perform_all text_le calls rows)
perform_all-IsTable_example = perform_all-IsTable text_le calls rows rows-IsTable refl

perform_all-completed_example : Memᴰ done_row (perform_all text_le calls rows)
perform_all-completed_example =
    perform_all-completed text_le calls rows done_row rows-keyed refl (Memᴰ.head refl) refl

abbrev claimed_row : Content
claimed_row = record due_row {
  status = processing;
  attempt_count = 1;
  next_attempt_at = none;
  enqueued_at = none;
  lease_owner = some (text "w1");
  lease_expires_at = some 60000030;
  updated_at = 30;
}

claimed_example :
    (claim_result text_le (λ _. false) (text "w1") 60 none 30 rows).0
    ≡ ok (some (claimed_row, pending))
unfolding claim_content strip lstrip is_space first_by order_by free_claimable is_claimable
    claimed_content content_before
claimed_example = refl

w1_stripped : same (strip (text "w1")) (text "w2") ≡ false
unfolding same strip lstrip is_space
w1_stripped = refl

completed_parsed : parse_content_status (text "completed") ≡ some completed
unfolding parse_content_status find same
completed_parsed = refl

claim_content-fences_example :
    set_content_status
      (text "m2")
      (result_of (text "w2"))
      40
      40
      (claim_result text_le (λ _. false) (text "w1") 60 none 30 rows).1
    ≡ (ok none, (claim_result text_le (λ _. false) (text "w1") 60 none 30 rows).1)
claim_content-fences_example =
    claim_content-fences text_le (λ _. false) (text "w1") 60 none 30 rows rows-keyed
      (result_of (text "w2")) 40 40 claimed_example (text "w2") completed refl w1_stripped
      completed_parsed
