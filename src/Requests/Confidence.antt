-- ===== src/Requests/Confidence.antt =====
-- `evaluate_request_confidence`. A finite float is an integer count of millionths here: the
-- classification writes a decimal with few places. A value that is no number, or not finite, or
-- negative, is `none`.
use cai_central_de_atendimen.Base.{
  ℕ, ◌*◌, Bool, true, false, Option, none, some, ltb, if◌then◌else◌,
}
use cai_central_de_atendimen.Base.Texts.{Text, text}

pub data ConfidenceState : Type 0 where
  allowed below_threshold invalid : ConfidenceState

-- `score_10` is ten times the confidence
pub record ConfidenceDecision : Type 0 where
  pub state : ConfidenceState
  pub reason : Text
  pub score_10 : Option ℕ

-- 1.0 and 0.5, the least accepted
abbrev pub one : ℕ
one = 1000000

abbrev pub confidence_minimum : ℕ
confidence_minimum = 500000

unfoldable pub evaluate_request_confidence : Option ℕ → ConfidenceDecision
evaluate_request_confidence none = record {
  state = invalid;
  reason = text "confidence_invalid";
  score_10 = none;
}
evaluate_request_confidence (some value) =
    if ltb one value
    then record { state = invalid; reason = text "confidence_invalid"; score_10 = none }
    else if ltb value confidence_minimum
    then record {
      state = below_threshold;
      reason = text "confidence_below_threshold";
      score_10 = some (value * 10);
    }
    else record {
      state = allowed;
      reason = text "confidence_accepted";
      score_10 = some (value * 10);
    }

-- `_confidence_gate_metadata`; the scale and the threshold are constants
pub record Gate : Type 0 where
  pub decision : ConfidenceState
  pub score : Option ℕ

abbrev pub confidence_gate : ConfidenceDecision → Gate
confidence_gate d = record { decision = d.state; score = d.score_10 }

abbrev pub is_allowed : ConfidenceDecision → Bool
is_allowed d = elim d.state [ allowed ↦ true | below_threshold ↦ false | invalid ↦ false ]
