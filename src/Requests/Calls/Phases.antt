-- ===== src/Requests/Calls/Phases.antt =====
-- The transactions implement the phases: each moves an operation along the edges of its kind.
use cai_central_de_atendimen.Base.{
  ◌≡◌, Bool, true, false, ◌&&◌, ◌⊎◌, some, List, [], ◌∷◌, map, arith,
}
use cai_central_de_atendimen.Base.Texts.{Text, same_some, same_refl}
use cai_central_de_atendimen.Requests.Payload.{Payload}
use cai_central_de_atendimen.Requests.Row.{Operation}
use cai_central_de_atendimen.Requests.Facts.{failing, ready}
use cai_central_de_atendimen.Requests.Statements.{
  claim_operation, claim_mapping_missing_recovery, record_preparation_recovery_blocked,
  reopen_prepared_operation, finish_confidence_blocked, refresh_payload_metadata, mark_post_started,
  finish_operation, expire_claim, is_unprepared, is_untouched, block_confidence, finish_row,
}
use cai_central_de_atendimen.Requests.Manual.{
  record_reconciliation, reconcile_checked, reconcile_new, forbidden, reconciled,
}
use cai_central_de_atendimen.Requests.Calls.{
  Call, claim, claim_recovery, recovery_blocked, reopen, confidence_blocked, refresh, start_post,
  finish, reconcile, Phase, open_to_claims, held, in_flight, done, refused, ambiguous, phase,
  phase_of, perform, perform_calls,
}

-- the kinds of transaction that the phases tell apart, with the owner who makes it
pub data Kind : Type 0 where
  claiming starting settling : Text → Kind
  preparing manual_action other : Kind

abbrev pub kind : Call → Kind
kind (claim _ owner _ _) = claiming owner
kind (claim_recovery _ _ _ _) = other
kind (recovery_blocked _ _ _ _ _) = other
kind (reopen _ _ _ _) = preparing
kind (confidence_blocked _ owner _ _) = starting owner
kind (refresh _ _ _ _ _) = other
kind (start_post _ owner _ _) = starting owner
kind (finish _ owner _ _) = settling owner
kind (reconcile _ _ _) = manual_action

-- the phases that an outcome leads to
abbrev pub is_settled : Phase → Bool
is_settled (held h) = false
is_settled (in_flight h) = false
is_settled _ = true

-- the abstract machine: a claim takes an open request for its owner, and puts one in flight among
-- the ambiguous; only a preparation reopens a refused one; only the holder of a claim starts a
-- delivery or settles it; only a manual action leads out of the ambiguous phase
abbrev pub moves : Kind → Phase → Phase → Bool
moves (claiming o) open_to_claims (held h) = same_some h (some o)
moves (claiming o) open_to_claims (in_flight h) = same_some h (some o)
moves (claiming o) (held h) (held g) = same_some g (some o)
moves (claiming o) (in_flight h) ambiguous = true
moves preparing refused open_to_claims = true
moves (starting o) (held h) (in_flight g) = same_some h (some o) && same_some g (some o)
moves (starting o) (held h) refused = same_some h (some o)
moves (settling o) (held h) q = same_some h (some o) && is_settled q
moves (settling o) (in_flight h) q = same_some h (some o) && is_settled q
moves manual_action ambiguous done = true
moves manual_action ambiguous open_to_claims = true
moves _ _ _ = false

abbrev pub May : Kind → Phase → Phase → Type 0
May k p q = (p ≡ q) ⊎ (moves k p q ≡ true)

-- a run of the abstract machine, with the kinds of its transactions
pub data Run : List Kind → Phase → Phase → Type 0 where
  rest : {p : Phase} → Run [] p p
  next : {k : Kind} {ks : List Kind} {p q r : Phase} → May k p q → Run ks q r → Run (k ∷ ks) p r

module _ (digest : Payload → Text) where
  perform-May : (c : Call) (op : Operation) → May (kind c) (phase op) (phase (perform digest c op))
  unfolding perform phase_of
  perform-May (claim id o l t) op =
      unfold claim_operation expire_claim in ground (arith, same_refl o)
  perform-May (claim_recovery o l c t) op =
      unfold claim_mapping_missing_recovery is_untouched is_unprepared in ground arith
  perform-May (recovery_blocked id o s r t) op =
      unfold record_preparation_recovery_blocked is_unprepared in ground arith
  perform-May (reopen id o (failing r) t) op = unfold reopen_prepared_operation in ground arith
  perform-May (reopen id o (ready f p) t) op =
      unfold reopen_prepared_operation is_untouched is_unprepared in ground arith
  perform-May (confidence_blocked id o d t) op =
      unfold finish_confidence_blocked block_confidence in ground arith
  perform-May (refresh id o p d t) op = unfold refresh_payload_metadata in ground arith
  perform-May (start_post id o v t) op = unfold mark_post_started block_confidence in ground arith
  perform-May (finish id o v t) op = unfold finish_operation finish_row in ground arith
  perform-May (reconcile c t audits) op =
      unfold record_reconciliation reconcile_checked reconcile_new forbidden reconciled in
      ground arith

  -- For any sequence of transactions on an operation, by any workers and operators, at any times:
  -- the phases of the operation before and after are connected by a run of the abstract machine
  -- whose steps have the kinds and the owners of the transactions. So a completed request stays so, a
  -- request in flight is opened again only by its holder's outcome, and only a manual action leads
  -- out of the ambiguous phase.
  pub perform_calls-Run :
      (cs : List Call) (op : Operation)
      → Run (map kind cs) (phase op) (phase (perform_calls digest cs op))
  unfolding perform_calls
  perform_calls-Run [] op = rest
  perform_calls-Run (c ∷ cs) op =
      next (perform-May c op) (perform_calls-Run cs (perform digest c op))
