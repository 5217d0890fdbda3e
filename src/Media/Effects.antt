-- ===== src/Media/Effects.antt =====
-- The effect of each call on the table.
use cai_central_de_atendimen.Base.{
  ℕ, Bool, true, false, not, ◌&&◌, ◌||◌, Option, List, ◌==◌, is_none, ◌≡◌, refl, arith, Bool-cases,
  Option-cases, inl, inr, and_left, and_right,
}
use mathlib.Core.List.{Memᴰ}
use cai_central_de_atendimen.Base.Lists.{
  find, any, select, take, length, All, All-mono, All-of, All-mem, All-take, All-select, All-zip,
  select_holds, All-any, find-eq_none,
}
use cai_central_de_atendimen.Base.Texts.{Text, strip}
use cai_central_de_atendimen.Base.Tables.{
  first_by, order_by, first_by-mem, first_by_holds, All-order_by,
}
use cai_central_de_atendimen.Cycle.Row.{Time}
use cai_central_de_atendimen.Media.Row.{
  ContentStatus, pending, processing, completed, failed, parse_content_status, is_pending,
  is_processing, is_completed, is_failed, Content, has_id,
}
use cai_central_de_atendimen.Media.Ops.{
  reserve_content, StatusChange, set_content_status, change_status, accepts, changed, claim_content,
  recover_content, release_content_publication, is_claimable, is_recoverable_content, recovered,
  claimed_content, default_expected, same_content_status, content_before, free_claimable,
}
use cai_central_de_atendimen.Media.Calls.{
  Call, reserve, set_status, claim, recover, release, is_default, perform, ◌⟶◌, stay, start,
  yield_back, finish, give_up, reject, retry, IsTouched, Effect, updates, inserts, unchanged, keyed,
  eq_of_key,
}

reserve-Effect :
    (m : Text) (conversation : Option Text) (model : Text) (marker : Bool) (clock : Time)
    (rows : List Content)
    → Effect rows (reserve_content m conversation model marker clock rows).1
unfolding reserve_content
reserve-Effect m conversation model marker clock rows = elim (Option-cases (find (has_id m) rows)) [
  | inl e ↦ rw (e, reserve_content) (inserts _ refl (find-eq_none (has_id m) rows e) (ground arith))
  | inr (c, e) ↦ elim (Bool-cases (is_failed c.status)) [
    | inl f ↦
        rw (e, reserve_content)
          (rw (f, reserve_content)
            (updates (λ r. has_id m r && is_failed r.status) _ refl (λ r. refl)
              (All-of _
                (λ r h. record {
                  follows = record {
                    same_id = refl;
                    same_creation = refl;
                    attempts = omega arith;
                    edge = failed_edge r.status (and_right (has_id m r) _ h);
                  };
                  unfinished = ground arith;
                  well_formed = λ w. ground arith;
                })
                rows)))
    | inr f ↦ rw (e, reserve_content) (rw (f, reserve_content) (unchanged rows))
  ]
]
  where
    failed_edge : (s : ContentStatus) → is_failed s ≡ true → s ⟶ pending
    failed_edge failed h = retry
    failed_edge _ h = cc

-- the default expected statuses are those with an edge to the new status
edge_of :
    (s a : ContentStatus) → any (λ x. same_content_status x a) (default_expected s) ≡ true → a ⟶ s
unfolding default_expected
edge_of pending processing h = yield_back
edge_of processing pending h = start
edge_of completed processing h = finish
edge_of failed pending h = reject
edge_of failed processing h = give_up
edge_of _ _ h = cc

unfinished_of :
    (s a : ContentStatus)
    → any (λ x. same_content_status x a) (default_expected s) ≡ true
    → is_completed a ≡ false
unfolding default_expected
unfinished_of pending completed h = cc
unfinished_of processing completed h = cc
unfinished_of completed completed h = cc
unfinished_of failed completed h = cc
unfinished_of _ _ h = refl

accepted_from :
    (change : StatusChange) (s : ContentStatus) (m : Text) (r : Content)
    → is_none change.expected_statuses ≡ true
    → accepts change s m r ≡ true
    → any (λ x. same_content_status x r.status) (default_expected s) ≡ true
unfolding accepts
accepted_from change s m r d h = elim (Option-cases change.expected_statuses) [
  | inl e ↦ ground arith
  | inr (l, e) ↦ cc (rw e at d)
]

changed-IsTouched :
    (change : StatusChange) (s : ContentStatus) (clock now : Time) (r : Content)
    → any (λ x. same_content_status x r.status) (default_expected s) ≡ true
    → IsTouched r (changed change s clock now r)
unfolding changed
changed-IsTouched change s clock now r from = record {
  follows = record {
    same_id = refl;
    same_creation = refl;
    attempts = ground arith;
    edge = edge_of s r.status from;
  };
  unfinished = unfinished_of s r.status from;
  well_formed = λ w. record { scheduled = λ k. ground arith; finished = ground arith };
}

change-Effect :
    (m : Text) (change : StatusChange) (clock now : Time) (rows : List Content) (s : ContentStatus)
    → is_none change.expected_statuses ≡ true
    → Effect rows (change_status m change clock now rows s).1
unfolding change_status
change-Effect m change clock now rows s d = elim (Bool-cases (any (accepts change s m) rows)) [
  | inl e ↦
      rw (e, change_status)
        (updates (accepts change s m) _ refl (λ r. unfold changed in refl)
          (All-of _ (λ r h. changed-IsTouched change s clock now r (accepted_from change s m r d h))
            rows))
  | inr e ↦ rw (e, change_status) (unchanged rows)
]

set_status-Effect :
    (m : Text) (change : StatusChange) (clock now : Time) (rows : List Content)
    → is_none change.expected_statuses ≡ true
    → Effect rows (set_content_status m change clock now rows).1
unfolding set_content_status
set_status-Effect m change clock now rows d =
    elim (Option-cases (parse_content_status change.status)) [
      | inl e ↦ rw (e, set_content_status) (unchanged rows)
      | inr (s, e) ↦ rw (e, set_content_status) (change-Effect m change clock now rows s d)
    ]

module _ (text_le : Text → Text → Bool) where
  claimed-IsTouched :
      (owner : Text) (lease_seconds : ℕ) (now : Time) (r : Content)
      → is_claimable now r ≡ true
      → IsTouched r (claimed_content owner lease_seconds now r)
  unfolding claimed_content is_claimable
  claimed-IsTouched owner lease_seconds now r h = record {
    follows = record {
      same_id = refl;
      same_creation = refl;
      attempts = omega arith;
      edge = claim_edge r.status (ground arith);
    };
    unfinished = ground arith;
    well_formed = λ w. record { scheduled = λ k. refl; finished = refl };
  }
    where
      claim_edge : (s : ContentStatus) → (is_pending s || is_processing s) ≡ true → s ⟶ processing
      claim_edge pending k = start
      claim_edge processing k = stay
      claim_edge _ k = cc

  claim-Effect :
      (locked : Text → Bool) (owner : Text) (lease_seconds : ℕ) (m : Option Text) (now : Time)
      (rows : List Content)
      → keyed rows ≡ true
      → Effect rows (claim_content text_le locked owner lease_seconds m now rows).1
  unfolding claim_content
  claim-Effect locked owner lease_seconds m now rows valid =
      elim (Bool-cases (length (strip owner) == 0 || lease_seconds == 0)) [
        | inl e ↦ rw (e, claim_content) (unchanged rows)
        | inr e ↦
            rw (e, claim_content)
              (elim (Option-cases
                (first_by (content_before text_le) (free_claimable locked m now) rows)) [
                  | inl f ↦ rw (f, claim_content) (unchanged rows)
                  | inr (c, f) ↦
                      rw (f, claim_content)
                        (updates (has_id c.message_id) _ refl (λ r. unfold claimed_content in refl)
                          (All-mono _ _
                            (λ r at h.
                              let at_c =
                                first_by-mem (content_before text_le) (free_claimable locked m now)
                                  rows f in
                              claimed-IsTouched (strip owner) lease_seconds now r (
                                rw (eq_of_key at at_c valid h) (
                                  claimable_of c (
                                    first_by_holds (content_before text_le)
                                      (free_claimable locked m now) rows f))))
                            rows (All-mem rows)))
                ])
      ]
    where
      claimable_of :
          (c : Content) → free_claimable locked m now c ≡ true → is_claimable now c ≡ true
      claimable_of c h = unfold free_claimable in ground arith

  recovered-IsTouched :
      (lease_seconds : ℕ) (now : Time) (r : Content)
      → is_recoverable_content lease_seconds now r ≡ true
      → IsTouched r (recovered now r)
  unfolding recovered is_recoverable_content
  recovered-IsTouched lease_seconds now r h = record {
    follows = record {
      same_id = refl;
      same_creation = refl;
      attempts = omega arith;
      edge = recover_edge r.status (ground arith);
    };
    unfinished = ground arith;
    well_formed = λ w. record { scheduled = λ k. refl; finished = refl };
  }
    where
      recover_edge : (s : ContentStatus) → (is_pending s || is_processing s) ≡ true → s ⟶ pending
      recover_edge pending k = stay
      recover_edge processing k = yield_back
      recover_edge _ k = cc

  recover-Effect :
      (locked : Text → Bool) (lease_seconds batch_size : ℕ) (now : Time) (rows : List Content)
      → keyed rows ≡ true
      → Effect rows (recover_content text_le locked lease_seconds batch_size now rows).1
  unfolding recover_content
  recover-Effect locked lease_seconds batch_size now rows valid =
      elim (Bool-cases (lease_seconds == 0 || batch_size == 0)) [
        | inl e ↦ rw (e, recover_content) (unchanged rows)
        | inr e ↦
            rw (e, recover_content)
              (updates (λ r. any (λ c. has_id c.message_id r) candidates) (recovered now) refl
                (λ r. unfold recovered in refl)
                (All-mono _ _
                  (λ r at h.
                    let (c, (at_c, due), k) =
                      All-any _ (λ c. has_id c.message_id r) candidates are_due h in
                    recovered-IsTouched lease_seconds now r (rw (eq_of_key at at_c valid k) due))
                  rows (All-mem rows)))
      ]
    where
      test : Content → Bool
      test c = is_recoverable_content lease_seconds now c && not (locked c.message_id)

      candidates : List Content
      candidates = take batch_size (order_by (content_before text_le) (select test rows))

      are_due :
          All (λ c. Memᴰ c rows × (is_recoverable_content lease_seconds now c ≡ true)) candidates
      are_due = All-take _ batch_size _ (
          All-order_by (content_before text_le) _ _ (
            All-zip _ _ (select test rows) (All-select (λ c. Memᴰ c rows) test rows (All-mem rows))
              (All-mono _ _ (λ c k. and_left (is_recoverable_content lease_seconds now c) _ k)
                (select test rows) (select_holds test rows))))

release-Effect :
    (m error_message : Text) (now : Time) (rows : List Content)
    → Effect rows (release_content_publication m error_message now rows).1
unfolding release_content_publication
release-Effect m error_message now rows =
    updates (λ c. has_id m c && is_pending c.status) _ refl (λ r. refl)
      (All-of _
        (λ r h. record {
          follows = record {
            same_id = refl;
            same_creation = refl;
            attempts = omega arith;
            edge = stay;
          };
          unfinished = ground arith;
          well_formed = λ w. record { scheduled = w.scheduled; finished = w.finished };
        })
        rows)

-- every call with default expected statuses either inserts one new row, or updates unfinished rows
-- along the status diagram
pub perform-Effect :
    (text_le : Text → Text → Bool) (call : Call) (rows : List Content)
    → keyed rows ≡ true
    → is_default call ≡ true
    → Effect rows (perform text_le call rows)
unfolding perform
perform-Effect text_le (reserve m conversation model marker clock) rows valid d =
    reserve-Effect m conversation model marker clock rows
perform-Effect text_le (set_status m change clock now) rows valid d =
    set_status-Effect m change clock now rows d
perform-Effect text_le (claim locked owner lease_seconds m now) rows valid d =
    claim-Effect text_le locked owner lease_seconds m now rows valid
perform-Effect text_le (recover locked lease_seconds batch_size now) rows valid d =
    recover-Effect text_le locked lease_seconds batch_size now rows valid
perform-Effect text_le (release m e now) rows valid d = release-Effect m e now rows
