-- ===== src/Media/Fencing.antt =====
-- What a claim of a media row gives its worker: the row that comes first, and a fence against the
-- results of workers whose lease was taken over.
use cai_central_de_atendimen.Base.{
  ℕ, Bool, true, false, ◌||◌, Option, none, some, List, ◌==◌, ◌≡◌, refl, sym, ap, subst, ◌∙◌, arith,
  Bool-cases, Option-cases, inl, inr,
}
use mathlib.Core.List.{Memᴰ}
use cai_central_de_atendimen.Base.Errors.{Result, ok, err, value_error}
use cai_central_de_atendimen.Base.Lists.{length, All, All-mono, All-mem, All-map, any-eq_false}
use cai_central_de_atendimen.Base.Texts.{Text, same, strip}
use cai_central_de_atendimen.Base.Tables.{
  set_where, update, IsOrder, first_by_least, first_by, first_by-mem, first_by_holds,
}
use cai_central_de_atendimen.Cycle.Row.{Time}
use cai_central_de_atendimen.Media.Row.{ContentStatus, parse_content_status, Content, has_id}
use cai_central_de_atendimen.Media.Ops.{
  StatusChange, set_content_status, change_status, accepts, claim_content, claimed_content,
  owner_matches, content_before, free_claimable,
}
use cai_central_de_atendimen.Media.Calls.{keyed, eq_of_key}

pub content_before-IsOrder :
    (text_le : Text → Text → Bool) → IsOrder text_le → IsOrder (content_before text_le)
unfolding content_before
content_before-IsOrder text_le o = record {
  total = λ x y h. ground (arith, o.total x.message_id y.message_id);
  trans = λ x y z h k. ground (arith, o.trans x.message_id y.message_id z.message_id);
}

module _ (text_le : Text → Text → Bool) (locked : Text → Bool) (owner : Text) (lease_seconds : ℕ)
    (m : Option Text) (now : Time) (rows : List Content) where
  abbrev pub claim_result : Result (Option (Content × ContentStatus)) × List Content
  claim_result = claim_content text_le locked owner lease_seconds m now rows

  -- the row `c` is what the claim took, `s` the status it had
  pub record IsClaimed (c' : Content) (s : ContentStatus) (c : Content) : Type 0 where
    pub stored : Memᴰ c rows
    pub free : free_claimable locked m now c ≡ true
    pub result : c' ≡ claimed_content (strip owner) lease_seconds now c
    pub previous : s ≡ c.status
    pub after :
        claim_result.1
        ≡ update (has_id c.message_id) (claimed_content (strip owner) lease_seconds now) rows
    pub first :
        IsOrder text_le
        → All (λ r. free_claimable locked m now r ≡ true → content_before text_le c r ≡ true) rows

  -- A claim that returns a row takes a row of the table that is claimable (pending and due, or
  -- processing with a lease that has run out), that fits the message asked for, and that no other
  -- transaction has locked; of those rows it is the first by time and then by message id. The worker
  -- gets it with one more attempt, as processing, under its own lease, and only rows with its key are
  -- changed.
  pub claim_content-eq_some :
      {c' : Content} {s : ContentStatus}
      → claim_result.0 ≡ ok (some (c', s))
      → (c : Content) × IsClaimed c' s c
  claim_content-eq_some {c'} {s} h =
      elim (Bool-cases (length (strip owner) == 0 || lease_seconds == 0)) [
        | inl e ↦ absurd (let k = rejected e in cc (sym h ∙ k))
        | inr e ↦
            elim (Option-cases
              (first_by (content_before text_le) (free_claimable locked m now) rows)) [
                | inl f ↦ absurd (let k = nothing e f in cc (sym h ∙ k))
                | inr (c, f) ↦
                    let k = taken e f in
                    let q : ok (some (c', s))
                        ≡ ok (some (claimed_content (strip owner) lease_seconds now c, c.status)) =
                      sym h
                      ∙ ap (λ (r : Result (Option (Content × ContentStatus)) × List Content). r.0)
                          k in
                    (
                      c,
                      record {
                        stored =
                            first_by-mem (content_before text_le) (free_claimable locked m now) rows
                              f;
                        free =
                            first_by_holds (content_before text_le) (free_claimable locked m now)
                              rows f;
                        result = cc q;
                        previous = cc q;
                        after =
                            ap
                              (λ (r : Result (Option (Content × ContentStatus)) × List Content).
                                r.1)
                              k;
                        first = λ o.
                            first_by_least (content_before-IsOrder text_le o)
                              (free_claimable locked m now) rows f;
                      },
                    )
              ]
      ]
    where
      rejected :
          (length (strip owner) == 0 || lease_seconds == 0) ≡ true
          → claim_result.0 ≡ err value_error
      rejected e = unfold claim_content in ground (arith, e)

      nothing :
          (length (strip owner) == 0 || lease_seconds == 0) ≡ false
          → first_by (content_before text_le) (free_claimable locked m now) rows ≡ none
          → claim_result.0 ≡ ok none
      nothing e f = unfold claim_content in ground (arith, e, f)

      taken :
          (length (strip owner) == 0 || lease_seconds == 0) ≡ false
          → {c : Content}
          → first_by (content_before text_le) (free_claimable locked m now) rows ≡ some c
          → claim_result ≡ (
            ok (some (claimed_content (strip owner) lease_seconds now c, c.status)),
            update (has_id c.message_id) (claimed_content (strip owner) lease_seconds now) rows,
          )
      taken e f = unfold claim_content in ground (arith, e, f)

  claimed_id :
      {c' : Content} {s : ContentStatus} {c : Content}
      → IsClaimed c' s c
      → c'.message_id ≡ c.message_id
  claimed_id k = ap (λ (x : Content). x.message_id) k.result ∙ (unfold claimed_content in refl)

  -- all rows under the key of a claimed row are the claimed row
  after_claim :
      {c' : Content} {s : ContentStatus} {c : Content}
      → keyed rows ≡ true
      → IsClaimed c' s c
      → All (λ r. has_id c'.message_id r ≡ true → r ≡ c') claim_result.1
  after_claim {c'} {s} {c} key k = rw k.after (
      All-map _ (set_where (has_id c.message_id) (claimed_content (strip owner) lease_seconds now))
        rows
        (All-mono _ _
          (λ r at. elim (Bool-cases (has_id c.message_id r)) [
            | inl p ↦ λ h. rw (p, k.result, eq_of_key at k.stored key p)
            | inr p ↦ λ h.
                let w : has_id c'.message_id r ≡ true = rw p at h in
                let w' : has_id c.message_id r ≡ true =
                  subst (λ i. has_id i r ≡ true) (claimed_id k) w in
                absurd (cc (sym p ∙ w'))
          ])
          rows (All-mem rows)))

  stale_refused :
      (change : StatusChange) (a : Text) (st : ContentStatus) {c' : Content} {s : ContentStatus}
      {c : Content}
      → change.expected_lease_owner ≡ some a
      → same (strip owner) a ≡ false
      → IsClaimed c' s c
      → (r : Content) → (has_id c'.message_id r ≡ true → r ≡ c')
      → accepts change st c'.message_id r ≡ false
  stale_refused change a st {c'} {s} {c} e other k r only =
      elim (Bool-cases (accepts change st c'.message_id r)) [
        | inr q ↦ q
        | inl q ↦
            let h : has_id c'.message_id r ≡ true = (unfold accepts in ground arith) in
            let w : r.lease_owner ≡ some (strip owner) =
              ap (λ (x : Content). x.lease_owner) (only h ∙ k.result)
              ∙ (unfold claimed_content in refl) in
            let v : owner_matches (some a) (some (strip owner)) ≡ true =
              (unfold accepts in ground (arith, q, e, w)) in
            absurd (cc (sym other ∙ v))
      ]

  module _ (key : keyed rows ≡ true) (change : StatusChange) (clock now' : Time) {c' : Content}
      {s : ContentStatus} (claimed : claim_result.0 ≡ ok (some (c', s))) where
    -- After a claim, a result that another worker reports for the message, under its own name as
    -- expected lease owner, is refused: it changes nothing and returns nothing, whatever statuses and
    -- update time it expects and however late it comes.
    pub claim_content-fences :
        (a : Text) (st : ContentStatus)
        → change.expected_lease_owner ≡ some a
        → same (strip owner) a ≡ false
        → parse_content_status change.status ≡ some st
        → set_content_status c'.message_id change clock now' claim_result.1
          ≡ (ok none, claim_result.1)
    claim_content-fences a st e other parsed =
        let (c, k) = claim_content-eq_some claimed in
        let no_row =
          any-eq_false (accepts change st c'.message_id) claim_result.1 (
            All-mono _ _ (stale_refused change a st e other k) claim_result.1
              (after_claim key k)) in
        unfold set_content_status change_status in ground (arith, parsed, no_row)
