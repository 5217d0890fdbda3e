-- ===== src/Media/Lifecycle.antt =====
-- What any sequence of calls keeps: the table stays keyed and well formed, no row is lost, a row
-- moves along the status diagram only, and a completed row is final.
use cai_central_de_atendimen.Base.{
  ◌≤◌, Bool, true, List, [], ◌∷◌, ◌≡◌, refl, ◌∙◌, arith, Bool-cases, inl, inr, and_left, and_right,
}
use mathlib.Core.List.{Memᴰ}
use cai_central_de_atendimen.Base.Lists.{
  All, All-mono, All-of, All-zip, All-map, All-append, All-at, all, mem-append_left,
}
use cai_central_de_atendimen.Base.Texts.{Text}
use cai_central_de_atendimen.Base.Tables.{
  set_where, mem-update, mem-update_ne, pairwise-map, pairwise-append_one,
}
use cai_central_de_atendimen.Media.Row.{ContentStatus, is_completed, Content}
use cai_central_de_atendimen.Media.Calls.{
  Call, is_default, perform, ◌⟶◌, Follows, IsWellFormed, Effect, different_ids, perform_all,
  Follows-refl, updates, inserts, keyed,
}
use cai_central_de_atendimen.Media.Effects.{perform-Effect}

-- a table between two calls
pub record IsTable (rows : List Content) : Type 0 where
  pub key : keyed rows ≡ true
  pub well_formed : All IsWellFormed rows

infix 40 ◌⟶*◌
pub data ◌⟶*◌ (s : ContentStatus) : ContentStatus → Type 0 where
  here : s ⟶* s
  step : {t u : ContentStatus} → s ⟶* t → t ⟶ u → s ⟶* u

module _ {rows rows' : List Content} where
  Effect-keyed : Effect rows rows' → keyed rows ≡ true → keyed rows' ≡ true
  unfolding keyed
  Effect-keyed (updates p g e ids touched) h = rw e (
      pairwise-map different_ids (λ _. Unit {0}) (set_where p g)
        (λ x y _ _ k. rw (kept_id x, kept_id y) k) rows (All-of (λ _. Unit {0}) (λ _. tt) rows) h)
    where
      kept_id : (x : Content) → (set_where p g x).message_id ≡ x.message_id
      kept_id x = elim (Bool-cases (p x)) [ inl k ↦ rw k (ids x) | inr k ↦ rw k ]
  Effect-keyed (inserts c e fresh w) h =
      rw e (pairwise-append_one different_ids rows c h (All-mono _ _ (λ r k. rw k) rows fresh))

  Effect-IsWellFormed : Effect rows rows' → All IsWellFormed rows → All IsWellFormed rows'
  Effect-IsWellFormed (updates p g e ids touched) h = rw e (
      All-map IsWellFormed (set_where p g) rows (
        All-mono _ _
          (λ x k. elim (Bool-cases (p x)) [
            | inl q ↦ rw q ((k.1 q).well_formed k.0)
            | inr q ↦ rw q k.0
          ])
          rows (All-zip IsWellFormed _ rows h touched)))
  Effect-IsWellFormed (inserts c e fresh w) h =
      rw e (All-append IsWellFormed rows (c ∷ []) h (w, tt))

  -- a row of the table is in it after the call, perhaps changed along an edge
  Effect-Follows :
      Effect rows rows' → {c : Content} → Memᴰ c rows → (d : Content) × Memᴰ d rows' × Follows c d
  Effect-Follows (updates p g e ids touched) {c} m = elim (Bool-cases (p c)) [
    | inl q ↦ (g c, rw e (mem-update p g m q), (All-at _ m touched q).follows)
    | inr q ↦ (c, rw e (mem-update_ne p g m q), Follows-refl c)
  ]
  Effect-Follows (inserts x e fresh w) {c} m = (c, rw e (mem-append_left _ m), Follows-refl c)

  Effect-completed :
      Effect rows rows' → {c : Content} → Memᴰ c rows → is_completed c.status ≡ true → Memᴰ c rows'
  Effect-completed (updates p g e ids touched) {c} m done = elim (Bool-cases (p c)) [
    | inl q ↦ let k = (All-at _ m touched q).unfinished in cc
    | inr q ↦ rw e (mem-update_ne p g m q)
  ]
  Effect-completed (inserts x e fresh w) m done = rw e (mem-append_left _ m)

module _ (text_le : Text → Text → Bool) where
  -- Whatever calls are made, with default expected statuses, the table keeps its primary key, only
  -- pending rows are scheduled, and a row has a completion time exactly if it is completed.
  pub perform_all-IsTable :
      (calls : List Call) (rows : List Content)
      → IsTable rows
      → all is_default calls ≡ true
      → IsTable (perform_all text_le calls rows)
  unfolding perform_all
  perform_all-IsTable [] rows h d = h
  perform_all-IsTable (call ∷ calls) rows h d =
      let e = perform-Effect text_le call rows h.key (and_left (is_default call) _ d) in
      perform_all-IsTable calls (perform text_le call rows)
        (record { key = Effect-keyed e h.key; well_formed = Effect-IsWellFormed e h.well_formed })
        (and_right (is_default call) _ d)

  -- A completed row is final: whatever calls are made, with default expected statuses, it stands in
  -- the table with all of its columns, its text and its completion time among them.
  pub perform_all-completed :
      (calls : List Call) (rows : List Content) (c : Content)
      → keyed rows ≡ true
      → all is_default calls ≡ true
      → Memᴰ c rows
      → is_completed c.status ≡ true
      → Memᴰ c (perform_all text_le calls rows)
  unfolding perform_all
  perform_all-completed [] rows c h d m done = m
  perform_all-completed (call ∷ calls) rows c h d m done =
      let e = perform-Effect text_le call rows h (and_left (is_default call) _ d) in
      perform_all-completed calls (perform text_le call rows) c (Effect-keyed e h)
        (and_right (is_default call) _ d) (Effect-completed e m done) done

  -- what becomes of a row
  pub record IsLater (c d : Content) : Type 0 where
    pub same_id : c.message_id ≡ d.message_id
    pub same_creation : c.created_at ≡ d.created_at
    pub attempts : c.attempt_count ≤ d.attempt_count
    pub path : c.status ⟶* d.status

  later : (c d e : Content) → IsLater c d → Follows d e → IsLater c e
  later c d e l f = record {
    same_id = l.same_id ∙ f.same_id;
    same_creation = l.same_creation ∙ f.same_creation;
    attempts = omega (arith, l.attempts, f.attempts);
    path = step l.path f.edge;
  }

  from_later :
      (calls : List Call) (rows : List Content) (c d : Content)
      → keyed rows ≡ true
      → all is_default calls ≡ true
      → IsLater c d
      → Memᴰ d rows
      → (e : Content) × Memᴰ e (perform_all text_le calls rows) × IsLater c e
  unfolding perform_all
  from_later [] rows c d h k l m = (d, m, l)
  from_later (call ∷ calls) rows c d h k l m =
      let e = perform-Effect text_le call rows h (and_left (is_default call) _ k) in
      let (d', m', f) = Effect-Follows e m in
      from_later calls (perform text_le call rows) c d' (Effect-keyed e h)
        (and_right (is_default call) _ k) (later c d d' l f) m'

  -- Whatever calls are made, with default expected statuses, no row is lost: each is there after
  -- them under its key, with its creation time, with at least as many attempts, and in a status that
  -- the status diagram leads to.
  pub perform_all-IsLater :
      (calls : List Call) (rows : List Content) (c : Content)
      → keyed rows ≡ true
      → all is_default calls ≡ true
      → Memᴰ c rows
      → (d : Content) × Memᴰ d (perform_all text_le calls rows) × IsLater c d
  perform_all-IsLater calls rows c h k m =
      from_later calls rows c c h k
        (record { same_id = refl; same_creation = refl; attempts = omega arith; path = here }) m
