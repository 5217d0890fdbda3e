-- ===== src/Events/Ledger/Cleanup.antt =====
-- What a cleanup removes, and how many rows.
use cai_central_de_atendimen.Base.{
  ℕ, ◌≡◌, refl, Bool, true, false, not, ◌&&◌, some, List, [], ◌∷◌, arith, inl, inr, Bool-cases,
  and_left, and_right,
}
use cai_central_de_atendimen.Base.Lists.{
  All, all, all→All, All-mono, All-zip, All-take, All-select, All-any, select, select_holds,
}
use cai_central_de_atendimen.Base.Tables.{pairwise, All-order_by}
use cai_central_de_atendimen.Base.Texts.{Text, same, same_refl, same_iff}
use cai_central_de_atendimen.Cycle.Row.{Time}
use cai_central_de_atendimen.Events.Ledger.{
  EventKey, has_digest, is_expired, distinct, ledger_ok, is_in, expires_first, expired_batch,
  cleanup_expired,
}
use cai_central_de_atendimen.Events.Ledger.Windows.{expiry, is_open}

-- the window of a row is the one that its digest has
abbrev IsWindow : List EventKey → EventKey → Type 0
IsWindow t k = expiry t k.event_digest ≡ some k.expires_at

pub expiry_rows : (t : List EventKey) → pairwise distinct t ≡ true → All (IsWindow t) t
unfolding expiry pairwise
expiry_rows [] h = tt
expiry_rows (x ∷ xs) h = (
  ground (arith, same_refl x.event_digest),
  All-mono _ _ (λ y q. ground (arith, q.0, q.1)) xs
      (All-zip _ _ xs (expiry_rows xs (and_right (all (distinct x) xs) _ h))
        (all→All (distinct x) xs (and_left _ _ h))),
)

-- the rows of the batch: their windows, which have run out
batch_rows :
    (n : ℕ) (now : Time) (skip : EventKey → Bool) (t : List EventKey)
    → pairwise distinct t ≡ true
    → All (λ k. IsWindow t k × (is_expired now k ≡ true)) (expired_batch n now skip t)
unfolding expired_batch
batch_rows n now skip t h = All-take _ n _ (
    All-order_by expires_first _ _ (
      All-zip _ _ _ (All-select _ (λ k. is_expired now k && not (skip k)) t (expiry_rows t h)) (
        All-mono _ _ (λ k q. and_left (is_expired now k) _ q) _
          (select_holds (λ k. is_expired now k && not (skip k)) t))))

-- a window that a removed row had has run out
pub removed_expired :
    (n : ℕ) (now : Time) (skip : EventKey → Bool) (t : List EventKey) (k : EventKey)
    → pairwise distinct t ≡ true
    → is_in (expired_batch n now skip t) k ≡ true
    → is_open now (expiry t k.event_digest) ≡ false
removed_expired n now skip t k h e =
    let (b, (w, x), s) =
      All-any _ (λ b. same k.event_digest b.event_digest) _ (batch_rows n now skip t h) e in
    let eq : k.event_digest ≡ b.event_digest = (same_iff _ _).0 s in rw (eq, w) (ground (arith, x))

expiry-select :
    (q : EventKey → Bool) (d : Text) (t : List EventKey)
    → ((k : EventKey) → has_digest d k ≡ true → q k ≡ true)
    → expiry (select q t) d ≡ expiry t d
unfolding expiry
expiry-select q d [] h = refl
expiry-select q d (x ∷ xs) h = elim (Bool-cases (q x)) [
  | inl e ↦ rw (e, expiry-select q d xs h)
  | inr e ↦ rw (e, expiry-select q d xs h) (ground (arith, e, h x))
]

-- an open window outlasts a cleanup
pub cleanup_expired-expiry :
    (n : ℕ) (now : Time) (skip : EventKey → Bool) (t : List EventKey) (d : Text)
    → ledger_ok t ≡ true
    → is_open now (expiry t d) ≡ true
    → expiry (cleanup_expired n now skip t).1 d ≡ expiry t d
unfolding cleanup_expired ledger_ok
cleanup_expired-expiry n now skip t d h o = ground (
  arith,
  expiry-select (λ k. not (is_in (expired_batch n now skip t) k)) d t
      (λ k e.
        let eq : k.event_digest ≡ d = (same_iff _ _).0 e in
        let out = removed_expired n now skip t k (and_left _ _ h) in
        ground (arith, rw eq at out, o)),
)
