-- ===== src/Overlap/Steps/Sweeps.antt =====
-- The steps of `_expire_offers_task`: its listing, and each of its updates.

use tristar.Base.{
  ℕ, String, none, some, List, [], ◌∷◌, ◌≡◌, inl, inr, refl, arith, ◌∙◌, All, All-map, Bool-cases,
}
use tristar.Clock.{DateTime}
use tristar.Outcome.{Result, ok, err}
use tristar.Models.Offer.{OfferBrief, active, expired, with_status}
use tristar.Hub.Store.{HubStore, HubStoreLaws, StoreError, View, ListSpec}
use tristar.Hub.Change.{updated-Changes}
use tristar.Hub.Routes.Lifecycle.{with_status-IsStorable, list-Same}
use tristar.Hub.Sweep.{is_due, count}
use tristar.Designer.Routes.{DesignerState}
use tristar.Overlap.{Task, sweeping, expiring, next_due, after_list, resume}
use tristar.Overlap.Knowledge.{mover, Knows, Listed, Listed-stable}
use tristar.Overlap.Effects.{expired-Leaves, expires}
use tristar.Overlap.Steps.{Steps, reads}

module _ (h : HubStore) (l : HubStoreLaws h) where
  open h use {State}

  next_due-mover :
      (now : DateTime) (offers : List OfferBrief) (n : ℕ) → mover (next_due now offers n) ≡ none
  unfolding next_due
  next_due-mover now [] n = refl
  next_due-mover now (o ∷ offers) n = elim (Bool-cases (is_due now o.valid_until)) [
    | inl due ↦ rw due refl
    | inr early ↦ rw early (next_due-mover now offers n)
  ]

  next_due-Knows :
      (v : View) (now : DateTime) (offers : List OfferBrief) (n : ℕ)
      → All (Listed v) offers
      → Knows v (next_due now offers n)
  unfolding next_due
  next_due-Knows v now [] n k = tt
  next_due-Knows v now (o ∷ offers) n k = elim (Bool-cases (is_due now o.valid_until)) [
    | inl due ↦ rw due k
    | inr early ↦ rw early (next_due-Knows v now offers n k.1)
  ]

  listed-Knows :
      (now : DateTime) (s s' : State) (r : Result StoreError (List OfferBrief))
      → l.IsGood s
      → ListSpec (l.view s) (l.view s') (some active) r
      → Knows (l.view s') (after_list now r) × (mover (after_list now r) ≡ none)
  listed-Knows now s s' (err e) g sp = (tt, refl)
  listed-Knows now s s' (ok offers) g sp = (
    next_due-Knows (l.view s') now offers 0 (All-map _ _ listed offers sp.1),
    next_due-mover now offers 0,
  )
    where
      listed :
          (o : OfferBrief)
          → (l.view s o.offer_id ≡ some o) × (o.status ≡ active)
          → Listed (l.view s') o
      listed o (there, act) =
          (l.view-IsStorable o.offer_id s g there, act, inl (sp.0 o.offer_id ∙ there))

  no_mover : (t u : Task) → mover t ≡ none → (id : String) → mover t ≡ some id → mover u ≡ some id
  no_mover t u e id m = absurd (ground arith)

  pub sweeping-Steps :
      (now : DateTime) (s : DesignerState State)
      → l.IsGood s.hub.store
      → Steps h l
          (sweeping now)
          s.hub.store
          (resume h (sweeping now) s).0
          (resume h (sweeping now) s).1.hub.store
  unfolding resume
  sweeping-Steps now s g =
      let (r, store) = h.list (some active) none none s.hub.store in
      let sp = l.list_lem (some active) none none s.hub.store g in
      let (k, m) = listed-Knows now s.hub.store store r g sp in
      reads h l (sweeping now) s.hub.store (after_list now r) store
        (l.list-IsGood (some active) none none s.hub.store g)
        (list-Same h l (l.view s.hub.store) (l.view store) (some active) r sp) k
        (no_mover (after_list now r) (sweeping now) m)

  pub expiring-Steps :
      (now : DateTime) (o : OfferBrief) (offers : List OfferBrief) (n : ℕ) (s : DesignerState State)
      → Knows (l.view s.hub.store) (expiring now o offers n)
      → l.IsGood s.hub.store
      → Steps h l
          (expiring now o offers n)
          s.hub.store
          (resume h (expiring now o offers n) s).0
          (resume h (expiring now o offers n) s).1.hub.store
  unfolding resume
  expiring-Steps now o offers n s (one, rest) g =
      let v = l.view s.hub.store in
      let p = with_status expired o in
      let ready = with_status-IsStorable expired o one.0 in
      let (r, store) = h.update p s.hub.store in
      let sp = l.update_lem p s.hub.store ready g in
      let c = updated-Changes p v (l.view store) r (expires o v one) sp in
      record {
        good = l.update-IsGood p s.hub.store ready g;
        changes = c;
        leaves = λ j _. expired-Leaves o v (l.view store) r one sp j;
        knows =
            next_due-Knows (l.view store) now offers (count r n)
              (All-map _ _ (Listed-stable v (l.view store) c) offers rest);
        same_mover =
            no_mover (next_due now offers (count r n)) (expiring now o offers n)
              (next_due-mover now offers (count r n));
      }
