-- ===== src/Designer/Routes/Approved.antt =====
-- `approve_offer`: what has happened when it answers that the offer is approved.

use tristar.Base.{
  String, false, Option, none, some, ◌≡◌, inl, inr, refl, arith, sym, ap, ◌∙◌, Bool-cases, ◌==◌,
  eq_iff,
}
use tristar.Outcome.{Result, ok, err}
use tristar.Core.Http.{HttpError}
use tristar.Core.Security.{AuthUser}
use tristar.Models.Offer.{
  OfferBrief, draft, approved, is_critical, ApproveOfferResponse, with_status,
}
use tristar.Hub.Store.{
  HubStore, HubStoreLaws, StoreError, redis_unavailable, already_exists, naive_and_aware, View,
  IsStorable, GetSpec, UpdateSpec,
}
use tristar.Hub.Routes.{validate_transition}
use tristar.Hub.Routes.Lifecycle.{with_status-IsStorable}
use tristar.Designer.Fraud.{record_active_offer}
use tristar.Designer.Routes
use tristar.Designer.Routes.{DesignerState, Answer, recorded, current, approve_offer}
use tristar.Designer.Routes.Approvals.{was_draft}

module _ (h : HubStore) (l : HubStoreLaws h) where
  open h use {State}

  -- An approval that has happened: it was a draft, and is now what the request has, with one more
  -- offer on the record of the marketer.
  abbrev pub Approved :
      AuthUser → String → OfferBrief → DesignerState State → DesignerState State → Type 0
  Approved user id o s s' =
      ((stored : OfferBrief) × (l.view s.hub.store id ≡ some stored) × (stored.status ≡ draft))
      × (l.view s'.hub.store id ≡ some (with_status approved o))
      × (s'.counts ≡ record_active_offer user.user_id s.counts)

  recorded_ok :
      (user : AuthUser) (id : String) (o : OfferBrief) (v : View) (r : Result StoreError (Unit {0}))
      (s : DesignerState State) {a : ApproveOfferResponse}
      → UpdateSpec v (l.view s.hub.store) o r
      → o.offer_id ≡ id
      → (recorded h user id o r s).0 ≡ ok a
      → (l.view (recorded h user id o r s).1.hub.store id ≡ some o)
        × ((recorded h user id o r s).1.counts ≡ record_active_offer user.user_id s.counts)
  recorded_ok user id o v (ok _) s sp named e =
      (sp id ∙ ground (arith, (eq_iff o.offer_id id).1 named), refl)
  recorded_ok user id o v (err redis_unavailable) s sp named e = absurd (ground arith)
  recorded_ok user id o v (err already_exists) s sp named e = absurd sp
  recorded_ok user id o v (err naive_and_aware) s sp named e = absurd sp

  approve_ok :
      (user : AuthUser) (id : String) (o : OfferBrief) (r : Result HttpError (Unit {0}))
      (s : DesignerState State) {a : ApproveOfferResponse}
      → IsStorable o
      → o.offer_id ≡ id
      → l.IsGood s.hub.store
      → (Routes.approve h user id o r s).0 ≡ ok a
      → (r ≡ ok tt)
        × (l.view (Routes.approve h user id o r s).1.hub.store id ≡ some (with_status approved o))
        × ((Routes.approve h user id o r s).1.counts ≡ record_active_offer user.user_id s.counts)
  unfolding Routes.approve
  approve_ok user id o (err e) s st named g e' = absurd (ground arith)
  approve_ok user id o (ok _) s st named g e' =
      let (r, store) = h.update (with_status approved o) s.hub.store in
      let ready = with_status-IsStorable approved o st in
      let done =
        recorded_ok user id (with_status approved o) (l.view s.hub.store) r
          (record s { hub = record s.hub { store = store } })
          (l.update_lem (with_status approved o) s.hub.store ready g) named e' in
      (refl, done.0, done.1)

  current_ok :
      (user : AuthUser) (id : String) (o : OfferBrief) (r : Result StoreError (Option OfferBrief))
      (s s' : DesignerState State) {a : ApproveOfferResponse}
      → s'.counts ≡ s.counts
      → IsStorable o
      → o.offer_id ≡ id
      → GetSpec (l.view s.hub.store) (l.view s'.hub.store) id r
      → l.IsGood s'.hub.store
      → (current h user id o r s').0 ≡ ok a
      → Approved user id o s (current h user id o r s').1
  unfolding approve_offer
  current_ok user id o (ok none) s s' c st named sp g e = absurd (ground arith)
  current_ok user id o (ok (some stored)) s s' c st named sp g e =
      let (passed, there, counted) =
        approve_ok user id o (validate_transition stored.status approved) s' st named g e in
      (
        (stored, sym sp.0, was_draft h l stored passed),
        there,
        counted ∙ ap (record_active_offer user.user_id) c,
      )
  current_ok user id o (err redis_unavailable) s s' c st named sp g e = absurd (ground arith)
  current_ok user id o (err already_exists) s s' c st named sp g e = absurd sp
  current_ok user id o (err naive_and_aware) s s' c st named sp g e = absurd sp

  -- If `approve_offer` answers that the offer is approved, then the request had the id of the path and
  -- no critical severity, a draft was in the store under the id, the offer of the request, as approved,
  -- is in its place afterwards, and the marketer has one more offer on record; for an offer that passed
  -- validation, over a good store.
  pub approve_offer_ok :
      (user : AuthUser) (id : String) (o : OfferBrief) (s : DesignerState State)
      {a : ApproveOfferResponse}
      → IsStorable o
      → l.IsGood s.hub.store
      → (approve_offer h user id o s).0 ≡ ok a
      → (o.offer_id ≡ id)
        × (is_critical o.risk_flags.severity ≡ false)
        × Approved user id o s (approve_offer h user id o s).1
  unfolding approve_offer
  approve_offer_ok user id o s {a} st g =
      let (r, store) = h.get id s.hub.store in
      elim (Bool-cases (o.offer_id == id)) [
        | inr other ↦ rw other (λ e. absurd (ground arith))
        | inl named ↦ elim (Bool-cases (is_critical o.risk_flags.severity)) [
          | inl bad ↦ rw (named, bad) (λ e. absurd (ground arith))
          | inr harmless ↦
              let same = (eq_iff o.offer_id id).0 named in
              rw (named, harmless)
                (λ e. (
                  same,
                  refl,
                  current_ok user id o r s (record s { hub = record s.hub { store = store } }) refl
                      st same (l.get_lem id s.hub.store g) (l.get-IsGood id s.hub.store g) e,
                ))
        ]
      ]
