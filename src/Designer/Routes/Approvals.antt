-- ===== src/Designer/Routes/Approvals.antt =====
-- `approve_offer`, the life of an offer and the cache.
use mathlib.Core.Path.{subst}
use tristar.Base.{
  String, Option, none, some, ◌≡◌, inl, inr, refl, arith, sym, ap, ◌∙◌, Bool-cases, ◌==◌, eq_iff,
}
use tristar.Outcome.{Result, ok, err}
use tristar.Core.Http.{HttpError}
use tristar.Core.Security.{AuthUser}
use tristar.Models.Offer.{OfferBrief, OfferStatus, draft, approved, is_critical, with_status}
use tristar.Hub.Store.{
  HubStore, HubStoreLaws, StoreError, redis_unavailable, already_exists, naive_and_aware,
  IsStorable, GetSpec,
}
use tristar.Hub.Change.{replaced, Same-Changes, updated-Changes}
use tristar.Hub.Routes.{HubState, validate_transition}
use tristar.Hub.Routes.Lifecycle.{Keeps, with_status-IsStorable, after_read, same-Keeps}
use tristar.Designer.Routes
use tristar.Designer.Routes.{DesignerState, Answer, recorded, current, approve_offer}

module _ (h : HubStore) (l : HubStoreLaws h) where
  open h use {State}

  pub recorded-hub :
      (user : AuthUser) (id : String) (o : OfferBrief) (r : Result StoreError (Unit {0}))
      (s : DesignerState State)
      → (recorded h user id o r s).1.hub ≡ s.hub
  unfolding approve_offer
  recorded-hub user id o (ok _) s = refl
  recorded-hub user id o (err redis_unavailable) s = refl
  recorded-hub user id o (err already_exists) s = refl
  recorded-hub user id o (err naive_and_aware) s = refl

  pub was_draft :
      (stored : OfferBrief)
      → validate_transition stored.status approved ≡ ok tt
      → stored.status ≡ draft
  unfolding validate_transition
  was_draft stored e = from stored.status e
    where
      from : (old : OfferStatus) → validate_transition old approved ≡ ok tt → old ≡ draft
      from draft e = refl
      from _ e = absurd (ground arith)

  approve-Keeps :
      (user : AuthUser) (id : String) (o stored : OfferBrief) (r : Result HttpError (Unit {0}))
      (s : DesignerState State)
      → (r ≡ ok tt → stored.status ≡ draft)
      → IsStorable o
      → o.offer_id ≡ id
      → l.view s.hub.store id ≡ some stored
      → l.IsGood s.hub.store
      → Keeps h l s.hub (Routes.approve h user id o r s).1.hub
  unfolding Routes.approve
  approve-Keeps user id o stored (err e) s was st named there g = same-Keeps h l s.hub s.hub refl g
  approve-Keeps user id o stored (ok _) s was st named there g =
      let (r, store) = h.update (with_status approved o) s.hub.store in
      let same =
        recorded-hub user id (with_status approved o) r
          (record s { hub = record s.hub { store = store } }) in
      let ready = with_status-IsStorable approved o st in
      subst (Keeps h l s.hub) (sym same) (record {
        good = l.update-IsGood (with_status approved o) s.hub.store ready g;
        changes =
            updated-Changes (with_status approved o) (l.view s.hub.store) (l.view store) r
              (replaced stored (with_status approved o) (ap (l.view s.hub.store) named ∙ there) refl
                (was refl) refl)
              (l.update_lem (with_status approved o) s.hub.store ready g);
      })

  current-Keeps :
      (user : AuthUser) (id : String) (o : OfferBrief) (r : Result StoreError (Option OfferBrief))
      (s : HubState State) (s' : DesignerState State)
      → IsStorable o
      → o.offer_id ≡ id
      → GetSpec (l.view s.store) (l.view s'.hub.store) id r
      → l.IsGood s'.hub.store
      → Keeps h l s (current h user id o r s').1.hub
  unfolding approve_offer
  current-Keeps user id o (ok none) s s' st named sp g = record {
    good = g;
    changes = Same-Changes (l.view s.store) (l.view s'.hub.store) sp.1;
  }
  current-Keeps user id o (ok (some stored)) s s' st named sp g = after_read h l s s'.hub _ sp.1 (
      approve-Keeps user id o stored (validate_transition stored.status approved) s'
        (was_draft stored) st named (sp.1 id ∙ sym sp.0) g)
  current-Keeps user id o (err redis_unavailable) s s' st named sp g = record {
    good = g;
    changes = Same-Changes (l.view s.store) (l.view s'.hub.store) sp;
  }
  current-Keeps user id o (err already_exists) s s' st named sp g = absurd sp
  current-Keeps user id o (err naive_and_aware) s s' st named sp g = absurd sp

  -- Whatever `approve_offer` answers, it leaves a good store of the Hub good and changes its
  -- entries along the life of an offer only, if the offer of the request passed validation.
  pub approve_offer-Keeps :
      (user : AuthUser) (id : String) (o : OfferBrief) (s : DesignerState State)
      → IsStorable o
      → l.IsGood s.hub.store
      → Keeps h l s.hub (approve_offer h user id o s).1.hub
  unfolding approve_offer
  approve_offer-Keeps user id o s st g =
      let (r, store) = h.get id s.hub.store in
      elim (Bool-cases (o.offer_id == id)) [
        | inr other ↦ rw other (same-Keeps h l s.hub s.hub refl g)
        | inl named ↦ elim (Bool-cases (is_critical o.risk_flags.severity)) [
          | inl bad ↦ rw (named, bad) (same-Keeps h l s.hub s.hub refl g)
          | inr harmless ↦
              rw (named, harmless)
                (current-Keeps user id o r s.hub (record s { hub = record s.hub { store = store } })
                  st ((eq_iff o.offer_id id).0 named) (l.get_lem id s.hub.store g)
                  (l.get-IsGood id s.hub.store g))
        ]
      ]

  recorded-cache :
      (user : AuthUser) (id : String) (o : OfferBrief) (r : Result StoreError (Unit {0}))
      (s : DesignerState State)
      → (recorded h user id o r s).1.cache ≡ s.cache
  unfolding approve_offer
  recorded-cache user id o (ok _) s = refl
  recorded-cache user id o (err redis_unavailable) s = refl
  recorded-cache user id o (err already_exists) s = refl
  recorded-cache user id o (err naive_and_aware) s = refl

  approve-cache :
      (user : AuthUser) (id : String) (o : OfferBrief) (r : Result HttpError (Unit {0}))
      (s : DesignerState State)
      → (Routes.approve h user id o r s).1.cache ≡ s.cache
  unfolding Routes.approve
  approve-cache user id o (err e) s = refl
  approve-cache user id o (ok _) s =
      recorded-cache user id (with_status approved o)
        (h.update (with_status approved o) s.hub.store).0 _

  current-cache :
      (user : AuthUser) (id : String) (o : OfferBrief) (r : Result StoreError (Option OfferBrief))
      (s : DesignerState State)
      → (current h user id o r s).1.cache ≡ s.cache
  unfolding approve_offer
  current-cache user id o (ok none) s = refl
  current-cache user id o (ok (some stored)) s =
      approve-cache user id o (validate_transition stored.status approved) s
  current-cache user id o (err redis_unavailable) s = refl
  current-cache user id o (err already_exists) s = refl
  current-cache user id o (err naive_and_aware) s = refl

  pub approve_offer-cache :
      (user : AuthUser) (id : String) (o : OfferBrief) (s : DesignerState State)
      → (approve_offer h user id o s).1.cache ≡ s.cache
  unfolding approve_offer
  approve_offer-cache user id o s =
      let (r, store) = h.get id s.hub.store in
      elim (Bool-cases (o.offer_id == id)) [
        | inr other ↦ rw other refl
        | inl named ↦ elim (Bool-cases (is_critical o.risk_flags.severity)) [
          | inl bad ↦ rw (named, bad) refl
          | inr harmless ↦
              rw (named, harmless)
                (current-cache user id o r (record s { hub = record s.hub { store = store } }))
        ]
      ]
