-- ===== src/Overlap/Steps/Approvals.antt =====
-- The two steps of `approve_offer`.
use mathlib.Core.Path.{subst}
use tristar.Base.{
  String, Option, none, some, ◌≡◌, inl, inr, refl, arith, sym, ◌∙◌, ◌==◌, eq_iff, Bool-cases,
}
use tristar.Outcome.{Result, ok, err}
use tristar.Core.Http.{HttpError}
use tristar.Core.Security.{AuthUser}
use tristar.Models.Offer.{OfferBrief, OfferStatus, approved, is_critical, with_status}
use tristar.Hub.Store.{
  HubStore, HubStoreLaws, StoreError, redis_unavailable, already_exists, naive_and_aware,
  IsStorable, GetSpec,
}
use tristar.Hub.Change.{updated-Changes}
use tristar.Hub.Routes.{validate_transition}
use tristar.Hub.Routes.Lifecycle.{with_status-IsStorable, get-Same}
use tristar.Designer.Routes
use tristar.Designer.Routes.{DesignerState, with_flags, checked, auto_save}
use tristar.Designer.Routes.Approvals.{recorded-hub, was_draft}
use tristar.Overlap.{
  Response, approving, writing_approval, answered, after_draft, after_current, resume,
}
use tristar.Overlap.Knowledge.{mover, Knows, IsDraft}
use tristar.Overlap.Effects.{updated-others, approves}
use tristar.Overlap.Steps.{Steps, reads, none_moves, elsewhere}

module _ (h : HubStore) (l : HubStoreLaws h) where
  open h use {State}

  drafts-Knows :
      (user : AuthUser) (id : String) (o : OfferBrief) (s s' : State)
      (r : Result StoreError (Option OfferBrief))
      → IsStorable o
      → o.offer_id ≡ id
      → GetSpec (l.view s) (l.view s') id r
      → Knows (l.view s') (after_current user id o r)
        × ((j : String) → mover (after_current user id o r) ≡ some j → some id ≡ some j)
  drafts-Knows user id o s s' (err redis_unavailable) st named sp =
      (tt, λ j m. absurd (ground arith))
  drafts-Knows user id o s s' (err already_exists) st named sp = absurd sp
  drafts-Knows user id o s s' (err naive_and_aware) st named sp = absurd sp
  drafts-Knows user id o s s' (ok none) st named sp = (tt, λ j m. absurd (ground arith))
  drafts-Knows user id o s s' (ok (some stored)) st named sp =
      of (validate_transition stored.status approved) (was_draft h l stored)
    where
      of :
          (r : Result HttpError (Unit {0}))
          → (r ≡ ok tt → stored.status ≡ OfferStatus.draft)
          → Knows (l.view s') (after_draft user id o r)
            × ((j : String) → mover (after_draft user id o r) ≡ some j → some id ≡ some j)
      of (err e) old = (tt, λ j m. absurd (ground arith))
      of (ok _) old = ((st, named, (stored, sp.1 id ∙ sym sp.0, old refl)), λ j m. m)

  pub approving-Steps :
      (user : AuthUser) (id : String) (o : OfferBrief) (s : DesignerState State)
      → IsStorable o
      → l.IsGood s.hub.store
      → Steps h l
          (approving user id o)
          s.hub.store
          (resume h (approving user id o) s).0
          (resume h (approving user id o) s).1.hub.store
  unfolding resume
  approving-Steps user id o s st g = elim (Bool-cases (o.offer_id == id)) [
    | inr other ↦ rw other nothing
    | inl named ↦ elim (Bool-cases (is_critical o.risk_flags.severity)) [
      | inl bad ↦ rw (named, bad) nothing
      | inr harmless ↦
          let (r, store) = h.get id s.hub.store in
          let sp = l.get_lem id s.hub.store g in
          let (k, m) =
            drafts-Knows user id o s.hub.store store r st ((eq_iff o.offer_id id).0 named) sp in
          rw (named, harmless)
            (reads h l (approving user id o) s.hub.store (after_current user id o r) store
              (l.get-IsGood id s.hub.store g)
              (get-Same h l (l.view s.hub.store) (l.view store) id r sp) k m)
    ]
  ]
    where
      nothing :
          {x : Response} → Steps h l (approving user id o) s.hub.store (answered x) s.hub.store
      nothing {x} =
          reads h l (approving user id o) s.hub.store (answered x) s.hub.store g (λ j. refl) tt
            (none_moves h l (approving user id o))

  pub writing_approval-Steps :
      (user : AuthUser) (id : String) (o : OfferBrief) (s : DesignerState State)
      → Knows (l.view s.hub.store) (writing_approval user id o)
      → l.IsGood s.hub.store
      → Steps h l
          (writing_approval user id o)
          s.hub.store
          (resume h (writing_approval user id o) s).0
          (resume h (writing_approval user id o) s).1.hub.store
  unfolding resume Routes.approve
  writing_approval-Steps user id o s (st, named, is) g =
      let v = l.view s.hub.store in
      let p = with_status approved o in
      let ready = with_status-IsStorable approved o st in
      let (r, store) = h.update p s.hub.store in
      let sp = l.update_lem p s.hub.store ready g in
      let same = recorded-hub h l user id p r (record s { hub = record s.hub { store = store } }) in
      rw same (record {
        good = l.update-IsGood p s.hub.store ready g;
        changes =
            updated-Changes p v (l.view store) r
              (approves o (v p.offer_id) (subst (λ (i : String). IsDraft (v i)) (sym named) is)) sp;
        leaves =
            λ j other. updated-others p v (l.view store) r j (elsewhere h l p id j named other) sp;
        knows = tt;
        same_mover = λ j m. absurd (ground arith);
      })
