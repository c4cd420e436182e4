-- ===== src/Overlap/Steps/Moves.antt =====
-- The two steps of `update_offer_status`.
use mathlib.Core.Path.{subst}
use tristar.Base.{String, Option, none, some, ◌≡◌, inl, refl, arith, sym, ◌∙◌}
use tristar.Outcome.{Result, ok, err}
use tristar.Core.Http.{HttpError}
use tristar.Core.Security.{AuthUser}
use tristar.Models.Offer.{OfferBrief, OfferStatus, with_status}
use tristar.Hub.Store.{HubStore, HubStoreLaws, StoreError, GetSpec}
use tristar.Hub.Change.{Allowed, updated-Changes, validate_transition-Allowed}
use tristar.Hub.Routes.{validate_transition, move}
use tristar.Hub.Routes.Lifecycle.{with_status-IsStorable, get-Same, updated-store}
use tristar.Designer.Routes.{DesignerState}
use tristar.Overlap.{changing, writing_status, after_validation, after_read, resume}
use tristar.Overlap.Knowledge.{mover, Knows, IsRead}
use tristar.Overlap.Effects.{updated-others, changes_status}
use tristar.Overlap.Steps.{Steps, reads, elsewhere}

module _ (h : HubStore) (l : HubStoreLaws h) where
  open h use {State}

  -- What a change of status knows after its read.
  read-Knows :
      (user : AuthUser) (id : String) (new : OfferStatus) (s s' : State)
      (r : Result StoreError (Option OfferBrief))
      → l.IsGood s'
      → GetSpec (l.view s) (l.view s') id r
      → Knows (l.view s') (after_read user id new r)
        × ((j : String) → mover (after_read user id new r) ≡ some j → some id ≡ some j)
  read-Knows user id new s s' (err e) g sp = (tt, λ j m. absurd (ground arith))
  read-Knows user id new s s' (ok none) g sp = (tt, λ j m. absurd (ground arith))
  read-Knows user id new s s' (ok (some o)) g sp =
      of (validate_transition o.status new) (λ e. (validate_transition-Allowed o.status new).0 e)
    where
      there : l.view s' id ≡ some o
      there = sp.1 id ∙ sym sp.0

      of :
          (r : Result HttpError (Unit {0}))
          → (r ≡ ok tt → Allowed o.status new)
          → Knows (l.view s') (after_validation user id o new r)
            × ((j : String) → mover (after_validation user id o new r) ≡ some j → some id ≡ some j)
      of (err e) allowed = (tt, λ j m. absurd (ground arith))
      of (ok _) allowed = (
        (l.view-IsStorable id s' g there, l.view-id id s' g there, allowed refl, inl there),
        λ j m. m,
      )

  pub changing-Steps :
      (user : AuthUser) (id : String) (new : OfferStatus) (s : DesignerState State)
      → l.IsGood s.hub.store
      → Steps h l
          (changing user id new)
          s.hub.store
          (resume h (changing user id new) s).0
          (resume h (changing user id new) s).1.hub.store
  unfolding resume
  changing-Steps user id new s g =
      let (r, store) = h.get id s.hub.store in
      let good = l.get-IsGood id s.hub.store g in
      let sp = l.get_lem id s.hub.store g in
      let (k, m) = read-Knows user id new s.hub.store store r good sp in
      reads h l (changing user id new) s.hub.store (after_read user id new r) store good
        (get-Same h l (l.view s.hub.store) (l.view store) id r sp) k m

  pub writing_status-Steps :
      (user : AuthUser) (id : String) (o : OfferBrief) (new : OfferStatus) (s : DesignerState State)
      → Knows (l.view s.hub.store) (writing_status user id o new)
      → l.IsGood s.hub.store
      → Steps h l
          (writing_status user id o new)
          s.hub.store
          (resume h (writing_status user id o new) s).0
          (resume h (writing_status user id o new) s).1.hub.store
  unfolding resume move
  writing_status-Steps user id o new s (st, named, allowed, is) g =
      let v = l.view s.hub.store in
      let p = with_status new o in
      let ready = with_status-IsStorable new o st in
      let (r, store) = h.update p s.hub.store in
      let sp = l.update_lem p s.hub.store ready g in
      let same = updated-store h l user id o new r (record s.hub { store = store }) in
      rw same (record {
        good = l.update-IsGood p s.hub.store ready g;
        changes =
            updated-Changes p v (l.view store) r
              (changes_status o new (v p.offer_id) allowed
                (subst (λ (i : String). IsRead (v i) o new) (sym named) is))
              sp;
        leaves =
            λ j other. updated-others p v (l.view store) r j (elsewhere h l p id j named other) sp;
        knows = tt;
        same_mover = λ j m. absurd (ground arith);
      })
