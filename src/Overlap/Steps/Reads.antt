-- ===== src/Overlap/Steps/Reads.antt =====
-- The steps that only read: `get_offer` and `list_offers`.

use tristar.Base.{String, Option}
use tristar.Clock.{DateTime}
use tristar.Core.Security.{AuthUser}
use tristar.Models.Offer.{OfferStatus, TriggerType}
use tristar.Hub.Store.{HubStore, HubStoreLaws}
use tristar.Hub.Routes.{get_offer, list_offers, since_utc}
use tristar.Hub.Routes.Lifecycle.{get-Same, list-Same, read-store, listed-store}
use tristar.Designer.Routes.{DesignerState}
use tristar.Overlap.{Task, reading, resume}
use tristar.Overlap.Steps.{Steps, reads, none_moves}

module _ (h : HubStore) (l : HubStoreLaws h) where
  open h use {State}

  pub reading-Steps :
      (user : AuthUser) (id : String) (s : DesignerState State)
      → l.IsGood s.hub.store
      → Steps h l
          (reading user id)
          s.hub.store
          (resume h (reading user id) s).0
          (resume h (reading user id) s).1.hub.store
  unfolding resume get_offer
  reading-Steps user id s g =
      let (r, store) = h.get id s.hub.store in
      let same = read-store h l user id r (record s.hub { store = store }) in
      reads h l (reading user id) s.hub.store _ _ (rw same (l.get-IsGood id s.hub.store g))
        (rw same
          (get-Same h l (l.view s.hub.store) (l.view store) id r (l.get_lem id s.hub.store g)))
        tt (none_moves h l (reading user id))

  pub listing-Steps :
      (st : Option OfferStatus) (member : Option String) (t : Option TriggerType)
      (since : Option DateTime) (s : DesignerState State)
      → l.IsGood s.hub.store
      → Steps h l
          (Task.listing st member t since)
          s.hub.store
          (resume h (Task.listing st member t since) s).0
          (resume h (Task.listing st member t since) s).1.hub.store
  unfolding resume list_offers
  listing-Steps st member t since s g =
      let from = since_utc h since in
      let (r, store) = h.list st t from s.hub.store in
      let same = listed-store h l r (record s.hub { store = store }) in
      reads h l (Task.listing st member t since) s.hub.store _ _
        (rw same (l.list-IsGood st t from s.hub.store g))
        (rw same (
          list-Same h l (l.view s.hub.store) (l.view store) st r
            (l.list_lem st t from s.hub.store g)))
        tt (none_moves h l (Task.listing st member t since))
