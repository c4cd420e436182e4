-- ===== src/Designer/Routes/PurchaseKeeps.antt =====
-- `generate_purchase_triggered_offer` and the Hub it calls over the network.
use mathlib.Core.Path.{subst}
use tristar.Base.{String, ◌≡◌, refl, sym, Bool-cases, inl, inr}
use tristar.Outcome.{Result, ok, err}
use tristar.Core.Config.{Settings}
use tristar.Models.Offer.{OfferBrief}
use tristar.Models.Purchase.{PurchaseContextRequest}
use tristar.Hub.Store.{HubStore, HubStoreLaws}
use tristar.Hub.Routes.{HubState}
use tristar.Hub.Routes.Lifecycle.{Keeps, same-Keeps}
use tristar.Designer.Fraud.{validate}
use tristar.Designer.Claude.Parse.{ClaudeError}
use tristar.Designer.Claude.Service.{Backend, Inputs, generate_from_purchase_context}
use tristar.Designer.HubClient.{Reply, ClientError, breaks_f003, save_offer}
use tristar.Designer.Routes.{
  DesignerState, with_flags, raise_if_fraud_blocked, delivered, checked_purchase,
  generate_purchase_triggered_offer,
}

module _ (h : HubStore) (l : HubStoreLaws h) where
  open h use {State}

  module _ (post : OfferBrief → HubState State → Reply OfferBrief × HubState State)
      (post-Keeps : (o : OfferBrief) (s : HubState State)
        → l.IsGood s.store
        → Keeps h l s (post o s).1) where
    save_offer-Keeps :
        (o : OfferBrief) (s : HubState State)
        → l.IsGood s.store
        → Keeps h l s (save_offer post o s).1
    unfolding save_offer
    save_offer-Keeps o s g = elim (Bool-cases (breaks_f003 o)) [
      | inl wrong ↦ rw wrong (same-Keeps h l s s refl g)
      | inr right ↦ rw right (post-Keeps o s g)
    ]

    delivered-hub :
        (m : String) (r : Result ClientError OfferBrief) (s : DesignerState State)
        → ((delivered post m r s).1.hub ≡ s.hub) × ((delivered post m r s).1.cache ≡ s.cache)
    delivered-hub m (ok o) s = (refl, refl)
    delivered-hub m (err e) s = (refl, refl)

    checked-Keeps :
        (ctx : PurchaseContextRequest) (r : Result ClaudeError OfferBrief) (s : DesignerState State)
        → l.IsGood s.hub.store
        → Keeps h l s.hub (checked_purchase post ctx r s).1.hub
          × ((checked_purchase post ctx r s).1.cache ≡ s.cache)
    unfolding checked_purchase raise_if_fraud_blocked
    checked-Keeps ctx (err e) s g = (same-Keeps h l s.hub s.hub refl g, refl)
    checked-Keeps ctx (ok o) s g =
        let v = validate s.counts o ctx.member_id in
        elim (Bool-cases v.blocked) [
          | inl blocked ↦ rw blocked (same-Keeps h l s.hub s.hub refl g, refl)
          | inr passed ↦
              let (r, hub) = save_offer post (with_flags v o) s.hub in
              let kept = save_offer-Keeps (with_flags v o) s.hub g in
              rw passed (
                subst (Keeps h l s.hub) (sym (delivered-hub ctx.member_id r _).0) kept,
                (delivered-hub ctx.member_id r _).1,
              )
        ]

    -- Over a network that changes the Hub along the life of an offer only, so does the handler, and it
    -- leaves the cache alone.
    pub purchase-Keeps :
        (b : Backend) (cfg : Settings) (ctx : PurchaseContextRequest) (i : Inputs)
        (s : DesignerState State)
        → l.IsGood s.hub.store
        → Keeps h l s.hub (generate_purchase_triggered_offer post b cfg ctx i s).1.hub
          × ((generate_purchase_triggered_offer post b cfg ctx i s).1.cache ≡ s.cache)
    unfolding generate_purchase_triggered_offer
    purchase-Keeps b cfg ctx i s g =
        checked-Keeps ctx (generate_from_purchase_context b cfg ctx i) s g
