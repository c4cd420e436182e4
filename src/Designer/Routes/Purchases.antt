-- ===== src/Designer/Routes/Purchases.antt =====
-- `generate_purchase_triggered_offer`: what Scout gets back.
use tristar.Base.{String, true, ◌≡◌, ◌≢◌, inl, inr, refl, arith, Bool-cases}
use tristar.Outcome.{Result, ok, err}
use tristar.Core.Config.{Settings}
use tristar.Models.Offer.{OfferBrief}
use tristar.Models.Purchase.{PurchaseContextRequest}
use tristar.Hub.Routes.{HubState}
use tristar.Designer.Fraud.{validate}
use tristar.Designer.Claude.Parse.{ClaudeError}
use tristar.Designer.Claude.Service.{Backend, Inputs, generate_from_purchase_context}
use tristar.Designer.Claude.Service.PurchaseOffers.{generate_from_purchase_context_lem}
use tristar.Designer.HubClient.{
  Reply, unreachable, response, not_json, not_object, object, ClientError, after_post, save_offer,
}
use tristar.Designer.Routes.{
  DesignerState, with_flags, raise_if_fraud_blocked, delivered, checked_purchase,
  generate_purchase_triggered_offer,
}

after_post-bare :
    (o : OfferBrief) (reply : Reply OfferBrief)
    → o.bare_status ≡ true
    → (p : OfferBrief) → after_post o reply ≢ ok p
unfolding after_post
after_post-bare o unreachable bare p = λ e. absurd (ground arith)
after_post-bare o (response code not_json) bare p = λ e. absurd (ground arith)
after_post-bare o (response code not_object) bare p = λ e. absurd (ground arith)
after_post-bare o (response code (object q)) bare p = λ e. absurd (ground arith)

module _ {H : Type 0} (post : OfferBrief → HubState H → Reply OfferBrief × HubState H) where
  save_offer-bare :
      (o : OfferBrief) (hub : HubState H)
      → o.bare_status ≡ true
      → (p : OfferBrief) → (save_offer post o hub).0 ≢ ok p
  unfolding save_offer
  save_offer-bare o hub bare p =
      let never = after_post-bare o (post o hub).0 bare p in λ e. absurd (ground arith)

  delivered-error :
      (m : String) (r : Result ClientError OfferBrief) (s : DesignerState H)
      → ((p : OfferBrief) → r ≢ ok p)
      → ((p : OfferBrief) → (delivered post m r s).0 ≢ ok p)
        × ((delivered post m r s).1.counts ≡ s.counts)
  delivered-error m (err e) s never = (λ p e. absurd (ground arith), refl)
  delivered-error m (ok p) s never = absurd (never p refl)

  checked-error :
      (ctx : PurchaseContextRequest) (r : Result ClaudeError OfferBrief) (s : DesignerState H)
      → ((o : OfferBrief) → r ≡ ok o → o.bare_status ≡ true)
      → ((p : OfferBrief) → (checked_purchase post ctx r s).0 ≢ ok p)
        × ((checked_purchase post ctx r s).1.counts ≡ s.counts)
  unfolding checked_purchase raise_if_fraud_blocked
  checked-error ctx (err e) s bare = (λ p e. absurd (ground arith), refl)
  checked-error ctx (ok o) s bare =
      let v = validate s.counts o ctx.member_id in
      elim (Bool-cases v.blocked) [
        | inl blocked ↦ rw blocked (λ p e. absurd (ground arith), refl)
        | inr passed ↦ rw passed (
            delivered-error ctx.member_id (save_offer post (with_flags v o) s.hub).0 _
              (save_offer-bare (with_flags v o) s.hub (bare o refl)))
      ]

  -- The handler never returns an offer, whatever Claude answers and whatever the Hub replies, and
  -- never counts one for the member.
  pub purchase_never_returned :
      (b : Backend) (cfg : Settings) (ctx : PurchaseContextRequest) (i : Inputs)
      (s : DesignerState H)
      → ((p : OfferBrief) → (generate_purchase_triggered_offer post b cfg ctx i s).0 ≢ ok p)
        × ((generate_purchase_triggered_offer post b cfg ctx i s).1.counts ≡ s.counts)
  unfolding generate_purchase_triggered_offer
  purchase_never_returned b cfg ctx i s =
      checked-error ctx (generate_from_purchase_context b cfg ctx i) s (λ o e.
        let (_, _, _, _, bare, _) = generate_from_purchase_context_lem b cfg ctx i e in bare)
