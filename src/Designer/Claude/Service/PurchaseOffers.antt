-- ===== src/Designer/Claude/Service/PurchaseOffers.antt =====
-- What `generate_from_purchase_context` returns.
use tristar.Base.{◌+◌, ◌*◌, true, some, ◌≡◌, refl, arith, take}
use mathlib.Core.Path.{subst}
use tristar.Clock.{naive, hour}
use tristar.Outcome.{Result, ok, err}
use tristar.Core.Config.{Settings}
use tristar.Models.Offer.{OfferBrief, active, purchase_triggered}
use tristar.Models.Purchase.{PurchaseContextRequest}
use tristar.Models.Validation.{offer_ok, valid_until_ok}
use tristar.Hub.Store.{IsStorable}
use tristar.Designer.Claude.Parse.{ClaudeError}
use tristar.Designer.Claude.Service.{
  Backend, Inputs, purchase, ask, activated, personalized, generate_from_purchase_context,
}
use tristar.Designer.Claude.Service.FromClaude.{FromClaude, ok_inj, ask-FromClaude}

activated_ok :
    (b : Backend) (cfg : Settings) (i : Inputs) (o : OfferBrief)
    → IsStorable o
    → offer_ok (activated b cfg i o) ≡ true
unfolding activated offer_ok valid_until_ok
activated_ok b cfg i o st = let v = st.valid in ground arith

module _ (b : Backend) (cfg : Settings) where
  -- An offer for a purchase has passed validation, runs out the set time after the call, is
  -- purchase-triggered and has the new id; its status is the bare text `active`.
  pub generate_from_purchase_context_lem :
      (ctx : PurchaseContextRequest) (i : Inputs) {o : OfferBrief}
      → generate_from_purchase_context b cfg ctx i ≡ ok o
      → (offer_ok o ≡ true)
        × (o.trigger_type ≡ purchase_triggered)
        × (o.offer_id ≡ i.uuid)
        × (o.status ≡ active)
        × (o.bare_status ≡ true)
        × (o.valid_until ≡ some (naive (i.store_now + cfg.offer_valid_until_hours * hour)))
  unfolding generate_from_purchase_context activated
  generate_from_purchase_context_lem ctx i {o} h =
      by_answer (ask b (purchase ctx (take 3 ctx.nearby_ctc_stores)) purchase_triggered)
        (λ p e.
          ask-FromClaude b cfg (purchase ctx (take 3 ctx.nearby_ctc_stores)) purchase_triggered e)
        h
    where
      by_answer :
          (r : Result ClaudeError OfferBrief)
          → ((p : OfferBrief) → r ≡ ok p → FromClaude purchase_triggered p)
          → personalized b cfg i r ≡ ok o
          → (offer_ok o ≡ true)
            × (o.trigger_type ≡ purchase_triggered)
            × (o.offer_id ≡ i.uuid)
            × (o.status ≡ active)
            × (o.bare_status ≡ true)
            × (o.valid_until ≡ some (naive (i.store_now + cfg.offer_valid_until_hours * hour)))
      by_answer (err e) f h = absurd (ground arith)
      by_answer (ok p) f h =
          subst
            (λ (q : OfferBrief).
              (offer_ok q ≡ true)
              × (q.trigger_type ≡ purchase_triggered)
              × (q.offer_id ≡ i.uuid)
              × (q.status ≡ active)
              × (q.bare_status ≡ true)
              × (q.valid_until ≡ some (naive (i.store_now + cfg.offer_valid_until_hours * hour))))
            (ok_inj refl h) (activated_ok b cfg i p (f p refl).0, refl, refl, refl, refl, refl)
