-- ===== src/Designer/Routes/PurchaseFails.antt =====
-- `generate_purchase_triggered_offer` over the Hub's own interface: the offer is saved, and the caller is
-- told of a failure.

use tristar.Base.{String, true, false, some, ◌≡◌, refl, ap, ◌∙◌, arith, eq_refl}
use tristar.Outcome.{Result, ok, err}
use tristar.Core.Config.{Settings}
use tristar.Core.Http.{internal_error}
use tristar.Core.Security.{AuthUser, Decoded, require_role}
use tristar.Models.Offer.{OfferBrief, active, purchase_triggered, FraudCheckResult}
use tristar.Models.Purchase.{PurchaseContextRequest}
use tristar.Models.Validation.{offer_ok}
use tristar.Hub.Store.{HubStore, HubStoreLaws, StoreError, View, SaveSpec}
use tristar.Hub.Api.{as_json, over_http, post_offers, reply_of}
use tristar.Hub.Api.Keeps.{as_json-IsStorable}
use tristar.Hub.Routes.{HubState, starts_wrong, save_offer}
use tristar.Designer.Fraud.{validate}
use tristar.Designer.Claude.Service.{Backend, Inputs, generate_from_purchase_context}
use tristar.Designer.Claude.Service.PurchaseOffers.{generate_from_purchase_context_lem}
use tristar.Designer.HubClient.{
  Reply, response, object, ClientError, attribute_error, breaks_f003, after_post,
}
use tristar.Designer.HubClient
use tristar.Designer.Routes.{
  DesignerState, with_flags, raise_if_fraud_blocked, delivered, checked_purchase,
  generate_purchase_triggered_offer,
}

module _ (h : HubStore) (l : HubStoreLaws h) (decode : String → Decoded) where
  open h use {State}

  -- an offer of the Claude service for a purchase, as the Hub gets it
  record IsPurchaseOffer (o : OfferBrief) : Type 0 where
    valid : offer_ok o ≡ true
    trigger : o.trigger_type ≡ purchase_triggered
    bare : o.bare_status ≡ true

  valid_json : (o : OfferBrief) → offer_ok o ≡ true → offer_ok (as_json o) ≡ true
  unfolding offer_ok
  valid_json o v = v

  right_start : (o : OfferBrief) → o.trigger_type ≡ purchase_triggered → starts_wrong o ≡ false
  unfolding starts_wrong
  right_start o t = ground arith

  save_offer_ok :
      (user : AuthUser) (o : OfferBrief) (s : HubState State)
      → starts_wrong o ≡ false
      → (h.save o s.store).0 ≡ ok tt
      → ((save_offer h user o s).0 ≡ ok o)
        × ((save_offer h user o s).1.store ≡ (h.save o s.store).1)
  unfolding save_offer
  save_offer_ok user o s right done = rw (right, done) (refl, refl)

  over_http_ok :
      (token : String) (user : AuthUser) (o : OfferBrief) (s : HubState State)
      → IsPurchaseOffer o
      → require_role decode "system" token ≡ ok user
      → (h.save (as_json o) s.store).0 ≡ ok tt
      → ((over_http h decode token o s).0 ≡ response 201 (object (some (as_json o))))
        × ((over_http h decode token o s).1.store ≡ (h.save (as_json o) s.store).1)
  unfolding over_http post_offers
  over_http_ok token user o s p may done =
      let (r, store) = save_offer_ok user (as_json o) s (right_start (as_json o) p.trigger) done in
      rw (may, valid_json o p.valid) (ap reply_of r, store)

  no_breach : (o : OfferBrief) → o.trigger_type ≡ purchase_triggered → breaks_f003 o ≡ false
  unfolding breaks_f003
  no_breach o t = ground arith

  after_created :
      (o p : OfferBrief)
      → o.bare_status ≡ true
      → after_post o (response 201 (object (some p))) ≡ err attribute_error
  unfolding after_post
  after_created o p bare = ground arith

  client_fails :
      (post : OfferBrief → HubState State → Reply OfferBrief × HubState State) (o p : OfferBrief)
      (s : HubState State)
      → IsPurchaseOffer o
      → (post o s).0 ≡ response 201 (object (some p))
      → ((HubClient.save_offer post o s).0 ≡ err attribute_error)
        × ((HubClient.save_offer post o s).1 ≡ (post o s).1)
  unfolding HubClient.save_offer
  client_fails post o p s k e =
      rw (no_breach o k.trigger) (ap (after_post o) e ∙ after_created o p k.bare, refl)

  delivered_fails :
      (post : OfferBrief → HubState State → Reply OfferBrief × HubState State) (m : String)
      (r : Result ClientError OfferBrief) (s : DesignerState State)
      → r ≡ err attribute_error
      → ((delivered post m r s).0 ≡ err internal_error) × ((delivered post m r s).1.hub ≡ s.hub)
  delivered_fails post m (err attribute_error) s e = (refl, refl)
  delivered_fails post m _ s e = absurd (ground arith)

  flagged-IsPurchaseOffer :
      (r : FraudCheckResult) (o : OfferBrief) → IsPurchaseOffer o → IsPurchaseOffer (with_flags r o)
  unfolding offer_ok
  flagged-IsPurchaseOffer r o k = record { valid = k.valid; trigger = k.trigger; bare = k.bare }

  checked_fails :
      (post : OfferBrief → HubState State → Reply OfferBrief × HubState State)
      (ctx : PurchaseContextRequest) (o p : OfferBrief) (s : DesignerState State)
      → (validate s.counts o ctx.member_id).blocked ≡ false
      → IsPurchaseOffer o
      → (post (with_flags (validate s.counts o ctx.member_id) o) s.hub).0
        ≡ response 201 (object (some p))
      → ((checked_purchase post ctx (ok o) s).0 ≡ err internal_error)
        × ((checked_purchase post ctx (ok o) s).1.hub
            ≡ (post (with_flags (validate s.counts o ctx.member_id) o) s.hub).1)
  unfolding checked_purchase raise_if_fraud_blocked
  checked_fails post ctx o p s passed k e =
      let flagged = with_flags (validate s.counts o ctx.member_id) o in
      let (r, hub) =
        client_fails post flagged p s.hub
          (flagged-IsPurchaseOffer (validate s.counts o ctx.member_id) o k) e in
      let (a, b) =
        delivered_fails post ctx.member_id (HubClient.save_offer post flagged s.hub).0 _ r in
      rw passed (a, b ∙ hub)

  saved_view :
      (o : OfferBrief) (v v' : View) (r : Result StoreError (Unit {0}))
      → SaveSpec v v' o r
      → r ≡ ok tt
      → v' o.offer_id ≡ some o
  saved_view o v v' (ok _) sp e = sp.1 o.offer_id ∙ rw eq_refl refl
  saved_view o v v' (err x) sp e = absurd (ground arith)

  -- Where the client reaches a good store of the Hub with a token of the system role, an offer that
  -- passes the fraud check and that the store saves is in the Hub as an active offer afterwards,
  -- and the caller is answered with an internal error all the same.
  pub purchase_saved_but_failed :
      (b : Backend) (cfg : Settings) (token : String) (user : AuthUser)
      (ctx : PurchaseContextRequest) (i : Inputs) (s : DesignerState State) {o : OfferBrief}
      → l.IsGood s.hub.store
      → generate_from_purchase_context b cfg ctx i ≡ ok o
      → require_role decode "system" token ≡ ok user
      → (validate s.counts o ctx.member_id).blocked ≡ false
      → (h.save (as_json (with_flags (validate s.counts o ctx.member_id) o)) s.hub.store).0 ≡ ok tt
      → let (answer, s') =
          generate_purchase_triggered_offer (over_http h decode token) b cfg ctx i s in
        (answer ≡ err internal_error)
        × (o.status ≡ active)
        × (l.view s'.hub.store o.offer_id
            ≡ some (as_json (with_flags (validate s.counts o ctx.member_id) o)))
  unfolding generate_purchase_triggered_offer
  purchase_saved_but_failed b cfg token user ctx i s {o} g made may passed done =
      let v = validate s.counts o ctx.member_id in
      let body = as_json (with_flags v o) in
      let (valid, trigger, _, act, bare, _) = generate_from_purchase_context_lem b cfg ctx i made in
      let k : IsPurchaseOffer o = record { valid = valid; trigger = trigger; bare = bare } in
      let k' = flagged-IsPurchaseOffer v o k in
      let (reply, stored) = over_http_ok token user (with_flags v o) s.hub k' may done in
      let (failed, hub) = checked_fails (over_http h decode token) ctx o body s passed k reply in
      let st = as_json-IsStorable (with_flags v o) (valid_json (with_flags v o) k'.valid) in
      rw made (
        failed,
        act,
        ap (λ (x : HubState State). l.view x.store o.offer_id) hub
            ∙ ap (λ (x : State). l.view x o.offer_id) stored
            ∙ saved_view body (l.view s.hub.store) (l.view (h.save body s.hub.store).1)
                (h.save body s.hub.store).0 (l.save_lem body s.hub.store st g) done,
      )
