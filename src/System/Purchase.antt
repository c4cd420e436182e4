-- ===== src/System/Purchase.antt =====
-- A purchase from Scout's webhook to the Designer and back: `process_purchase_event` of
-- src/backend/api/scout.py with POST /generate-purchase of src/backend/api/designer.py at the other end.
use tristar.Base.{
  ℕ, String, Bool, true, false, Option, none, some, List, [], ◌∷◌, ◌≡◌, ◌≢◌, inl, inr, refl, arith,
}
use tristar.Outcome.{Result, ok, err}
use tristar.Core.Config.{Settings}
use tristar.Core.Http.{HttpError}
use tristar.Core.Security.{AuthUser, Decoded, require_role}
use tristar.Models.Offer.{OfferBrief}
use tristar.Models.Purchase.{PurchaseEventPayload, PurchaseContextRequest}
use tristar.Models.Validation.{context_ok}
use tristar.Hub.Store.{HubStore}
use tristar.Hub.Api.{with_user, over_http}
use tristar.Scout.Scoring.{score}
use tristar.Scout.ServiceAuth.{get_valid_token}
use tristar.Scout.Routes
use tristar.Scout.Routes.{
  World, Readings, Reply, replied, no_reply, Answer, offer_generated_and_delivered,
  process_purchase_event, purchase_context,
}
use tristar.Scout.Routes.Gates.{offer_needs_gates}
use tristar.Scout.Routes.Failures.{offer_or_nothing}
use tristar.Designer.Claude.Service.{Backend, Inputs}
use tristar.Designer.Routes.{DesignerState, generate_purchase_triggered_offer}
use tristar.Designer.Routes.Purchases.{purchase_never_returned}
use tristar.Designer.Api.{if_valid, post_generate_purchase}

-- what becomes of the call of the Designer
pub data Network : Type 0 where
  works loses_request loses_reply : Network

-- the reply as Scout has it
abbrev reply_of : Network → Result HttpError OfferBrief → Reply
reply_of works (ok o) = replied 201 (some o)
reply_of works (err e) = replied e.status none
reply_of loses_request answer = no_reply
reply_of loses_reply answer = no_reply

-- the requests that were added to a list
abbrev added :
    List PurchaseContextRequest → List PurchaseContextRequest → List PurchaseContextRequest
added [] after = after
added (_ ∷ before) [] = []
added (_ ∷ before) (_ ∷ after) = added before after

module _ (h : HubStore) (decode : String → Decoded) (b : Backend) (hub_token : String) where
  open h use {State}

  -- the Designer's part, for each request that reached it
  abbrev served :
      Settings
      → String
      → Inputs
      → Network
      → List PurchaseContextRequest
      → DesignerState State
      → DesignerState State
  served cfg token i loses_request requests d = d
  served cfg token i network [] d = d
  served cfg token i network (ctx ∷ requests) d =
      (post_generate_purchase h decode b cfg token hub_token ctx i d).1

  -- the world of Scout with this Designer in it
  abbrev with_designer :
      World → Readings → Inputs → Network → Routes.State → DesignerState State → World
  with_designer w r i network s d = record w {
    designer = λ ctx.
        let token = (get_valid_token w.encode s.auth r.token_now r.token_later).0 in
        reply_of network (post_generate_purchase h decode b w.cfg token hub_token ctx i d).0;
  }

  -- one event, with the state of Scout and that of the Designer
  unfoldable pub purchase_event :
      World
      → PurchaseEventPayload
      → List ℕ
      → Option String
      → Readings
      → Inputs
      → Network
      → Routes.State
      → DesignerState State
      → Result HttpError Answer × Routes.State × DesignerState State
  unfolding process_purchase_event post_generate_purchase
  purchase_event w event body signature r i network s d =
      let token = (get_valid_token w.encode s.auth r.token_now r.token_later).0 in
      let (answer, s') =
        process_purchase_event (with_designer w r i network s d) event body signature r s in
      (answer, s', served w.cfg token i network (added s.asked s'.asked) d)

  never_ok :
      (role : Result HttpError AuthUser) (valid : Bool)
      (handler : DesignerState State → Result HttpError OfferBrief × DesignerState State)
      (d : DesignerState State)
      → ((p : OfferBrief) → (handler d).0 ≢ ok p)
      → (handler d).1.counts ≡ d.counts
      → ((p : OfferBrief) → (with_user role (λ _. if_valid valid handler) d).0 ≢ ok p)
        × ((with_user role (λ _. if_valid valid handler) d).1.counts ≡ d.counts)
  never_ok (err e) valid handler d never same = (λ p e'. absurd (ground arith), refl)
  never_ok (ok user) true handler d never same = (never, same)
  never_ok (ok user) false handler d never same = (λ p e'. absurd (ground arith), refl)

  -- The Designer's route never gives an offer.
  route_never_ok :
      (cfg : Settings) (token : String) (ctx : PurchaseContextRequest) (i : Inputs)
      (d : DesignerState State)
      → ((p : OfferBrief)
          → (post_generate_purchase h decode b cfg token hub_token ctx i d).0 ≢ ok p)
        × ((post_generate_purchase h decode b cfg token hub_token ctx i d).1.counts ≡ d.counts)
  unfolding post_generate_purchase
  route_never_ok cfg token ctx i d =
      let (never, same) = purchase_never_returned (over_http h decode hub_token) b cfg ctx i d in
      never_ok (require_role decode "system" token) (context_ok ctx)
        (generate_purchase_triggered_offer (over_http h decode hub_token) b cfg ctx i) d never same

  no_reply_with_offer :
      (network : Network) (r : Result HttpError OfferBrief) (o : OfferBrief)
      → ((p : OfferBrief) → r ≢ ok p)
      → reply_of network r ≢ replied 201 (some o)
  no_reply_with_offer works (ok p) o never e = never p refl
  no_reply_with_offer works (err e) o never e' = ground arith
  no_reply_with_offer loses_request r o never e = ground arith
  no_reply_with_offer loses_reply r o never e = ground arith

  served-counts :
      (cfg : Settings) (token : String) (i : Inputs) (network : Network)
      (requests : List PurchaseContextRequest) (d : DesignerState State)
      → (served cfg token i network requests d).counts ≡ d.counts
  served-counts cfg token i loses_request requests d = refl
  served-counts cfg token i works [] d = refl
  served-counts cfg token i works (ctx ∷ requests) d = (route_never_ok cfg token ctx i d).1
  served-counts cfg token i loses_reply [] d = refl
  served-counts cfg token i loses_reply (ctx ∷ requests) d = (route_never_ok cfg token ctx i d).1

  -- With the Designer of this program at the other end, no purchase event brings a member an offer: whatever
  -- the event, the settings, the answers of Claude and of the Hub and the state of the network, Scout
  -- does not answer that an offer was delivered, records no delivery and sends no notification, and the
  -- Designer counts no offer for the member.
  pub no_purchase_offer :
      (w : World) (event : PurchaseEventPayload) (body : List ℕ) (signature : Option String)
      (r : Readings) (i : Inputs) (network : Network) (s : Routes.State) (d : DesignerState State)
      → let (answer, s', d') = purchase_event w event body signature r i network s d in
        ((offer_id : String) (total : ℕ)
          → answer ≢ ok (offer_generated_and_delivered offer_id total))
        × (s'.constraints.delivery_log ≡ s.constraints.delivery_log)
        × (s'.sent ≡ s.sent)
        × (d'.counts ≡ d.counts)
  unfolding purchase_event
  no_purchase_offer w event body signature r i network s d =
      let token = (get_valid_token w.encode s.auth r.token_now r.token_later).0 in
      let w' = with_designer w r i network s d in
      let never =
        λ (offer_id : String) (total : ℕ)
            (e : (process_purchase_event w' event body signature r s).0
              ≡ ok (offer_generated_and_delivered offer_id total)).
          let g = offer_needs_gates w' event body signature r s e in
          let ctx =
            purchase_context event g.context
              (score w.cfg.purchase_trigger_score_threshold g.context) in
          no_reply_with_offer network _ g.offer (route_never_ok w.cfg token ctx i d).0 g.answered in
      let counted =
        served-counts w.cfg token i network
          (added s.asked (process_purchase_event w' event body signature r s).1.asked) d in
      elim (offer_or_nothing w' event body signature r s) [
        | inl (offer_id, total, e) ↦ absurd (never offer_id total e)
        | inr (log, sent) ↦ (never, log, sent, counted)
      ]
