-- ===== src/Designer/Api/Keeps.antt =====
-- The Designer's interface (src/backend/api/designer.py), the life of an offer and the cache.
use mathlib.Core.Path.{subst}
use tristar.Base.{String, Bool, true, false, ◌≡◌, ◌≢◌, refl, sym, Bool-cases, inl, inr}
use tristar.Outcome.{Result, ok, err}
use tristar.Core.Config.{Settings}
use tristar.Core.Http.{HttpError}
use tristar.Core.Security.{AuthUser, Decoded, require_role}
use tristar.Models.Offer.{OfferBrief, active, GenerateOfferRequest}
use tristar.Models.Purchase.{PurchaseContextRequest}
use tristar.Models.Validation.{offer_ok, objective_ok, context_ok}
use tristar.Hub.Store.{HubStore, HubStoreLaws}
use tristar.Hub.Routes.Lifecycle.{Keeps, same-Keeps}
use tristar.Hub.Api.{as_json, with_user, with_body, over_http}
use tristar.Hub.Api.Keeps.{as_json-IsStorable, over_http-Keeps}
use tristar.Designer.Api.{if_valid, post_generate, post_generate_purchase, post_approve_id}
use tristar.Designer.Claude.Service.{Backend, Inputs, generate_from_objective}
use tristar.Designer.Claude.Service.FromClaude.{CacheOk}
use tristar.Designer.Routes.{
  DesignerState, generate_offer_brief, approve_offer, generate_purchase_triggered_offer,
}
use tristar.Designer.Routes.Drafts.{generate_offer_brief-Keeps, generate_offer_brief-cache}
use tristar.Designer.Routes.Approvals.{approve_offer-Keeps, approve_offer-cache}
use tristar.Designer.Routes.PurchaseKeeps.{purchase-Keeps}

module _ (h : HubStore) (l : HubStoreLaws h) where
  open h use {State}

  -- what each handler may rely on
  pub record IsSound (s : DesignerState State) : Type 0 where
    pub good : l.IsGood s.hub.store
    pub cache_ok : CacheOk s.cache

  -- what each handler leaves behind
  pub record Sound (s s' : DesignerState State) : Type 0 where
    pub hub : Keeps h l s.hub s'.hub
    pub cache : CacheOk s'.cache

  same-Sound : (s : DesignerState State) → IsSound s → Sound s s
  same-Sound s k = record { hub = same-Keeps h l s.hub s.hub refl k.good; cache = k.cache_ok }

  with_user-Sound :
      {A : Type 0} (r : Result HttpError AuthUser)
      (handler : AuthUser → DesignerState State → Result HttpError A × DesignerState State)
      (s : DesignerState State)
      → ((user : AuthUser) → Sound s (handler user s).1)
      → IsSound s
      → Sound s (with_user r handler s).1
  with_user-Sound (err e) handler s f k = same-Sound s k
  with_user-Sound (ok user) handler s f k = f user

  if_valid-Sound :
      {A : Type 0} (valid : Bool)
      (handler : DesignerState State → Result HttpError A × DesignerState State)
      (s : DesignerState State)
      → Sound s (handler s).1
      → IsSound s
      → Sound s (if_valid valid handler s).1
  if_valid-Sound true handler s f k = f
  if_valid-Sound false handler s f k = same-Sound s k

  approve_body-Sound :
      (user : AuthUser) (id : String) (o : OfferBrief) (s : DesignerState State)
      → IsSound s
      → Sound s (with_body o (approve_offer h user id) s).1
  approve_body-Sound user id o s k = elim (Bool-cases (offer_ok (as_json o))) [
    | inr invalid ↦ rw invalid (same-Sound s k)
    | inl valid ↦ rw valid (record {
      hub = approve_offer-Keeps h l user id (as_json o) s (as_json-IsStorable o valid) k.good;
      cache = subst CacheOk (sym (approve_offer-cache h l user id (as_json o) s)) k.cache_ok;
    })
  ]

  module _ (decode : String → Decoded) (s : DesignerState State) (k : IsSound s) where
    pub post_approve_id-Sound :
        (token id : String) (o : OfferBrief) → Sound s (post_approve_id h decode token id o s).1
    unfolding post_approve_id
    post_approve_id-Sound token id o =
        with_user-Sound (require_role decode "marketing" token)
          (λ user. with_body o (approve_offer h user id)) s
          (λ user. approve_body-Sound user id o s k) k

    pub post_generate-Sound :
        (b : Backend) (cfg : Settings) (token : String) (request : GenerateOfferRequest)
        (i : Inputs)
        → ((o : OfferBrief)
            → (generate_from_objective b cfg request.objective request.segment_hints i s.cache).0
              ≡ ok o
            → o.status ≢ active)
        → Sound s (post_generate h decode b cfg token request i s).1
    unfolding post_generate
    post_generate-Sound b cfg token request i f =
        with_user-Sound (require_role decode "marketing" token)
          (λ user.
            if_valid (objective_ok request.objective) (generate_offer_brief h b cfg user request i))
          s
          (λ user.
            if_valid-Sound (objective_ok request.objective)
              (generate_offer_brief h b cfg user request i) s
              (record {
                hub = generate_offer_brief-Keeps h l b cfg user request i s k.cache_ok k.good f;
                cache = generate_offer_brief-cache h l b cfg user request i s k.cache_ok;
              })
              k)
          k

    pub post_generate_purchase-Sound :
        (b : Backend) (cfg : Settings) (token hub_token : String) (ctx : PurchaseContextRequest)
        (i : Inputs)
        → Sound s (post_generate_purchase h decode b cfg token hub_token ctx i s).1
    unfolding post_generate_purchase
    post_generate_purchase-Sound b cfg token hub_token ctx i =
        let post = over_http h decode hub_token in
        let (kept, same) =
          purchase-Keeps h l post (λ o hub g. over_http-Keeps h l decode hub_token hub g o) b cfg
            ctx i s k.good in
        with_user-Sound (require_role decode "system" token)
          (λ user. if_valid (context_ok ctx) (generate_purchase_triggered_offer post b cfg ctx i)) s
          (λ user.
            if_valid-Sound (context_ok ctx) (generate_purchase_triggered_offer post b cfg ctx i) s
              (record { hub = kept; cache = subst CacheOk (sym same) k.cache_ok }) k)
          k
