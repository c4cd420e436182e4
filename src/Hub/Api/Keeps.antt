-- ===== src/Hub/Api/Keeps.antt =====
-- The Hub's interface (src/backend/api/hub.py) and the life of an offer, over every request.
use tristar.Base.{String, true, ◌≡◌, Option, refl, Bool-cases, inl, inr}
use tristar.Clock.{DateTime}
use tristar.Outcome.{Result, ok, err}
use tristar.Core.Http.{HttpError}
use tristar.Core.Security.{AuthUser, Decoded, get_current_user, require_role}
use tristar.Models.Offer.{OfferBrief, OfferStatus, TriggerType}
use tristar.Models.Validation.{offer_ok}
use tristar.Hub.Api.{
  as_json, with_user, with_body, post_offers, get_offers_id, get_offers, put_offers_id_status,
  over_http,
}
use tristar.Hub.Store.{HubStore, HubStoreLaws, IsStorable}
use tristar.Hub.Routes.{HubState, save_offer, get_offer, list_offers, update_offer_status}
use tristar.Hub.Routes.Lifecycle.{
  Keeps, same-Keeps, save_offer-Keeps, get_offer-Keeps, list_offers-Keeps,
  update_offer_status-Keeps,
}

-- A JSON body that validates can be stored.
pub as_json-IsStorable : (o : OfferBrief) → offer_ok (as_json o) ≡ true → IsStorable (as_json o)
as_json-IsStorable o v = record { valid = v; member = refl }

module _ (h : HubStore) (l : HubStoreLaws h) where
  open h use {State}

  with_user-Keeps :
      {A : Type 0} (r : Result HttpError AuthUser)
      (handler : AuthUser → HubState State → Result HttpError A × HubState State)
      (s : HubState State)
      → ((user : AuthUser) → Keeps h l s (handler user s).1)
      → l.IsGood s.store
      → Keeps h l s (with_user r handler s).1
  with_user-Keeps (err e) handler s k g = same-Keeps h l s s refl g
  with_user-Keeps (ok user) handler s k g = k user

  save_body-Keeps :
      (user : AuthUser) (o : OfferBrief) (s : HubState State)
      → l.IsGood s.store
      → Keeps h l s (with_body o (save_offer h user) s).1
  save_body-Keeps user o s g = elim (Bool-cases (offer_ok (as_json o))) [
    | inl valid ↦ rw valid (save_offer-Keeps h l user (as_json o) s (as_json-IsStorable o valid) g)
    | inr invalid ↦ rw invalid (same-Keeps h l s s refl g)
  ]

  module _ (decode : String → Decoded) (token : String) (s : HubState State)
      (g : l.IsGood s.store) where
    pub post_offers-Keeps : (o : OfferBrief) → Keeps h l s (post_offers h decode token o s).1
    unfolding post_offers
    post_offers-Keeps o =
        with_user-Keeps (require_role decode "system" token)
          (λ user. with_body o (save_offer h user)) s (λ user. save_body-Keeps user o s g) g

    pub over_http-Keeps : (o : OfferBrief) → Keeps h l s (over_http h decode token o s).1
    unfolding over_http
    over_http-Keeps o = post_offers-Keeps o

    pub get_offers_id-Keeps : (id : String) → Keeps h l s (get_offers_id h decode token id s).1
    unfolding get_offers_id
    get_offers_id-Keeps id =
        with_user-Keeps (get_current_user decode token) (λ user. get_offer h user id) s
          (λ user. get_offer-Keeps h l user id s g) g

    pub get_offers-Keeps :
        (st : Option OfferStatus) (m : Option String) (t : Option TriggerType)
        (since : Option DateTime)
        → Keeps h l s (get_offers h decode token st m t since s).1
    unfolding get_offers
    get_offers-Keeps st m t since =
        with_user-Keeps (get_current_user decode token) (λ user. list_offers h st m t since) s
          (λ user. list_offers-Keeps h l st m t since s g) g

    pub put_offers_id_status-Keeps :
        (id : String) (new : OfferStatus)
        → Keeps h l s (put_offers_id_status h decode token id new s).1
    unfolding put_offers_id_status
    put_offers_id_status-Keeps id new =
        with_user-Keeps (require_role decode "system" token)
          (λ user. update_offer_status h user id new) s
          (λ user. update_offer_status-Keeps h l user id new s g) g
