-- ===== src/Hub/Api.antt =====
-- The Hub's HTTP interface: the handlers of src/backend/api/hub.py with the roles that they depend on,
-- and the validation of a body, as FastAPI runs them. The caller is checked before the body.
pub mod Keeps
use tristar.Base.{String, Bool, true, false, Option, none, some, if◌then◌else◌}
use tristar.Clock.{DateTime}
use tristar.Outcome.{Result, ok, err}
use tristar.Core.Http.{HttpError, http, invalid_body}
use tristar.Core.Security.{AuthUser, Decoded, get_current_user, require_role}
use tristar.Models.Offer.{OfferBrief, OfferStatus, TriggerType}
use tristar.Models.Validation.{offer_ok}
use tristar.Hub.Store.{HubStore}
use tristar.Hub.Routes.{
  HubState, Answer, ListOffersResponse, save_offer, get_offer, list_offers, update_offer_status,
}
use tristar.Designer.HubClient.{Reply, response, object}

-- an offer after its way as JSON, where a status is a text anyway
abbrev pub as_json : OfferBrief → OfferBrief
as_json o = record o { bare_status = false }

-- what the client gets to see; the body of an error is no offer
abbrev pub reply_of : Result HttpError OfferBrief → Reply OfferBrief
reply_of (ok o) = response 201 (object (some o))
reply_of (err e) = response e.status (object none)

-- a dependency that raises ends the request
abbrev pub with_user :
    {S A : Type 0}
    → Result HttpError AuthUser
    → (AuthUser → S → Result HttpError A × S)
    → S
    → Result HttpError A × S
with_user (err e) handler s = (err e, s)
with_user (ok user) handler s = handler user s

-- a body that does not validate ends the request
abbrev pub with_body :
    {S A : Type 0}
    → OfferBrief
    → (OfferBrief → S → Result HttpError A × S)
    → S
    → Result HttpError A × S
with_body o handler s =
    let body = as_json o in
    if offer_ok body then handler body s else (err (http 422 invalid_body), s)

module _ (h : HubStore) (decode : String → Decoded) where
  open h use {State}

  -- POST /offers
  unfoldable pub post_offers : String → OfferBrief → HubState State → Answer h OfferBrief
  unfolding require_role save_offer offer_ok
  post_offers token o =
      with_user (require_role decode "system" token) (λ user. with_body o (save_offer h user))

  -- GET /offers/{offer_id}
  unfoldable pub get_offers_id : String → String → HubState State → Answer h OfferBrief
  unfolding get_current_user get_offer
  get_offers_id token offer_id =
      with_user (get_current_user decode token) (λ user. get_offer h user offer_id)

  -- GET /offers
  unfoldable pub get_offers :
      String
      → Option OfferStatus
      → Option String
      → Option TriggerType
      → Option DateTime
      → HubState State
      → Answer h ListOffersResponse
  unfolding get_current_user list_offers
  get_offers token status_filter member_id trigger_type since =
      with_user (get_current_user decode token)
        (λ user. list_offers h status_filter member_id trigger_type since)

  -- PUT /offers/{offer_id}/status
  unfoldable pub put_offers_id_status :
      String → String → OfferStatus → HubState State → Answer h OfferBrief
  unfolding require_role update_offer_status
  put_offers_id_status token offer_id new_status =
      with_user (require_role decode "system" token)
        (λ user. update_offer_status h user offer_id new_status)

  -- the network of a client that sends this token
  unfoldable pub over_http :
      String → OfferBrief → HubState State → Reply OfferBrief × HubState State
  unfolding post_offers
  over_http token o s = let (r, s') = post_offers token o s in (reply_of r, s')
