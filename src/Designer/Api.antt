-- ===== src/Designer/Api.antt =====
-- The Designer's HTTP interface: the handlers of src/backend/api/designer.py with the roles that they
-- depend on, and the validation of a body.
pub mod Keeps
use tristar.Base.{ℕ, String, Bool, true, false, Option, if◌then◌else◌}
use tristar.Outcome.{Result, ok, err}
use tristar.Core.Config.{Settings}
use tristar.Core.Http.{HttpError, http, invalid_body}
use tristar.Core.Security.{AuthUser, Decoded, require_role}
use tristar.Models.Offer.{OfferBrief, GenerateOfferRequest, ApproveOfferResponse}
use tristar.Models.Purchase.{PurchaseContextRequest}
use tristar.Models.Validation.{objective_ok, context_ok}
use tristar.Hub.Store.{HubStore}
use tristar.Hub.Routes.{HubState}
use tristar.Hub.Api.{with_user, with_body, over_http}
use tristar.Designer.Claude.Service.{Backend, Inputs}
use tristar.Designer.Routes.{
  DesignerState, Answer, generate_offer_brief, approve_offer, generate_purchase_triggered_offer,
}

abbrev pub if_valid :
    {S A : Type 0} → Bool → (S → Result HttpError A × S) → S → Result HttpError A × S
if_valid valid handler s = if valid then handler s else (err (http 422 invalid_body), s)

module _ (h : HubStore) (decode : String → Decoded) where
  open h use {State}

  -- POST /generate
  unfoldable pub post_generate :
      Backend
      → Settings
      → String
      → GenerateOfferRequest
      → Inputs
      → DesignerState State
      → Answer State OfferBrief
  unfolding require_role generate_offer_brief objective_ok
  post_generate b cfg token request i = with_user (require_role decode "marketing" token) (λ user.
      if_valid (objective_ok request.objective) (generate_offer_brief h b cfg user request i))

  -- POST /generate-purchase, with the token that the client of the Hub sends
  unfoldable pub post_generate_purchase :
      Backend
      → Settings
      → String
      → String
      → PurchaseContextRequest
      → Inputs
      → DesignerState State
      → Answer State OfferBrief
  unfolding require_role generate_purchase_triggered_offer over_http context_ok
  post_generate_purchase b cfg token hub_token ctx i =
      with_user (require_role decode "system" token) (λ user.
        if_valid (context_ok ctx)
          (generate_purchase_triggered_offer (over_http h decode hub_token) b cfg ctx i))

  -- POST /approve/{offer_id}
  unfoldable pub post_approve_id :
      String → String → OfferBrief → DesignerState State → Answer State ApproveOfferResponse
  unfolding require_role approve_offer
  post_approve_id token offer_id o =
      with_user (require_role decode "marketing" token)
        (λ user. with_body o (approve_offer h user offer_id))
