-- ===== src/System.antt =====
-- The Hub and the Designer as one process: src/backend/main.py mounts the routes over one store and runs
-- the sweep beside them. A run is a sequence of requests, each carried out as a whole.
pub mod Life
pub mod Access
pub mod Expiry
pub mod Purchase
pub mod Untold
use tristar.Base.{ℕ, String, Option, List, [], ◌∷◌}
use tristar.Clock.{DateTime}
use tristar.Core.Config.{Settings}
use tristar.Core.Security.{Decoded}
use tristar.Models.Offer.{OfferBrief, OfferStatus, TriggerType, GenerateOfferRequest}
use tristar.Models.Purchase.{PurchaseContextRequest}
use tristar.Hub.Store.{HubStore}
use tristar.Hub.Routes.{HubState}
use tristar.Hub.Api.{post_offers, get_offers_id, get_offers, put_offers_id_status}
use tristar.Hub.Sweep.{sweep}
use tristar.Designer.Claude.Service.{Backend, Inputs}
use tristar.Designer.Routes.{DesignerState}
use tristar.Designer.Api.{post_generate, post_generate_purchase, post_approve_id}

-- a request, most often with the token of its caller, or a round of the sweep at a time
pub data Request : Type 1 where
  save : String → OfferBrief → Request
  read : String → String → Request
  list :
      String → Option OfferStatus → Option String → Option TriggerType → Option DateTime → Request
  set_status : String → String → OfferStatus → Request
  generate : Backend → Settings → String → GenerateOfferRequest → Inputs → Request
  generate_purchase :
      Backend → Settings → String → String → PurchaseContextRequest → Inputs → Request
  approve : String → String → OfferBrief → Request
  expire_due : DateTime → Request

module _ (h : HubStore) (decode : String → Decoded) where
  open h use {State}

  abbrev in_hub : DesignerState State → HubState State → DesignerState State
  in_hub s hub = record s { hub = hub }

  unfoldable pub step : Request → DesignerState State → DesignerState State
  unfolding post_offers get_offers_id get_offers put_offers_id_status post_generate
      post_generate_purchase post_approve_id sweep
  step (save token o) s = in_hub s (post_offers h decode token o s.hub).1
  step (read token id) s = in_hub s (get_offers_id h decode token id s.hub).1
  step (list token status member trigger since) s =
      in_hub s (get_offers h decode token status member trigger since s.hub).1
  step (set_status token id new) s = in_hub s (put_offers_id_status h decode token id new s.hub).1
  step (generate b cfg token request i) s = (post_generate h decode b cfg token request i s).1
  step (generate_purchase b cfg token hub_token ctx i) s =
      (post_generate_purchase h decode b cfg token hub_token ctx i s).1
  step (approve token id o) s = (post_approve_id h decode token id o s).1
  step (expire_due now) s = in_hub s (record s.hub { store = (sweep h now s.hub.store).1 })

  unfoldable pub run : List Request → DesignerState State → DesignerState State
  unfolding step
  run [] s = s
  run (r ∷ rs) s = run rs (step r s)
