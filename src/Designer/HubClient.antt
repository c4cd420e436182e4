-- ===== src/Designer/HubClient.antt =====
-- src/backend/services/hub_api_client.py: the client of the Hub. `httpx` and the server at the other
-- end are not part of the client: a reply is an argument, or comes from the parameter `post`.
use tristar.Base.{ℕ, Bool, not, ◌&&◌, Option, none, some, List, [], ltb, leb, nat_eq, if◌then◌else◌}
use tristar.Outcome.{Result, ok, err}
use tristar.Models.Offer.{OfferBrief, active, purchase_triggered, is_status, is_trigger}

-- What `response.json()` gives: an error, a JSON value that is no object, or an object, from which the
-- model is built if it passes validation.
pub data Body (A : Type 0) : Type 0 where
  not_json not_object : Body A
  object : Option A → Body A

-- `httpx.RequestError`, or a response with its status code
pub data Reply (A : Type 0) : Type 0 where
  unreachable : Reply A
  response : ℕ → Body A → Reply A

-- `HubSaveError`, and the exceptions that the client lets through: the `ValueError` of its own guard,
-- the one of a body that is no JSON or no valid model, `TypeError` and `AttributeError`
pub data ClientError : Type 0 where
  hub_save_error value_error bad_body type_error attribute_error : ClientError

-- `raise_for_status` lets these codes pass
abbrev is_success : ℕ → Bool
is_success code = leb 200 code && ltb code 300

-- the assertion at the start of `save_offer`
unfoldable pub breaks_f003 : OfferBrief → Bool
breaks_f003 o = is_status o.status active && not (is_trigger o.trigger_type purchase_triggered)

-- `OfferBrief(**response.json())`
abbrev built : {A : Type 0} → Body A → Result ClientError A
built not_json = err bad_body
built not_object = err type_error
built (object none) = err bad_body
built (object (some a)) = ok a

-- the detail of a response 422
abbrev rejected : {A : Type 0} → Body A → Result ClientError A
rejected not_json = err bad_body
rejected not_object = err attribute_error
rejected (object _) = err hub_save_error

-- after the response was read: the log takes `offer.status.value`, which a bare text does not have
abbrev pub logged : OfferBrief → Body OfferBrief → Result ClientError OfferBrief
logged o not_json = err bad_body
logged o body = if o.bare_status then err attribute_error else built body

unfoldable pub after_post : OfferBrief → Reply OfferBrief → Result ClientError OfferBrief
after_post o unreachable = err hub_save_error
after_post o (response code body) =
    if nat_eq code 422
    then rejected body
    else if nat_eq code 409
    then err hub_save_error
    else if is_success code
    then logged o body
    else err hub_save_error

module _ {H : Type 0} (post : OfferBrief → H → Reply OfferBrief × H) where
  -- `save_offer`
  unfoldable pub save_offer : OfferBrief → H → Result ClientError OfferBrief × H
  unfolding breaks_f003 after_post
  save_offer o hub =
      let (reply, hub') = post o hub in
      if breaks_f003 o then (err value_error, hub) else (after_post o reply, hub')

-- `get_offer`
unfoldable pub get_offer : Reply OfferBrief → Result ClientError OfferBrief
get_offer unreachable = err hub_save_error
get_offer (response code body) = if is_success code then built body else err hub_save_error

abbrev offers_of : Body (List OfferBrief) → Result ClientError (List OfferBrief)
offers_of not_json = err bad_body
offers_of not_object = err attribute_error
offers_of (object none) = err bad_body
offers_of (object (some offers)) = ok offers

-- `get_recent_member_offers`: no answer, or an answer that is an error, counts as no offers
unfoldable pub get_recent_member_offers :
    Reply (List OfferBrief) → Result ClientError (List OfferBrief)
get_recent_member_offers unreachable = ok []
get_recent_member_offers (response code body) = if is_success code then offers_of body else ok []
