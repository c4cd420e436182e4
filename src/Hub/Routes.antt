-- ===== src/Hub/Routes.antt =====
-- src/backend/api/hub.py: the handlers of the Hub, over any store that has the protocol. The log of
-- slow answers is left out.
pub mod Lifecycle
use tristar.Base.{
  ℕ, String, Bool, true, false, not, ◌&&◌, Option, none, some, List, [], ◌∷◌, ◌++◌, length,
  if◌then◌else◌,
}
use tristar.Clock.{DateTime, as_utc}
use tristar.Outcome.{Result, ok, err}
use tristar.Core.Http.{
  HttpError, http, internal_error, active_needs_purchase, invalid_transition, not_found,
  store_unavailable,
}
use tristar.Core.Http
use tristar.Core.Security.{AuthUser, Decoded, get_current_user, require_system_role}
use tristar.Models.Offer.{
  OfferBrief, OfferStatus, draft, approved, active, expired, TriggerType, purchase_triggered,
  with_status, is_status, is_trigger,
}
use tristar.Hub.Store.{HubStore, StoreError, redis_unavailable, already_exists, naive_and_aware}
use tristar.Hub.Audit.{HubAuditEvent, offer_created, status_transition, offer_read}

-- the store, and the audit tasks that have been scheduled, oldest first
pub record HubState (S : Type 0) : Type 0 where
  pub store : S
  pub audit_tasks : List HubAuditEvent

-- `VALID_TRANSITIONS`
abbrev valid_transitions : OfferStatus → List OfferStatus
valid_transitions draft = approved ∷ []
valid_transitions approved = active ∷ []
valid_transitions active = expired ∷ []
valid_transitions expired = []

abbrev is_in : OfferStatus → List OfferStatus → Bool
is_in s [] = false
is_in s (t ∷ ts) = if is_status s t then true else is_in s ts

-- `_validate_transition`
unfoldable pub validate_transition : OfferStatus → OfferStatus → Result HttpError (Unit {0})
validate_transition old new =
    if is_in new (valid_transitions old)
    then ok tt
    else err (http 422 (invalid_transition old new (valid_transitions old)))

-- the test of `save_offer`: an offer may start as active only if a purchase triggered it
unfoldable pub starts_wrong : OfferBrief → Bool
starts_wrong o = is_status o.status active && not (is_trigger o.trigger_type purchase_triggered)

-- how the handlers answer an error of the store
unfoldable pub store_error : String → StoreError → HttpError
store_error offer_id already_exists = http 409 (Http.already_exists offer_id)
store_error offer_id redis_unavailable = http 503 store_unavailable
store_error offer_id naive_and_aware = internal_error

pub record ListOffersResponse : Type 0 where
  pub offers : List OfferBrief
  pub count : ℕ

module _ (h : HubStore) where
  open h use {State}

  abbrev pub Answer : Type 0 → Type 0
  Answer A = Result HttpError A × HubState State

  -- `_fire_audit(hub_audit.log_event(…))`
  unfoldable pub fire_audit : HubAuditEvent → HubState State → HubState State
  fire_audit event s = record s { audit_tasks = s.audit_tasks ++ event ∷ [] }

  abbrev pub saved :
      AuthUser → OfferBrief → Result StoreError (Unit {0}) → HubState State → Answer OfferBrief
  saved user o (err e) s = (err (store_error o.offer_id e), s)
  saved user o (ok _) s = (
    ok o,
    fire_audit
        (record {
          offer_id = o.offer_id;
          event = offer_created;
          old_status = none;
          new_status = some o.status;
          actor_id = user.user_id;
          fraud_severity = none;
        })
        s,
  )

  -- `save_offer`
  unfoldable pub save_offer : AuthUser → OfferBrief → HubState State → Answer OfferBrief
  unfolding fire_audit store_error
  save_offer user o s =
      let (r, store) = h.save o s.store in
      if starts_wrong o
      then (err (http 422 (active_needs_purchase o.trigger_type)), s)
      else saved user o r (record s { store = store })

  abbrev pub read :
      AuthUser → String → Result StoreError (Option OfferBrief) → HubState State → Answer OfferBrief
  read user offer_id (err e) s = (err (store_error offer_id e), s)
  read user offer_id (ok none) s = (err (http 404 (not_found offer_id)), s)
  read user offer_id (ok (some o)) s = (
    ok o,
    fire_audit
        (record {
          offer_id = offer_id;
          event = offer_read;
          old_status = none;
          new_status = none;
          actor_id = user.user_id;
          fraud_severity = none;
        })
        s,
  )

  -- `get_offer`
  unfoldable pub get_offer : AuthUser → String → HubState State → Answer OfferBrief
  unfolding fire_audit store_error
  get_offer user offer_id s =
      let (r, store) = h.get offer_id s.store in read user offer_id r (record s { store = store })

  abbrev pub listed :
      Result StoreError (List OfferBrief) → HubState State → Answer ListOffersResponse
  listed (err e) s = (err (store_error "" e), s)
  listed (ok offers) s = (ok (record { offers = offers; count = length offers }), s)

  abbrev pub since_utc : Option DateTime → Option DateTime
  since_utc none = none
  since_utc (some since) = some (as_utc since)

  -- `list_offers`; the parameter `member_id` is not used
  unfoldable pub list_offers :
      Option OfferStatus
      → Option String
      → Option TriggerType
      → Option DateTime
      → HubState State
      → Answer ListOffersResponse
  unfolding store_error
  list_offers status_filter member_id trigger_type since s =
      let (r, store) = h.list status_filter trigger_type (since_utc since) s.store in
      listed r (record s { store = store })

  abbrev pub updated :
      AuthUser
      → String
      → OfferBrief
      → OfferStatus
      → Result StoreError (Unit {0})
      → HubState State
      → Answer OfferBrief
  updated user offer_id o new_status (err e) s = (err (store_error offer_id e), s)
  updated user offer_id o new_status (ok _) s = (
    ok (with_status new_status o),
    fire_audit
        (record {
          offer_id = offer_id;
          event = status_transition;
          old_status = some o.status;
          new_status = some new_status;
          actor_id = user.user_id;
          fraud_severity = none;
        })
        s,
  )

  -- the part of `update_offer_status` after the offer was found
  unfoldable pub move :
      AuthUser
      → String
      → OfferBrief
      → OfferStatus
      → Result HttpError (Unit {0})
      → HubState State
      → Answer OfferBrief
  unfolding fire_audit store_error
  move user offer_id o new_status (err e) s = (err e, s)
  move user offer_id o new_status (ok _) s =
      let (r, store) = h.update (with_status new_status o) s.store in
      updated user offer_id o new_status r (record s { store = store })

  abbrev pub found :
      AuthUser
      → String
      → OfferStatus
      → Result StoreError (Option OfferBrief)
      → HubState State
      → Answer OfferBrief
  found user offer_id new_status (err e) s = (err (store_error offer_id e), s)
  found user offer_id new_status (ok none) s = (err (http 404 (not_found offer_id)), s)
  found user offer_id new_status (ok (some o)) s =
      move user offer_id o new_status (validate_transition o.status new_status) s

  -- `update_offer_status`
  unfoldable pub update_offer_status :
      AuthUser → String → OfferStatus → HubState State → Answer OfferBrief
  unfolding move validate_transition store_error
  update_offer_status user offer_id new_status s =
      let (r, store) = h.get offer_id s.store in
      found user offer_id new_status r (record s { store = store })
