-- ===== src/Overlap.antt =====
-- The handlers of src/backend/api/hub.py and src/backend/api/designer.py and the sweep of
-- src/backend/main.py as tasks of one event loop, which gives way to other tasks at each `await` of the
-- store, as it does for `RedisHubStore`. One step of a task is a call of the store and what the handler
-- does until its next call. The roles and the bodies have been checked when a task arrives.
pub mod Alone
pub mod Knowledge
pub mod Effects
pub mod Steps
pub mod Life
pub mod Lost
use tristar.Base.{
  ℕ, zero, suc, ◌+◌, String, Bool, not, Option, none, some, List, [], ◌∷◌, ◌++◌, if◌then◌else◌,
  ◌==◌,
}
use tristar.Clock.{DateTime}
use tristar.Outcome.{Result, ok, err}
use tristar.Core.Http.{
  HttpError, http, internal_error, not_found, store_unavailable, id_mismatch, critical_flags,
}
use tristar.Core.Security.{AuthUser}
use tristar.Models.Offer.{
  OfferBrief, OfferStatus, approved, active, expired, TriggerType, ApproveOfferResponse,
  is_critical, with_status,
}
use tristar.Hub.Store.{HubStore, StoreError, redis_unavailable}
use tristar.Hub.Routes.{
  ListOffersResponse, validate_transition, store_error, save_offer, get_offer, list_offers, move,
}
use tristar.Hub.Sweep.{is_due, count}
use tristar.Designer.Claude.Parse.{ClaudeError}
use tristar.Designer.Routes.{DesignerState, checked, approve}

-- what a task ends with: the answer of a handler, or the number of offers that a sweep expired
pub data Response : Type 0 where
  offer : Result HttpError OfferBrief → Response
  listing : Result HttpError ListOffersResponse → Response
  approval : Result HttpError ApproveOfferResponse → Response
  swept : ℕ → Response

-- a task, by the call of the store that it makes next
pub data Task : Type 0 where
  saving : AuthUser → OfferBrief → Task
  reading : AuthUser → String → Task
  listing : Option OfferStatus → Option String → Option TriggerType → Option DateTime → Task
  -- `generate_offer_brief` from Claude's answer on
  generated : AuthUser → Result ClaudeError OfferBrief → Task
  changing : AuthUser → String → OfferStatus → Task
  -- the offer that was read, and the status that it may have
  writing_status : AuthUser → String → OfferBrief → OfferStatus → Task
  approving : AuthUser → String → OfferBrief → Task
  writing_approval : AuthUser → String → OfferBrief → Task
  sweeping : DateTime → Task
  -- the offer to expire, the rest of the listing, and the number that was expired
  expiring : DateTime → OfferBrief → List OfferBrief → ℕ → Task
  answered : Response → Task

-- `update_offer_status` after its read
abbrev pub after_validation :
    AuthUser → String → OfferBrief → OfferStatus → Result HttpError (Unit {0}) → Task
after_validation user offer_id o new (err e) = answered (offer (err e))
after_validation user offer_id o new (ok _) = writing_status user offer_id o new

abbrev pub after_read :
    AuthUser → String → OfferStatus → Result StoreError (Option OfferBrief) → Task
after_read user offer_id new (err e) = answered (offer (err (store_error offer_id e)))
after_read user offer_id new (ok none) = answered (offer (err (http 404 (not_found offer_id))))
after_read user offer_id new (ok (some o)) =
    after_validation user offer_id o new (validate_transition o.status new)

-- `approve_offer` after its read
abbrev pub after_draft : AuthUser → String → OfferBrief → Result HttpError (Unit {0}) → Task
after_draft user offer_id o (err e) = answered (approval (err e))
after_draft user offer_id o (ok _) = writing_approval user offer_id o

abbrev pub after_current :
    AuthUser → String → OfferBrief → Result StoreError (Option OfferBrief) → Task
after_current user offer_id o (err redis_unavailable) =
    answered (approval (err (http 503 store_unavailable)))
after_current user offer_id o (err _) = answered (approval (err internal_error))
after_current user offer_id o (ok none) = answered (approval (err (http 404 (not_found offer_id))))
after_current user offer_id o (ok (some stored)) =
    after_draft user offer_id o (validate_transition stored.status approved)

-- the loop of the sweep up to its next update
unfoldable pub next_due : DateTime → List OfferBrief → ℕ → Task
next_due now [] expired_count = answered (swept expired_count)
next_due now (o ∷ offers) expired_count =
    let rest = next_due now offers expired_count in
    if is_due now o.valid_until then expiring now o offers expired_count else rest

abbrev pub after_list : DateTime → Result StoreError (List OfferBrief) → Task
after_list now (err e) = answered (swept 0)
after_list now (ok offers) = next_due now offers 0

module _ (h : HubStore) where
  open h use {State}

  abbrev pub with_store : DesignerState State → State → DesignerState State
  with_store s store = record s { hub = record s.hub { store = store } }

  -- `approve_offer` up to its second call of the store
  abbrev pub look_up :
      AuthUser → String → OfferBrief → DesignerState State → Task × DesignerState State
  look_up user offer_id o s =
      let (r, store) = h.get offer_id s.hub.store in
      if not (o.offer_id == offer_id)
      then (answered (approval (err (http 400 (id_mismatch offer_id o.offer_id)))), s)
      else if is_critical o.risk_flags.severity
      then (answered (approval (err (http 400 critical_flags))), s)
      else (after_current user offer_id o r, with_store s store)

  -- one step of a task
  unfoldable pub resume : Task → DesignerState State → Task × DesignerState State
  unfolding next_due
  resume (saving user o) s =
      let (r, hub) = save_offer h user o s.hub in (answered (offer r), record s { hub = hub })
  resume (reading user offer_id) s =
      let (r, hub) = get_offer h user offer_id s.hub in (answered (offer r), record s { hub = hub })
  resume (listing status_filter member_id trigger_type since) s =
      let (r, hub) = list_offers h status_filter member_id trigger_type since s.hub in
      (answered (Response.listing r), record s { hub = hub })
  resume (generated user r) s =
      let (answer, s') = checked h user r s in (answered (offer answer), s')
  resume (changing user offer_id new) s =
      let (r, store) = h.get offer_id s.hub.store in
      (after_read user offer_id new r, with_store s store)
  resume (writing_status user offer_id o new) s =
      let (r, hub) = move h user offer_id o new (ok tt) s.hub in
      (answered (offer r), record s { hub = hub })
  resume (approving user offer_id o) s = look_up user offer_id o s
  resume (writing_approval user offer_id o) s =
      let (r, s') = approve h user offer_id o (ok tt) s in (answered (approval r), s')
  resume (sweeping now) s =
      let (r, store) = h.list (some active) none none s.hub.store in
      (after_list now r, with_store s store)
  resume (expiring now o offers expired_count) s =
      let (r, store) = h.update (with_status expired o) s.hub.store in
      (next_due now offers (count r expired_count), with_store s store)
  resume (answered r) s = (answered r, s)

  -- the tasks of the loop, and the state that they share
  pub record Loop : Type 0 where
    pub tasks : List Task
    pub state : DesignerState State

  unfoldable pub wake : ℕ → List Task → DesignerState State → List Task × DesignerState State
  unfolding resume
  wake i [] s = ([], s)
  wake zero (t ∷ tasks) s = let (t', s') = resume t s in (t' ∷ tasks, s')
  wake (suc i) (t ∷ tasks) s = let (tasks', s') = wake i tasks s in (t ∷ tasks', s')

-- what happens next: a request or a sweep comes, or a task of the loop takes a step
pub data Event : Type 0 where
  arrive : Task → Event
  resume_at : ℕ → Event

module _ (h : HubStore) where
  unfoldable pub step : Event → Loop h → Loop h
  unfolding wake
  step (arrive t) m = record m { tasks = t ∷ m.tasks }
  step (resume_at i) m =
      let (tasks, state) = wake h i m.tasks m.state in record { tasks = tasks; state = state }

  unfoldable pub run : List Event → Loop h → Loop h
  unfolding step
  run [] m = m
  run (e ∷ events) m = run events (step e m)
