-- ===== src/System/Untold.antt =====
-- The requests that write to the Hub's store beside its routes, and the Hub's audit events: the routes of
-- src/backend/api/designer.py and the sweep of src/backend/main.py, over the store in memory.
use tristar.Base.{
  String, Option, none, some, List, ◌≡◌, inl, inr, refl, sym, ap, ◌∙◌, Bool-cases, Bool, true,
  false, ◌==◌,
}
use tristar.Outcome.{Result, ok, err}
use tristar.Core.Config.{Settings}
use tristar.Core.Http.{HttpError}
use tristar.Core.Security.{AuthUser, Decoded, require_role}
use tristar.Models.Offer.{OfferBrief, approved, is_critical, with_status, GenerateOfferRequest}
use tristar.Models.Validation.{offer_ok, objective_ok}
use tristar.Hub.Store.{
  HubStore, HubStoreLaws, StoreError, redis_unavailable, already_exists, naive_and_aware,
}
use tristar.Hub.Store.Memory.{Store, memory_store}
use tristar.Hub.Store.Memory.Contract.{view, memory_laws}
use tristar.Hub.Audit.{HubAuditEvent}
use tristar.Hub.Routes.{validate_transition}
use tristar.Hub.Api.{with_user, with_body, as_json}
use tristar.Hub.Told.{trail, status_of}
use tristar.Hub.Trail.{IsTraced}
use tristar.Designer.Fraud.{validate}
use tristar.Designer.Claude.Parse.{ClaudeError}
use tristar.Designer.Claude.Service.{Backend, Inputs, generate_from_objective}
use tristar.Designer.Routes
use tristar.Designer.Routes.{
  DesignerState, with_flags, checked, generate_offer_brief, recorded, current, approve_offer,
}
use tristar.Designer.Routes.Drafts.{logged, checked_blocked, checked_passed, drafted-hub}
use tristar.Designer.Routes.Approvals.{recorded-hub}
use tristar.Designer.Api.{if_valid, post_generate, post_approve_id}
use tristar.System.{Request, generate, approve, expire_due, step}

module _ (h : HubStore) (l : HubStoreLaws h) where
  open h use {State}

  abbrev events : DesignerState State → List HubAuditEvent
  events s = s.hub.audit_tasks

  approved-events :
      (user : AuthUser) (id : String) (o : OfferBrief) (r : Result HttpError (Unit {0}))
      (s : DesignerState State)
      → events (Routes.approve h user id o r s).1 ≡ events s
  unfolding Routes.approve
  approved-events user id o (err e) s = refl
  approved-events user id o (ok _) s =
      let (r, store) = h.update (with_status approved o) s.hub.store in
      ap (λ hub. hub.audit_tasks)
        (recorded-hub h l user id (with_status approved o) r
          (record s { hub = record s.hub { store = store } }))

  current-events :
      (user : AuthUser) (id : String) (o : OfferBrief) (r : Result StoreError (Option OfferBrief))
      (s : DesignerState State)
      → events (current h user id o r s).1 ≡ events s
  unfolding approve_offer
  current-events user id o (ok none) s = refl
  current-events user id o (ok (some stored)) s =
      approved-events user id o (validate_transition stored.status approved) s
  current-events user id o (err redis_unavailable) s = refl
  current-events user id o (err already_exists) s = refl
  current-events user id o (err naive_and_aware) s = refl

  approve_offer-events :
      (user : AuthUser) (id : String) (o : OfferBrief) (s : DesignerState State)
      → events (approve_offer h user id o s).1 ≡ events s
  unfolding approve_offer
  approve_offer-events user id o s =
      let (r, store) = h.get id s.hub.store in
      elim (Bool-cases (o.offer_id == id)) [
        | inr other ↦ rw other refl
        | inl named ↦ elim (Bool-cases (is_critical o.risk_flags.severity)) [
          | inl bad ↦ rw (named, bad) refl
          | inr harmless ↦
              rw (named, harmless)
                (current-events user id o r (record s { hub = record s.hub { store = store } }))
        ]
      ]

  checked-events :
      (user : AuthUser) (r : Result ClaudeError OfferBrief) (s : DesignerState State)
      → events (checked h user r s).1 ≡ events s
  checked-events user (err e) s = unfold checked in refl
  checked-events user (ok o) s =
      let v = validate s.counts o user.user_id in
      elim (Bool-cases v.blocked) [
        | inl blocked ↦ rw (checked_blocked h l user o s blocked) refl
        | inr passed ↦
            let start = logged h l user o s in
            let (r, store) = h.save (with_flags v o) s.hub.store in
            rw (checked_passed h l user o s passed) (
              ap (λ hub. hub.audit_tasks)
                (drafted-hub h l (with_flags v o) r
                  (record start { hub = record start.hub { store = store } })))
      ]

  with_user-events :
      {A : Type 0} (r : Result HttpError AuthUser)
      (handler : AuthUser → DesignerState State → Result HttpError A × DesignerState State)
      (s : DesignerState State)
      → ((user : AuthUser) → events (handler user s).1 ≡ events s)
      → events (with_user r handler s).1 ≡ events s
  with_user-events (err e) handler s k = refl
  with_user-events (ok user) handler s k = k user

  if_valid-events :
      {A : Type 0} (valid : Bool)
      (handler : DesignerState State → Result HttpError A × DesignerState State)
      (s : DesignerState State)
      → events (handler s).1 ≡ events s
      → events (if_valid valid handler s).1 ≡ events s
  if_valid-events true handler s k = k
  if_valid-events false handler s k = refl

  post_generate-events :
      (decode : String → Decoded) (b : Backend) (cfg : Settings) (token : String)
      (request : GenerateOfferRequest) (i : Inputs) (s : DesignerState State)
      → events (post_generate h decode b cfg token request i s).1 ≡ events s
  unfolding post_generate generate_offer_brief
  post_generate-events decode b cfg token request i s =
      with_user-events (require_role decode "marketing" token) _ s (λ user.
        if_valid-events (objective_ok request.objective)
          (generate_offer_brief h b cfg user request i) s
          (let (r, cache) =
              generate_from_objective b cfg request.objective request.segment_hints i s.cache in
            checked-events user r (record s { cache = cache })))

  post_approve_id-events :
      (decode : String → Decoded) (token id : String) (o : OfferBrief) (s : DesignerState State)
      → events (post_approve_id h decode token id o s).1 ≡ events s
  unfolding post_approve_id
  post_approve_id-events decode token id o s =
      with_user-events (require_role decode "marketing" token)
        (λ user. with_body o (approve_offer h user id)) s (λ user. body user)
    where
      body : (user : AuthUser) → events (with_body o (approve_offer h user id) s).1 ≡ events s
      body user = elim (Bool-cases (offer_ok (as_json o))) [
        | inl valid ↦ rw valid (approve_offer-events user id (as_json o) s)
        | inr invalid ↦ rw invalid refl
      ]

  -- A draft for a marketer, an approval, or a round of the sweep.
  abbrev pub IsQuiet : Request → Type 0
  IsQuiet (generate b cfg token request i) = Unit {0}
  IsQuiet (approve token id o) = Unit {0}
  IsQuiet (expire_due now) = Unit {0}
  IsQuiet _ = ⊥

  step-events :
      (decode : String → Decoded) (r : Request) (s : DesignerState State)
      → IsQuiet r
      → events (step h decode r s) ≡ events s
  unfolding step
  step-events decode (generate b cfg token request i) s q =
      post_generate-events decode b cfg token request i s
  step-events decode (approve token id o) s q = post_approve_id-events decode token id o s
  step-events decode (expire_due now) s q = refl
  step-events decode (Request.save t o) s q = absurd q
  step-events decode (Request.read t o) s q = absurd q
  step-events decode (Request.list t a b c d) s q = absurd q
  step-events decode (Request.set_status t i o) s q = absurd q
  step-events decode (Request.generate_purchase b c t u x i) s q = absurd q

-- The request of a marketer for a draft, an approval and a round of the sweep leave the list of audit events
-- as it was, whatever they write to the store. So for a store in memory whose events have told every status so
-- far, the events go on to tell the statuses of before, and tell those of afterwards only if the request has
-- changed no status.
pub untold :
    (decode : String → Decoded) (r : Request) (s : DesignerState Store) (id : String)
    → IsQuiet memory_store memory_laws r
    → IsTraced s.hub
    → let s' = step memory_store decode r s in
      (s'.hub.audit_tasks ≡ s.hub.audit_tasks)
      × (trail s'.hub.audit_tasks id ≡ status_of (view s.hub.store id))
      × (IsTraced s'.hub → status_of (view s'.hub.store id) ≡ status_of (view s.hub.store id))
untold decode r s id quiet t =
    let same = step-events memory_store memory_laws decode r s quiet in
    let before = ap (λ es. trail es id) same ∙ t.told id in
    (same, before, λ t'. sym (t'.told id) ∙ before)
