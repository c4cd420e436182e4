-- ===== src/Hub/Trail.antt =====
-- The audit events of src/backend/services/hub_audit_service.py as a trail: what they say of the status of
-- each offer, and how the handlers of src/backend/api/hub.py keep it, over the store in memory.

pub mod AnyOrder
use Prim.Native.Nat.{max}
use mathlib.Core.Path.{subst}
use tristar.Base.{
  ℕ, ◌≤◌, ◌&&◌, arith, eq_iff, is_some, String, Bool, true, false, Option, none, some, List, [],
  ◌∷◌, ◌++◌, ◌≡◌, inl, inr, refl, sym, ap, ◌∙◌, Bool-cases, Option-cases, ◌==◌, if◌then◌else◌,
}
use tristar.Base.Dict.{lookup, insert, contains, lookup-insert}
use tristar.Clock.{DateTime}
use tristar.Outcome.{Result, ok, err}
use tristar.Core.Http.{HttpError}
use tristar.Core.Security.{AuthUser, Decoded, get_current_user, require_role}
use tristar.Models.Offer.{
  OfferBrief, OfferStatus, draft, approved, active, expired, TriggerType, with_status,
}
use tristar.Models.Validation.{offer_ok}
use tristar.Hub.Store.{StoreError, IsStorable}
use tristar.Hub.Store.Memory.{Store, memory_store, get, save, update, list}
use tristar.Hub.Store.Memory.Contract.{IsGood, view, memory_laws, insert-IsGood}
use tristar.Hub.Audit.{
  HubAuditEvent, EventKind, offer_created, status_transition, offer_read, fraud_blocked,
}
use tristar.Hub.Routes.{
  HubState, validate_transition, starts_wrong, save_offer, get_offer, list_offers, move,
  update_offer_status, listed, since_utc,
}
use tristar.Hub.Change.{Allowed, validate_transition-Allowed}
use tristar.Hub.Routes.Lifecycle.{with_status-IsStorable}
use tristar.Hub.Api.{
  with_user, with_body, as_json, post_offers, get_offers_id, get_offers, put_offers_id_status,
}
use tristar.Hub.Api.Keeps.{as_json-IsStorable}
use tristar.Hub.Told.{
  Statuses, status_of, is_change, noted, noted_all, trail, noted_all-append, stage, stage_told,
  furthest, furthest-append,
}

-- A good store of which the audit events tell the status of every offer.
pub record IsTraced (s : HubState Store) : Type 0 where
  pub good : IsGood s.store
  pub told : (id : String) → trail s.audit_tasks id ≡ status_of (view s.store id)
  -- the status is the furthest that an event has told
  pub reached : (id : String) → furthest id s.audit_tasks ≡ stage (status_of (view s.store id))

-- A change that is written and logged.
logged_write :
    (o : OfferBrief) (e : HubAuditEvent) (s : HubState Store)
    → IsTraced s
    → IsStorable o
    → e.offer_id ≡ o.offer_id
    → e.new_status ≡ some o.status
    → is_change e.event ≡ true
    → stage (status_of (view s.store o.offer_id)) ≤ stage (some o.status)
    → IsTraced
        (record { store = insert o.offer_id o s.store; audit_tasks = s.audit_tasks ++ e ∷ [] })
logged_write o e s t st named new change climbs = record {
  good = insert-IsGood o s.store st t.good;
  told = λ id.
      ap (λ (m : Statuses). m id) (noted_all-append (λ _. none) s.audit_tasks e)
      ∙ rw (change, named, new, lookup-insert)
          (elim (Bool-cases (o.offer_id == id)) [
            | inl same ↦ rw same refl
            | inr other ↦ rw other (t.told id)
          ]);
  reached = λ id.
      furthest-append id s.audit_tasks e
      ∙ rw (change, named, new, lookup-insert)
          (elim (Bool-cases (o.offer_id == id)) [
            | inl same ↦
                rw same (omega (arith, t.reached id, before id ((eq_iff o.offer_id id).0 same)))
            | inr other ↦ rw other (omega (arith, t.reached id))
          ]);
}
  where
    before :
        (id : String)
        → o.offer_id ≡ id
        → stage (status_of (view s.store id)) ≤ stage (some o.status)
    before id same =
        subst (λ i. stage (status_of (view s.store i)) ≤ stage (some o.status)) same climbs

first_stage :
    (found : Option OfferBrief) (n : ℕ) → is_some found ≡ false → stage (status_of found) ≤ n
first_stage none n h = omega arith
first_stage (some o) n h = absurd (ground arith)

next_stage : {old new : OfferStatus} → Allowed old new → stage (some old) ≤ stage (some new)
next_stage Allowed.approve = omega arith
next_stage Allowed.activate = omega arith
next_stage Allowed.expire = omega arith

logged_read :
    (e : HubAuditEvent) (s : HubState Store)
    → IsTraced s
    → is_change e.event ≡ false
    → IsTraced (record s { audit_tasks = s.audit_tasks ++ e ∷ [] })
logged_read e s t other = record {
  good = t.good;
  told = λ id.
      ap (λ (m : Statuses). m id) (noted_all-append (λ _. none) s.audit_tasks e)
      ∙ rw other (t.told id);
  reached = λ id. furthest-append id s.audit_tasks e ∙ rw other (omega (arith, t.reached id));
}

save_offer-IsTraced :
    (user : AuthUser) (o : OfferBrief) (s : HubState Store)
    → IsStorable o
    → IsTraced s
    → IsTraced (save_offer memory_store user o s).1
unfolding save_offer save
save_offer-IsTraced user o s st t = elim (Bool-cases (starts_wrong o)) [
  | inl wrong ↦ rw wrong t
  | inr right ↦ elim (Bool-cases (contains o.offer_id s.store)) [
    | inl there ↦ rw (right, there) t
    | inr fresh ↦ rw (right, fresh) (logged_write o _ s t st refl refl refl (first_stage _ _ fresh))
  ]
]

get_offer-IsTraced :
    (user : AuthUser) (id : String) (s : HubState Store)
    → IsTraced s
    → IsTraced (get_offer memory_store user id s).1
unfolding get_offer get
get_offer-IsTraced user id s t = elim (Option-cases (lookup id s.store)) [
  | inl missing ↦ rw missing t
  | inr (o, there) ↦ rw there (logged_read _ s t refl)
]

listed-IsTraced :
    (r : Result StoreError (List OfferBrief)) (s : HubState Store)
    → IsTraced s
    → IsTraced (listed memory_store r s).1
listed-IsTraced (ok offers) s t = t
listed-IsTraced (err e) s t = t

list_offers-IsTraced :
    (st : Option OfferStatus) (member : Option String) (trigger : Option TriggerType)
    (since : Option DateTime) (s : HubState Store)
    → IsTraced s
    → IsTraced (list_offers memory_store st member trigger since s).1
unfolding list_offers list
list_offers-IsTraced st member trigger since s t =
    let (r, _) = list st trigger (since_utc memory_store since) s.store in listed-IsTraced r s t

move-IsTraced :
    (user : AuthUser) (id : String) (o : OfferBrief) (new : OfferStatus)
    (r : Result HttpError (Unit {0})) (s : HubState Store)
    → lookup id s.store ≡ some o
    → (r ≡ ok tt → Allowed o.status new)
    → IsTraced s
    → IsTraced (move memory_store user id o new r s).1
unfolding move update memory_laws
move-IsTraced user id o new (err e) s there may t = t
move-IsTraced user id o new (ok tt) s there may t =
    let named = memory_laws.view-id id s.store t.good there in
    logged_write (with_status new o) _ s t
      (with_status-IsStorable new o (memory_laws.view-IsStorable id s.store t.good there))
      (sym named) refl refl (rw (named, there) (next_stage (may refl)))

update_offer_status-IsTraced :
    (user : AuthUser) (id : String) (new : OfferStatus) (s : HubState Store)
    → IsTraced s
    → IsTraced (update_offer_status memory_store user id new s).1
unfolding update_offer_status get
update_offer_status-IsTraced user id new s t = elim (Option-cases (lookup id s.store)) [
  | inl missing ↦ rw missing t
  | inr (o, there) ↦
      let may = (validate_transition-Allowed o.status new).0 in
      let k = move-IsTraced user id o new (validate_transition o.status new) s there may t in
      rw there k
]

with_user-IsTraced :
    {A : Type 0} (r : Result HttpError AuthUser)
    (handler : AuthUser → HubState Store → Result HttpError A × HubState Store) (s : HubState Store)
    → ((user : AuthUser) → IsTraced (handler user s).1)
    → IsTraced s
    → IsTraced (with_user r handler s).1
with_user-IsTraced (err e) handler s k t = t
with_user-IsTraced (ok user) handler s k t = k user

save_body-IsTraced :
    (user : AuthUser) (o : OfferBrief) (s : HubState Store)
    → IsTraced s
    → IsTraced (with_body o (save_offer memory_store user) s).1
save_body-IsTraced user o s t = elim (Bool-cases (offer_ok (as_json o))) [
  | inr invalid ↦ rw invalid t
  | inl valid ↦ rw valid (save_offer-IsTraced user (as_json o) s (as_json-IsStorable o valid) t)
]

pub post_offers-IsTraced :
    (decode : String → Decoded) (token : String) (o : OfferBrief) (s : HubState Store)
    → IsTraced s
    → IsTraced (post_offers memory_store decode token o s).1
unfolding post_offers
post_offers-IsTraced decode token o s t =
    with_user-IsTraced (require_role decode "system" token)
      (λ user. with_body o (save_offer memory_store user)) s (λ user. save_body-IsTraced user o s t)
      t

pub get_offers_id-IsTraced :
    (decode : String → Decoded) (token id : String) (s : HubState Store)
    → IsTraced s
    → IsTraced (get_offers_id memory_store decode token id s).1
unfolding get_offers_id
get_offers_id-IsTraced decode token id s t =
    with_user-IsTraced (get_current_user decode token) (λ user. get_offer memory_store user id) s
      (λ user. get_offer-IsTraced user id s t) t

pub get_offers-IsTraced :
    (decode : String → Decoded) (token : String) (status : Option OfferStatus)
    (member : Option String) (trigger : Option TriggerType) (since : Option DateTime)
    (s : HubState Store)
    → IsTraced s
    → IsTraced (get_offers memory_store decode token status member trigger since s).1
unfolding get_offers
get_offers-IsTraced decode token status member trigger since s t =
    with_user-IsTraced (get_current_user decode token)
      (λ user. list_offers memory_store status member trigger since) s
      (λ user. list_offers-IsTraced status member trigger since s t) t

pub put_offers_id_status-IsTraced :
    (decode : String → Decoded) (token id : String) (new : OfferStatus) (s : HubState Store)
    → IsTraced s
    → IsTraced (put_offers_id_status memory_store decode token id new s).1
unfolding put_offers_id_status
put_offers_id_status-IsTraced decode token id new s t =
    with_user-IsTraced (require_role decode "system" token)
      (λ user. update_offer_status memory_store user id new) s
      (λ user. update_offer_status-IsTraced user id new s t) t

-- Every request to the Hub, whatever its token and whatever it answers, leaves a store whose audit
-- events tell the status of every offer, if the store was in memory, good, and told of before: a save, a
-- read, a listing and a change of status.
pub requests-IsTraced :
    (decode : String → Decoded) (token : String) (o : OfferBrief) (id : String) (new : OfferStatus)
    (status : Option OfferStatus) (member : Option String) (trigger : Option TriggerType)
    (since : Option DateTime) (s : HubState Store)
    → IsTraced s
    → IsTraced (post_offers memory_store decode token o s).1
      × IsTraced (get_offers_id memory_store decode token id s).1
      × IsTraced (get_offers memory_store decode token status member trigger since s).1
      × IsTraced (put_offers_id_status memory_store decode token id new s).1
requests-IsTraced decode token o id new status member trigger since s t = (
  post_offers-IsTraced decode token o s t,
  get_offers_id-IsTraced decode token id s t,
  get_offers-IsTraced decode token status member trigger since s t,
  put_offers_id_status-IsTraced decode token id new s t,
)
