-- ===== src/Hub/Told.antt =====
-- What the audit events of src/backend/services/hub_audit_service.py say of the statuses of offers.
use Prim.Native.Nat.{max}
use tristar.Base.{
  ℕ, ◌&&◌, arith, String, Bool, true, false, Option, none, some, List, [], ◌∷◌, ◌++◌, ◌≡◌, refl,
  ◌==◌, if◌then◌else◌,
}
use tristar.Models.Offer.{OfferBrief, OfferStatus, draft, approved, active, expired}
use tristar.Hub.Audit.{
  HubAuditEvent, EventKind, offer_created, status_transition, offer_read, fraud_blocked,
}

abbrev pub Statuses : Type 0
Statuses = String → Option OfferStatus

abbrev pub status_of : Option OfferBrief → Option OfferStatus
status_of none = none
status_of (some o) = some o.status

abbrev pub is_change : EventKind → Bool
is_change offer_created = true
is_change status_transition = true
is_change offer_read = false
is_change fraud_blocked = false

-- What is known of the statuses after one more event.
abbrev pub noted : HubAuditEvent → Statuses → Statuses
noted e m id = if is_change e.event then (if e.offer_id == id then e.new_status else m id) else m id

abbrev pub noted_all : Statuses → List HubAuditEvent → Statuses
noted_all m [] = m
noted_all m (e ∷ events) = noted_all (noted e m) events

-- The statuses that the events tell of, from an empty store on.
abbrev pub trail : List HubAuditEvent → Statuses
trail = noted_all (λ _. none)

pub noted_all-append :
    (m : Statuses) (events : List HubAuditEvent) (e : HubAuditEvent)
    → noted_all m (events ++ e ∷ []) ≡ noted e (noted_all m events)
noted_all-append m [] e = refl
noted_all-append m (f ∷ events) e = noted_all-append (noted f m) events e

-- How far an offer is in its life, from no offer on.
abbrev pub stage : Option OfferStatus → ℕ
stage none = 0
stage (some draft) = 1
stage (some approved) = 2
stage (some active) = 3
stage (some expired) = 4

abbrev pub stage_told : String → HubAuditEvent → ℕ
stage_told id e = if is_change e.event && (e.offer_id == id) then stage e.new_status else 0

-- The furthest stage of an offer that the events tell of, in whatever order they come.
abbrev pub furthest : String → List HubAuditEvent → ℕ
furthest id [] = 0
furthest id (e ∷ events) = max (stage_told id e) (furthest id events)

pub furthest-append :
    (id : String) (events : List HubAuditEvent) (e : HubAuditEvent)
    → furthest id (events ++ e ∷ []) ≡ max (furthest id events) (stage_told id e)
furthest-append id [] e = omega arith
furthest-append id (f ∷ events) e = omega (arith, furthest-append id events e)
