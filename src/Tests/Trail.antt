-- ===== src/Tests/Trail.antt =====
-- A store with one draft and the audit event that told of it.
use tristar.Tests.Data.{winter_offer, running_offer, winter_offer-IsStorable}
use tristar.Base.{String, none, some, [], ◌∷◌, ◌≡◌, inl, inr, refl, Bool-cases, ◌==◌}
use tristar.Base.Dict.{lookup}
use tristar.Core.Security.{Decoded, claims}
use tristar.Models.Offer.{draft, approved, active}
use tristar.Hub.Store.Memory.{Store, memory_store}
use tristar.Hub.Store.Memory.Contract.{view}
use tristar.Hub.Audit.{HubAuditEvent, offer_created, status_transition}
use mathlib.Core.List.Perm
use tristar.Hub.Trail.AnyOrder.{
  Request, save, read, set_status, serve_all, new_hub, written, new_table, rows_any_order,
}
use mathlib.Core.Path.{subst}
use mathlib.Core.List.{Perm}
use tristar.Base.{List, sym}
use tristar.Hub.Routes.{HubState}
use tristar.Hub.Api.{post_offers, get_offers_id, get_offers, put_offers_id_status}
use tristar.Hub.Told.{trail, status_of, furthest, stage}
use tristar.Hub.Trail.{IsTraced, requests-IsTraced}
use tristar.Designer.Routes.{DesignerState}
use tristar.System.{approve, step}
use tristar.System.Untold.{untold}

-- The token is the role of its owner.
abbrev decode : String → Decoded
decode token = claims (record { sub = some "user-1"; role = some token })

abbrev told : HubAuditEvent
told = record {
  offer_id = "offer-1";
  event = offer_created;
  old_status = none;
  new_status = some draft;
  actor_id = "user-1";
  fraud_severity = none;
}

abbrev hub : HubState Store
hub = record { store = ("offer-1", winter_offer) ∷ []; audit_tasks = told ∷ [] }

abbrev state : DesignerState Store
state = record { cache = []; counts = []; log = []; hub = hub }

hub-IsTraced : IsTraced hub
unfolding lookup
hub-IsTraced = record {
  good = record { dict = (refl, tt); entries = ((refl, winter_offer-IsStorable), tt) };
  told = λ id. elim (Bool-cases ("offer-1" == id)) [
    | inl same ↦ rw same refl
    | inr other ↦ rw other refl
  ];
  reached = λ id. elim (Bool-cases ("offer-1" == id)) [
    | inl same ↦ rw same refl
    | inr other ↦ rw other refl
  ];
}

abbrev moved : HubAuditEvent
moved = record {
  offer_id = "offer-1";
  event = status_transition;
  old_status = some draft;
  new_status = some approved;
  actor_id = "user-1";
  fraud_severity = none;
}

-- A save without the role, a save, a read, an approval, and an approval that is refused.
abbrev requests : List Request
requests =
    save "marketing" running_offer
    ∷ save "system" winter_offer
    ∷ read "marketing" "offer-2"
    ∷ set_status "system" "offer-1" approved
    ∷ set_status "system" "offer-1" approved
    ∷ []

served : (serve_all decode requests new_hub).audit_tasks ≡ told ∷ moved ∷ []
unfolding post_offers get_offers_id put_offers_id_status tristar.Core.Security.get_current_user
    tristar.Core.Security.check_role tristar.Core.Security.require_role
    tristar.Hub.Routes.validate_transition tristar.Hub.Routes.fire_audit tristar.Hub.Routes.move
    tristar.Hub.Routes.starts_wrong tristar.Hub.Routes.save_offer tristar.Hub.Routes.get_offer
    tristar.Hub.Routes.update_offer_status tristar.Hub.Store.Memory.get
    tristar.Hub.Store.Memory.save tristar.Hub.Store.Memory.update tristar.Base.Dict.lookup
    tristar.Base.Dict.insert tristar.Models.Validation.offer_ok tristar.Models.Validation.segment_ok
    tristar.Models.Validation.construct_ok tristar.Models.Validation.objective_ok
    tristar.Models.Validation.valid_until_ok tristar.Hub.Routes.store_error
served = refl

rows_any_order_example :
    furthest "offer-1" (written (moved ∷ told ∷ []) new_table).rows
    ≡ stage (status_of (view (serve_all decode requests new_hub).store "offer-1"))
rows_any_order_example =
    rows_any_order decode requests (moved ∷ told ∷ []) "offer-1"
      (subst (λ events. Perm events (moved ∷ told ∷ [])) (sym served) (Perm.swap moved told []))

requests-IsTraced_example :
    IsTraced (post_offers memory_store decode "system" running_offer hub).1
    × IsTraced (get_offers_id memory_store decode "system" "offer-1" hub).1
    × IsTraced (get_offers memory_store decode "system" (some active) none none none hub).1
    × IsTraced (put_offers_id_status memory_store decode "system" "offer-1" approved hub).1
requests-IsTraced_example =
    requests-IsTraced decode "system" running_offer "offer-1" approved (some active) none none none
      hub hub-IsTraced

untold_example :
    let s' = step memory_store decode (approve "marketing" "offer-1" winter_offer) state in
    (s'.hub.audit_tasks ≡ state.hub.audit_tasks)
    × (trail s'.hub.audit_tasks "offer-1" ≡ status_of (view state.hub.store "offer-1"))
    × (IsTraced s'.hub
        → status_of (view s'.hub.store "offer-1") ≡ status_of (view state.hub.store "offer-1"))
untold_example =
    untold decode (approve "marketing" "offer-1" winter_offer) state "offer-1" tt hub-IsTraced
