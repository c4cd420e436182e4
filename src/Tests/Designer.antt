-- ===== src/Tests/Designer.antt =====
-- The handlers of the Designer and the fraud check on sample data.

use tristar.Hub.Store.{IsStorable}
use tristar.Base.{
  sym, ap, ◌∙◌, ℕ, ◌+◌, ◌-◌, ◌*◌, ◌≤◌, ◌<◌, String, Bool, true, false, not, ◌&&◌, ◌||◌, Option,
  none, some, List, [], ◌∷◌, ◌≡◌, ◌≢◌, ◌⊎◌, ◌↔◌, inl, inr, refl, arith, Text, codes, take, keep,
  length, is_some, is_empty, ltb, leb, if◌then◌else◌,
}
use tristar.Base.Dict.{lookup}
use tristar.Outcome.{ok}
use tristar.Models.Offer.{OfferBrief, approved, critical, medium, ApproveOfferResponse, is_critical}
use tristar.Models.Validation.{offer_ok}
use tristar.Hub.Routes.{HubState}
use tristar.Hub.Store.Memory.{Store, memory_store}
use tristar.Hub.Store.Memory.Contract.{memory_laws}
use tristar.Designer.Fraud.{Counts, validate, active_offers, is_cannibalizing}
use tristar.Designer.Fraud.Verdicts.{OverDiscounted, validate_lem}
use tristar.Designer.Claude.Cache.{Cache, cache_key, get_from_cache, store_in_cache}
use tristar.Designer.Claude.Retry.{call_with_retry, call_with_retry_lem}
use tristar.Designer.Claude.Parse.{Codec, object}
use tristar.Designer.Claude.Service.{
  Backend, Inputs, with_id, generate_from_objective, generate_from_purchase_context, activated,
}
use tristar.Designer.HubClient.{Reply, response, object as json}
use tristar.Designer.Inventory.{
  ℤ, pos, negsuc, Item, Inventory, InventorySuggestion, overstock_threshold, get_overstock_items,
  promote,
}
use tristar.Designer.Routes.{
  DesignerState, generate_offer_brief, approve_offer, generate_purchase_triggered_offer,
  get_inventory_suggestions,
}
use tristar.Designer.Routes.Approved.{Approved, approve_offer_ok}
use tristar.Designer.Routes.Blocks.{Seen, generated_offer, generate_locked_out}
use tristar.Tests.Data.{settings, winter_offer, marketer, winter_offer-IsStorable, in_store-IsGood}
use tristar.Tests.SampleClaude.{claude, inputs, state, request}

-- A Hub that takes every offer.
abbrev post : OfferBrief → HubState Store → Reply OfferBrief × HubState Store
post o hub = (response 201 (json (some o)), hub)

generated_now :
    (generate_offer_brief memory_store claude settings marketer request inputs state).0
    ≡ ok (with_id "uuid-1" winter_offer)
unfolding tristar.Designer.Claude.Cache.evict_oldest tristar.Designer.Claude.Cache.get_from_cache
    tristar.Designer.Claude.Cache.store_in_cache tristar.Designer.Claude.Parse.unfence
    tristar.Designer.Claude.Parse.parse_offer_brief tristar.Designer.Claude.Retry.retry
    tristar.Designer.Claude.Retry.call_with_retry tristar.Designer.Claude.Service.ask
    tristar.Designer.Claude.Service.generate_from_objective
    tristar.Designer.Claude.Service.activated
    tristar.Designer.Claude.Service.generate_from_purchase_context
    tristar.Designer.Fraud.active_offers tristar.Designer.Fraud.is_over_discounted
    tristar.Designer.Fraud.check_over_discounting tristar.Designer.Fraud.check_offer_stacking
    tristar.Designer.Fraud.is_cannibalizing tristar.Designer.Fraud.check_cannibalization
    tristar.Designer.Fraud.check_frequency_abuse tristar.Designer.Fraud.validate
    tristar.Designer.Fraud.record_active_offer tristar.Designer.Fraud.Verdicts.record_times
    tristar.Designer.HubClient.breaks_f003 tristar.Designer.HubClient.after_post
    tristar.Designer.HubClient.save_offer tristar.Designer.HubClient.get_offer
    tristar.Designer.HubClient.get_recent_member_offers tristar.Designer.Inventory.load
    tristar.Designer.Inventory.is_stale tristar.Designer.Inventory.place
    tristar.Designer.Inventory.sort_by_units tristar.Designer.Inventory.get_overstock_items
    tristar.Designer.Inventory.slice tristar.Designer.Inventory.objective_for
    tristar.Designer.Inventory.suggest tristar.Designer.Inventory.suggest_all
    tristar.Designer.Inventory.get_suggestions tristar.Designer.Routes.claude_error
    tristar.Designer.Routes.raise_if_fraud_blocked tristar.Designer.Routes.checked
    tristar.Designer.Routes.generate_offer_brief tristar.Designer.Routes.checked_purchase
    tristar.Designer.Routes.generate_purchase_triggered_offer tristar.Designer.Routes.approve
    tristar.Designer.Routes.approve_offer tristar.Designer.Routes.get_inventory_suggestions
    tristar.AuditLog.bucket_amount tristar.AuditLog.log_generation tristar.AuditLog.log_approval
    tristar.AuditLog.log_fraud_block tristar.AuditLog.log_purchase_trigger
    tristar.Models.Validation.segment_ok tristar.Models.Validation.construct_ok
    tristar.Models.Validation.objective_ok tristar.Models.Validation.valid_until_ok
    tristar.Models.Validation.offer_ok tristar.Models.Validation.context_ok
    tristar.Hub.Audit.create_table_sync tristar.Hub.Audit.log_event
    tristar.Hub.Routes.validate_transition tristar.Hub.Routes.starts_wrong
    tristar.Hub.Routes.store_error tristar.Hub.Routes.fire_audit tristar.Hub.Routes.save_offer
    tristar.Hub.Routes.get_offer tristar.Hub.Routes.list_offers tristar.Hub.Routes.move
    tristar.Hub.Routes.update_offer_status tristar.Hub.Store.created_since
    tristar.Hub.Store.apply_filters tristar.Hub.Store.Memory.get tristar.Hub.Store.Memory.save
    tristar.Hub.Store.Memory.update tristar.Hub.Store.Memory.list tristar.Hub.Store.Memory.exists
    tristar.Hub.Store.Memory.ping tristar.Hub.Store.Memory.clear
    tristar.Hub.Store.Memory.Contract.memory_laws tristar.Hub.Sweep.is_due
    tristar.Hub.Sweep.expire_each tristar.Hub.Sweep.sweep tristar.Base.Dict.lookup
    tristar.Base.Dict.insert tristar.Base.Dict.erase
generated_now = refl

generated_offer_example :
    Seen memory_store memory_laws "uuid-1"
      (generate_offer_brief memory_store claude settings marketer request inputs state)
      (with_id "uuid-1" winter_offer)
unfolding memory_laws
generated_offer_example =
    generated_offer memory_store memory_laws claude settings marketer request inputs state tt
      in_store-IsGood generated_now

abbrev busy : DesignerState Store
busy = record state { counts = ("marketer-1", 3) ∷ [] }

three_on_record : active_offers busy.counts "marketer-1" ≡ 3
unfolding tristar.Designer.Fraud.active_offers tristar.Designer.Fraud.is_over_discounted
    tristar.Designer.Fraud.check_over_discounting tristar.Designer.Fraud.check_offer_stacking
    tristar.Designer.Fraud.is_cannibalizing tristar.Designer.Fraud.check_cannibalization
    tristar.Designer.Fraud.check_frequency_abuse tristar.Designer.Fraud.validate
    tristar.Designer.Fraud.record_active_offer tristar.Designer.Fraud.Verdicts.record_times
    tristar.Base.Dict.lookup tristar.Base.Dict.insert tristar.Base.Dict.erase
three_on_record = refl

generate_locked_out_example :
    ((p : OfferBrief)
      → (generate_offer_brief memory_store claude settings marketer request inputs busy).0 ≢ ok p)
    × ((generate_offer_brief memory_store claude settings marketer request inputs busy).1.hub
        ≡ busy.hub)
generate_locked_out_example =
    generate_locked_out memory_store memory_laws claude settings marketer request inputs busy
      (omega (arith, three_on_record))

abbrev approval : ApproveOfferResponse
approval = record { offer_id = "offer-1"; status = approved; hub_saved = true }

approved_now : (approve_offer memory_store marketer "offer-1" winter_offer state).0 ≡ ok approval
unfolding tristar.Designer.Claude.Cache.evict_oldest tristar.Designer.Claude.Cache.get_from_cache
    tristar.Designer.Claude.Cache.store_in_cache tristar.Designer.Claude.Parse.unfence
    tristar.Designer.Claude.Parse.parse_offer_brief tristar.Designer.Claude.Retry.retry
    tristar.Designer.Claude.Retry.call_with_retry tristar.Designer.Claude.Service.ask
    tristar.Designer.Claude.Service.generate_from_objective
    tristar.Designer.Claude.Service.activated
    tristar.Designer.Claude.Service.generate_from_purchase_context
    tristar.Designer.Fraud.active_offers tristar.Designer.Fraud.is_over_discounted
    tristar.Designer.Fraud.check_over_discounting tristar.Designer.Fraud.check_offer_stacking
    tristar.Designer.Fraud.is_cannibalizing tristar.Designer.Fraud.check_cannibalization
    tristar.Designer.Fraud.check_frequency_abuse tristar.Designer.Fraud.validate
    tristar.Designer.Fraud.record_active_offer tristar.Designer.Fraud.Verdicts.record_times
    tristar.Designer.HubClient.breaks_f003 tristar.Designer.HubClient.after_post
    tristar.Designer.HubClient.save_offer tristar.Designer.HubClient.get_offer
    tristar.Designer.HubClient.get_recent_member_offers tristar.Designer.Inventory.load
    tristar.Designer.Inventory.is_stale tristar.Designer.Inventory.place
    tristar.Designer.Inventory.sort_by_units tristar.Designer.Inventory.get_overstock_items
    tristar.Designer.Inventory.slice tristar.Designer.Inventory.objective_for
    tristar.Designer.Inventory.suggest tristar.Designer.Inventory.suggest_all
    tristar.Designer.Inventory.get_suggestions tristar.Designer.Routes.claude_error
    tristar.Designer.Routes.raise_if_fraud_blocked tristar.Designer.Routes.checked
    tristar.Designer.Routes.generate_offer_brief tristar.Designer.Routes.checked_purchase
    tristar.Designer.Routes.generate_purchase_triggered_offer tristar.Designer.Routes.approve
    tristar.Designer.Routes.approve_offer tristar.Designer.Routes.get_inventory_suggestions
    tristar.AuditLog.bucket_amount tristar.AuditLog.log_generation tristar.AuditLog.log_approval
    tristar.AuditLog.log_fraud_block tristar.AuditLog.log_purchase_trigger
    tristar.Models.Validation.segment_ok tristar.Models.Validation.construct_ok
    tristar.Models.Validation.objective_ok tristar.Models.Validation.valid_until_ok
    tristar.Models.Validation.offer_ok tristar.Models.Validation.context_ok
    tristar.Hub.Audit.create_table_sync tristar.Hub.Audit.log_event
    tristar.Hub.Routes.validate_transition tristar.Hub.Routes.starts_wrong
    tristar.Hub.Routes.store_error tristar.Hub.Routes.fire_audit tristar.Hub.Routes.save_offer
    tristar.Hub.Routes.get_offer tristar.Hub.Routes.list_offers tristar.Hub.Routes.move
    tristar.Hub.Routes.update_offer_status tristar.Hub.Store.created_since
    tristar.Hub.Store.apply_filters tristar.Hub.Store.Memory.get tristar.Hub.Store.Memory.save
    tristar.Hub.Store.Memory.update tristar.Hub.Store.Memory.list tristar.Hub.Store.Memory.exists
    tristar.Hub.Store.Memory.ping tristar.Hub.Store.Memory.clear
    tristar.Hub.Store.Memory.Contract.memory_laws tristar.Hub.Sweep.is_due
    tristar.Hub.Sweep.expire_each tristar.Hub.Sweep.sweep tristar.Base.Dict.lookup
    tristar.Base.Dict.insert tristar.Base.Dict.erase
approved_now = refl

approve_offer_ok_example :
    (winter_offer.offer_id ≡ "offer-1")
    × (is_critical winter_offer.risk_flags.severity ≡ false)
    × Approved memory_store memory_laws marketer "offer-1" winter_offer state
        (approve_offer memory_store marketer "offer-1" winter_offer state).1
unfolding memory_laws
approve_offer_ok_example =
    approve_offer_ok memory_store memory_laws marketer "offer-1" winter_offer state
      winter_offer-IsStorable in_store-IsGood approved_now

abbrev deep_cut : OfferBrief
deep_cut = record winter_offer {
  construct = record { kind = "discount"; value = 4000; description = "40 percent off" };
}

validate_lem_example :
    let r = validate [] deep_cut "marketer-1" in
    ((r.blocked ≡ true) ↔ (OverDiscounted deep_cut ⊎ (3 ≤ active_offers [] "marketer-1")))
    × ((r.blocked ≡ true) ↔ (r.severity ≡ critical))
    × ((r.severity ≡ medium) ↔ ((r.blocked ≡ false) × (is_cannibalizing deep_cut ≡ true)))
    × (r.flags.severity ≡ r.severity)
    × (r.flags.warnings ≡ r.warnings)
    × (is_empty r.warnings
        ≡ not (r.flags.over_discounting || r.flags.offer_stacking || r.flags.cannibalization))
validate_lem_example = validate_lem [] deep_cut "marketer-1"
