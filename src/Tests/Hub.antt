-- ===== src/Tests/Hub.antt =====
-- The Hub on sample data, over the store in memory.
use tristar.Base.{
  ℕ, ◌+◌, ◌*◌, String, Bool, true, false, Option, none, some, List, [], ◌∷◌, ◌≡◌, ◌⊎◌, ◌↔◌, inl,
  inr, refl, All, keep,
}
use tristar.Base.Dict.{lookup, IsDict}
use tristar.Clock.{hour, utc, naive, naive_and_aware, DateTime}
use tristar.Outcome.{ok, err}
use tristar.Models.Offer.{OfferBrief, approved, active, marketer_initiated, with_status}
use tristar.Hub.Store.{
  IsStorable, StoreError, GetSpec, SaveSpec, UpdateSpec, ListSpec, apply_filters,
}
use tristar.Hub.Store.Filters.{apply_filters-keep, apply_filters-naive, matches}
use tristar.Hub.Store.Memory.{Store, memory_store, get, save, update, list}
use tristar.Hub.Store.Memory.Contract.{memory_laws, memory_contract, IsGood, view}
use tristar.Hub.Routes.{HubState, update_offer_status, validate_transition}
use tristar.Hub.Sweep.{sweep, is_due}
use tristar.Hub.Sweep.Expiry.{Expires, sweep-Expires}
use tristar.Hub.Sweep.Complete.{sweep_complete}
use tristar.Clock
use tristar.Tests.Data.{
  noon, winter_offer, scout, running_offer, winter_offer-IsStorable, in_store, in_store-IsGood,
}

abbrev hub : HubState Store
hub = record { store = in_store; audit_tasks = [] }

-- An approval, and what is in the store afterwards.
approved_now :
    lookup "offer-1" (update_offer_status memory_store scout "offer-1" approved hub).1.store
    ≡ some (with_status approved winter_offer)
unfolding tristar.Hub.Audit.create_table_sync tristar.Hub.Audit.log_event
    tristar.Hub.Routes.validate_transition tristar.Hub.Routes.starts_wrong
    tristar.Hub.Routes.store_error tristar.Hub.Routes.fire_audit tristar.Hub.Routes.save_offer
    tristar.Hub.Routes.get_offer tristar.Hub.Routes.list_offers tristar.Hub.Routes.move
    tristar.Hub.Routes.update_offer_status tristar.Hub.Store.created_since
    tristar.Hub.Store.apply_filters tristar.Hub.Store.Memory.get tristar.Hub.Store.Memory.save
    tristar.Hub.Store.Memory.update tristar.Hub.Store.Memory.list tristar.Hub.Store.Memory.exists
    tristar.Hub.Store.Memory.ping tristar.Hub.Store.Memory.clear
    tristar.Hub.Store.Memory.Contract.memory_laws tristar.Hub.Sweep.is_due
    tristar.Hub.Sweep.expire_each tristar.Hub.Sweep.sweep tristar.Base.Dict.lookup
    tristar.Base.Dict.insert tristar.Base.Dict.erase
approved_now = refl

memory_contract_example :
    GetSpec (view in_store) (view (get "offer-1" in_store).1) "offer-1" (get "offer-1" in_store).0
    × SaveSpec
        (view in_store)
        (view (save winter_offer in_store).1)
        winter_offer
        (save winter_offer in_store).0
    × UpdateSpec
        (view in_store)
        (view (update winter_offer in_store).1)
        winter_offer
        (update winter_offer in_store).0
    × ListSpec
        (view in_store)
        (view (list (some active) none none in_store).1)
        (some active)
        (list (some active) none none in_store).0
    × IsGood (save winter_offer in_store).1
    × IsGood (update winter_offer in_store).1
memory_contract_example =
    memory_contract winter_offer "offer-1" (some active) none none in_store winter_offer-IsStorable
      in_store-IsGood

apply_filters-keep_example :
    apply_filters (winter_offer ∷ running_offer ∷ []) (some active) none (some (naive noon))
    ≡ ok (keep (matches (some active) none (some (naive noon))) (winter_offer ∷ running_offer ∷ []))
apply_filters-keep_example =
    apply_filters-keep (winter_offer ∷ running_offer ∷ []) (some active) none (some (naive noon))
      (refl, (refl, tt))

-- An offer whose creation time came without an offset.
abbrev naive_offer : OfferBrief
naive_offer = record winter_offer { created_at = naive noon }

apply_filters-naive_example :
    apply_filters
      (running_offer ∷ naive_offer ∷ [])
      none
      (some marketer_initiated)
      (some (utc noon))
    ≡ err naive_and_aware
apply_filters-naive_example =
    apply_filters-naive (running_offer ∷ naive_offer ∷ []) none (some marketer_initiated) (utc noon)
      (inr (inl (refl, refl)))

abbrev later : DateTime
later = utc (noon + 5 * hour)

sweep-Expires_example :
    IsGood (sweep memory_store later in_store).1
    × ((id : String)
        → Expires later (view in_store id) (view (sweep memory_store later in_store).1 id))
unfolding memory_laws
sweep-Expires_example = sweep-Expires memory_store memory_laws later in_store in_store-IsGood

still_running : lookup "offer-2" (sweep memory_store (utc noon) in_store).1 ≡ some running_offer
unfolding tristar.Hub.Audit.create_table_sync tristar.Hub.Audit.log_event
    tristar.Hub.Routes.validate_transition tristar.Hub.Routes.starts_wrong
    tristar.Hub.Routes.store_error tristar.Hub.Routes.fire_audit tristar.Hub.Routes.save_offer
    tristar.Hub.Routes.get_offer tristar.Hub.Routes.list_offers tristar.Hub.Routes.move
    tristar.Hub.Routes.update_offer_status tristar.Hub.Store.created_since
    tristar.Hub.Store.apply_filters tristar.Hub.Store.Memory.get tristar.Hub.Store.Memory.save
    tristar.Hub.Store.Memory.update tristar.Hub.Store.Memory.list tristar.Hub.Store.Memory.exists
    tristar.Hub.Store.Memory.ping tristar.Hub.Store.Memory.clear
    tristar.Hub.Store.Memory.Contract.memory_laws tristar.Hub.Sweep.is_due
    tristar.Hub.Sweep.expire_each tristar.Hub.Sweep.sweep tristar.Base.Dict.lookup
    tristar.Base.Dict.insert tristar.Base.Dict.erase tristar.Clock.le_dt tristar.Clock.lt_dt
    tristar.Clock.hour_of tristar.Clock.weekday
still_running = refl

sweep_complete_example : is_due (utc noon) running_offer.valid_until ≡ false
sweep_complete_example =
    sweep_complete (utc noon) "offer-2" running_offer in_store in_store-IsGood still_running refl
