-- ===== src/Scout/Events.antt =====
-- src/backend/services/purchase_event_handler.py: the gates that an event passes and the
-- enrichment of its context.
pub mod Dedup
pub mod Gates
use tristar.Base.{
  ℕ, ◌+◌, ◌-◌, ◌*◌, String, Bool, true, false, not, ◌&&◌, Option, none, some, List, [], ◌∷◌, leb,
  ltb, if◌then◌else◌, Text, codes, member, is_empty,
}
use tristar.Base.Dict.{Dict, lookup, insert, erase, contains}
use tristar.Clock.{second}
use tristar.Outcome.{Result, ok, err}
use tristar.Core.Config.{Settings, pilot_member_ids}
use tristar.Models.Purchase.{
  PurchaseEventPayload, MemberProfile, NearbyStore, WeatherConditions, EnrichedContext, GeoPoint,
}

-- `_seen_events`: event ids with the time at which each was seen
abbrev pub Seen : Type 0
Seen = Dict ℕ

-- `[eid for eid, ts in _seen_events.items() if ts < cutoff]`
unfoldable pub stale : ℕ → Seen → List String
stale cutoff [] = []
stale cutoff ((eid, ts) ∷ seen) =
    let rest = stale cutoff seen in if ltb ts cutoff then eid ∷ rest else rest

-- `for eid in stale: del _seen_events[eid]`
unfoldable pub erase_all : List String → Seen → Seen
erase_all [] seen = seen
erase_all (eid ∷ eids) seen = erase_all eids (erase eid seen)

-- `_is_duplicate_event`, with the two readings that it takes of the clock
unfoldable pub is_duplicate_event : String → ℕ → ℕ → Seen → Bool × Seen
unfolding stale erase_all
is_duplicate_event event_id now later seen =
    let fresh = erase_all (stale (now - 60 * second) seen) seen in
    if contains event_id fresh then (true, fresh) else (false, insert event_id later fresh)

-- an exception of an enrichment call, which `gather` returns as a value
pub data Failure : Type 0 where
  failure : Failure

-- the three calls that `asyncio.gather` makes
pub record Enrichment : Type 0 where
  pub fetch_member_history : String → Result Failure (Option MemberProfile)
  pub find_nearby_ctc_stores : GeoPoint → Result Failure (List NearbyStore)
  pub get_weather : GeoPoint → Result Failure (Option WeatherConditions)

-- `_fetch_member_history`
abbrev fetch_member_history : String → Result Failure (Option MemberProfile)
fetch_member_history member_id = ok (
    some (record {
      member_id = member_id;
      segment = "active";
      total_spend_90_days = 25000;
      purchase_count_90_days = 4;
      preferred_categories = "sporting_goods" ∷ "outdoor" ∷ [];
      last_ctc_purchase_days_ago = some 5;
      loyalty_tier = "silver";
    }))

-- `_find_nearby_ctc_stores`
abbrev find_nearby_ctc_stores : GeoPoint → Result Failure (List NearbyStore)
find_nearby_ctc_stores location = ok (
    record {
      store_id = "CTC-ON-001";
      store_name = "Canadian Tire - Downtown";
      distance_m = 800;
      category = "general";
    }
    ∷ record {
      store_id = "SC-ON-001";
      store_name = "Sport Chek - Downtown";
      distance_m = 1200;
      category = "sporting_goods";
    }
    ∷ [])

-- `_get_weather`: 5 °C is 1050 tenths of a degree above -100 °C
abbrev get_weather : GeoPoint → Result Failure (Option WeatherConditions)
get_weather location =
    ok (some (record { condition = "clear"; temperature = 1050; is_adverse = false }))

-- The calls as the program has them now; later versions ask services that may fail.
abbrev pub mock_enrichment : Enrichment
mock_enrichment = record {
  fetch_member_history = fetch_member_history;
  find_nearby_ctc_stores = find_nearby_ctc_stores;
  get_weather = get_weather;
}

-- `PurchaseEventHandler._is_allowed`
unfoldable pub is_allowed : Settings → String → Bool
is_allowed cfg member_id =
    let pilots = pilot_member_ids cfg in
    if not cfg.purchase_trigger_enabled
    then false
    else not (not (is_empty pilots) && not (member (codes member_id) pilots))

-- A failed call gives the empty value.
abbrev or_none : {A : Type 0} → Result Failure (Option A) → Option A
or_none (ok a) = a
or_none (err _) = none

abbrev or_nil : {A : Type 0} → Result Failure (List A) → List A
or_nil (ok l) = l
or_nil (err _) = []

unfoldable pub enrich : Enrichment → PurchaseEventPayload → EnrichedContext
enrich e event = record {
  event = event;
  member = or_none (e.fetch_member_history event.member_id);
  nearby_stores = or_nil (e.find_nearby_ctc_stores event.location);
  weather = or_none (e.get_weather event.location);
}

-- `PurchaseEventHandler.handle`, from the events seen so far
unfoldable pub handle :
    Enrichment → Settings → PurchaseEventPayload → ℕ → ℕ → Seen → Option EnrichedContext × Seen
handle e cfg event now later seen =
    let (duplicate, seen') = is_duplicate_event event.event_id now later seen in
    if event.is_refund
    then (none, seen)
    else if not (is_allowed cfg event.member_id)
    then (none, seen)
    else if duplicate
    then (none, seen')
    else (some (enrich e event), seen')
