-- ===== src/Tests/Data.antt =====
-- Sample data: a member, a store, an offer and the settings of a development machine.
use tristar.Base.{
  Bool, Option, none, ◌≡◌, not, ◌&&◌, if◌then◌else◌, arith, ℕ, ◌+◌, ◌*◌, true, false, some, [], ◌∷◌,
  refl,
}
use mathlib.Core.Path.{subst}
use tristar.Models.Validation.{offer_ok}
use tristar.Clock.{hour, utc, naive}
use tristar.Core.Config.{Settings, default_settings}
use tristar.Core.Security.{AuthUser}
use tristar.Models.Offer.{
  OfferBrief, draft, active, purchase_triggered, marketer_initiated, push, low,
}
use tristar.Models.Purchase.{PurchaseEventPayload}
use tristar.Base.Dict.{lookup}
use tristar.Hub.Store.{IsStorable}
use tristar.Hub.Store.Memory.{Store}
use tristar.Hub.Store.Memory.Contract.{IsGood}

-- a noon, in microseconds
abbrev pub noon : ℕ
noon = 17_532_012 * hour

abbrev pub settings : Settings
settings = record default_settings { purchase_trigger_enabled = true }

abbrev pub purchase : PurchaseEventPayload
purchase = record {
  event_id = "evt-1";
  member_id = "demo-001";
  store_id = "CTC-ON-001";
  store_name = "Canadian Tire - Downtown";
  store_type = "ctc_owned";
  partner_brand = none;
  amount = 15000;
  currency = "CAD";
  is_refund = false;
  location = record { lat = 133_650_000; lon = 100_620_000 };
  category = some "sporting_goods";
  timestamp = naive noon;
}

abbrev pub winter_offer : OfferBrief
winter_offer = record {
  offer_id = "offer-1";
  objective = "Reactivate lapsed members";
  segment = record {
    name = "lapsed";
    definition = "no purchase for 90 days";
    estimated_size = 1200;
    criteria = "lapsed_90_days" ∷ [];
  };
  construct = record { kind = "points_multiplier"; value = 300; description = "3x points" };
  channels = record { channel_type = push; priority = 1; message_template = none } ∷ [];
  kpis = record {
    expected_redemption_rate = 15;
    expected_uplift_pct = 2500;
    target_segment_size = none;
  };
  risk_flags = record {
    over_discounting = false;
    cannibalization = false;
    frequency_abuse = false;
    offer_stacking = false;
    severity = low;
    warnings = [];
  };
  status = draft;
  bare_status = false;
  trigger_type = marketer_initiated;
  created_at = utc noon;
  valid_until = some (utc (noon + 4 * hour));
}

abbrev pub marketer : AuthUser
marketer = record { user_id = "marketer-1"; role = "marketing" }

abbrev pub scout : AuthUser
scout = record { user_id = "scout"; role = "system" }

-- an offer that a purchase triggered, which runs for four hours
abbrev pub running_offer : OfferBrief
running_offer = record winter_offer {
  offer_id = "offer-2";
  status = active;
  trigger_type = purchase_triggered;
}

pub winter_offer-IsStorable : IsStorable winter_offer
unfolding tristar.Models.Validation.segment_ok tristar.Models.Validation.construct_ok
    tristar.Models.Validation.objective_ok tristar.Models.Validation.valid_until_ok
    tristar.Models.Validation.offer_ok tristar.Models.Validation.context_ok
winter_offer-IsStorable = record { valid = refl; member = refl }

pub running_offer-IsStorable : IsStorable running_offer
unfolding tristar.Models.Validation.segment_ok tristar.Models.Validation.construct_ok
    tristar.Models.Validation.objective_ok tristar.Models.Validation.valid_until_ok
    tristar.Models.Validation.offer_ok tristar.Models.Validation.context_ok
running_offer-IsStorable = record { valid = refl; member = refl }

abbrev pub in_store : Store
in_store = ("offer-1", winter_offer) ∷ ("offer-2", running_offer) ∷ []

pub in_store-IsGood : IsGood in_store
unfolding lookup
in_store-IsGood = record {
  dict = (refl, (refl, tt));
  entries = ((refl, winter_offer-IsStorable), ((refl, running_offer-IsStorable), tt));
}

-- A validation that takes an offer as it is, or refuses it.
abbrev pub build : OfferBrief → Option OfferBrief
build o = if offer_ok o && not o.bare_status then some o else none

pub guarded :
    (c : Bool) (f o : OfferBrief) → (if c then some f else none) ≡ some o → (c ≡ true) × (f ≡ o)
guarded true f o e = (refl, ground arith)
guarded false f o e = absurd (ground arith)

pub both : (a b : Bool) → (a && not b) ≡ true → (a ≡ true) × (b ≡ false)
both a b e = ground arith

pub build-IsStorable : (f o : OfferBrief) → build f ≡ some o → IsStorable o
build-IsStorable f o e =
    let (passed, same) = guarded (offer_ok f && not f.bare_status) f o e in
    let (valid, member) = both (offer_ok f) f.bare_status passed in
    subst IsStorable same (record { valid = valid; member = member })
