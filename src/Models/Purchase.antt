-- ===== src/Models/Purchase.antt =====
-- src/backend/models/purchase_event.py: the data of a purchase event. Money is in cents, a distance
-- in metres, a temperature in tenths of a degree above -100 °C, a score in whole points.
use tristar.Base.{ℕ, String, Bool, Option, List}
use tristar.Clock.{DateTime}

-- degrees north of the south pole and east of the antimeridian, in millionths
pub record GeoPoint : Type 0 where
  pub lat : ℕ
  pub lon : ℕ

pub record PurchaseEventPayload : Type 0 where
  pub event_id : String
  pub member_id : String
  pub store_id : String
  pub store_name : String
  pub store_type : String
  pub partner_brand : Option String
  pub amount : ℕ
  pub currency : String
  pub is_refund : Bool
  pub location : GeoPoint
  pub category : Option String
  pub timestamp : DateTime

pub record MemberProfile : Type 0 where
  pub member_id : String
  pub segment : String
  pub total_spend_90_days : ℕ
  pub purchase_count_90_days : ℕ
  pub preferred_categories : List String
  pub last_ctc_purchase_days_ago : Option ℕ
  pub loyalty_tier : String

pub record NearbyStore : Type 0 where
  pub store_id : String
  pub store_name : String
  pub distance_m : ℕ
  pub category : String

pub record WeatherConditions : Type 0 where
  pub condition : String
  pub temperature : ℕ
  pub is_adverse : Bool

pub record EnrichedContext : Type 0 where
  pub event : PurchaseEventPayload
  pub member : Option MemberProfile
  pub nearby_stores : List NearbyStore
  pub weather : Option WeatherConditions

-- the seven factors of a score, by the keys of the dict
pub record Breakdown : Type 0 where
  pub purchase_value : ℕ
  pub proximity : ℕ
  pub frequency : ℕ
  pub category_affinity : ℕ
  pub partner_crosssell : ℕ
  pub weather : ℕ
  pub time_alignment : ℕ

pub record PurchaseContextRequest : Type 0 where
  pub member_id : String
  pub event_id : String
  pub purchase_amount : ℕ
  pub store_name : String
  pub partner_brand : Option String
  pub member_segment : String
  pub nearby_ctc_stores : List String
  pub weather_condition : Option String
  pub context_score : ℕ
  pub score_breakdown : Breakdown
