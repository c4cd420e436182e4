-- ===== src/Models/Offer.antt =====
-- src/backend/models/offer_brief.py: the data of an offer. Amounts and rates that are `float` there
-- are whole numbers of hundredths here; a count is a natural number.
use tristar.Base.{ℕ, String, Bool, true, false, Option, List, ◌≡◌, ◌↔◌, arith}
use tristar.Clock.{DateTime}

pub data TriggerType : Type 0 where
  marketer_initiated purchase_triggered : TriggerType

pub data OfferStatus : Type 0 where
  draft approved active expired : OfferStatus

pub data ChannelType : Type 0 where
  push email sms in_app : ChannelType

pub data RiskSeverity : Type 0 where
  low medium critical : RiskSeverity

pub record Segment : Type 0 where
  pub name : String
  pub definition : String
  pub estimated_size : ℕ
  pub criteria : List String

-- `value` in hundredths
pub record Construct : Type 0 where
  pub kind : String
  pub value : ℕ
  pub description : String

pub record Channel : Type 0 where
  pub channel_type : ChannelType
  pub priority : ℕ
  pub message_template : Option String

-- rates in hundredths
pub record Kpis : Type 0 where
  pub expected_redemption_rate : ℕ
  pub expected_uplift_pct : ℕ
  pub target_segment_size : Option ℕ

-- A warning text, by the template that it is made from; `text` is one that came in from outside.
pub data Warning : Type 0 where
  over_discount : ℕ → Warning
  stacked_offers : ℕ → Warning
  cannibalizes : ℕ → Warning
  text : String → Warning

pub record RiskFlags : Type 0 where
  pub over_discounting : Bool
  pub cannibalization : Bool
  pub frequency_abuse : Bool
  pub offer_stacking : Bool
  pub severity : RiskSeverity
  pub warnings : List Warning

-- `bare_status` holds of a copy whose `status` is the plain text of a status and no enum member,
-- which `model_copy(update={"status": "active"})` makes; a validated offer has `false` there.
pub record OfferBrief : Type 0 where
  pub offer_id : String
  pub objective : String
  pub segment : Segment
  pub construct : Construct
  pub channels : List Channel
  pub kpis : Kpis
  pub risk_flags : RiskFlags
  pub status : OfferStatus
  pub bare_status : Bool
  pub trigger_type : TriggerType
  pub created_at : DateTime
  pub valid_until : Option DateTime

pub record FraudCheckResult : Type 0 where
  pub severity : RiskSeverity
  pub flags : RiskFlags
  pub warnings : List Warning
  pub blocked : Bool

pub record ApproveOfferResponse : Type 0 where
  pub offer_id : String
  pub status : OfferStatus
  pub hub_saved : Bool

pub record GenerateOfferRequest : Type 0 where
  pub objective : String
  pub segment_hints : Option (List String)

-- `offer.model_copy(update={"status": s})` with an enum member
abbrev pub with_status : OfferStatus → OfferBrief → OfferBrief
with_status s o = record o { status = s; bare_status = false }

abbrev pub is_status : OfferStatus → OfferStatus → Bool
is_status draft draft = true
is_status approved approved = true
is_status active active = true
is_status expired expired = true
is_status _ _ = false

abbrev pub is_trigger : TriggerType → TriggerType → Bool
is_trigger marketer_initiated marketer_initiated = true
is_trigger purchase_triggered purchase_triggered = true
is_trigger _ _ = false

abbrev pub is_critical : RiskSeverity → Bool
is_critical critical = true
is_critical _ = false

pub is_status_iff : (a b : OfferStatus) → (is_status a b ≡ true) ↔ (a ≡ b)
is_status_iff a b = ground arith

is_trigger_iff : (a b : TriggerType) → (is_trigger a b ≡ true) ↔ (a ≡ b)
is_trigger_iff a b = ground arith
