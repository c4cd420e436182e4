-- ===== src/AuditLog.antt =====
-- src/backend/services/audit_log_service.py: what each call writes to the log. The time and, for a
-- generation, the duration are left out of an entry, and the objective, which AuditLog/Scrub has.
pub mod Regex
pub mod Scrub
use tristar.Base.{ℕ, String, Bool, Option, List, ltb, if◌then◌else◌}
use tristar.Models.Offer.{OfferBrief, OfferStatus, RiskSeverity, Warning, TriggerType}

pub data Bucket : Type 0 where
  under_25 from_25 from_50 from_100 from_250 : Bucket

-- the text "Score … ≤ threshold …"
pub data SkipReason : Type 0 where
  below_threshold : ℕ → ℕ → SkipReason

pub data Entry : Type 0 where
  generated : String → String → TriggerType → String → String → Entry
  approved : String → String → OfferStatus → String → ℕ → Entry
  fraud_blocked : String → String → RiskSeverity → List Warning → Entry
  -- offer, member, channel, store id, store name
  delivered : String → String → String → Option String → Option String → Entry
  -- member, event, store name, store id, bucket, score, triggered, reason
  purchase_event : String → String → String → String → Bucket → ℕ → Bool → Option SkipReason → Entry

-- `_bucket_amount`, of an amount in cents
unfoldable pub bucket_amount : ℕ → Bucket
bucket_amount amount =
    if ltb amount 2500
    then under_25
    else if ltb amount 5000
    then from_25
    else if ltb amount 10000
    then from_50
    else if ltb amount 25000
    then from_100
    else from_250

unfoldable pub log_generation : OfferBrief → String → TriggerType → Entry
log_generation o member_id trigger =
    generated o.offer_id member_id trigger o.segment.name o.construct.kind

unfoldable pub log_approval : OfferBrief → String → Entry
log_approval o approved_by =
    approved o.offer_id approved_by o.status o.construct.kind o.construct.value

unfoldable pub log_fraud_block : String → String → RiskSeverity → List Warning → Entry
log_fraud_block = fraud_blocked

-- nothing calls it
unfoldable pub log_delivery : OfferBrief → String → String → Option String → Option String → Entry
log_delivery o member_id channel store_id store_name =
    delivered o.offer_id member_id channel store_id store_name

unfoldable pub log_purchase_trigger :
    String → String → String → String → ℕ → ℕ → Bool → Option SkipReason → Entry
unfolding bucket_amount
log_purchase_trigger member_id event_id store_name store_id amount score triggered reason =
    purchase_event member_id event_id store_name store_id (bucket_amount amount) score triggered
      reason
