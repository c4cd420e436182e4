-- ===== src/Core/Config.antt =====
-- src/backend/core/config.py: the settings that the code reads, and the pilot list.
use tristar.Base.{
  ℕ, String, Bool, false, not, List, [], Text, codes, strip, split, is_empty, if◌then◌else◌, keep,
  map,
}

pub record Settings : Type 0 where
  pub hub_redis_enabled : Bool
  pub jwt_secret : String
  pub service_jwt_expiry_hours : ℕ
  pub environment : String
  pub cache_ttl_seconds : ℕ
  pub purchase_trigger_score_threshold : ℕ
  pub purchase_trigger_rate_limit_hours : ℕ
  pub offer_valid_until_hours : ℕ
  pub quiet_hours_start : ℕ
  pub quiet_hours_end : ℕ
  pub dedup_window_hours : ℕ
  pub high_value_purchase_threshold : ℕ
  pub purchase_trigger_enabled : Bool
  pub purchase_trigger_pilot_members : String
  pub scout_webhook_secret : String

-- the defaults of `class Settings`; money in cents
abbrev pub default_settings : Settings
default_settings = record {
  hub_redis_enabled = false;
  jwt_secret = "dev-secret-change-in-prod";
  service_jwt_expiry_hours = 24;
  environment = "development";
  cache_ttl_seconds = 300;
  purchase_trigger_score_threshold = 70;
  purchase_trigger_rate_limit_hours = 6;
  offer_valid_until_hours = 4;
  quiet_hours_start = 22;
  quiet_hours_end = 8;
  dedup_window_hours = 24;
  high_value_purchase_threshold = 10000;
  purchase_trigger_enabled = false;
  purchase_trigger_pilot_members = "";
  scout_webhook_secret = "dev-webhook-secret";
}

-- `Settings.pilot_member_ids`; the set is a list, in which only membership is asked
unfoldable pub pilot_member_ids : Settings → List Text
pilot_member_ids s =
    if is_empty (strip (codes s.purchase_trigger_pilot_members))
    then []
    else keep (λ m. not (is_empty m))
        (map strip (split b',' (codes s.purchase_trigger_pilot_members)))
