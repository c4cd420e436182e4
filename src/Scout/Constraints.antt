-- ===== src/Scout/Constraints.antt =====
-- src/backend/services/delivery_constraint_service.py. The datetimes here are all naive UTC, so a
-- time is the `wall` of a datetime, in microseconds.
pub mod Verdicts
pub mod Pruning
pub mod Spacing
use tristar.Base.{
  ℕ, ◌+◌, ◌-◌, ◌*◌, ◌/◌, ◌%◌, ◌≤◌, String, Bool, true, false, not, ◌&&◌, ◌||◌, Option, none, some,
  List, [], ◌∷◌, ◌++◌, leb, ltb, if◌then◌else◌, keep, is_empty,
}
use tristar.Base.Dict.{Dict, lookup, insert, contains}
use tristar.Clock.{hour, naive, hour_of}
use tristar.Core.Config.{Settings}

-- `_delivery_log` and `_morning_queue`
pub record Service : Type 0 where
  pub delivery_log : Dict (List ℕ)
  pub morning_queue : Dict (String × ℕ)

abbrev pub new : Service
new = record { delivery_log = []; morning_queue = [] }

-- the texts of `reason_if_blocked`, by their templates
pub data Reason : Type 0 where
  opted_out : Reason
  rate_limit : ℕ → Reason
  dedup : ℕ → ℕ → Reason
  quiet_hours : Reason

-- `self._delivery_log.get(member_id, [])`
abbrev pub or_empty : Option (List ℕ) → List ℕ
or_empty none = []
or_empty (some l) = l

unfoldable pub deliveries : Service → String → List ℕ
deliveries s member_id = or_empty (lookup member_id s.delivery_log)

-- `_get_deliveries_since`
unfoldable pub get_deliveries_since : Service → String → ℕ → List ℕ
get_deliveries_since s member_id since = keep (λ ts. leb since ts) (deliveries s member_id)

unfoldable pub is_quiet_hours : Settings → ℕ → Bool
is_quiet_hours cfg now =
    let h : ℕ = hour_of (naive now) in
    if ltb cfg.quiet_hours_end cfg.quiet_hours_start
    then leb cfg.quiet_hours_start h || ltb h cfg.quiet_hours_end
    else leb cfg.quiet_hours_start h && ltb h cfg.quiet_hours_end

-- the checks of `can_deliver` on what the two queries of the log found
unfoldable pub judge : Settings → ℕ → Bool → Bool → Bool → Bool → Option Reason
judge cfg amount enabled recent_6h recent_24h quiet =
    if not enabled
    then some opted_out
    else if recent_6h
    then some (rate_limit cfg.purchase_trigger_rate_limit_hours)
    else if leb amount cfg.high_value_purchase_threshold && recent_24h
    then some (dedup cfg.dedup_window_hours cfg.high_value_purchase_threshold)
    else if quiet
    then some quiet_hours
    else none

-- A list is true in Python unless it is empty. A start of a window before the first datetime is 0
-- here, as every delivery is later.
abbrev recent : Settings → Service → String → ℕ → ℕ → Bool
recent cfg s member_id now hours =
    not (is_empty (get_deliveries_since s member_id (now - hours * hour)))

-- `can_deliver`: `none` is `(True, None)` and `some r` is `(False, r)`
unfoldable pub can_deliver : Settings → Service → String → ℕ → ℕ → Bool → Option Reason
can_deliver cfg s member_id amount now enabled =
    judge cfg amount enabled (recent cfg s member_id now cfg.purchase_trigger_rate_limit_hours)
      (recent cfg s member_id now cfg.dedup_window_hours) (is_quiet_hours cfg now)

-- `record_delivery`: append, then drop what is older than 48 hours
unfoldable pub record_delivery : Service → String → ℕ → Service
record_delivery s member_id now =
    let log = deliveries s member_id ++ now ∷ [] in
    record s {
      delivery_log = insert member_id (keep (λ ts. leb (now - 48 * hour) ts) log) s.delivery_log;
    }

unfoldable pub queue_for_morning : Service → String → String → ℕ → Service
queue_for_morning s member_id offer_id now = record s {
  morning_queue = insert member_id (offer_id, now) s.morning_queue;
}
