-- ===== src/Scout/Scoring.antt =====
-- src/backend/services/context_scoring_service.py. Every score there is a whole number of points,
-- so the sums are exact and `round` changes nothing.
pub mod Bounds
use Prim.Native.Nat.{min}
use tristar.Base.{
  ℕ, ◌+◌, ◌≤◌, String, Bool, true, false, ◌&&◌, ◌||◌, Option, none, some, List, [], ◌∷◌, map, leb,
  ltb, nat_eq, if◌then◌else◌, Text, codes, lower, replace, text_eq, member, ◌==◌,
}
use tristar.Clock.{DateTime, hour_of, weekday}
use tristar.Core.Config.{Settings}
use tristar.Models.Purchase.{
  PurchaseEventPayload, MemberProfile, NearbyStore, WeatherConditions, EnrichedContext, Breakdown,
}

abbrev pub Table : Type 0
Table = List (String × ℕ)

-- `_PARTNER_CROSSSELL_SCORES`, without its default
abbrev pub partner_crosssell_scores : Table
partner_crosssell_scores =
    ("sport_chek", 15)
    ∷ ("marks", 15)
    ∷ ("canadian_tire", 15)
    ∷ ("party_city", 12)
    ∷ ("lequipeur", 13)
    ∷ ("tim_hortons", 12)
    ∷ ("westside", 11)
    ∷ ("homegym", 10)
    ∷ ("default", 5)
    ∷ []

-- `_CATEGORY_AFFINITY`
abbrev pub category_affinities : Table
category_affinities =
    ("sporting_goods", 20)
    ∷ ("outdoor", 20)
    ∷ ("hardware", 18)
    ∷ ("food_beverage", 15)
    ∷ ("fitness", 17)
    ∷ ("automotive", 16)
    ∷ ("home_garden", 15)
    ∷ ("apparel", 14)
    ∷ ("electronics", 12)
    ∷ ("default", 8)
    ∷ []

-- `table.get(key, default)`
unfoldable pub get_or : Text → Table → ℕ → ℕ
get_or key [] default = default
get_or key ((k, v) ∷ table) default = if text_eq key (codes k) then v else get_or key table default

-- `.lower().replace(" ", "_").replace("-", "_")`
abbrev normalize : Text → Text
normalize t = replace b'-' b'_' (replace 32 b'_' (lower t))

abbrev text_or_empty : Option String → Text
text_or_empty none = []
text_or_empty (some s) = codes s

unfoldable pub score_purchase_value : ℕ → ℕ
score_purchase_value amount =
    if leb 20000 amount
    then 20
    else if leb 10000 amount
    then 15
    else if leb 5000 amount
    then 10
    else if leb 2500 amount
    then 7
    else 3

-- by the distance of the first store, in metres
unfoldable pub score_proximity : List NearbyStore → ℕ
score_proximity [] = 0
score_proximity (nearest ∷ _) =
    if ltb nearest.distance_m 500
    then 25
    else if ltb nearest.distance_m 1000
    then 20
    else if ltb nearest.distance_m 1500
    then 15
    else if ltb nearest.distance_m 2000
    then 10
    else 0

unfoldable pub count_score : ℕ → ℕ
count_score n = if leb 10 n then 15 else if leb 5 n then 10 else if leb 2 n then 7 else 3

abbrev is_recent : Option ℕ → Bool
is_recent none = false
is_recent (some days) = leb days 7

unfoldable pub score_frequency : Option MemberProfile → ℕ
unfolding count_score
score_frequency none = 5
score_frequency (some m) =
    let freq_score = count_score m.purchase_count_90_days in
    if is_recent m.last_ctc_purchase_days_ago then min (freq_score + 3) 15 else freq_score

unfoldable pub score_category_affinity : PurchaseEventPayload → ℕ
score_category_affinity event =
    get_or (normalize (text_or_empty event.category)) category_affinities 8

pub brand_score : Option String → ℕ
brand_score brand = get_or (normalize (text_or_empty brand)) partner_crosssell_scores 5

unfoldable pub score_partner_crosssell : PurchaseEventPayload → ℕ
score_partner_crosssell event =
    if event.store_type == "ctc_owned" then 15 else brand_score event.partner_brand

abbrev severe_conditions : List Text
severe_conditions = codes "snow" ∷ codes "freezing_rain" ∷ codes "blizzard" ∷ []

abbrev poor_conditions : List Text
poor_conditions = codes "rain" ∷ codes "cold" ∷ []

-- 0 °C is 1000 tenths of a degree above -100 °C
unfoldable pub score_weather : Option WeatherConditions → ℕ
score_weather none = 5
score_weather (some w) =
    if w.is_adverse || member (lower (codes w.condition)) severe_conditions
    then 10
    else if member (lower (codes w.condition)) poor_conditions || ltb w.temperature 1000
    then 8
    else 5

-- `_PEAK_HOURS`
abbrev is_peak : ℕ → Bool
is_peak h = leb 10 h && leb h 18

-- A payload's timestamp is a `datetime`: the branches for a text and for `None` are not reached.
unfoldable pub score_time_alignment : PurchaseEventPayload → ℕ
score_time_alignment event =
    let score : ℕ = if is_peak (hour_of event.timestamp) then 5 else 2 in
    if leb 5 (weekday event.timestamp) then min (score + 2) 5 else score

pub record ContextScore : Type 0 where
  pub total : ℕ
  pub breakdown : Breakdown
  pub should_trigger : Bool

unfoldable pub breakdown_of : EnrichedContext → Breakdown
breakdown_of c = record {
  purchase_value = score_purchase_value c.event.amount;
  proximity = score_proximity c.nearby_stores;
  frequency = score_frequency c.member;
  category_affinity = score_category_affinity c.event;
  partner_crosssell = score_partner_crosssell c.event;
  weather = score_weather c.weather;
  time_alignment = score_time_alignment c.event;
}

-- `sum(breakdown.values())`
abbrev pub sum : Breakdown → ℕ
sum b =
    b.purchase_value + b.proximity + b.frequency + b.category_affinity + b.partner_crosssell
    + b.weather + b.time_alignment

-- `ContextScoringService.score`, with the threshold that the service was built with
unfoldable pub score : ℕ → EnrichedContext → ContextScore
score threshold c =
    let breakdown = breakdown_of c in
    let total = min 100 (sum breakdown) in
    record { total = total; breakdown = breakdown; should_trigger = leb threshold total }
