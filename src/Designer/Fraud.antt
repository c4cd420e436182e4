-- ===== src/Designer/Fraud.antt =====
-- src/backend/services/fraud_check_service.py. A construct's value is in hundredths, and a warning is
-- the template of its text.
pub mod Verdicts
use tristar.Base.{
  ℕ, ◌+◌, String, Bool, true, false, ◌&&◌, ◌||◌, Option, none, some, List, [], ◌∷◌, ◌++◌, map, ltb,
  leb, if◌then◌else◌, Text, codes, lower, text_eq, member,
}
use tristar.Base.Dict.{Dict, lookup, insert}
use tristar.Models.Offer.{
  OfferBrief, RiskFlags, RiskSeverity, low, medium, critical, Warning, over_discount,
  stacked_offers, cannibalizes, FraudCheckResult, is_critical,
}

-- `_active_offer_counts`
abbrev pub Counts : Type 0
Counts = Dict ℕ

abbrev or_zero : Option ℕ → ℕ
or_zero none = 0
or_zero (some n) = n

-- `self._active_offer_counts.get(member_id, 0)`
unfoldable pub active_offers : Counts → String → ℕ
active_offers counts member_id = or_zero (lookup member_id counts)

-- `_DISCOUNT_TYPES`
abbrev pub discount_types : List Text
discount_types = codes "discount" ∷ codes "percentage_off" ∷ codes "percent_off" ∷ []

unfoldable pub is_over_discounted : OfferBrief → Bool
is_over_discounted o =
    member (lower (codes o.construct.kind)) discount_types && ltb 3000 o.construct.value

-- `_check_over_discounting`
unfoldable pub check_over_discounting : OfferBrief → Bool × List Warning
unfolding is_over_discounted
check_over_discounting o =
    if is_over_discounted o then (true, over_discount o.construct.value ∷ []) else (false, [])

-- `_check_offer_stacking`
unfoldable pub check_offer_stacking : Counts → String → Bool × List Warning
unfolding active_offers
check_offer_stacking counts member_id =
    let count = active_offers counts member_id in
    if leb 3 count then (true, stacked_offers count ∷ []) else (false, [])

unfoldable pub is_cannibalizing : OfferBrief → Bool
is_cannibalizing o =
    text_eq (lower (codes o.construct.kind)) (codes "points_multiplier")
    && (leb 500 o.construct.value
        && member (codes "high_value") (map (λ (c : String). lower (codes c)) o.segment.criteria))

-- `_check_cannibalization`
unfoldable pub check_cannibalization : OfferBrief → Bool × List Warning
unfolding is_cannibalizing
check_cannibalization o =
    if is_cannibalizing o then (true, cannibalizes o.construct.value ∷ []) else (false, [])

-- `_check_frequency_abuse`, which lets everything pass
unfoldable pub check_frequency_abuse : String → OfferBrief → Bool × List Warning
check_frequency_abuse member_id o = (false, [])

abbrev severity_of : Bool → Bool → RiskSeverity
severity_of is_critical flagged = if is_critical then critical else if flagged then medium else low

abbrev combine :
    Bool × List Warning
    → Bool × List Warning
    → Bool × List Warning
    → Bool × List Warning
    → FraudCheckResult
combine (over_disc, wd1) (stacking, wd2) (cannib, wd3) (freq, wd4) =
    let all_warnings = wd1 ++ (wd2 ++ (wd3 ++ wd4)) in
    let severity = severity_of (over_disc || stacking) (cannib || freq) in
    record {
      severity = severity;
      flags = record {
        over_discounting = over_disc;
        cannibalization = cannib;
        frequency_abuse = freq;
        offer_stacking = stacking;
        severity = severity;
        warnings = all_warnings;
      };
      warnings = all_warnings;
      blocked = is_critical severity;
    }

-- `FraudCheckService.validate`
unfoldable pub validate : Counts → OfferBrief → String → FraudCheckResult
unfolding check_over_discounting check_offer_stacking check_cannibalization check_frequency_abuse
validate counts o member_id =
    combine (check_over_discounting o) (check_offer_stacking counts member_id)
      (check_cannibalization o) (check_frequency_abuse member_id o)

-- `record_active_offer`
unfoldable pub record_active_offer : String → Counts → Counts
unfolding active_offers
record_active_offer member_id counts = insert member_id (active_offers counts member_id + 1) counts
