-- ===== src/Designer/Fraud/Verdicts.antt =====
-- What the verdict of the fraud check says, and how the count of a member's offers decides it.
use tristar.Base.{
  ℕ, zero, suc, ◌+◌, ◌≤◌, ◌<◌, String, true, false, ◌||◌, ◌≡◌, ◌↔◌, ◌⊎◌, inr, refl, arith, member,
  lower, codes, is_empty, not, eq_iff, if◌then◌else◌, ◌==◌,
}
use tristar.Base.Dict.{lookup-insert}
use tristar.Models.Offer.{OfferBrief, critical, medium}
use tristar.Designer.Fraud.{
  Counts, active_offers, discount_types, is_over_discounted, is_cannibalizing, validate,
  record_active_offer,
}

-- A discount of more than 30 percent.
abbrev pub OverDiscounted : OfferBrief → Type 0
OverDiscounted o =
    (member (lower (codes o.construct.kind)) discount_types ≡ true) × (3000 < o.construct.value)

-- The check blocks an offer exactly if it is a discount of more than 30 percent or the member has three
-- active offers already; then, and only then, the severity is critical. Short of that it is medium
-- exactly for a points multiplier that may cannibalize. The flags carry the same severity and
-- warnings, and there is a warning exactly if there is a flag.
pub validate_lem :
    (counts : Counts) (o : OfferBrief) (m : String)
    → let r = validate counts o m in
      ((r.blocked ≡ true) ↔ (OverDiscounted o ⊎ (3 ≤ active_offers counts m)))
      × ((r.blocked ≡ true) ↔ (r.severity ≡ critical))
      × ((r.severity ≡ medium) ↔ ((r.blocked ≡ false) × (is_cannibalizing o ≡ true)))
      × (r.flags.severity ≡ r.severity)
      × (r.flags.warnings ≡ r.warnings)
      × (is_empty r.warnings
          ≡ not (r.flags.over_discounting || r.flags.offer_stacking || r.flags.cannibalization))
unfolding validate is_over_discounted
validate_lem counts o m =
    (ground arith, ground arith, ground arith, ground arith, ground arith, ground arith)

active_offers-record :
    (m j : String) (counts : Counts)
    → active_offers (record_active_offer m counts) j
      ≡ (if m == j then active_offers counts m + 1 else active_offers counts j)
unfolding record_active_offer active_offers
active_offers-record m j counts = rw lookup-insert (ground arith)

unfoldable pub record_times : ℕ → String → Counts → Counts
record_times zero m counts = counts
record_times (suc n) m counts = record_times n m (record_active_offer m counts)

active_offers-times :
    (n : ℕ) (m : String) (counts : Counts)
    → active_offers (record_times n m counts) m ≡ active_offers counts m + n
unfolding record_times
active_offers-times zero m counts = omega arith
active_offers-times (suc n) m counts = ground (
  arith,
  active_offers-times n m (record_active_offer m counts),
  active_offers-record m m counts,
  (eq_iff m m).1 refl,
)

-- Once three offers are on record for a member, every offer is blocked for the member, however small:
-- nothing takes an offer off the record.
three_offers_block :
    (n : ℕ) (m : String) (counts : Counts) (o : OfferBrief)
    → 3 ≤ n
    → (validate (record_times n m counts) o m).blocked ≡ true
three_offers_block n m counts o h =
    (validate_lem (record_times n m counts) o m).0.1
      (inr (omega (arith, active_offers-times n m counts)))
