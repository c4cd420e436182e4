-- ===== src/Scout/Scoring/Bounds.antt =====
-- The ranges of the factors and of the total, and how the total follows the purchase.
use Prim.Native.Nat.{min}
use tristar.Base.{
  leb, Bool-cases, inl, inr, ◌⊎◌, false, ℕ, ◌≤◌, String, true, Option, none, some, List, [], ◌∷◌,
  ◌≡◌, ◌↔◌, refl, arith, leb→le, le→leb, All, Text,
}
use tristar.Models.Purchase.{
  PurchaseEventPayload, MemberProfile, NearbyStore, WeatherConditions, EnrichedContext, Breakdown,
}
use tristar.Scout.Scoring.{
  Table, partner_crosssell_scores, category_affinities, get_or, score_purchase_value,
  score_proximity, brand_score, score_frequency, score_category_affinity, score_partner_crosssell,
  score_weather, score_time_alignment, breakdown_of, sum, score,
}

-- Whatever the key, a table gives a value of an entry or the default.
get_or-le :
    (key : Text) (table : Table) (default bound : ℕ)
    → All (λ e. e.1 ≤ bound) table
    → default ≤ bound
    → get_or key table default ≤ bound
unfolding get_or
get_or-le key [] default bound h d = d
get_or-le key ((k, v) ∷ table) default bound h d =
    ground (arith, get_or-le key table default bound h.1 d)

value-le : (amount : ℕ) → score_purchase_value amount ≤ 20
unfolding score_purchase_value
value-le amount = ground arith

proximity-le : (stores : List NearbyStore) → score_proximity stores ≤ 25
unfolding score_proximity
proximity-le [] = omega arith
proximity-le (s ∷ _) = ground arith

frequency-le : (m : Option MemberProfile) → score_frequency m ≤ 15
unfolding score_frequency
frequency-le none = omega arith
frequency-le (some m) = ground arith

category-le : (e : PurchaseEventPayload) → score_category_affinity e ≤ 20
unfolding score_category_affinity
category-le e = get_or-le _ category_affinities 8 20 (omega arith) (omega arith)

brand-le : (brand : Option String) → brand_score brand ≤ 15
unfolding brand_score
brand-le brand = get_or-le _ partner_crosssell_scores 5 15 (omega arith) (omega arith)

partner-le : (e : PurchaseEventPayload) → score_partner_crosssell e ≤ 15
unfolding score_partner_crosssell
partner-le e = ground (arith, brand-le e.partner_brand)

weather-le : (w : Option WeatherConditions) → score_weather w ≤ 10
unfolding score_weather
weather-le none = omega arith
weather-le (some w) = ground arith

time-le : (e : PurchaseEventPayload) → score_time_alignment e ≤ 5
unfolding score_time_alignment
time-le e = ground arith

-- The documented maximum of each factor.
pub record InRange (b : Breakdown) : Type 0 where
  pub purchase_value : b.purchase_value ≤ 20
  pub proximity : b.proximity ≤ 25
  pub frequency : b.frequency ≤ 15
  pub category_affinity : b.category_affinity ≤ 20
  pub partner_crosssell : b.partner_crosssell ≤ 15
  pub weather : b.weather ≤ 10
  pub time_alignment : b.time_alignment ≤ 5

breakdown-InRange : (c : EnrichedContext) → InRange (breakdown_of c)
unfolding breakdown_of
breakdown-InRange c = record {
  purchase_value = value-le c.event.amount;
  proximity = proximity-le c.nearby_stores;
  frequency = frequency-le c.member;
  category_affinity = category-le c.event;
  partner_crosssell = partner-le c.event;
  weather = weather-le c.weather;
  time_alignment = time-le c.event;
}

-- Every factor of a score is within its documented maximum, the total is the sum of the factors cut
-- off at 100, and the event triggers exactly if the total reaches the threshold.
pub score_bounds :
    (threshold : ℕ) (c : EnrichedContext)
    → let s = score threshold c in
      InRange s.breakdown
      × (s.total ≡ min 100 (sum s.breakdown))
      × (s.total ≤ 100)
      × ((s.should_trigger ≡ true) ↔ (threshold ≤ s.total))
unfolding score
score_bounds threshold c = (breakdown-InRange c, refl, omega arith, (leb→le _ _, le→leb _ _))

abbrev with_amount : ℕ → EnrichedContext → EnrichedContext
with_amount amount c = record c { event = record c.event { amount = amount } }

value_mono : (a b : ℕ) → a ≤ b → score_purchase_value a ≤ score_purchase_value b
unfolding score_purchase_value
value_mono a b h = ground arith

-- In the same context a larger purchase never scores less, and triggers if a smaller one does.
score_mono_amount :
    (threshold a b : ℕ) (c : EnrichedContext)
    → a ≤ b
    → let small = score threshold (with_amount a c) in
      let large = score threshold (with_amount b c) in
      (small.total ≤ large.total) × ((small.should_trigger ≡ false) ⊎ (large.should_trigger ≡ true))
unfolding score breakdown_of score_category_affinity score_partner_crosssell score_time_alignment
score_mono_amount threshold a b c h =
    let total_le : (score threshold (with_amount a c)).total
        ≤ (score threshold (with_amount b c)).total =
      omega (arith, value_mono a b h) in
    (
      total_le,
      elim (Bool-cases (leb threshold (score threshold (with_amount a c)).total)) [
        | inl reached ↦ inr (le→leb _ _ (omega (arith, leb→le _ _ reached, total_le)))
        | inr missed ↦ inl missed
      ],
    )
