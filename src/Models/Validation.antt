-- ===== src/Models/Validation.antt =====
-- The constraints that the models declare (`Field(min_length=…, ge=…)`, the model validator), as
-- the test that pydantic makes of a value before it builds the model.
use tristar.Base.{
  ℕ, String, Bool, true, not, ◌&&◌, Option, some, List, [], ◌∷◌, ◌≡◌, arith, leb, length, codes,
  is_some, is_empty,
}
use tristar.Clock.{DateTime}
use tristar.Models.Offer.{
  OfferBrief, Segment, Construct, Channel, TriggerType, purchase_triggered, is_trigger,
}
use tristar.Models.Purchase.{PurchaseContextRequest}

abbrev text_length : String → ℕ
text_length s = length (codes s)

-- `Field(..., min_length=1)`
abbrev is_nonempty : String → Bool
is_nonempty s = leb 1 (text_length s)

unfoldable pub segment_ok : Segment → Bool
segment_ok s = is_nonempty s.name && is_nonempty s.definition && not (is_empty s.criteria)

unfoldable pub construct_ok : Construct → Bool
construct_ok c = is_nonempty c.kind && is_nonempty c.description

abbrev channels_ok : List Channel → Bool
channels_ok [] = true
channels_ok (c ∷ cs) = leb 1 c.priority && channels_ok cs

-- `objective: str = Field(..., min_length=10, max_length=500)`
unfoldable pub objective_ok : String → Bool
objective_ok s = leb 10 (text_length s) && leb (text_length s) 500

-- `validate_valid_until_for_purchase_triggered`
unfoldable pub valid_until_ok : TriggerType → Option DateTime → Bool
valid_until_ok t v = not (is_trigger t purchase_triggered && not (is_some v))

-- `OfferBrief(**data)` for data whose fields have the right types
unfoldable pub offer_ok : OfferBrief → Bool
unfolding segment_ok construct_ok objective_ok valid_until_ok
offer_ok o =
    objective_ok o.objective
    && segment_ok o.segment
    && construct_ok o.construct
    && (not (is_empty o.channels) && channels_ok o.channels)
    && leb o.kpis.expected_redemption_rate 100
    && valid_until_ok o.trigger_type o.valid_until

-- `PurchaseContextRequest`: `purchase_amount` above 0, `context_score` from 0 to 100
unfoldable pub context_ok : PurchaseContextRequest → Bool
context_ok c = leb 1 c.purchase_amount && leb c.context_score 100

-- A purchase-triggered offer that passes validation says until when it is valid.
purchase-has_valid_until :
    (o : OfferBrief)
    → offer_ok o ≡ true
    → o.trigger_type ≡ purchase_triggered
    → (d : DateTime) × (o.valid_until ≡ some d)
unfolding offer_ok
purchase-has_valid_until o h p = ground arith
