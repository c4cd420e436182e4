-- ===== src/Tests/Claude.antt =====
-- The Claude service on sample data.

use tristar.Base.{
  sym, ap, ◌∙◌, ℕ, ◌+◌, ◌-◌, ◌*◌, ◌≤◌, ◌<◌, String, Bool, true, false, not, ◌&&◌, ◌||◌, Option,
  none, some, List, [], ◌∷◌, ◌≡◌, ◌≢◌, ◌⊎◌, ◌↔◌, inl, inr, refl, arith, Text, codes, take, keep,
  length, is_some, is_empty, ltb, leb, if◌then◌else◌,
}
use tristar.Base.Dict.{lookup}
use tristar.Clock.{hour, second, naive}
use tristar.Outcome.{ok}
use tristar.Models.Offer.{OfferBrief, active, purchase_triggered, marketer_initiated}
use tristar.Models.Purchase.{PurchaseContextRequest}
use tristar.Models.Validation.{offer_ok}
use tristar.Designer.Claude.Cache.{Cache, cache_key, get_from_cache, store_in_cache}
use tristar.Designer.Claude.Cache.Bounds.{get_from_cache-store_in_cache}
use tristar.Designer.Claude.Retry.{call_with_retry, call_with_retry_lem}
use tristar.Designer.Claude.Parse.{Codec, object}
use tristar.Designer.Claude.Service.{
  Backend, Inputs, with_id, generate_from_objective, generate_from_purchase_context, activated,
}
use tristar.Designer.Claude.Service.FromClaude.{CacheOk, FromClaude}
use tristar.Designer.Claude.Service.Offers.{generate_from_objective_ok}
use tristar.Designer.Claude.Service.Repeats.{Call, answers, after_calls, cached_answer}
use tristar.Clock.{second}
use tristar.Tests.Data.{noon, settings, winter_offer}
use tristar.Tests.SampleClaude.{claude, inputs, first_answer}

-- A digest that tells a short text from a long one.
abbrev two_digests : Backend
two_digests = record claude { sha256 = λ text. if ltb (length text) 10 then "short" else "digest" }

abbrev call : String → Option (List String) → String → ℕ → Call
call objective hints uuid now = record {
  api = claude.api;
  objective = objective;
  hints = hints;
  inputs = record { uuid = uuid; cache_now = now; store_now = now };
}

abbrev first_call : Call
first_call = call "Reactivate lapsed members" none "uuid-1" noon

-- Another objective, and the same with white space.
abbrev calls_between : List Call
calls_between =
    call "Sell tents" none "uuid-2" (noon + second)
    ∷ call "reactivate lapsed members " none "uuid-3" (noon + 2 * second)
    ∷ []

abbrev last_call : Call
last_call =
    call " reactivate lapsed members" (some ("high_value" ∷ [])) "uuid-4" (noon + 3 * second)

nothing_cached : (get_from_cache two_digests.sha256 "Reactivate lapsed members" noon []).0 ≡ none
unfolding tristar.Designer.Claude.Cache.get_from_cache tristar.Base.Dict.lookup
nothing_cached = refl

answered_first :
    ((answers two_digests settings first_call []).0 ≡ ok (with_id "uuid-1" winter_offer))
    × (length (answers two_digests settings first_call []).1 ≡ 1)
unfolding tristar.Designer.Claude.Cache.evict_oldest tristar.Designer.Claude.Cache.get_from_cache
    tristar.Designer.Claude.Cache.store_in_cache tristar.Designer.Claude.Parse.unfence
    tristar.Designer.Claude.Parse.parse_offer_brief tristar.Designer.Claude.Retry.retry
    tristar.Designer.Claude.Retry.call_with_retry tristar.Designer.Claude.Service.ask
    tristar.Designer.Claude.Service.generate_from_objective
    tristar.Designer.Claude.Service.activated
    tristar.Designer.Claude.Service.generate_from_purchase_context
    tristar.Models.Validation.segment_ok tristar.Models.Validation.construct_ok
    tristar.Models.Validation.objective_ok tristar.Models.Validation.valid_until_ok
    tristar.Models.Validation.offer_ok tristar.Models.Validation.context_ok tristar.Base.Dict.lookup
    tristar.Base.Dict.insert tristar.Base.Dict.erase
answered_first = (refl, refl)

cached_answer_example :
    (answers two_digests settings last_call (
      after_calls two_digests settings calls_between
        (answers two_digests settings first_call []).1)).0
    ≡ ok (with_id "uuid-4" (with_id "uuid-1" winter_offer))
cached_answer_example =
    cached_answer two_digests settings first_call calls_between last_call [] nothing_cached
      answered_first.0 (omega (arith, answered_first.1))
      ((λ e. omega arith), ((λ e. omega arith), tt)) refl (omega arith)

generate_from_objective_ok_example :
    FromClaude marketer_initiated (with_id "uuid-1" winter_offer)
    × ((with_id "uuid-1" winter_offer).offer_id ≡ "uuid-1")
    × CacheOk (generate_from_objective claude settings "Reactivate lapsed members" none inputs []).1
generate_from_objective_ok_example =
    generate_from_objective_ok claude settings "Reactivate lapsed members" none inputs [] tt
      first_answer

abbrev pub context : PurchaseContextRequest
context = record {
  member_id = "demo-001";
  event_id = "evt-1";
  purchase_amount = 15000;
  store_name = "Canadian Tire - Downtown";
  partner_brand = none;
  member_segment = "active";
  nearby_ctc_stores = [];
  weather_condition = none;
  context_score = 90;
  score_breakdown = record {
    purchase_value = 15;
    proximity = 20;
    frequency = 10;
    category_affinity = 20;
    partner_crosssell = 15;
    weather = 5;
    time_alignment = 5;
  };
}

abbrev pub purchase_offer : OfferBrief
purchase_offer = record winter_offer {
  offer_id = "uuid-1";
  status = active;
  bare_status = true;
  trigger_type = purchase_triggered;
  valid_until = some (naive (noon + 4 * hour));
}

pub purchase_answer :
    generate_from_purchase_context claude settings context inputs ≡ ok purchase_offer
unfolding tristar.Designer.Claude.Cache.evict_oldest tristar.Designer.Claude.Cache.get_from_cache
    tristar.Designer.Claude.Cache.store_in_cache tristar.Designer.Claude.Parse.unfence
    tristar.Designer.Claude.Parse.parse_offer_brief tristar.Designer.Claude.Retry.retry
    tristar.Designer.Claude.Retry.call_with_retry tristar.Designer.Claude.Service.ask
    tristar.Designer.Claude.Service.generate_from_objective
    tristar.Designer.Claude.Service.activated
    tristar.Designer.Claude.Service.generate_from_purchase_context
    tristar.Models.Validation.segment_ok tristar.Models.Validation.construct_ok
    tristar.Models.Validation.objective_ok tristar.Models.Validation.valid_until_ok
    tristar.Models.Validation.offer_ok tristar.Models.Validation.context_ok tristar.Base.Dict.lookup
    tristar.Base.Dict.insert tristar.Base.Dict.erase
purchase_answer = refl

get_from_cache-store_in_cache_example :
    (get_from_cache
      (λ text. "digest")
      " reactivate lapsed members"
      (noon + second)
      (store_in_cache
        (λ text. "digest")
        settings
        "Reactivate lapsed members"
        winter_offer
        noon
        [])).0
    ≡ (if leb (noon + second) (noon + 300 * second) then some winter_offer else none)
get_from_cache-store_in_cache_example =
    get_from_cache-store_in_cache (λ text. "digest") settings "Reactivate lapsed members"
      " reactivate lapsed members" winter_offer noon (noon + second) [] refl

abbrev third_time : ℕ → Option Text
third_time attempt = if leb attempt 2 then none else some []

call_with_retry_lem_example :
    let r = call_with_retry third_time in
    (r.answer ≡ some []) × (r.calls ≡ 3) × (r.waited ≡ take (r.calls - 1) (1 ∷ 2 ∷ []))
call_with_retry_lem_example = call_with_retry_lem third_time
