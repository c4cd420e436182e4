-- ===== src/Designer/Claude/Service.antt =====
-- `ClaudeApiService` of claude_api.py: an offer for a marketer's objective, by way of the cache, and
-- an offer for a purchase. New ids and the readings of the clock are arguments.
pub mod FromClaude
pub mod Repeats
pub mod Offers
pub mod PurchaseOffers
use tristar.Base.{
  ℕ, ◌+◌, ◌*◌, String, Bool, true, false, Option, none, some, List, [], ◌∷◌, take, Text,
  if◌then◌else◌,
}
use tristar.Clock.{hour, naive}
use tristar.Outcome.{Result, ok, err}
use tristar.Core.Config.{Settings}
use tristar.Models.Offer.{OfferBrief, active, TriggerType, marketer_initiated, purchase_triggered}
use tristar.Models.Purchase.{PurchaseContextRequest}
use tristar.Designer.Claude.Cache.{Cache, get_from_cache, store_in_cache}
use tristar.Designer.Claude.Retry.{Attempts, call_with_retry}
use tristar.Designer.Claude.Parse.{Codec, ClaudeError, api_error, parse_offer_brief}

-- the two prompts, with the values that are put into the templates
pub data Prompt : Type 0 where
  marketer : String → Option (List String) → Prompt
  purchase : PurchaseContextRequest → List String → Prompt

-- what the service uses and the program does not implement
pub record Backend : Type 1 where
  pub codec : Codec
  pub sha256 : Text → String
  pub api : Prompt → ℕ → Option Text

-- the new id and the readings of the clock of one call
pub record Inputs : Type 0 where
  pub uuid : String
  pub cache_now : ℕ
  pub store_now : ℕ

abbrev pub with_id : String → OfferBrief → OfferBrief
with_id uuid o = record o { offer_id = uuid }

-- `f"\nSegment hints to consider: …"` stands in the prompt if there are hints
abbrev hints : Option (List String) → Option (List String)
hints none = none
hints (some []) = none
hints (some (h ∷ hs)) = some (h ∷ hs)

module _ (b : Backend) where
  -- `_call_with_retry` and `_parse_offer_brief`
  abbrev parse_answer : TriggerType → Option Text → Result ClaudeError OfferBrief
  parse_answer t none = err api_error
  parse_answer t (some raw) = parse_offer_brief b.codec raw t

  unfoldable pub ask : Prompt → TriggerType → Result ClaudeError OfferBrief
  ask prompt t = parse_answer t (call_with_retry (b.api prompt)).answer

  abbrev generated :
      Settings
      → String
      → Inputs
      → Result ClaudeError OfferBrief
      → Cache
      → Result ClaudeError OfferBrief × Cache
  generated cfg objective i (err e) cache = (err e, cache)
  generated cfg objective i (ok o) cache = (
    ok (with_id i.uuid o),
    store_in_cache b.sha256 cfg objective (with_id i.uuid o) i.store_now cache,
  )

  abbrev from_cache :
      Settings
      → String
      → Option (List String)
      → Inputs
      → Option OfferBrief
      → Cache
      → Result ClaudeError OfferBrief × Cache
  from_cache cfg objective segment_hints i (some cached) cache = (ok (with_id i.uuid cached), cache)
  from_cache cfg objective segment_hints i none cache =
      generated cfg objective i (ask (marketer objective (hints segment_hints)) marketer_initiated)
        cache

  -- `generate_from_objective`
  unfoldable pub generate_from_objective :
      Settings
      → String
      → Option (List String)
      → Inputs
      → Cache
      → Result ClaudeError OfferBrief × Cache
  unfolding ask
  generate_from_objective cfg objective segment_hints i cache =
      let (cached, cache') = get_from_cache b.sha256 objective i.cache_now cache in
      from_cache cfg objective segment_hints i cached cache'

  -- `model_copy(update={…, "status": "active", …})`: the status is a plain text, no enum member
  unfoldable pub activated : Settings → Inputs → OfferBrief → OfferBrief
  activated cfg i o = record o {
    offer_id = i.uuid;
    status = active;
    bare_status = true;
    trigger_type = purchase_triggered;
    valid_until = some (naive (i.store_now + cfg.offer_valid_until_hours * hour));
  }

  abbrev personalized :
      Settings → Inputs → Result ClaudeError OfferBrief → Result ClaudeError OfferBrief
  personalized cfg i (err e) = err e
  personalized cfg i (ok o) = ok (activated cfg i o)

  -- `generate_from_purchase_context`
  unfoldable pub generate_from_purchase_context :
      Settings → PurchaseContextRequest → Inputs → Result ClaudeError OfferBrief
  unfolding activated ask
  generate_from_purchase_context cfg ctx i =
      personalized cfg i (ask (purchase ctx (take 3 ctx.nearby_ctc_stores)) purchase_triggered)
