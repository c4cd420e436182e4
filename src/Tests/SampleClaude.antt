-- ===== src/Tests/SampleClaude.antt =====
-- A Claude that answers at once, and the state of a Designer that has just started.

use tristar.Base.{
  sym, ap, ◌∙◌, ℕ, ◌+◌, ◌-◌, ◌*◌, ◌≤◌, ◌<◌, String, Bool, true, false, not, ◌&&◌, ◌||◌, Option,
  none, some, List, [], ◌∷◌, ◌≡◌, ◌≢◌, ◌⊎◌, ◌↔◌, inl, inr, refl, arith, Text, codes, take, keep,
  length, is_some, is_empty, ltb, leb, if◌then◌else◌,
}
use tristar.Base.Dict.{lookup}
use tristar.Outcome.{ok}
use tristar.Models.Offer.{OfferBrief, TriggerType, GenerateOfferRequest}
use tristar.Models.Validation.{offer_ok}
use tristar.Hub.Store.Memory.{Store}
use tristar.Designer.Claude.Cache.{Cache, cache_key, get_from_cache, store_in_cache}
use tristar.Designer.Claude.Retry.{call_with_retry, call_with_retry_lem}
use tristar.Designer.Claude.Parse.{Codec, object}
use tristar.Designer.Claude.Service.{
  Backend, Inputs, with_id, generate_from_objective, generate_from_purchase_context, activated,
}
use tristar.Designer.Routes.{DesignerState}
use tristar.Tests.Data.{build, guarded, build-IsStorable, noon, settings, winter_offer, in_store}

pub build-trigger :
    (t : TriggerType) (f o : OfferBrief)
    → build (record f { trigger_type = t }) ≡ some o
    → o.trigger_type ≡ t
build-trigger t f o e =
    let g : OfferBrief = record f { trigger_type = t } in
    let (_, same) = guarded (offer_ok g && not g.bare_status) g o e in
    ap (λ (x : OfferBrief). x.trigger_type) (sym same)

-- A Claude that answers each prompt at once with the same offer, its fields taken as they are.
abbrev pub claude : Backend
claude = record {
  codec = record {
    Fields = OfferBrief;
    loads = λ text. some (object winter_offer);
    set_trigger = λ t o. record o { trigger_type = t };
    build = build;
    build-IsStorable = λ f e. build-IsStorable f _ e;
    build-trigger = λ t f e. build-trigger t f _ e;
  };
  sha256 = λ text. "digest";
  api = λ prompt attempt. some (codes "{}");
}

abbrev pub inputs : Inputs
inputs = record { uuid = "uuid-1"; cache_now = noon; store_now = noon }

abbrev pub state : DesignerState Store
state = record {
  cache = [];
  counts = [];
  log = [];
  hub = record { store = in_store; audit_tasks = [] };
}

abbrev pub request : GenerateOfferRequest
request = record { objective = "Reactivate lapsed members"; segment_hints = none }

pub first_answer :
    (generate_from_objective claude settings "Reactivate lapsed members" none inputs []).0
    ≡ ok (with_id "uuid-1" winter_offer)
unfolding tristar.Designer.Claude.Cache.evict_oldest tristar.Designer.Claude.Cache.get_from_cache
    tristar.Designer.Claude.Cache.store_in_cache tristar.Designer.Claude.Parse.unfence
    tristar.Designer.Claude.Parse.parse_offer_brief tristar.Designer.Claude.Retry.retry
    tristar.Designer.Claude.Retry.call_with_retry tristar.Designer.Claude.Service.ask
    tristar.Designer.Claude.Service.generate_from_objective
    tristar.Designer.Claude.Service.activated
    tristar.Designer.Claude.Service.generate_from_purchase_context
    tristar.Models.Validation.segment_ok tristar.Models.Validation.construct_ok
    tristar.Models.Validation.objective_ok tristar.Models.Validation.valid_until_ok
    tristar.Models.Validation.offer_ok tristar.Models.Validation.context_ok tristar.Base.Dict.lookup
    tristar.Base.Dict.insert tristar.Base.Dict.erase
first_answer = refl
