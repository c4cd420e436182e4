-- ===== src/Designer/Claude/Service/FromClaude.antt =====
-- What Claude's answers become: offers that passed validation, with the trigger type of the prompt.
use tristar.Base.{ℕ, String, Option, none, some, ◌≡◌, refl, arith, Text, All, [], ◌∷◌}
use mathlib.Core.Path.{subst}
use tristar.Base.Dict.{erase-All}
use tristar.Outcome.{Result, ok}
use tristar.Core.Config.{Settings}
use tristar.Models.Offer.{OfferBrief, TriggerType, marketer_initiated}
use tristar.Models.Validation.{offer_ok}
use tristar.Hub.Store.{IsStorable}
use tristar.Designer.Claude.Cache.{Cache, evict_oldest}
use tristar.Designer.Claude.Parse.{Json, object, other, unfence, built, parsed, parse_offer_brief}
use tristar.Designer.Claude.Retry.{call_with_retry}
use tristar.Designer.Claude.Service.{Backend, Prompt, with_id, ask, parse_answer}

-- An offer of Claude's that a marketer asked for, or that is in the cache for one.
abbrev pub FromClaude : TriggerType → OfferBrief → Type 0
FromClaude t o = IsStorable o × (o.trigger_type ≡ t)

abbrev pub CacheOk : Cache → Type 0
CacheOk cache = All (λ e. FromClaude marketer_initiated e.1.0) cache

pub with_id-FromClaude :
    (t : TriggerType) (uuid : String) (o : OfferBrief)
    → FromClaude t o
    → FromClaude t (with_id uuid o)
unfolding offer_ok
with_id-FromClaude t uuid o (st, e) = (record { valid = st.valid; member = st.member }, e)

pub evict-CacheOk : (cache : Cache) → CacheOk cache → CacheOk (evict_oldest cache)
unfolding evict_oldest
evict-CacheOk [] h = tt
evict-CacheOk ((k, e) ∷ cache) h =
    erase-All (λ (_ : String) (e : OfferBrief × ℕ). FromClaude marketer_initiated e.0) k
      ((k, e) ∷ cache) h

pub ok_inj : {E A : Type 0} {r : Result E A} {a b : A} → r ≡ ok a → r ≡ ok b → a ≡ b
ok_inj h k = ground arith

module _ (b : Backend) (cfg : Settings) where
  parse_answer-FromClaude :
      (t : TriggerType) (raw : Option Text) {o : OfferBrief}
      → parse_answer b t raw ≡ ok o
      → FromClaude t o
  unfolding parse_offer_brief
  parse_answer-FromClaude t none h = absurd (ground arith)
  parse_answer-FromClaude t (some raw) {o} h = made (b.codec.loads (unfence raw)) h
    where
      build_made :
          (f : b.codec.Fields) (q : Option OfferBrief)
          → b.codec.build (b.codec.set_trigger t f) ≡ q
          → built b.codec q ≡ ok o
          → FromClaude t o
      build_made f none e h = absurd (ground arith)
      build_made f (some p) e h =
          let same : p ≡ o = ground arith in
          subst (FromClaude t) same
            (b.codec.build-IsStorable (b.codec.set_trigger t f) e, b.codec.build-trigger t f e)

      made : (j : Option (Json b.codec.Fields)) → parsed b.codec t j ≡ ok o → FromClaude t o
      made none h = absurd (ground arith)
      made (some other) h = absurd (ground arith)
      made (some (object f)) h = build_made f (b.codec.build (b.codec.set_trigger t f)) refl h

  pub ask-FromClaude :
      (prompt : Prompt) (t : TriggerType) {o : OfferBrief} → ask b prompt t ≡ ok o → FromClaude t o
  unfolding ask
  ask-FromClaude prompt t h = parse_answer-FromClaude t (call_with_retry (b.api prompt)).answer h
