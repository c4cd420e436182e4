-- ===== src/Designer/Claude/Parse.antt =====
-- `_parse_offer_brief` of claude_api.py: the text of an answer becomes an offer.
use tristar.Base.{
  ℕ, not, Option, none, some, if◌then◌else◌, keep, Text, codes, strip, starts_with, split, join,
  ◌≡◌, refl,
}
use tristar.Outcome.{Result, ok, err}
use tristar.Models.Offer.{OfferBrief, TriggerType}
use tristar.Hub.Store.{IsStorable}

-- what `json.loads` gives: an object, or another value, at which `data["trigger_type"] = …` raises
pub data Json (Fields : Type 0) : Type 0 where
  object : Fields → Json Fields
  other : Json Fields

-- `ClaudeApiError`, `ClaudeResponseParseError`, and a `TypeError` that nothing catches
pub data ClaudeError : Type 0 where
  api_error parse_error type_error : ClaudeError

-- JSON and pydantic, with what is relied on: an offer that is built has passed validation, and has the
-- trigger type that was set among the fields.
pub record Codec : Type 1 where
  pub Fields : Type 0
  pub loads : Text → Option (Json Fields)
  pub set_trigger : TriggerType → Fields → Fields
  pub build : Fields → Option OfferBrief
  pub build-IsStorable : (f : Fields) {o : OfferBrief} → build f ≡ some o → IsStorable o
  pub build-trigger :
      (t : TriggerType) (f : Fields) {o : OfferBrief}
      → build (set_trigger t f) ≡ some o
      → o.trigger_type ≡ t

abbrev fence : Text
fence = codes "```"

abbrev newline : ℕ
newline = 10

-- the JSON text, without the lines of a markdown fence
unfoldable pub unfence : Text → Text
unfence raw =
    let text = strip raw in
    if starts_with text fence
    then join newline (keep (λ line. not (starts_with line fence)) (split newline text))
    else text

module _ (c : Codec) where
  open c use {Fields, loads, set_trigger, build, build-IsStorable, build-trigger}

  abbrev pub built : Option OfferBrief → Result ClaudeError OfferBrief
  built none = err parse_error
  built (some o) = ok o

  abbrev pub parsed : TriggerType → Option (Json Fields) → Result ClaudeError OfferBrief
  parsed t none = err parse_error
  parsed t (some other) = err type_error
  parsed t (some (object f)) = built (build (set_trigger t f))

  -- `_parse_offer_brief`
  unfoldable pub parse_offer_brief : Text → TriggerType → Result ClaudeError OfferBrief
  unfolding unfence
  parse_offer_brief raw t = parsed t (loads (unfence raw))

fenced : unfence (codes "```json\n{}\n```") ≡ codes "{}"
unfolding unfence
fenced = refl
