-- ===== src/Scout/Events/Gates.antt =====
-- The gates of `handle`: refunds, the feature flag with its pilot list, and duplicates.
use tristar.Base.{
  Bool-cases, ◌&&◌, not, inl, inr, ℕ, ◌+◌, ◌*◌, ◌≤◌, true, false, none, some, ◌≡◌, arith, codes,
  member, is_empty, ◌⊎◌, if◌then◌else◌,
}
use tristar.Base.Dict.{IsDict}
use tristar.Clock.{second}
use tristar.Core.Config.{Settings, pilot_member_ids}
use tristar.Models.Purchase.{PurchaseEventPayload, EnrichedContext}
use tristar.Scout.Events.{Seen, Enrichment, is_duplicate_event, is_allowed, enrich, handle}
use tristar.Scout.Events.Dedup.{second_event}

-- The event is no refund, the feature is on, and the member is in the pilot or there is none.
pub record Passes (cfg : Settings) (event : PurchaseEventPayload) : Type 0 where
  pub bought : event.is_refund ≡ false
  pub enabled : cfg.purchase_trigger_enabled ≡ true
  pub piloted :
      (is_empty (pilot_member_ids cfg) ≡ true)
      ⊎ (member (codes event.member_id) (pilot_member_ids cfg) ≡ true)

-- `handle` gives a context exactly to an event that passes the first gates and is no duplicate. An
-- event that fails them leaves the table of events as it was, so a refund or an event of a member
-- outside the pilot does not count as seen.
pub handle_lem :
    (e : Enrichment) (cfg : Settings) (event : PurchaseEventPayload) (now later : ℕ) (seen : Seen)
    → let (duplicate, seen') = is_duplicate_event event.event_id now later seen in
      (Passes cfg event
        × (handle e cfg event now later seen
            ≡ (if duplicate then none else some (enrich e event), seen')))
      ⊎ ((¬ Passes cfg event) × (handle e cfg event now later seen ≡ (none, seen)))
unfolding handle is_allowed
handle_lem e cfg event now later seen =
    elim (Bool-cases (is_allowed cfg event.member_id && not event.is_refund)) [
      | inl passes ↦ inl (ground arith, ground arith)
      | inr fails ↦ inr (λ p. ground (arith, p), ground arith)
    ]

-- An event that was taken gives nothing when it comes again within 60 seconds, whatever the calls
-- for the context would return then; for a table with one entry for each event.
handle_once :
    (e e' : Enrichment) (cfg : Settings) (event : PurchaseEventPayload) (now later now' later' : ℕ)
    (seen : Seen) {c : EnrichedContext}
    → IsDict seen
    → (handle e cfg event now later seen).0 ≡ some c
    → now' ≤ later + 60 * second
    → (handle e' cfg event now' later' (handle e cfg event now later seen).1).0 ≡ none
unfolding handle
handle_once e e' cfg event now later now' later' seen h first le = ground (
  arith,
  λ (f : (is_duplicate_event event.event_id now later seen).0 ≡ false).
      (second_event event.event_id now later now' later' seen h f).1 le,
)
