-- ===== src/Scout/Routes/Gates.antt =====
-- What has happened when an offer goes out, and when none does.
use tristar.Base.{
  ℕ, ◌≤◌, String, true, false, Option, none, some, List, ◌≡◌, ◌⊎◌, inl, inr, arith, codes, member,
  is_empty,
}
use tristar.Outcome.{ok}
use tristar.Models.Offer.{OfferBrief}
use tristar.Models.Purchase.{PurchaseEventPayload, EnrichedContext}
use tristar.Scout.Scoring.{score}
use tristar.Scout.Constraints.{can_deliver, record_delivery}
use tristar.Core.Config.{Settings, pilot_member_ids}
use tristar.Scout.Events.{Seen, Enrichment, is_duplicate_event, handle}
use tristar.Scout.Events.Gates.{Passes, handle_lem}
use tristar.Scout.Webhook.{signature_of}
use tristar.Scout.Routes.{
  World, Readings, State, offer_generated_and_delivered, replied, purchase_context,
  process_purchase_event,
}
use tristar.Scout.Routes.Steps.{process_checked_lem, process_cases}

-- Everything that has been checked and done when an offer goes out: the signature, the purchase,
-- the gates of the handler, the score, the constraints, and the Designer's answer.
pub record Delivered (w : World) (event : PurchaseEventPayload) (body : List ℕ)
    (signature : Option String) (r : Readings) (s s' : State) (offer_id : String) (total : ℕ)
    : Type 0 where
  pub signed :
      (w.cfg.environment ≡ "development") ⊎ (signature ≡ some (signature_of w.hexdigest w.cfg body))
  pub bought : event.is_refund ≡ false
  pub paid : 1 ≤ event.amount
  pub enabled : w.cfg.purchase_trigger_enabled ≡ true
  pub piloted :
      (is_empty (pilot_member_ids w.cfg) ≡ true)
      ⊎ (member (codes event.member_id) (pilot_member_ids w.cfg) ≡ true)
  pub unseen : (is_duplicate_event event.event_id r.dedup_now r.dedup_later s.seen).0 ≡ false
  pub context : EnrichedContext
  pub taken : (handle w.enrichment w.cfg event r.dedup_now r.dedup_later s.seen).0 ≡ some context
  pub scored : total ≡ (score w.cfg.purchase_trigger_score_threshold context).total
  pub triggered : w.cfg.purchase_trigger_score_threshold ≤ total
  pub allowed : can_deliver w.cfg s.constraints event.member_id event.amount r.check_now true ≡ none
  pub offer : OfferBrief
  pub answered :
      w.designer
        (purchase_context event context (score w.cfg.purchase_trigger_score_threshold context))
      ≡ replied 201 (some offer)
  pub named : offer.offer_id ≡ offer_id
  pub recorded : s'.constraints ≡ record_delivery s.constraints event.member_id r.record_now

-- What `handle` lets through has passed its gates and is no duplicate.
taken-Passes :
    (e : Enrichment) (cfg : Settings) (event : PurchaseEventPayload) (now later : ℕ) (seen : Seen)
    (c : EnrichedContext)
    → (handle e cfg event now later seen).0 ≡ some c
    → Passes cfg event × ((is_duplicate_event event.event_id now later seen).0 ≡ false)
taken-Passes e cfg event now later seen c taken = elim (handle_lem e cfg event now later seen) [
  | inr (_, is) ↦ absurd (let none_taken = rw is at taken in ground arith)
  | inl (passes, is) ↦ (passes, let one = rw is at taken in ground arith)
]

-- An offer goes out only to a purchase with a valid signature (outside development) that is no
-- refund and costs something, while the feature is on, to a member of the pilot list (if there is one),
-- for an event that the duplicate check has not found, whose score reached the threshold, which the delivery constraints let out, and for which
-- the Designer answered 201 with that offer; and the delivery is on record afterwards.
pub offer_needs_gates :
    (w : World) (event : PurchaseEventPayload) (body : List ℕ) (signature : Option String)
    (r : Readings) (s : State) {offer_id : String} {total : ℕ}
    → (process_purchase_event w event body signature r s).0
      ≡ ok (offer_generated_and_delivered offer_id total)
    → Delivered w event body signature r s
        (process_purchase_event w event body signature r s).1
        offer_id
        total
offer_needs_gates w event body signature r s h = elim (process_cases w event body signature r s) [
  | inr (failed, _) ↦ absurd (ground arith)
  | inl (signed, e) ↦
      let (bought, paid, (c, taken, acted)) = process_checked_lem w event r s (rw e at h) in
      rw e (record {
        signed = signed;
        bought = bought;
        paid = paid;
        enabled =
            (taken-Passes w.enrichment w.cfg event r.dedup_now r.dedup_later s.seen c
              taken).0.enabled;
        piloted =
            (taken-Passes w.enrichment w.cfg event r.dedup_now r.dedup_later s.seen c
              taken).0.piloted;
        unseen = (taken-Passes w.enrichment w.cfg event r.dedup_now r.dedup_later s.seen c taken).1;
        context = c;
        taken = taken;
        scored = acted.0;
        triggered = acted.1;
        allowed = acted.2;
        offer = acted.3.0;
        answered = acted.3.1;
        named = acted.3.2;
        recorded = acted.3.3;
      })
]
