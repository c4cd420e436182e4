-- ===== src/Scout/Routes/Steps.antt =====
-- What the steps of `process_purchase_event` do on the way to an offer.
use tristar.Base.{
  ℕ, ◌≤◌, String, Bool, true, false, Option, none, some, List, [], ◌∷◌, ◌++◌, ◌≡◌, ◌⊎◌, inl, inr,
  refl, arith, leb, ◌==◌, eq_iff, Bool-cases,
}
use tristar.Outcome.{ok, err, is_ok}
use tristar.Models.Offer.{OfferBrief}
use tristar.Models.Purchase.{PurchaseEventPayload, EnrichedContext}
use tristar.Models.Validation.{context_ok}
use tristar.Scout.Scoring.{ContextScore, score}
use tristar.Scout.Scoring.Bounds.{score_bounds}
use tristar.Scout.Constraints.{Reason, quiet_hours, can_deliver, record_delivery}
use tristar.Scout.Events.{handle}
use tristar.Scout.ServiceAuth.{get_valid_token}
use tristar.Scout.Webhook.{signature_of, verify_webhook_signature, verified_signature}
use tristar.Scout.Routes.{
  World, Reply, no_reply, answered, constrained, act, handled, score_entry, Readings, State,
  offer_generated_and_delivered, replied, purchase_context, deliver, constrain, score_and_act,
  process_checked, process_purchase_event,
}

-- A context that has passed the checks makes a request that passes validation.
pub context_is_ok :
    (threshold : ℕ) (event : PurchaseEventPayload) (c : EnrichedContext)
    → 1 ≤ event.amount
    → context_ok (purchase_context event c (score threshold c)) ≡ true
unfolding context_ok purchase_context
context_is_ok threshold event c paid = ground (arith, (score_bounds threshold c).2)

-- The part of `Delivered` that follows the gates of the handler.
abbrev Acted :
    World → PurchaseEventPayload → EnrichedContext → Readings → State → State → String → ℕ → Type 0
Acted w event c r s s' offer_id total =
    let sc = score w.cfg.purchase_trigger_score_threshold c in
    (total ≡ sc.total)
    × (w.cfg.purchase_trigger_score_threshold ≤ total)
    × (can_deliver w.cfg s.constraints event.member_id event.amount r.check_now true ≡ none)
    × ((offer : OfferBrief) × (w.designer (purchase_context event c sc) ≡ replied 201 (some offer))
        × (offer.offer_id ≡ offer_id)
        × (s'.constraints ≡ record_delivery s.constraints event.member_id r.record_now))

answered_lem :
    (w : World) (event : PurchaseEventPayload) (total : ℕ) (r : Readings) (reply : Reply)
    (s : State) {offer_id : String} {t : ℕ}
    → (answered w event total r reply s).0 ≡ ok (offer_generated_and_delivered offer_id t)
    → (offer : OfferBrief) × (reply ≡ replied 201 (some offer))
      × (offer.offer_id ≡ offer_id)
      × (t ≡ total)
      × ((answered w event total r reply s).1.constraints
          ≡ record_delivery s.constraints event.member_id r.record_now)
unfolding deliver
answered_lem w event total r no_reply s h = absurd (ground arith)
answered_lem w event total r (replied code none) s h = absurd (ground arith)
answered_lem w event total r (replied code (some offer)) s h =
    (offer, ground arith, ground arith, ground arith, ground arith)

constrained_lem :
    (w : World) (event : PurchaseEventPayload) (c : EnrichedContext) (sc : ContextScore)
    (r : Readings) (verdict : Option Reason) (s : State) {offer_id : String} {t : ℕ}
    → (constrained w event c sc r verdict s).0 ≡ ok (offer_generated_and_delivered offer_id t)
    → (verdict ≡ none)
      × ((offer : OfferBrief) × (w.designer (purchase_context event c sc)
            ≡ replied 201 (some offer))
          × (offer.offer_id ≡ offer_id)
          × (t ≡ sc.total)
          × ((constrained w event c sc r verdict s).1.constraints
              ≡ record_delivery s.constraints event.member_id r.record_now))
unfolding constrained
constrained_lem w event c sc r (some quiet_hours) s h = absurd (ground arith)
constrained_lem w event c sc r (some reason) s h = absurd (ground arith)
constrained_lem w event c sc r none s h =
    let ctx = purchase_context event c sc in
    elim (Bool-cases (context_ok ctx)) [
      | inr bad ↦ absurd (ground arith)
      | inl fine ↦ rw fine (
        refl,
        answered_lem w event sc.total r (w.designer ctx)
            (record s {
              auth = (get_valid_token w.encode s.auth r.token_now r.token_later).1;
              asked = s.asked ++ ctx ∷ [];
            })
            (rw fine at h),
      )
    ]

act_lem :
    (w : World) (event : PurchaseEventPayload) (c : EnrichedContext) (sc : ContextScore)
    (r : Readings) (triggered : Bool) (s : State) {offer_id : String} {t : ℕ}
    → (act w event c sc r triggered s).0 ≡ ok (offer_generated_and_delivered offer_id t)
    → (triggered ≡ true)
      × (can_deliver w.cfg s.constraints event.member_id event.amount r.check_now true ≡ none)
      × ((offer : OfferBrief) × (w.designer (purchase_context event c sc)
            ≡ replied 201 (some offer))
          × (offer.offer_id ≡ offer_id)
          × (t ≡ sc.total)
          × ((act w event c sc r triggered s).1.constraints
              ≡ record_delivery s.constraints event.member_id r.record_now))
unfolding act constrain
act_lem w event c sc r true s h =
    let (free, rest) =
      constrained_lem w event c sc r
        (can_deliver w.cfg s.constraints event.member_id event.amount r.check_now true) s h in
    (refl, free, rest)
act_lem w event c sc r false s h = absurd (ground arith)

score_and_act_lem :
    (w : World) (event : PurchaseEventPayload) (c : EnrichedContext) (r : Readings) (s : State)
    {offer_id : String} {t : ℕ}
    → (score_and_act w event c r s).0 ≡ ok (offer_generated_and_delivered offer_id t)
    → Acted w event c r s (score_and_act w event c r s).1 offer_id t
unfolding score_and_act
score_and_act_lem w event c r s h =
    let threshold = w.cfg.purchase_trigger_score_threshold in
    let sc = score threshold c in
    let (above, free, (offer, a, b, t, d)) =
      act_lem w event c sc r sc.should_trigger
        (record s { log = s.log ++ score_entry w.cfg event sc ∷ [] }) h in
    (t, rw t ((score_bounds threshold c).3.0 above), free, (offer, a, b, d))

handled_lem :
    (w : World) (event : PurchaseEventPayload) (r : Readings) (o : Option EnrichedContext)
    (s : State) {offer_id : String} {t : ℕ}
    → (handled w event r o s).0 ≡ ok (offer_generated_and_delivered offer_id t)
    → (c : EnrichedContext) × (o ≡ some c)
      × Acted w event c r s (handled w event r o s).1 offer_id t
handled_lem w event r none s h = absurd (ground arith)
handled_lem w event r (some c) s h = (c, refl, score_and_act_lem w event c r s h)

pub process_checked_cases :
    (w : World) (event : PurchaseEventPayload) (r : Readings) (s : State)
    → let (enriched, seen) = handle w.enrichment w.cfg event r.dedup_now r.dedup_later s.seen in
      ((event.is_refund ≡ false)
        × (1 ≤ event.amount)
        × (process_checked w event r s ≡ handled w event r enriched (record s { seen = seen })))
      ⊎ ((is_ok (process_checked w event r s).0 ≡ false) × ((process_checked w event r s).1 ≡ s))
unfolding process_checked
process_checked_cases w event r s = elim (Bool-cases event.is_refund) [
  | inl refund ↦ inr (ground arith, ground arith)
  | inr bought ↦ elim (Bool-cases (leb event.amount 0)) [
    | inl free ↦ inr (ground arith, ground arith)
    | inr paid ↦ inl (bought, ground arith, ground arith)
  ]
]

pub process_checked_lem :
    (w : World) (event : PurchaseEventPayload) (r : Readings) (s : State) {offer_id : String}
    {t : ℕ}
    → (process_checked w event r s).0 ≡ ok (offer_generated_and_delivered offer_id t)
    → (event.is_refund ≡ false)
      × (1 ≤ event.amount)
      × ((c : EnrichedContext) × ((handle w.enrichment w.cfg event r.dedup_now r.dedup_later
              s.seen).0
            ≡ some c)
          × Acted w event c r s (process_checked w event r s).1 offer_id t)
process_checked_lem w event r s h = elim (process_checked_cases w event r s) [
  | inr (failed, _) ↦ absurd (ground arith)
  | inl (bought, paid, e) ↦
      let (enriched, seen) = handle w.enrichment w.cfg event r.dedup_now r.dedup_later s.seen in
      (bought, paid, rw e (handled_lem w event r enriched (record s { seen = seen }) (rw e at h)))
]

pub process_cases :
    (w : World) (event : PurchaseEventPayload) (body : List ℕ) (signature : Option String)
    (r : Readings) (s : State)
    → (((w.cfg.environment ≡ "development")
          ⊎ (signature ≡ some (signature_of w.hexdigest w.cfg body)))
        × (process_purchase_event w event body signature r s ≡ process_checked w event r s))
      ⊎ ((is_ok (process_purchase_event w event body signature r s).0 ≡ false)
          × ((process_purchase_event w event body signature r s).1 ≡ s))
unfolding process_purchase_event
process_cases w event body signature r s = elim (Bool-cases (w.cfg.environment == "development")) [
  | inl dev ↦ inl (inl ((eq_iff _ _).0 dev), ground arith)
  | inr other ↦
      elim (verify_webhook_signature w.hexdigest w.cfg body signature)
          as (λ v.
            verify_webhook_signature w.hexdigest w.cfg body signature ≡ v
            → (((w.cfg.environment ≡ "development")
                  ⊎ (signature ≡ some (signature_of w.hexdigest w.cfg body)))
                × (process_purchase_event w event body signature r s ≡ process_checked w event r s))
              ⊎ ((is_ok (process_purchase_event w event body signature r s).0 ≡ false)
                  × ((process_purchase_event w event body signature r s).1 ≡ s))) [
                    | err e ↦ λ v. inr (ground arith, ground arith)
                    | ok true ↦ λ v.
                        inl (
                          inr (verified_signature w.hexdigest w.cfg body signature v),
                          ground arith,
                        )
                    | ok false ↦ λ v. inr (ground arith, ground arith)
                  ]
        refl
]
