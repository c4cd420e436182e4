-- ===== src/Scout/Routes/Failures.antt =====
-- What an event leaves behind that brings no offer.
use tristar.Base.{
  ℕ, String, Bool, true, false, Option, none, some, List, [], ◌∷◌, ◌++◌, nat_eq, ◌≡◌, ◌⊎◌, inl, inr,
  refl, arith, Bool-cases,
}
use tristar.Outcome.{Result, ok}
use tristar.Core.Http.{HttpError}
use tristar.Models.Purchase.{PurchaseEventPayload, EnrichedContext}
use tristar.Models.Validation.{context_ok}
use tristar.Scout.Scoring.{ContextScore, score}
use tristar.Scout.Constraints.{Reason, quiet_hours, can_deliver, queue_for_morning}
use tristar.Scout.Events.{handle}
use tristar.Scout.ServiceAuth.{get_valid_token}
use tristar.Scout.Routes.{
  World, Reply, no_reply, answered, constrained, act, handled, score_entry, Readings, State, Answer,
  offer_generated_and_delivered, replied, purchase_context, deliver, constrain, score_and_act,
  process_purchase_event,
}
use tristar.Scout.Routes.Steps.{process_checked_cases, process_cases}

-- An offer went out, or no delivery was recorded and nothing was sent.
abbrev pub OfferOrNothing : State → Result HttpError Answer × State → Type 0
OfferOrNothing s (answer, s') =
    ((offer_id : String) × (total : ℕ) × (answer
        ≡ ok (offer_generated_and_delivered offer_id total)))
    ⊎ ((s'.constraints.delivery_log ≡ s.constraints.delivery_log) × (s'.sent ≡ s.sent))

answered_nothing :
    (w : World) (event : PurchaseEventPayload) (total : ℕ) (r : Readings) (reply : Reply)
    (s : State)
    → OfferOrNothing s (answered w event total r reply s)
unfolding deliver
answered_nothing w event total r no_reply s = inr (refl, refl)
answered_nothing w event total r (replied code none) s = inr (ground arith, ground arith)
answered_nothing w event total r (replied code (some offer)) s =
    elim (Bool-cases (nat_eq code 201)) [
      | inl created ↦ inl (offer.offer_id, total, ground arith)
      | inr other ↦ inr (ground arith, ground arith)
    ]

constrained_nothing :
    (w : World) (event : PurchaseEventPayload) (c : EnrichedContext) (sc : ContextScore)
    (r : Readings) (verdict : Option Reason) (s : State)
    → OfferOrNothing s (constrained w event c sc r verdict s)
unfolding constrained queue_for_morning
constrained_nothing w event c sc r (some quiet_hours) s = inr (refl, refl)
constrained_nothing w event c sc r (some reason) s = inr (refl, refl)
constrained_nothing w event c sc r none s =
    let ctx = purchase_context event c sc in
    elim (Bool-cases (context_ok ctx)) [
      | inr bad ↦ rw bad (inr (refl, refl))
      | inl fine ↦ rw fine (
          answered_nothing w event sc.total r (w.designer ctx) (record s {
            auth = (get_valid_token w.encode s.auth r.token_now r.token_later).1;
            asked = s.asked ++ ctx ∷ [];
          }))
    ]

act_nothing :
    (w : World) (event : PurchaseEventPayload) (c : EnrichedContext) (sc : ContextScore)
    (r : Readings) (triggered : Bool) (s : State)
    → OfferOrNothing s (act w event c sc r triggered s)
unfolding act constrain
act_nothing w event c sc r true s =
    constrained_nothing w event c sc r
      (can_deliver w.cfg s.constraints event.member_id event.amount r.check_now true) s
act_nothing w event c sc r false s = inr (refl, refl)

handled_nothing :
    (w : World) (event : PurchaseEventPayload) (r : Readings) (o : Option EnrichedContext)
    (s : State)
    → OfferOrNothing s (handled w event r o s)
unfolding score_and_act
handled_nothing w event r none s = inr (refl, refl)
handled_nothing w event r (some c) s =
    let sc = score w.cfg.purchase_trigger_score_threshold c in
    act_nothing w event c sc r sc.should_trigger
      (record s { log = s.log ++ score_entry w.cfg event sc ∷ [] })

-- An event brings an offer, or it leaves the record of deliveries as it was and sends nothing.
pub offer_or_nothing :
    (w : World) (event : PurchaseEventPayload) (body : List ℕ) (signature : Option String)
    (r : Readings) (s : State)
    → OfferOrNothing s (process_purchase_event w event body signature r s)
offer_or_nothing w event body signature r s = elim (process_cases w event body signature r s) [
  | inr (_, same) ↦ inr (rw same refl, rw same refl)
  | inl (_, e) ↦ elim (process_checked_cases w event r s) [
    | inr (_, same) ↦ inr (rw (e, same) refl, rw (e, same) refl)
    | inl (_, _, e') ↦
        let (enriched, seen) = handle w.enrichment w.cfg event r.dedup_now r.dedup_later s.seen in
        rw (e, e') (handled_nothing w event r enriched (record s { seen = seen }))
  ]
]
