-- ===== src/Scout/Overlap/Alone.antt =====
-- A request that no other overlaps, and `process_purchase_event` as a whole.
use tristar.Base.{
  ℕ, zero, suc, String, Bool, true, false, Option, none, some, List, ◌≡◌, inl, inr, refl, arith,
  Bool-cases, ◌++◌, ◌∷◌, [],
}
use tristar.Outcome.{Result, ok, err}
use tristar.Core.Http.{HttpError}
use tristar.Models.Purchase.{PurchaseEventPayload, EnrichedContext}
use tristar.Models.Validation.{context_ok}
use tristar.Scout.Scoring.{ContextScore, score}
use tristar.Scout.Constraints.{Reason, can_deliver}
use tristar.Scout.ServiceAuth.{get_valid_token}
use tristar.Scout.Events.{handle}
use tristar.Scout.Webhook.{verify_webhook_signature}
use tristar.Scout.Routes
use tristar.Scout.Routes.{
  World, Readings, State, Reply, replied, no_reply, Answer, purchase_context, deliver, ask_designer,
  constrained, constrain, act, score_and_act, score_entry, handled, process_checked,
  process_purchase_event,
}
use tristar.Scout.Overlap.{
  Task, received, answered, entry, after_gates, after_entry, after_verdict, after_score,
  after_reply, resume,
}

-- The handler after its checks.
abbrev pub passed :
    World
    → PurchaseEventPayload
    → Readings
    → Result HttpError (Unit {0})
    → State
    → Result HttpError Answer × State
passed w event r (err e) s = (err e, s)
passed w event r (ok _) s =
    let (enriched, seen) = handle w.enrichment w.cfg event r.dedup_now r.dedup_later s.seen in
    handled w event r enriched (record s { seen = seen })

pub process-eq :
    (w : World) (event : PurchaseEventPayload) (body : List ℕ) (signature : Option String)
    (r : Readings) (s : State)
    → process_purchase_event w event body signature r s
      ≡ passed w event r (entry w event body signature) s
unfolding process_purchase_event process_checked entry
process-eq w event body signature r s =
    elim (verify_webhook_signature w.hexdigest w.cfg body signature)
        as (λ v.
          verify_webhook_signature w.hexdigest w.cfg body signature ≡ v
          → process_purchase_event w event body signature r s
            ≡ passed w event r (entry w event body signature) s) [
              | err e ↦ λ v. ground arith
              | ok true ↦ λ v. ground arith
              | ok false ↦ λ v. ground arith
            ]
      refl

-- `n` steps of a request, one after the other, with the same readings of the clock
abbrev pub steps : World → Readings → ℕ → Task × State → Task × State
steps w r zero c = c
steps w r (suc n) (t, s) = steps w r n (resume w t r s)

-- a step of the handler that ends it, as a task
abbrev pub ended : Result HttpError Answer × State → Task × State
ended (a, s) = (answered a, s)

replied-eq :
    (w : World) (event : PurchaseEventPayload) (total : ℕ) (r : Readings) (reply : Reply)
    (s : State)
    → steps w r 1 (after_reply event total r reply s)
      ≡ ended (Routes.answered w event total r reply s)
unfolding resume deliver
replied-eq w event total r no_reply s = refl
replied-eq w event total r (replied code none) s = ground arith
replied-eq w event total r (replied code (some offer)) s = ground arith

verdict-eq :
    (w : World) (event : PurchaseEventPayload) (c : EnrichedContext) (sc : ContextScore)
    (r : Readings) (verdict : Option Reason) (s : State)
    → steps w r 2 (after_verdict w event c sc r verdict s)
      ≡ ended (constrained w event c sc r verdict s)
unfolding constrained resume ask_designer purchase_context
verdict-eq w event c sc r (some reason) s = refl
verdict-eq w event c sc r none s =
    let ctx = purchase_context event c sc in
    elim (Bool-cases (context_ok ctx)) [
      | inr bad ↦ rw bad refl
      | inl fine ↦ rw fine (
          replied-eq w event sc.total r (w.designer ctx) (record s {
            auth = (get_valid_token w.encode s.auth r.token_now r.token_later).1;
            asked = s.asked ++ ctx ∷ [];
          }))
    ]

score-eq :
    (w : World) (event : PurchaseEventPayload) (c : EnrichedContext) (sc : ContextScore)
    (r : Readings) (triggered : Bool) (s : State)
    → steps w r 2 (after_score w event c sc r triggered s) ≡ ended (act w event c sc r triggered s)
unfolding act constrain resume
score-eq w event c sc r true s =
    verdict-eq w event c sc r
      (can_deliver w.cfg s.constraints event.member_id event.amount r.check_now true) s
score-eq w event c sc r false s = refl

gates-eq :
    (w : World) (event : PurchaseEventPayload) (r : Readings) (o : Option EnrichedContext)
    (s : State)
    → steps w r 3 (after_gates event o, s) ≡ ended (handled w event r o s)
unfolding resume score_and_act
gates-eq w event r none s = refl
gates-eq w event r (some c) s =
    let sc = score w.cfg.purchase_trigger_score_threshold c in
    score-eq w event c sc r sc.should_trigger
      (record s { log = s.log ++ score_entry w.cfg event sc ∷ [] })

entry-eq :
    (w : World) (event : PurchaseEventPayload) (r : Readings)
    (checked : Result HttpError (Unit {0})) (s : State)
    → steps w r 3 (after_entry w event r checked s) ≡ ended (passed w event r checked s)
entry-eq w event r (err e) s = unfold resume in refl
entry-eq w event r (ok _) s =
    let (enriched, seen) = handle w.enrichment w.cfg event r.dedup_now r.dedup_later s.seen in
    gates-eq w event r enriched (record s { seen = seen })

-- A request that takes its four steps with no other in between ends with the answer and the state of the
-- handler as a whole.
request_alone :
    (w : World) (event : PurchaseEventPayload) (body : List ℕ) (signature : Option String)
    (r : Readings) (s : State)
    → let (answer, s') = process_purchase_event w event body signature r s in
      steps w r 4 (received event body signature, s) ≡ (answered answer, s')
request_alone w event body signature r s =
    rw process-eq (unfold resume in entry-eq w event r (entry w event body signature) s)
