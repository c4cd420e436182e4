-- ===== src/Scout/Overlap.antt =====
-- src/backend/api/scout.py, `process_purchase_event` as a task of the event loop, which gives way to
-- other tasks where the handler awaits the context of the event, the Designer and the notification. One
-- step of a task is what the handler does from one of these to the next.
pub mod Alone
pub mod Once
pub mod Rounds
pub mod Twice
use tristar.Base.{
  ℕ, zero, suc, String, Bool, true, false, Option, none, some, List, [], ◌∷◌, ◌++◌, leb, nat_eq,
  if◌then◌else◌, ◌==◌,
}
use tristar.Outcome.{Result, ok, err}
use tristar.Core.Http.{HttpError, http, internal_error, bad_signature, refund_event, bad_amount}
use tristar.Models.Offer.{OfferBrief}
use tristar.Models.Purchase.{PurchaseEventPayload, EnrichedContext, PurchaseContextRequest}
use tristar.Models.Validation.{context_ok}
use tristar.Scout.Scoring.{ContextScore, score}
use tristar.Scout.Constraints.{Reason, can_deliver, record_delivery}
use tristar.Scout.Events.{handle}
use tristar.Scout.ServiceAuth.{get_valid_token}
use tristar.Scout.Notification.{send_push}
use tristar.Scout.Webhook.{verify_webhook_signature}
use tristar.Scout.Routes.{
  World, Readings, State, Reply, replied, no_reply, Answer, skipped, scored_below_threshold, error,
  designer_generation_failed, offer_generated_and_delivered, blocked, channels, purchase_context,
  score_entry,
}

-- a request, by what it waits for
pub data Task : Type 0 where
  -- its turn, with the body and the header of the signature
  received : PurchaseEventPayload → List ℕ → Option String → Task
  -- the context of the event, here the one that the calls will give
  gathering : PurchaseEventPayload → EnrichedContext → Task
  -- the Designer's answer to the request
  asking : PurchaseEventPayload → PurchaseContextRequest → Task
  -- the notification of the offer, with the score
  notifying : PurchaseEventPayload → ℕ → OfferBrief → Task
  answered : Result HttpError Answer → Task

-- the checks of the request that come before the handler of events
unfoldable pub entry :
    World → PurchaseEventPayload → List ℕ → Option String → Result HttpError (Unit {0})
entry w event body signature =
    let checked : Result HttpError (Unit {0}) =
      if event.is_refund
      then err (http 400 refund_event)
      else if leb event.amount 0
      then err (http 400 bad_amount)
      else ok tt in
    if w.cfg.environment == "development"
    then checked
    else elim (verify_webhook_signature w.hexdigest w.cfg body signature) [
      | err _ ↦ err internal_error
      | ok true ↦ checked
      | ok false ↦ err (http 401 bad_signature)
    ]

abbrev pub after_gates : PurchaseEventPayload → Option EnrichedContext → Task
after_gates event none = answered (ok skipped)
after_gates event (some c) = gathering event c

-- `handle` marks an event as seen before it waits for the context.
abbrev pub after_entry :
    World → PurchaseEventPayload → Readings → Result HttpError (Unit {0}) → State → Task × State
after_entry w event r (err e) s = (answered (err e), s)
after_entry w event r (ok _) s =
    let (enriched, seen) = handle w.enrichment w.cfg event r.dedup_now r.dedup_later s.seen in
    (after_gates event enriched, record s { seen = seen })

abbrev pub after_verdict :
    World
    → PurchaseEventPayload
    → EnrichedContext
    → ContextScore
    → Readings
    → Option Reason
    → State
    → Task × State
after_verdict w event c sc r (some reason) s =
    let (answer, s') = blocked event r reason s in (answered answer, s')
after_verdict w event c sc r none s =
    let ctx = purchase_context event c sc in
    let (_, auth) = get_valid_token w.encode s.auth r.token_now r.token_later in
    if context_ok ctx
    then (asking event ctx, record s { auth = auth; asked = s.asked ++ ctx ∷ [] })
    else (answered (err internal_error), s)

abbrev pub after_score :
    World
    → PurchaseEventPayload
    → EnrichedContext
    → ContextScore
    → Readings
    → Bool
    → State
    → Task × State
after_score w event c sc r true s =
    after_verdict w event c sc r
      (can_deliver w.cfg s.constraints event.member_id event.amount r.check_now true) s
after_score w event c sc r false s =
    (answered (ok (scored_below_threshold sc.total w.cfg.purchase_trigger_score_threshold)), s)

-- The delivery is put on record before the notification is sent.
abbrev pub after_reply : PurchaseEventPayload → ℕ → Readings → Reply → State → Task × State
after_reply event total r no_reply s = (answered (ok error), s)
after_reply event total r (replied code none) s =
    if nat_eq code 201
    then (answered (ok error), s)
    else (answered (ok designer_generation_failed), s)
after_reply event total r (replied code (some offer)) s =
    if nat_eq code 201
    then (
      notifying event total offer,
      record s { constraints = record_delivery s.constraints event.member_id r.record_now },
    )
    else (answered (ok designer_generation_failed), s)

module _ (w : World) where
  -- one step of a request, with the readings of the clock that it takes
  unfoldable pub resume : Task → Readings → State → Task × State
  unfolding entry
  resume (received event body signature) r s =
      after_entry w event r (entry w event body signature) s
  resume (gathering event c) r s =
      let sc = score w.cfg.purchase_trigger_score_threshold c in
      after_score w event c sc r sc.should_trigger
        (record s { log = s.log ++ score_entry w.cfg event sc ∷ [] })
  resume (asking event ctx) r s = after_reply event ctx.context_score r (w.designer ctx) s
  resume (notifying event total offer) r s = (
    answered (ok (offer_generated_and_delivered offer.offer_id total)),
    record s { sent = s.sent ++ channels event.member_id offer.offer_id (send_push w.provider).1 },
  )
  resume (answered a) r s = (answered a, s)

-- the requests that are under way, and the state that they share
pub record Loop : Type 0 where
  pub tasks : List Task
  pub state : State

-- what happens next: an event comes, or a request takes a step
pub data Happening : Type 0 where
  arrive : PurchaseEventPayload → List ℕ → Option String → Happening
  resume_at : ℕ → Readings → Happening

module _ (w : World) where
  unfoldable pub wake : ℕ → Readings → List Task → State → List Task × State
  unfolding resume
  wake i r [] s = ([], s)
  wake zero r (t ∷ tasks) s = let (t', s') = resume w t r s in (t' ∷ tasks, s')
  wake (suc i) r (t ∷ tasks) s = let (tasks', s') = wake i r tasks s in (t ∷ tasks', s')

  unfoldable pub step : Happening → Loop → Loop
  unfolding wake
  step (arrive event body signature) m = record m {
    tasks = received event body signature ∷ m.tasks;
  }
  step (resume_at i r) m =
      let (tasks, state) = wake i r m.tasks m.state in record { tasks = tasks; state = state }

  unfoldable pub run : List Happening → Loop → Loop
  unfolding step
  run [] m = m
  run (e ∷ events) m = run events (step e m)
