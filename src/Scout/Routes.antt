-- ===== src/Scout/Routes.antt =====
-- src/backend/api/scout.py: the handler of POST /purchase-event, from its checks to the call of the
-- Designer and the delivery.
pub mod Steps
pub mod Gates
pub mod Failures
pub mod Repeats
use Prim.Native.String
use tristar.Base.{
  ℕ, String, Bool, true, false, not, Option, none, some, List, [], ◌∷◌, ◌++◌, map, leb, nat_eq,
  take, if◌then◌else◌, ◌==◌,
}
use tristar.Outcome.{Result, ok, err}
use tristar.Core.Config.{Settings}
use tristar.Core.Http.{HttpError, http, internal_error, bad_signature, refund_event, bad_amount}
use tristar.Models.Offer.{OfferBrief}
use tristar.Models.Purchase.{
  PurchaseEventPayload, EnrichedContext, PurchaseContextRequest, MemberProfile, WeatherConditions,
  NearbyStore,
}
use tristar.Models.Validation.{context_ok}
use tristar.AuditLog
use tristar.AuditLog.{log_purchase_trigger, below_threshold}
use tristar.Scout.Scoring.{ContextScore, score}
use tristar.Scout.Constraints
use tristar.Scout.Constraints.{Reason, quiet_hours, can_deliver, record_delivery, queue_for_morning}
use tristar.Scout.Events.{Seen, Enrichment, handle}
use tristar.Scout.ServiceAuth.{Auth, get_valid_token}
use tristar.Scout.Notification.{Provider, DeliveryChannel, send_push}
use tristar.Scout.Webhook.{verify_webhook_signature}

-- what POST /api/designer/generate-purchase gives: a status code with the offer of its body, if the
-- body is one, or an exception of the client
pub data Reply : Type 0 where
  replied : ℕ → Option OfferBrief → Reply
  no_reply : Reply

-- what the handler uses and the program does not implement
pub record World : Type 0 where
  pub cfg : Settings
  pub enrichment : Enrichment
  pub hexdigest : String → List ℕ → String
  pub encode : ℕ → ℕ → String
  pub designer : PurchaseContextRequest → Reply
  pub provider : Provider

-- the readings of the clock that one request takes
pub record Readings : Type 0 where
  pub dedup_now : ℕ
  pub dedup_later : ℕ
  pub check_now : ℕ
  pub queue_now : ℕ
  pub token_now : ℕ
  pub token_later : ℕ
  pub record_now : ℕ

-- `asked` holds the requests to the Designer, `sent` the notifications: member, offer, channel
pub record State : Type 0 where
  pub seen : Seen
  pub constraints : Constraints.Service
  pub auth : Auth
  pub log : List AuditLog.Entry
  pub asked : List PurchaseContextRequest
  pub sent : List (String × String × DeliveryChannel)

-- the bodies of the 202 answers
pub data Answer : Type 0 where
  skipped : Answer
  scored_below_threshold : ℕ → ℕ → Answer
  queued_for_morning : Answer
  delivery_blocked : Reason → Answer
  offer_generated_and_delivered : String → ℕ → Answer
  designer_generation_failed : Answer
  error : Answer

abbrev segment_of : Option MemberProfile → String
segment_of none = "standard"
segment_of (some m) = m.segment

abbrev condition_of : Option WeatherConditions → Option String
condition_of none = none
condition_of (some w) = some w.condition

unfoldable pub purchase_context :
    PurchaseEventPayload → EnrichedContext → ContextScore → PurchaseContextRequest
purchase_context event c s = record {
  member_id = event.member_id;
  event_id = event.event_id;
  purchase_amount = event.amount;
  store_name = event.store_name;
  partner_brand = event.partner_brand;
  member_segment = segment_of c.member;
  nearby_ctc_stores = map (λ (n : NearbyStore). n.store_name) (take 3 c.nearby_stores);
  weather_condition = condition_of c.weather;
  context_score = s.total;
  score_breakdown = s.breakdown;
}

abbrev pub channels :
    String → String → List DeliveryChannel → List (String × String × DeliveryChannel)
channels member_id offer_id [] = []
channels member_id offer_id (c ∷ cs) = (member_id, offer_id, c) ∷ channels member_id offer_id cs

-- the end of the `try` block, where an offer came back
unfoldable pub deliver :
    World
    → PurchaseEventPayload
    → ℕ
    → Readings
    → OfferBrief
    → State
    → Result HttpError Answer × State
deliver w event total r offer s = (
  ok (offer_generated_and_delivered offer.offer_id total),
  record s {
    constraints = record_delivery s.constraints event.member_id r.record_now;
    sent = s.sent ++ channels event.member_id offer.offer_id (send_push w.provider).1;
  },
)

abbrev pub answered :
    World → PurchaseEventPayload → ℕ → Readings → Reply → State → Result HttpError Answer × State
answered w event total r no_reply s = (ok error, s)
answered w event total r (replied code none) s =
    if nat_eq code 201 then (ok error, s) else (ok designer_generation_failed, s)
answered w event total r (replied code (some offer)) s =
    if nat_eq code 201 then deliver w event total r offer s else (ok designer_generation_failed, s)

-- the call of the Designer, with the service token
unfoldable pub ask_designer :
    World
    → PurchaseEventPayload
    → PurchaseContextRequest
    → Readings
    → State
    → Result HttpError Answer × State
unfolding deliver
ask_designer w event ctx r s =
    let (_, auth) = get_valid_token w.encode s.auth r.token_now r.token_later in
    answered w event ctx.context_score r (w.designer ctx)
      (record s { auth = auth; asked = s.asked ++ ctx ∷ [] })

abbrev pub blocked :
    PurchaseEventPayload → Readings → Reason → State → Result HttpError Answer × State
blocked event r quiet_hours s = (
  ok queued_for_morning,
  record s {
    constraints =
        queue_for_morning s.constraints event.member_id (String.◌++◌ "pending-" event.event_id)
          r.queue_now;
  },
)
blocked event r reason s = (ok (delivery_blocked reason), s)

-- building the request validates it, outside the `try`
unfoldable pub constrained :
    World
    → PurchaseEventPayload
    → EnrichedContext
    → ContextScore
    → Readings
    → Option Reason
    → State
    → Result HttpError Answer × State
unfolding ask_designer purchase_context
constrained w event c sc r (some reason) s = blocked event r reason s
constrained w event c sc r none s =
    let ctx = purchase_context event c sc in
    if context_ok ctx then ask_designer w event ctx r s else (err internal_error, s)

unfoldable pub constrain :
    World
    → PurchaseEventPayload
    → EnrichedContext
    → ContextScore
    → Readings
    → State
    → Result HttpError Answer × State
unfolding constrained
constrain w event c sc r s =
    constrained w event c sc r
      (can_deliver w.cfg s.constraints event.member_id event.amount r.check_now true) s

unfoldable pub score_entry : Settings → PurchaseEventPayload → ContextScore → AuditLog.Entry
unfolding log_purchase_trigger
score_entry cfg event sc =
    log_purchase_trigger event.member_id event.event_id event.store_name event.store_id event.amount
      sc.total sc.should_trigger
      (if sc.should_trigger
        then none
        else some (below_threshold sc.total cfg.purchase_trigger_score_threshold))

unfoldable pub act :
    World
    → PurchaseEventPayload
    → EnrichedContext
    → ContextScore
    → Readings
    → Bool
    → State
    → Result HttpError Answer × State
unfolding constrain
act w event c sc r true s = constrain w event c sc r s
act w event c sc r false s =
    (ok (scored_below_threshold sc.total w.cfg.purchase_trigger_score_threshold), s)

unfoldable pub score_and_act :
    World
    → PurchaseEventPayload
    → EnrichedContext
    → Readings
    → State
    → Result HttpError Answer × State
unfolding act score_entry
score_and_act w event c r s =
    let sc = score w.cfg.purchase_trigger_score_threshold c in
    act w event c sc r sc.should_trigger
      (record s { log = s.log ++ score_entry w.cfg event sc ∷ [] })

abbrev pub handled :
    World
    → PurchaseEventPayload
    → Readings
    → Option EnrichedContext
    → State
    → Result HttpError Answer × State
handled w event r none s = (ok skipped, s)
handled w event r (some c) s = score_and_act w event c r s

unfoldable pub process_checked :
    World → PurchaseEventPayload → Readings → State → Result HttpError Answer × State
unfolding score_and_act
process_checked w event r s =
    let (enriched, seen) = handle w.enrichment w.cfg event r.dedup_now r.dedup_later s.seen in
    if event.is_refund
    then (err (http 400 refund_event), s)
    else if leb event.amount 0
    then (err (http 400 bad_amount), s)
    else handled w event r enriched (record s { seen = seen })

-- `process_purchase_event`; the signature is looked at outside development only
unfoldable pub process_purchase_event :
    World
    → PurchaseEventPayload
    → List ℕ
    → Option String
    → Readings
    → State
    → Result HttpError Answer × State
unfolding process_checked
process_purchase_event w event body signature r s =
    let checked = process_checked w event r s in
    if w.cfg.environment == "development"
    then checked
    else elim (verify_webhook_signature w.hexdigest w.cfg body signature) [
      | err _ ↦ (err internal_error, s)
      | ok true ↦ checked
      | ok false ↦ (err (http 401 bad_signature), s)
    ]
