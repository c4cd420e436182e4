-- ===== src/Tests/Scout.antt =====
-- Scout on sample data.
use Prim.Native.Nat.{min}
use tristar.Base.{
  ℕ, ◌+◌, ◌*◌, ◌≤◌, ◌<◌, ◌/◌, String, Bool, true, false, Option, none, some, List, [], ◌∷◌, ◌≡◌,
  ◌≢◌, ◌⊎◌, ◌↔◌, inl, inr, refl, ◌-◌, nat_eq, ◌||◌, length, arith, is_some, ◌==◌, not, ◌&&◌,
  if◌then◌else◌,
}
use tristar.Clock.{hour, second, naive}
use tristar.Outcome.{ok}
use tristar.Base.Dict.{lookup, IsDict}
use tristar.Models.Purchase.{EnrichedContext}
use tristar.Scout.Scoring.{score, sum}
use tristar.Scout.Scoring.Bounds.{score_bounds, InRange}
use tristar.Scout.Events.{mock_enrichment, handle, enrich, is_duplicate_event}
use tristar.Scout.Events.Gates.{handle_lem, Passes}
use tristar.Scout.Constraints.{Service, new, can_deliver, record_delivery}
use tristar.Scout.Constraints.Pruning.{recorded}
use tristar.Scout.Constraints.Verdicts.{can_deliver-Allowed, Allowed}
use tristar.Scout.Constraints.Spacing.{delivery_spacing, Apart}
use tristar.Scout.ServiceAuth.{Auth, ttl, get_valid_token, IsConsistent, get_valid_token-fresh}
use tristar.Scout.ServiceAuth
use tristar.Scout.Notification.{Provider, send_push, any_push, push, email, send_push_lem}
use tristar.Scout.Webhook.{verify_webhook_signature, verified_signature, signature_of}
use tristar.Scout.Routes.{
  World, Readings, State, Reply, replied, process_purchase_event, offer_generated_and_delivered,
}
use tristar.Scout.Routes.Gates.{offer_needs_gates, Delivered}
use tristar.Scout.Routes.Repeats.{Arrival, arrives, after_all, no_second_offer}
use tristar.Scout.Routes.Failures.{offer_or_nothing, OfferOrNothing}
use tristar.Tests.Data.{noon, settings, purchase, winter_offer}

abbrev pub world : World
world = record {
  cfg = settings;
  enrichment = mock_enrichment;
  hexdigest = λ key body. key;
  encode = λ iat exp. "token";
  designer = λ ctx. replied 201 (some winter_offer);
  provider = record { push_reply = λ attempt. some 200; email_reply = none };
}

abbrev pub at : ℕ → Readings
at now = record {
  dedup_now = now;
  dedup_later = now;
  check_now = now;
  queue_now = now;
  token_now = now;
  token_later = now;
  record_now = now;
}

abbrev pub start : State
start = record {
  seen = [];
  constraints = new;
  auth = ServiceAuth.new 24;
  log = [];
  asked = [];
  sent = [];
}

pub noon_run :
    (process_purchase_event world purchase [] none (at noon) start).0
    ≡ ok (offer_generated_and_delivered "offer-1" 90)
unfolding tristar.Scout.Constraints.deliveries tristar.Scout.Constraints.get_deliveries_since
    tristar.Scout.Constraints.is_quiet_hours tristar.Scout.Constraints.judge
    tristar.Scout.Constraints.can_deliver tristar.Scout.Constraints.record_delivery
    tristar.Scout.Constraints.queue_for_morning tristar.Scout.Constraints.Pruning.recorded
    tristar.Scout.Constraints.Pruning.all_recorded tristar.Scout.Events.stale
    tristar.Scout.Events.erase_all tristar.Scout.Events.is_duplicate_event
    tristar.Scout.Events.is_allowed tristar.Scout.Events.enrich tristar.Scout.Events.handle
    tristar.Scout.Notification.send_email_fallback tristar.Scout.Notification.push_loop
    tristar.Scout.Notification.send_push tristar.Scout.Routes.purchase_context
    tristar.Scout.Routes.deliver tristar.Scout.Routes.ask_designer tristar.Scout.Routes.constrained
    tristar.Scout.Routes.constrain tristar.Scout.Routes.score_entry tristar.Scout.Routes.act
    tristar.Scout.Routes.score_and_act tristar.Scout.Routes.process_checked
    tristar.Scout.Routes.process_purchase_event tristar.Scout.Scoring.get_or
    tristar.Scout.Scoring.score_purchase_value tristar.Scout.Scoring.score_proximity
    tristar.Scout.Scoring.count_score tristar.Scout.Scoring.score_frequency
    tristar.Scout.Scoring.score_category_affinity tristar.Scout.Scoring.score_partner_crosssell
    tristar.Scout.Scoring.score_weather tristar.Scout.Scoring.score_time_alignment
    tristar.Scout.Scoring.breakdown_of tristar.Scout.Scoring.score
    tristar.Scout.ServiceAuth.generate tristar.Scout.ServiceAuth.needs_refresh
    tristar.Scout.ServiceAuth.get_valid_token tristar.Scout.Webhook.verify_webhook_signature
    tristar.AuditLog.bucket_amount tristar.AuditLog.log_generation tristar.AuditLog.log_approval
    tristar.AuditLog.log_fraud_block tristar.AuditLog.log_purchase_trigger tristar.Clock.le_dt
    tristar.Clock.lt_dt tristar.Clock.hour_of tristar.Clock.weekday
    tristar.Models.Validation.segment_ok tristar.Models.Validation.construct_ok
    tristar.Models.Validation.objective_ok tristar.Models.Validation.valid_until_ok
    tristar.Models.Validation.offer_ok tristar.Models.Validation.context_ok
    tristar.Core.Config.pilot_member_ids tristar.Base.Dict.lookup tristar.Base.Dict.insert
    tristar.Base.Dict.erase
noon_run = refl

offer_needs_gates_example :
    Delivered world purchase [] none
      (at noon)
      start
      (process_purchase_event world purchase [] none (at noon) start).1
      "offer-1"
      90
offer_needs_gates_example = offer_needs_gates world purchase [] none (at noon) start noon_run

-- A purchase of the member at the time, or of another member.
abbrev purchase_of : String → String → ℕ → Arrival
purchase_of member_id event_id now = record {
  world = world;
  event = record purchase { member_id = member_id; event_id = event_id };
  body = [];
  signature = none;
  readings = at now;
}

abbrev between : List Arrival
between =
    purchase_of "demo-001" "evt-2" (noon + hour)
    ∷ purchase_of "demo-002" "evt-3" (noon + 2 * hour)
    ∷ []

no_second_offer_example :
    (arrives
      (purchase_of "demo-001" "evt-4" (noon + 3 * hour))
      (after_all between (arrives (purchase_of "demo-001" "evt-1" noon) start).1)).0
    ≢ ok (offer_generated_and_delivered "offer-1" 90)
no_second_offer_example =
    no_second_offer (purchase_of "demo-001" "evt-1" noon) between
      (purchase_of "demo-001" "evt-4" (noon + 3 * hour)) start noon_run
      ((λ e. omega arith), ((λ e. omega arith), tt)) refl (omega arith)

offer_or_nothing_example :
    OfferOrNothing start (process_purchase_event world purchase [] none (at noon) start)
offer_or_nothing_example = offer_or_nothing world purchase [] none (at noon) start

-- A large purchase seven hours after a delivery.
let_out :
    can_deliver settings
      (recorded new (("demo-001", noon) ∷ []))
      "demo-001"
      20000
      (noon + 7 * hour)
      true
    ≡ none
unfolding tristar.Scout.Constraints.deliveries tristar.Scout.Constraints.get_deliveries_since
    tristar.Scout.Constraints.is_quiet_hours tristar.Scout.Constraints.judge
    tristar.Scout.Constraints.can_deliver tristar.Scout.Constraints.record_delivery
    tristar.Scout.Constraints.queue_for_morning tristar.Scout.Constraints.Pruning.recorded
    tristar.Scout.Constraints.Pruning.all_recorded tristar.Clock.le_dt tristar.Clock.lt_dt
    tristar.Clock.hour_of tristar.Clock.weekday tristar.Base.Dict.lookup tristar.Base.Dict.insert
    tristar.Base.Dict.erase
let_out = refl

delivery_spacing_example :
    Apart (("demo-001", noon) ∷ []) "demo-001" (noon + 7 * hour) 6
    × ((10000 < 20000) ⊎ Apart (("demo-001", noon) ∷ []) "demo-001" (noon + 7 * hour) 24)
delivery_spacing_example =
    delivery_spacing settings (("demo-001", noon) ∷ []) "demo-001" 20000 (noon + 7 * hour) true
      (omega arith, tt) (omega arith) (omega arith) (omega arith) let_out

can_deliver-Allowed_example :
    (can_deliver settings new "demo-001" 20000 noon true ≡ none)
    ↔ Allowed settings new "demo-001" 20000 noon true
can_deliver-Allowed_example = can_deliver-Allowed settings new "demo-001" 20000 noon true

handle_lem_example :
    let (duplicate, seen') = is_duplicate_event "evt-1" noon noon [] in
    (Passes settings purchase
      × (handle mock_enrichment settings purchase noon noon []
          ≡ (if duplicate then none else some (enrich mock_enrichment purchase), seen')))
    ⊎ ((¬ Passes settings purchase)
        × (handle mock_enrichment settings purchase noon noon [] ≡ (none, [])))
handle_lem_example = handle_lem mock_enrichment settings purchase noon noon []

abbrev context : EnrichedContext
context = enrich mock_enrichment purchase

score_bounds_example :
    InRange (score 70 context).breakdown
    × ((score 70 context).total ≡ min 100 (sum (score 70 context).breakdown))
    × ((score 70 context).total ≤ 100)
    × (((score 70 context).should_trigger ≡ true) ↔ (70 ≤ (score 70 context).total))
score_bounds_example = score_bounds 70 context

get_valid_token-fresh_example :
    (iat : ℕ) × ((get_valid_token (λ iat exp. "token") (ServiceAuth.new 24) noon noon).0 ≡ "token")
    × (noon + ttl (ServiceAuth.new 24) / 5 < iat + ttl (ServiceAuth.new 24))
    × IsConsistent
        (λ iat exp. "token")
        (get_valid_token (λ iat exp. "token") (ServiceAuth.new 24) noon noon).1
get_valid_token-fresh_example =
    get_valid_token-fresh (λ iat exp. "token") (ServiceAuth.new 24) noon noon tt (omega arith)
      (omega arith)

abbrev late_provider : Provider
late_provider = record {
  push_reply = λ attempt. if nat_eq attempt 3 then some 200 else some 503;
  email_reply = none;
}

send_push_lem_example :
    let (result, sent) = send_push late_provider in
    (result.delivered ≡ any_push late_provider || false)
    × (result.channel ≡ (if any_push late_provider then push else email))
    × (result.failed ≡ not result.delivered)
    × (sent ≡ push ∷ push ∷ push ∷ [])
send_push_lem_example = send_push_lem late_provider

signed :
    verify_webhook_signature (λ key body. key) settings [] (some "sha256=dev-webhook-secret")
    ≡ ok true
unfolding tristar.Scout.Webhook.verify_webhook_signature tristar.Base.Dict.lookup
    tristar.Base.Dict.insert tristar.Base.Dict.erase
signed = refl
