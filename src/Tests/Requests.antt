-- ===== src/Tests/Requests.antt =====
-- Overlapping purchase events on sample data.
use tristar.Base.{
  eq_iff, ℕ, ◌+◌, ◌≤◌, String, none, some, List, [], ◌∷◌, ◌≡◌, ◌≢◌, refl, arith, ◌*◌,
}
use tristar.Clock.{second}
use tristar.Outcome.{ok}
use tristar.Base.Dict.{lookup}
use tristar.Models.Purchase.{PurchaseEventPayload}
use tristar.Scout.Constraints.{record_delivery}
use tristar.Scout.Routes.{process_purchase_event, offer_generated_and_delivered}
use tristar.Scout.Overlap.{answered, Happening, arrive, resume_at, run}
use tristar.Scout.Overlap.Once.{times, seen_since, asked_once}
use tristar.Scout.Overlap.Twice.{side_by_side, both_delivered}
use tristar.Tests.Data.{noon, purchase}
use tristar.Tests.Scout.{world, at, start, noon_run}

-- A second purchase of the same member, at the same time.
abbrev again : PurchaseEventPayload
again = record purchase { event_id = "evt-2" }

again_run :
    (process_purchase_event world again [] none (at noon) start).0
    ≡ ok (offer_generated_and_delivered "offer-1" 90)
unfolding tristar.Scout.Constraints.deliveries tristar.Scout.Constraints.get_deliveries_since
    tristar.Scout.Constraints.is_quiet_hours tristar.Scout.Constraints.judge
    tristar.Scout.Constraints.can_deliver tristar.Scout.Constraints.record_delivery
    tristar.Scout.Constraints.queue_for_morning tristar.Scout.Constraints.Pruning.recorded
    tristar.Scout.Constraints.Pruning.all_recorded tristar.Scout.Events.stale
    tristar.Scout.Events.erase_all tristar.Scout.Events.is_duplicate_event
    tristar.Scout.Events.is_allowed tristar.Scout.Events.enrich tristar.Scout.Events.handle
    tristar.Scout.Notification.send_email_fallback tristar.Scout.Notification.push_loop
    tristar.Scout.Notification.send_push tristar.Scout.Routes.purchase_context
    tristar.Scout.Routes.deliver tristar.Scout.Routes.ask_designer tristar.Scout.Routes.constrained
    tristar.Scout.Routes.constrain tristar.Scout.Routes.score_entry tristar.Scout.Routes.act
    tristar.Scout.Routes.score_and_act tristar.Scout.Routes.process_checked
    tristar.Scout.Routes.process_purchase_event tristar.Scout.Scoring.get_or
    tristar.Scout.Scoring.score_purchase_value tristar.Scout.Scoring.score_proximity
    tristar.Scout.Scoring.count_score tristar.Scout.Scoring.score_frequency
    tristar.Scout.Scoring.score_category_affinity tristar.Scout.Scoring.score_partner_crosssell
    tristar.Scout.Scoring.score_weather tristar.Scout.Scoring.score_time_alignment
    tristar.Scout.Scoring.breakdown_of tristar.Scout.Scoring.score
    tristar.Scout.ServiceAuth.generate tristar.Scout.ServiceAuth.needs_refresh
    tristar.Scout.ServiceAuth.get_valid_token tristar.Scout.Webhook.verify_webhook_signature
    tristar.AuditLog.bucket_amount tristar.AuditLog.log_generation tristar.AuditLog.log_approval
    tristar.AuditLog.log_fraud_block tristar.AuditLog.log_purchase_trigger tristar.Clock.le_dt
    tristar.Clock.lt_dt tristar.Clock.hour_of tristar.Clock.weekday
    tristar.Models.Validation.segment_ok tristar.Models.Validation.construct_ok
    tristar.Models.Validation.objective_ok tristar.Models.Validation.valid_until_ok
    tristar.Models.Validation.offer_ok tristar.Models.Validation.context_ok
    tristar.Core.Config.pilot_member_ids tristar.Base.Dict.lookup tristar.Base.Dict.insert
    tristar.Base.Dict.erase
again_run = refl

two_events : purchase.event_id ≢ again.event_id
two_events = λ e. ground (arith, (eq_iff purchase.event_id again.event_id).1 e)

both_delivered_example :
    let m =
      run world
        (side_by_side purchase [] none (at noon) again [] none (at noon))
        (record { tasks = []; state = start }) in
    (m.tasks
      ≡ answered (ok (offer_generated_and_delivered "offer-1" 90))
        ∷ answered (ok (offer_generated_and_delivered "offer-1" 90))
        ∷ [])
    × (m.state.constraints
        ≡ record_delivery
            (record_delivery start.constraints purchase.member_id noon)
            again.member_id
            noon)
both_delivered_example =
    both_delivered world purchase [] none (at noon) again [] none (at noon) start tt two_events
      noon_run again_run

-- The same event twice; the second request overtakes the first.
abbrev twice : List Happening
twice =
    arrive purchase [] none
    ∷ resume_at 0 (at noon)
    ∷ arrive purchase [] none
    ∷ resume_at 0 (at (noon + second))
    ∷ resume_at 0 (at (noon + 2 * second))
    ∷ resume_at 1 (at (noon + 3 * second))
    ∷ []

asked_once_example :
    times "evt-1" (run world twice (record { tasks = []; state = start })).state.asked
      + seen_since noon "evt-1" start.seen
    ≤ 1 + times "evt-1" start.asked
asked_once_example = asked_once world noon twice start "evt-1" tt (
  (omega arith, omega arith),
  ((omega arith, omega arith), ((omega arith, omega arith), ((omega arith, omega arith), tt))),
)
