-- ===== src/Scout/Overlap/Rounds.antt =====
-- The steps of a request on its way to an offer, and two requests that take them in turn.
use tristar.Base.{
  ℕ, ◌≤◌, String, true, Option, none, some, List, [], ◌∷◌, ◌++◌, ◌≡◌, refl, arith, ◌∙◌,
}
use tristar.Outcome.{Result, ok, err}
use tristar.Core.Http.{HttpError}
use tristar.Models.Offer.{OfferBrief}
use tristar.Models.Purchase.{PurchaseEventPayload, EnrichedContext}
use tristar.Models.Validation.{context_ok}
use tristar.Scout.Scoring.{score}
use tristar.Scout.Scoring.Bounds.{score_bounds}
use tristar.Scout.Constraints.{can_deliver, record_delivery}
use tristar.Scout.Events.{handle}
use tristar.Scout.ServiceAuth.{get_valid_token}
use tristar.Scout.Routes.{
  World, Readings, State, Answer, replied, offer_generated_and_delivered, purchase_context,
  score_entry, process_purchase_event,
}
use tristar.Scout.Routes.Steps.{context_is_ok}
use tristar.Scout.Overlap.{
  Task, received, gathering, asking, notifying, answered, entry, resume, Loop, Happening, arrive,
  resume_at, wake, step, run,
}
use tristar.Scout.Overlap.Alone.{passed, process-eq}

passed-ok :
    (w : World) (event : PurchaseEventPayload) (r : Readings)
    (checked : Result HttpError (Unit {0})) (s : State) {answer : Answer}
    → (passed w event r checked s).0 ≡ ok answer
    → checked ≡ ok tt
passed-ok w event r (err e) s h = absurd (ground arith)
passed-ok w event r (ok tt) s h = refl

module _ (w : World) where
  pub enters :
      (event : PurchaseEventPayload) (body : List ℕ) (signature : Option String) (r r₀ : Readings)
      (s s₀ : State) {answer : Answer} {c : EnrichedContext}
      → (process_purchase_event w event body signature r₀ s₀).0 ≡ ok answer
      → (handle w.enrichment w.cfg event r.dedup_now r.dedup_later s.seen).0 ≡ some c
      → resume w (received event body signature) r s ≡ (
        gathering event c,
        record s { seen = (handle w.enrichment w.cfg event r.dedup_now r.dedup_later s.seen).1 },
      )
  unfolding resume
  enters event body signature r r₀ s s₀ h taken =
      let open_ = passed-ok w event r₀ (entry w event body signature) s₀ (rw process-eq at h) in
      rw (open_, taken) refl

  pub is_checked :
      (event : PurchaseEventPayload) (c : EnrichedContext) (r : Readings) (s : State)
      → 1 ≤ event.amount
      → (score w.cfg.purchase_trigger_score_threshold c).should_trigger ≡ true
      → can_deliver w.cfg s.constraints event.member_id event.amount r.check_now true ≡ none
      → let sc = score w.cfg.purchase_trigger_score_threshold c in
        (s' : State) × (resume w (gathering event c) r s
          ≡ (asking event (purchase_context event c sc), s'))
        × (s'.constraints ≡ s.constraints)
  unfolding resume context_ok purchase_context get_valid_token score_entry
  is_checked event c r s paid triggered allowed =
      let sc = score w.cfg.purchase_trigger_score_threshold c in
      let fine = context_is_ok w.cfg.purchase_trigger_score_threshold event c paid in
      (
        record s {
          log = s.log ++ score_entry w.cfg event sc ∷ [];
          auth = (get_valid_token w.encode s.auth r.token_now r.token_later).1;
          asked = s.asked ++ purchase_context event c sc ∷ [];
        },
        rw (triggered, allowed, fine) refl,
        refl,
      )

  is_answered :
      (event : PurchaseEventPayload) (c : EnrichedContext) (r : Readings) (s : State)
      (offer : OfferBrief)
      → let sc = score w.cfg.purchase_trigger_score_threshold c in
        let ctx = purchase_context event c sc in
        w.designer ctx ≡ replied 201 (some offer)
        → resume w (asking event ctx) r s ≡ (
          notifying event sc.total offer,
          record s { constraints = record_delivery s.constraints event.member_id r.record_now },
        )
  unfolding resume purchase_context
  is_answered event c r s offer h = rw h refl

  abbrev pub looped : List Task → State → Loop
  looped tasks s = record { tasks = tasks; state = s }

  pub round :
      (t u t' u' : Task) (r r' : Readings) (s s' s'' : State) (events : List Happening) (m : Loop)
      → resume w t r s ≡ (t', s')
      → resume w u r' s' ≡ (u', s'')
      → run w events (looped (u' ∷ t' ∷ []) s'') ≡ m
      → run w (resume_at 1 r ∷ resume_at 0 r' ∷ events) (looped (u ∷ t ∷ []) s) ≡ m
  unfolding run step wake
  round t u t' u' r r' s s' s'' events m e e' rest = rw (e, e') rest

  pub arrives :
      (event : PurchaseEventPayload) (body : List ℕ) (signature : Option String)
      (event' : PurchaseEventPayload) (body' : List ℕ) (signature' : Option String) (s : State)
      (events : List Happening) (m : Loop)
      → let t = received event body signature in
        let t' = received event' body' signature' in
        run w events (looped (t' ∷ t ∷ []) s) ≡ m
        → run w
            (arrive event body signature ∷ arrive event' body' signature' ∷ events)
            (looped [] s)
          ≡ m
  unfolding run step
  arrives event body signature event' body' signature' s events m rest = rest

  ended : (m : Loop) → run w [] m ≡ m
  unfolding run
  ended m = refl

  notified :
      (event : PurchaseEventPayload) (total : ℕ) (r : Readings) (s : State) (offer : OfferBrief)
      → (s' : State) × (resume w (notifying event total offer) r s
          ≡ (answered (ok (offer_generated_and_delivered offer.offer_id total)), s'))
        × (s'.constraints ≡ s.constraints)
  unfolding resume
  notified event total r s offer = (_, refl, refl)

  -- The last two rounds, where the Designer gives an offer for each request.
  pub both_sent :
      (event event' : PurchaseEventPayload) (c c' : EnrichedContext) (r r' : Readings) (s : State)
      (offer offer' : OfferBrief)
      → let sc = score w.cfg.purchase_trigger_score_threshold c in
        let sc' = score w.cfg.purchase_trigger_score_threshold c' in
        let ctx = purchase_context event c sc in
        let ctx' = purchase_context event' c' sc' in
        w.designer ctx ≡ replied 201 (some offer)
        → w.designer ctx' ≡ replied 201 (some offer')
        → (s' : State) × (run w
              (resume_at 1 r ∷ resume_at 0 r' ∷ resume_at 1 r ∷ resume_at 0 r' ∷ [])
              (looped (asking event' ctx' ∷ asking event ctx ∷ []) s)
            ≡ looped
                (answered (ok (offer_generated_and_delivered offer'.offer_id sc'.total))
                  ∷ answered (ok (offer_generated_and_delivered offer.offer_id sc.total))
                  ∷ [])
                s')
          × (s'.constraints
              ≡ record_delivery
                  (record_delivery s.constraints event.member_id r.record_now)
                  event'.member_id
                  r'.record_now)
  both_sent event event' c c' r r' s offer offer' h h' =
      let t = (score w.cfg.purchase_trigger_score_threshold c).total in
      let t' = (score w.cfg.purchase_trigger_score_threshold c').total in
      let s₁ = record s {
        constraints = record_delivery s.constraints event.member_id r.record_now;
      } in
      let s₂ = record s₁ {
        constraints = record_delivery s₁.constraints event'.member_id r'.record_now;
      } in
      let (s₃, e₃, k₃) = notified event t r s₂ offer in
      let (s₄, e₄, k₄) = notified event' t' r' s₃ offer' in
      (
        s₄,
        round _ _ _ _ r r' s s₁ s₂ _ _ (is_answered event c r s offer h)
            (is_answered event' c' r' s₁ offer' h')
            (round _ _ _ _ r r' s₂ s₃ s₄ [] _ e₃ e₄ (ended _)),
        k₄ ∙ k₃,
      )

  pub is_triggered :
      (c : EnrichedContext) (total : ℕ)
      → total ≡ (score w.cfg.purchase_trigger_score_threshold c).total
      → w.cfg.purchase_trigger_score_threshold ≤ total
      → (score w.cfg.purchase_trigger_score_threshold c).should_trigger ≡ true
  is_triggered c total e le =
      (score_bounds w.cfg.purchase_trigger_score_threshold c).3.1 (rw (← e) le)
