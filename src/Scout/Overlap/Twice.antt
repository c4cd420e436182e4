-- ===== src/Scout/Overlap/Twice.antt =====
-- Two events that overlap: both have been checked before a delivery of either is on record.
use tristar.Base.{
  ℕ, String, Option, some, List, [], ◌∷◌, ◌≡◌, ◌≢◌, inl, inr, refl, arith, ap, ◌∙◌, eq_iff,
}
use tristar.Base.Dict.{IsDict}
use tristar.Outcome.{ok}
use tristar.Models.Purchase.{PurchaseEventPayload, EnrichedContext}
use tristar.Scout.Constraints.{record_delivery}
use tristar.Scout.Events.{Seen, handle, is_duplicate_event}
use tristar.Scout.Events.Dedup.{is_duplicate_event_lem, duplicate-IsDict}
use tristar.Scout.Events.Gates.{handle_lem}
use tristar.Scout.Routes.{
  World, Readings, State, offer_generated_and_delivered, process_purchase_event,
}
use tristar.Scout.Routes.Gates.{offer_needs_gates}
use tristar.Scout.Overlap.{answered, Loop, Happening, arrive, resume_at, run}
use tristar.Scout.Overlap.Rounds.{enters, is_checked, round, arrives, both_sent, is_triggered}

-- Two requests in turn, step by step.
abbrev pub side_by_side :
    PurchaseEventPayload
    → List ℕ
    → Option String
    → Readings
    → PurchaseEventPayload
    → List ℕ
    → Option String
    → Readings
    → List Happening
side_by_side event body signature r event' body' signature' r' =
    arrive event body signature
    ∷ arrive event' body' signature'
    ∷ resume_at 1 r
    ∷ resume_at 0 r'
    ∷ resume_at 1 r
    ∷ resume_at 0 r'
    ∷ resume_at 1 r
    ∷ resume_at 0 r'
    ∷ resume_at 1 r
    ∷ resume_at 0 r'
    ∷ []

-- The table of events does not change for an event that is let through when another comes before it.
taken_after :
    (w : World) (event event' : PurchaseEventPayload) (r r' : Readings) (seen : Seen)
    {c' : EnrichedContext}
    → IsDict seen
    → event.event_id ≢ event'.event_id
    → (handle w.enrichment w.cfg event' r'.dedup_now r'.dedup_later seen).0 ≡ some c'
    → (handle w.enrichment w.cfg event' r'.dedup_now r'.dedup_later
        (handle w.enrichment w.cfg event r.dedup_now r.dedup_later seen).1).0
      ≡ some c'
taken_after w event event' r r' seen d other taken =
    let (a, b) : String × String = (event.event_id, event'.event_id) in
    let first = is_duplicate_event_lem a r.dedup_now r.dedup_later seen d in
    let seen' = (is_duplicate_event a r.dedup_now r.dedup_later seen).1 in
    let alone = is_duplicate_event_lem b r'.dedup_now r'.dedup_later seen d in
    let again =
      is_duplicate_event_lem b r'.dedup_now r'.dedup_later seen'
        (duplicate-IsDict a r.dedup_now r.dedup_later seen d) in
    elim (handle_lem w.enrichment w.cfg event r.dedup_now r.dedup_later seen) [
      | inr (_, is) ↦ rw is taken
      | inl (_, is) ↦
          rw is
            (unfold handle in ground (arith, taken, alone.0, again.0, first.1 b, eq_iff a b, other))
    ]

-- Two different events, of one member or of two, that would each have brought an offer alone, both bring
-- it when both are checked before the Designer answers for either: the rate limit and the duplicate
-- window of the member are passed over, and both deliveries are put on record.
pub both_delivered :
    (w : World) (event : PurchaseEventPayload) (body : List ℕ) (signature : Option String)
    (r : Readings) (event' : PurchaseEventPayload) (body' : List ℕ) (signature' : Option String)
    (r' : Readings) (s : State) {offer_id offer_id' : String} {total total' : ℕ}
    → IsDict s.seen
    → event.event_id ≢ event'.event_id
    → (process_purchase_event w event body signature r s).0
      ≡ ok (offer_generated_and_delivered offer_id total)
    → (process_purchase_event w event' body' signature' r' s).0
      ≡ ok (offer_generated_and_delivered offer_id' total')
    → let m =
        run w
          (side_by_side event body signature r event' body' signature' r')
          (record { tasks = []; state = s }) in
      (m.tasks
        ≡ answered (ok (offer_generated_and_delivered offer_id' total'))
          ∷ answered (ok (offer_generated_and_delivered offer_id total))
          ∷ [])
      × (m.state.constraints
          ≡ record_delivery
              (record_delivery s.constraints event.member_id r.record_now)
              event'.member_id
              r'.record_now)
both_delivered w event body signature r event' body' signature' r' s d other h h' =
    let a = offer_needs_gates w event body signature r s h in
    let b = offer_needs_gates w event' body' signature' r' s h' in
    let seen₁ = (handle w.enrichment w.cfg event r.dedup_now r.dedup_later s.seen).1 in
    let s₁ = record s { seen = seen₁ } in
    let e₁ = enters w event body signature r r s s h a.taken in
    let taken' = taken_after w event event' r r' s.seen d other b.taken in
    let e₂ = enters w event' body' signature' r' r' s₁ s h' taken' in
    let seen₂ = (handle w.enrichment w.cfg event' r'.dedup_now r'.dedup_later seen₁).1 in
    let s₂ = record s { seen = seen₂ } in
    let above = is_triggered w a.context _ a.scored a.triggered in
    let (s₃, e₃, k₃) = is_checked w event a.context r s₂ a.paid above a.allowed in
    let above' = is_triggered w b.context _ b.scored b.triggered in
    let (s₄, e₄, k₄) = is_checked w event' b.context r' s₃ b.paid above' (rw k₃ b.allowed) in
    let (s₈, rest, k₈) =
      both_sent w event event' a.context b.context r r' s₄ a.offer b.offer a.answered b.answered in
    let whole =
      arrives w event body signature event' body' signature' s _ _
        (round w _ _ _ _ r r' s s₁ s₂ _ _ e₁ e₂ (round w _ _ _ _ r r' s₂ s₃ s₄ _ _ e₃ e₄ rest)) in
    (
      ap (λ (m : Loop). m.tasks) whole ∙ rw (a.named, b.named, ← a.scored, ← b.scored) refl,
      ap (λ (m : Loop). m.state.constraints) whole
          ∙ k₈
          ∙ ap
              (λ c.
                record_delivery (record_delivery c event.member_id r.record_now) event'.member_id
                  r'.record_now)
              (k₄ ∙ k₃),
    )
