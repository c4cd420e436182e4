-- ===== src/Scout/Overlap/Once.antt =====
-- How often the Designer is asked about an event, whatever requests overlap.
use tristar.Base.{
  ℕ, zero, suc, ◌+◌, ◌*◌, ◌≤◌, String, Bool, true, false, Option, none, some, List, [], ◌∷◌, ◌++◌,
  ◌≡◌, inl, inr, refl, arith, leb, nat_eq, if◌then◌else◌, ◌==◌, eq_iff, Bool-cases,
}
use tristar.Base.Dict.{IsDict, lookup}
use tristar.Clock.{second}
use tristar.Outcome.{Result, ok, err}
use tristar.Core.Http.{HttpError}
use tristar.Models.Purchase.{PurchaseEventPayload, EnrichedContext, PurchaseContextRequest}
use tristar.Models.Validation.{context_ok}
use tristar.Scout.Scoring.{ContextScore, score}
use tristar.Scout.Constraints.{Reason, quiet_hours, can_deliver}
use tristar.Scout.Events.{Seen, handle, is_duplicate_event}
use tristar.Scout.Events.Dedup.{is_duplicate_event_lem, duplicate-IsDict}
use tristar.Scout.Events.Gates.{handle_lem}
use tristar.Scout.Routes.{
  World, Readings, State, Reply, replied, no_reply, purchase_context, score_entry,
}
use tristar.Scout.Overlap.{
  Task, received, gathering, asking, notifying, answered, entry, after_gates, after_entry,
  after_verdict, after_score, after_reply, resume, Loop, Happening, arrive, resume_at, wake, step,
  run,
}

-- how many of the requests to the Designer are about the event
abbrev pub times : String → List PurchaseContextRequest → ℕ
times k [] = 0
times k (ctx ∷ asked) = (if ctx.event_id == k then 1 else 0) + times k asked

-- The event of a task that was let through and has not asked the Designer yet.
abbrev pending : String → Task → ℕ
pending k (received event body signature) = 0
pending k (gathering event c) = if event.event_id == k then 1 else 0
pending k (asking event ctx) = 0
pending k (notifying event total offer) = 0
pending k (answered a) = 0

abbrev pending_in : String → List Task → ℕ
pending_in k [] = 0
pending_in k (t ∷ tasks) = pending k t + pending_in k tasks

-- 1 for an event that was seen at `start` or later
abbrev since : ℕ → Option ℕ → ℕ
since start none = 0
since start (some t) = if leb start t then 1 else 0

abbrev pub seen_since : ℕ → String → Seen → ℕ
seen_since start k seen = since start (lookup k seen)

-- The readings of the clock for the duplicate check lie in the 60 seconds from `start` on.
abbrev pub InMinute : ℕ → Readings → Type 0
InMinute start r = (r.dedup_now ≤ start + 60 * second) × (start ≤ r.dedup_later)

-- All the readings of the clock that the steps take do so.
abbrev pub AllInMinute : ℕ → List Happening → Type 0
AllInMinute start [] = Unit
AllInMinute start (arrive event body signature ∷ events) = AllInMinute start events
AllInMinute start (resume_at i r ∷ events) = InMinute start r × AllInMinute start events

times-append :
    (k : String) (ctx : PurchaseContextRequest) (asked : List PurchaseContextRequest)
    → times k (asked ++ ctx ∷ []) ≡ (if ctx.event_id == k then 1 else 0) + times k asked
times-append k ctx [] = refl
times-append k ctx (a ∷ asked) = ground (arith, times-append k ctx asked)

-- An event that is let through counts as seen from now on, and was not before.
handle-seen :
    (w : World) (event : PurchaseEventPayload) (r : Readings) (seen : Seen) (start : ℕ)
    → IsDict seen
    → InMinute start r
    → let (o, seen') = handle w.enrichment w.cfg event r.dedup_now r.dedup_later seen in
      IsDict seen'
      × ((k : String)
          → pending k (after_gates event o) + seen_since start k seen ≤ seen_since start k seen')
handle-seen w event r seen start d h =
    let e = event.event_id in
    let (duplicate, seen') = is_duplicate_event e r.dedup_now r.dedup_later seen in
    let known = is_duplicate_event_lem e r.dedup_now r.dedup_later seen d in
    elim (handle_lem w.enrichment w.cfg event r.dedup_now r.dedup_later seen) [
      | inr (_, is) ↦ rw is (d, λ k. omega arith)
      | inl (_, is) ↦ rw is (
        duplicate-IsDict e r.dedup_now r.dedup_later seen d,
        λ k. ground (arith, known.0, known.1 k, h.0, h.1, eq_iff e k),
      )
    ]

module _ (w : World) (start : ℕ) (base : String → ℕ) where
  -- What holds of every state, with `n` for the events that wait in other tasks: the requests about an
  -- event, made since the count in `base` and still to be made, are at most one, and none if the event
  -- was not seen.
  abbrev Bounded : (String → ℕ) → Task × State → Type 0
  Bounded n (t, s) =
      IsDict s.seen
      × ((k : String) → n k + pending k t + times k s.asked ≤ base k + seen_since start k s.seen)

  module _ (n : String → ℕ) where
    Bounded-entry :
        (event : PurchaseEventPayload) (r : Readings) (checked : Result HttpError (Unit {0}))
        (s : State)
        → InMinute start r
        → Bounded n (received event [] none, s)
        → Bounded n (after_entry w event r checked s)
    Bounded-entry event r (err e) s h b = b
    Bounded-entry event r (ok _) s h b =
        let (d, more) = handle-seen w event r s.seen start b.0 h in
        (d, λ k. omega (arith, more k, b.1 k))

    Bounded-verdict :
        (event : PurchaseEventPayload) (c : EnrichedContext) (sc : ContextScore) (r : Readings)
        (verdict : Option Reason) (s : State)
        → Bounded n (gathering event c, s)
        → Bounded n (after_verdict w event c sc r verdict s)
    unfolding purchase_context
    Bounded-verdict event c sc r (some quiet_hours) s b = (b.0, λ k. omega (arith, b.1 k))
    Bounded-verdict event c sc r (some reason) s b = (b.0, λ k. omega (arith, b.1 k))
    Bounded-verdict event c sc r none s b =
        elim (Bool-cases (context_ok (purchase_context event c sc))) [
          | inr bad ↦ rw bad (b.0, λ k. omega (arith, b.1 k))
          | inl fine ↦
              rw fine (
                b.0,
                λ k. omega (arith, b.1 k, times-append k (purchase_context event c sc) s.asked),
              )
        ]

    Bounded-score :
        (event : PurchaseEventPayload) (c : EnrichedContext) (sc : ContextScore) (r : Readings)
        (triggered : Bool) (s : State)
        → Bounded n (gathering event c, s)
        → Bounded n (after_score w event c sc r triggered s)
    Bounded-score event c sc r true s b =
        Bounded-verdict event c sc r
          (can_deliver w.cfg s.constraints event.member_id event.amount r.check_now true) s b
    Bounded-score event c sc r false s b = (b.0, λ k. omega (arith, b.1 k))

    Bounded-reply :
        (event : PurchaseEventPayload) (ctx : PurchaseContextRequest) (total : ℕ) (r : Readings)
        (reply : Reply) (s : State)
        → Bounded n (asking event ctx, s)
        → Bounded n (after_reply event total r reply s)
    Bounded-reply event ctx total r no_reply s b = b
    Bounded-reply event ctx total r (replied code none) s b = elim (Bool-cases (nat_eq code 201)) [
      | inl created ↦ rw created b
      | inr other ↦ rw other b
    ]
    Bounded-reply event ctx total r (replied code (some offer)) s b =
        elim (Bool-cases (nat_eq code 201)) [ inl created ↦ rw created b | inr other ↦ rw other b ]

    Bounded-resume :
        (t : Task) (r : Readings) (s : State)
        → InMinute start r
        → Bounded n (t, s)
        → Bounded n (resume w t r s)
    unfolding resume
    Bounded-resume (received event body signature) r s h b =
        Bounded-entry event r (entry w event body signature) s h b
    Bounded-resume (gathering event c) r s h b =
        let sc = score w.cfg.purchase_trigger_score_threshold c in
        Bounded-score event c sc r sc.should_trigger
          (record s { log = s.log ++ score_entry w.cfg event sc ∷ [] }) b
    Bounded-resume (asking event ctx) r s h b =
        Bounded-reply event ctx ctx.context_score r (w.designer ctx) s b
    Bounded-resume (notifying event total offer) r s h b = b
    Bounded-resume (answered a) r s h b = b

  abbrev LoopBounded : (String → ℕ) → List Task × State → Type 0
  LoopBounded n (tasks, s) =
      IsDict s.seen
      × ((k : String)
          → n k + pending_in k tasks + times k s.asked ≤ base k + seen_since start k s.seen)

  LoopBounded-wake :
      (i : ℕ) (n : String → ℕ) (r : Readings) (tasks : List Task) (s : State)
      → InMinute start r
      → LoopBounded n (tasks, s)
      → LoopBounded n (wake w i r tasks s)
  unfolding wake
  LoopBounded-wake i n r [] s h b = b
  LoopBounded-wake zero n r (t ∷ tasks) s h b =
      let (d, c) =
        Bounded-resume (λ k. n k + pending_in k tasks) t r s h (b.0, λ k. omega (arith, b.1 k)) in
      (d, λ k. omega (arith, c k))
  LoopBounded-wake (suc i) n r (t ∷ tasks) s h b =
      let (d, c) =
        LoopBounded-wake i (λ k. n k + pending k t) r tasks s h (b.0, λ k. omega (arith, b.1 k)) in
      (d, λ k. omega (arith, c k))

  LoopBounded-run :
      (n : String → ℕ) (events : List Happening) (m : Loop)
      → AllInMinute start events
      → LoopBounded n (m.tasks, m.state)
      → let m' = run w events m in LoopBounded n (m'.tasks, m'.state)
  unfolding run step
  LoopBounded-run n [] m h b = b
  LoopBounded-run n (arrive event body signature ∷ events) m h b =
      LoopBounded-run n events (step w (arrive event body signature) m) h
        (b.0, λ k. omega (arith, b.1 k))
  LoopBounded-run n (resume_at i r ∷ events) m h b =
      LoopBounded-run n events (step w (resume_at i r) m) h.1
        (LoopBounded-wake i n r m.tasks m.state h.0 b)

since-le : (start : ℕ) (t : Option ℕ) → since start t ≤ 1
since-le start none = omega arith
since-le start (some t) = ground arith

-- Whatever requests arrive from a state with no request under way, and in whatever order they take their
-- steps within 60 seconds from `start` on, the Designer is asked at most once about each event, however
-- often it is delivered, and not at all about one that was entered as seen at `start` or later; for a
-- table with one entry for each event.
pub asked_once :
    (w : World) (start : ℕ) (events : List Happening) (s : State) (k : String)
    → IsDict s.seen
    → AllInMinute start events
    → times k (run w events (record { tasks = []; state = s })).state.asked
        + seen_since start k s.seen
      ≤ 1 + times k s.asked
asked_once w start events s k d h =
    let m = run w events (record { tasks = []; state = s }) in
    let b =
      LoopBounded-run w start (λ k. times k s.asked) (λ k. seen_since start k s.seen) events
        (record { tasks = []; state = s }) h (d, λ k. omega arith) in
    omega (arith, b.1 k, since-le start (lookup k m.state.seen))
