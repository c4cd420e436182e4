-- ===== src/Scout/Routes/Repeats.antt =====
-- Purchase events that are handled one after the other, after one that brought an offer.
use mathlib.Core.Path.{subst}
use tristar.Base.{
  ℕ, ◌+◌, ◌-◌, ◌*◌, ◌≤◌, ◌<◌, String, true, Option, List, [], ◌∷◌, ◌++◌, ◌≡◌, ◌≢◌, ◌⊎◌, inl, inr,
  refl, sym, arith, All, Bool-cases, eq_iff, ◌==◌,
}
use tristar.Base.Dict.{lookup}
use tristar.Clock.{hour}
use tristar.Outcome.{Result, ok}
use tristar.Core.Http.{HttpError}
use tristar.Models.Purchase.{PurchaseEventPayload}
use tristar.Scout.Constraints.{Service, deliveries, or_empty}
use tristar.Scout.Constraints.Verdicts.{can_deliver-Allowed}
use tristar.Scout.Constraints.Pruning.{deliveries-record}
use tristar.Scout.Constraints.Spacing.{deliveries-record_self}
use tristar.Scout.Routes.{
  World, Readings, State, Answer, offer_generated_and_delivered, process_purchase_event,
}
use tristar.Scout.Routes.Gates.{offer_needs_gates}
use tristar.Scout.Routes.Failures.{offer_or_nothing}

-- A request with what it finds: the services, and its readings of the clock.
pub record Arrival : Type 0 where
  pub world : World
  pub event : PurchaseEventPayload
  pub body : List ℕ
  pub signature : Option String
  pub readings : Readings

abbrev pub arrives : Arrival → State → Result HttpError Answer × State
arrives a s = process_purchase_event a.world a.event a.body a.signature a.readings s

-- The state after the requests, one after the other.
abbrev pub after_all : List Arrival → State → State
after_all [] s = s
after_all (a ∷ rest) s = after_all rest (arrives a s).1

-- The hours of the rate limit after `t` have not passed when the constraints are checked.
abbrev pub InLimit : ℕ → Arrival → Type 0
InLimit t a = a.readings.check_now ≤ t + a.world.cfg.purchase_trigger_rate_limit_hours * hour

abbrev OnRecord : ℕ → List ℕ → Type 0
OnRecord t [] = ⊥
OnRecord t (u ∷ log) = (u ≡ t) ⊎ OnRecord t log

All-OnRecord : (P : ℕ → Type 0) (t : ℕ) (log : List ℕ) → All P log → OnRecord t log → P t
All-OnRecord P t [] h none_there = absurd none_there
All-OnRecord P t (u ∷ log) h (inl same) = subst P same h.0
All-OnRecord P t (u ∷ log) h (inr later) = All-OnRecord P t log h.1 later

OnRecord-last : (t : ℕ) (log : List ℕ) → OnRecord t (log ++ t ∷ [])
OnRecord-last t [] = inl refl
OnRecord-last t (u ∷ log) = inr (OnRecord-last t log)

deliveries_kept :
    (t : ℕ) (m : String) (c c' : Service)
    → c.delivery_log ≡ c'.delivery_log
    → OnRecord t (deliveries c m)
    → OnRecord t (deliveries c' m)
unfolding deliveries
deliveries_kept t m c c' same held = subst (λ log. OnRecord t (or_empty (lookup m log))) same held

module _ (m : String) (t : ℕ) where
  -- A delivery to the member at this time is on record.
  abbrev Holds : State → Type 0
  Holds s = OnRecord t (deliveries s.constraints m)

  no_offer :
      (a : Arrival) (s : State) {offer_id : String} {total : ℕ}
      → Holds s
      → InLimit t a
      → a.event.member_id ≡ m
      → (arrives a s).0 ≢ ok (offer_generated_and_delivered offer_id total)
  no_offer a s held early same h =
      let gates = offer_needs_gates a.world a.event a.body a.signature a.readings s h in
      let cfg = a.world.cfg in
      let now = a.readings.check_now in
      let allowed =
        (can_deliver-Allowed cfg s.constraints a.event.member_id a.event.amount now true).0
          gates.allowed in
      let before =
        All-OnRecord (λ ts. ts < now - cfg.purchase_trigger_rate_limit_hours * hour) t
          (deliveries s.constraints a.event.member_id) allowed.rate
          (subst (λ j. OnRecord t (deliveries s.constraints j)) (sym same) held) in
      absurd (omega (arith, before, early))

  Holds-arrives :
      (a : Arrival) (s : State)
      → (a.event.member_id ≡ m → InLimit t a)
      → Holds s
      → Holds (arrives a s).1
  Holds-arrives a s early held =
      elim (offer_or_nothing a.world a.event a.body a.signature a.readings s) [
        | inr (same, _) ↦
            deliveries_kept t m s.constraints (arrives a s).1.constraints (sym same) held
        | inl (offer_id, total, h) ↦
            let gates = offer_needs_gates a.world a.event a.body a.signature a.readings s h in
            elim (Bool-cases (a.event.member_id == m)) [
              | inl named ↦
                  let same = (eq_iff a.event.member_id m).0 named in
                  absurd (no_offer a s held (early same) same h)
              | inr other ↦
                  subst (λ c. OnRecord t (deliveries c m)) (sym gates.recorded)
                    (rw (deliveries-record, other) held)
            ]
      ]

  Holds-after_all :
      (between : List Arrival) (s : State)
      → All (λ a. a.event.member_id ≡ m → InLimit t a) between
      → Holds s
      → Holds (after_all between s)
  Holds-after_all [] s early held = held
  Holds-after_all (a ∷ rest) s early held =
      Holds-after_all rest (arrives a s).1 early.1 (Holds-arrives a s early.0 held)

-- After an offer went out to a member, no event of the member brings another one until the hours of the
-- rate limit have passed since the delivery was put on record, whatever events of this and of other members
-- are handled in between, where each request is handled as a whole before the next.
pub no_second_offer :
    (first : Arrival) (between : List Arrival) (again : Arrival) (s : State)
    {offer_id offer_id' : String} {total total' : ℕ}
    → (arrives first s).0 ≡ ok (offer_generated_and_delivered offer_id total)
    → All
        (λ a. a.event.member_id ≡ first.event.member_id → InLimit first.readings.record_now a)
        between
    → again.event.member_id ≡ first.event.member_id
    → InLimit first.readings.record_now again
    → (arrives again (after_all between (arrives first s).1)).0
      ≢ ok (offer_generated_and_delivered offer_id' total')
no_second_offer first between again s h early same in_limit =
    let (m, t) : String × ℕ = (first.event.member_id, first.readings.record_now) in
    let gates =
      offer_needs_gates first.world first.event first.body first.signature first.readings s h in
    let held : OnRecord t (deliveries (arrives first s).1.constraints m) =
      subst (λ c. OnRecord t (deliveries c m)) (sym gates.recorded)
        (rw (deliveries-record_self s.constraints m t) (OnRecord-last t _)) in
    no_offer m t again (after_all between (arrives first s).1)
      (Holds-after_all m t between (arrives first s).1 early held) in_limit same
