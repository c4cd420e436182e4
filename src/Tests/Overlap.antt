-- ===== src/Tests/Overlap.antt =====
-- Tasks that overlap, over a store in Redis whose server never fails.
use tristar.Tests.Data.{
  noon, winter_offer, running_offer, winter_offer-IsStorable, running_offer-IsStorable, marketer,
  scout,
}
use tristar.Tests.Redis.{Server, server, server_laws}
use tristar.Base.{
  String, none, some, List, [], ◌∷◌, ◌≡◌, ◌+◌, ◌*◌, true, refl, arith, ◌==◌, eq_iff, Option,
}
use tristar.Base.Dict.{lookup, insert}
use tristar.Clock.{hour, utc}
use tristar.Outcome.{ok, is_ok}
use tristar.Models.Offer.{OfferBrief, approved, active, expired, with_status}
use tristar.Hub.Store.{HubStore, HubStoreLaws}
use tristar.Hub.Store.Redis.{key, found, get, save, update, redis_store}
use tristar.Hub.Store.Redis.Contract.{redis_laws, Entry}
use tristar.Designer.Routes.{DesignerState}
use tristar.Overlap.{
  changing, approving, sweeping, answered, offer, Loop, Event, arrive, resume_at, step, run,
}
use tristar.Overlap.Life.{IsOrderly, AllFree, overlap_progress}
use tristar.Overlap.Lost.{Answers, racing, lost_update}
use tristar.System.Life.{Progress}

abbrev h : HubStore
h = redis_store server

abbrev laws : HubStoreLaws h
laws = redis_laws server server_laws

abbrev entries : Server
entries = (key "offer-1", winter_offer) ∷ (key "offer-2", running_offer) ∷ []

entries-IsGood : laws.IsGood entries
unfolding redis_laws save lookup insert
entries-IsGood =
    laws.save-IsGood running_offer ((key "offer-1", winter_offer) ∷ []) running_offer-IsStorable
      (laws.save-IsGood winter_offer [] winter_offer-IsStorable (λ id. tt))

entries-View : laws.view entries "offer-2" ≡ some running_offer
unfolding redis_laws lookup tristar.Models.Validation.segment_ok
    tristar.Models.Validation.construct_ok tristar.Models.Validation.objective_ok
    tristar.Models.Validation.valid_until_ok tristar.Models.Validation.offer_ok
entries-View = refl

entries-Draft : laws.view entries "offer-1" ≡ some winter_offer
unfolding redis_laws lookup tristar.Models.Validation.segment_ok
    tristar.Models.Validation.construct_ok tristar.Models.Validation.objective_ok
    tristar.Models.Validation.valid_until_ok tristar.Models.Validation.offer_ok
entries-Draft = refl

abbrev state : DesignerState Server
state = record {
  cache = [];
  counts = [];
  log = [];
  hub = record { store = entries; audit_tasks = [] };
}

-- While an offer runs out, the system changes its status and a marketer approves another offer.
abbrev events : List Event
events =
    arrive (changing scout "offer-2" expired)
    ∷ arrive (sweeping (utc (noon + 5 * hour)))
    ∷ arrive (approving marketer "offer-1" winter_offer)
    ∷ resume_at 1
    ∷ resume_at 2
    ∷ resume_at 0
    ∷ resume_at 1
    ∷ resume_at 2
    ∷ resume_at 0
    ∷ []

abbrev idle : Loop h
idle = record { tasks = []; state = state }

idle-IsOrderly : IsOrderly h laws idle
idle-IsOrderly = record { good = entries-IsGood; know = tt; apart = tt }

distinct_ids : {id : String} → some "offer-1" ≡ some id → some "offer-2" ≡ some id → ⊥
distinct_ids {id} m n =
    let a : String = "offer-1" in
    let b : String = "offer-2" in
    let same : a ≡ b = ground (arith, m, n) in
    let found : (a == b) ≡ true = (eq_iff a b).1 same in absurd (ground (arith, found))

events-AllFree : AllFree h laws events idle
unfolding step
events-AllFree = (
  (tt, tt),
  (
    (tt, (λ id m n. ground arith, tt)),
    (
      (winter_offer-IsStorable, (λ id m n. ground arith, (λ id m n. distinct_ids m n, tt))),
      (tt, (tt, (tt, (tt, (tt, (tt, tt)))))),
    ),
  ),
)

overlap_progress_example :
    IsOrderly h laws (run h events idle)
    × Progress
        (laws.view idle.state.hub.store "offer-2")
        (laws.view (run h events idle).state.hub.store "offer-2")
overlap_progress_example =
    overlap_progress h laws events idle "offer-2" events-AllFree idle-IsOrderly

server-Answers : Answers h laws
unfolding redis_laws get update
server-Answers = (λ id s g. answered_ok (lookup (key id) s) id (g id), λ o s g. refl)
  where
    answered_ok :
        (raw : Option OfferBrief) (id : String)
        → Entry server server_laws id raw
        → is_ok (found server (ok raw)) ≡ true
    answered_ok none id e = refl
    answered_ok (some raw) id e = rw e.1 refl

lost_update_example :
    let m = run h (racing scout "offer-1") idle in
    let m' = step h (resume_at 2) m in
    (laws.view m.state.hub.store "offer-1" ≡ some (with_status active winter_offer))
    × (laws.view m'.state.hub.store "offer-1" ≡ some (with_status approved winter_offer))
    × (m'.tasks
        ≡ answered (offer (ok (with_status active winter_offer)))
          ∷ answered (offer (ok (with_status approved winter_offer)))
          ∷ answered (offer (ok (with_status approved winter_offer)))
          ∷ [])
lost_update_example =
    lost_update h laws server-Answers scout "offer-1" winter_offer state entries-IsGood
      entries-Draft refl
