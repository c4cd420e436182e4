-- ===== src/Tests/System.antt =====
-- A run of the Hub and the Designer on sample data.

use tristar.Tests.Data.{noon, winter_offer, running_offer, in_store, in_store-IsGood}
use tristar.Base.{◌⊎◌, String, some, ◌≡◌, ◌+◌, ◌*◌, List, [], ◌∷◌, refl}
use tristar.Base.Dict.{lookup}
use tristar.Clock.{hour, utc}
use tristar.Models.Offer.{OfferBrief, active, expired}
use tristar.Hub.Store.Memory.{Store, memory_store}
use tristar.Hub.Store.Memory.Contract.{memory_laws, view}
use tristar.Designer.Routes.{DesignerState}
use tristar.System.{Request, set_status, approve, expire_due, run, step}
use tristar.System.Access.{Authorized, step-Authorized}
use tristar.Core.Security.{Decoded, claims}
use tristar.System.Life.{Since, run_progress}
use tristar.System.Expiry.{sweep_expires}

abbrev state : DesignerState Store
state = record {
  cache = [];
  counts = [];
  log = [];
  hub = record { store = in_store; audit_tasks = [] };
}

-- The token is the role of its owner.
abbrev decode : String → Decoded
decode token = claims (record { sub = some "user-1"; role = some token })

-- A draft is approved and activated, and runs out.
abbrev requests : List Request
requests =
    approve "marketing" "offer-1" winter_offer
    ∷ set_status "system" "offer-1" active
    ∷ expire_due (utc (noon + 5 * hour))
    ∷ []

run_progress_example :
    (p : OfferBrief) × (view (run memory_store decode requests state).hub.store "offer-1" ≡ some p)
    × Since winter_offer p
unfolding memory_laws lookup
run_progress_example =
    run_progress memory_store memory_laws decode requests state "offer-1" winter_offer
      (tt, (tt, (tt, tt))) (record { good = in_store-IsGood; cache_ok = tt }) refl

step-Authorized_example :
    (step memory_store decode (approve "system" "offer-1" winter_offer) state ≡ state)
    ⊎ Authorized decode (approve "system" "offer-1" winter_offer)
step-Authorized_example =
    step-Authorized decode memory_store (approve "system" "offer-1" winter_offer) state

-- An offer of four hours, an approval of another one, and a sweep five hours later.
sweep_expires_example :
    (p : OfferBrief) × (view
        (run memory_store decode (set_status "system" "offer-1" active ∷ []) (
          step memory_store decode (expire_due (utc (noon + 5 * hour))) (
            run memory_store decode
              (approve "marketing" "offer-1" winter_offer ∷ [])
              state))).hub.store
        "offer-2"
      ≡ some p)
    × (p.status ≡ expired)
unfolding memory_laws lookup tristar.Hub.Sweep.is_due tristar.Clock.lt_dt
sweep_expires_example =
    sweep_expires decode (utc (noon + 5 * hour)) (approve "marketing" "offer-1" winter_offer ∷ [])
      (set_status "system" "offer-1" active ∷ []) state "offer-2" running_offer (tt, tt) (tt, tt)
      (record { good = in_store-IsGood; cache_ok = tt }) refl refl refl
