-- ===== src/Tests/Purchases.antt =====
-- A purchase offer, the Hub and the Designer on sample data.
use tristar.Base.{ℕ, none, ◌≢◌, [], String, Bool, false, Option, some, ◌≡◌, refl}
use tristar.Base.Dict.{lookup}
use tristar.Outcome.{ok, err}
use tristar.Core.Http.{internal_error}
use tristar.Core.Security.{AuthUser, Decoded, claims, require_role}
use tristar.Models.Offer.{OfferBrief, active}
use tristar.Hub.Api.{as_json, over_http}
use tristar.Hub.Store.Memory.{memory_store, save}
use tristar.Hub.Store.Memory.Contract.{memory_laws, view}
use tristar.Designer.Fraud.{validate}
use tristar.Designer.Routes.{with_flags, generate_purchase_triggered_offer}
use tristar.Designer.Routes.PurchaseFails.{purchase_saved_but_failed}
use tristar.Scout.Routes.{offer_generated_and_delivered}
use tristar.System.Purchase.{works, purchase_event, no_purchase_offer}
use tristar.Tests.Scout.{world, at, start}
use tristar.Tests.Data.{noon, purchase, settings, in_store, in_store-IsGood}
use tristar.Tests.SampleClaude.{claude, inputs, state}
use tristar.Tests.Claude.{context, purchase_offer, purchase_answer}

-- The token is the role of its owner.
abbrev decode : String → Decoded
decode token = claims (record { sub = some "user-1"; role = some token })

abbrev system_user : AuthUser
system_user = record { user_id = "user-1"; role = "system" }

allowed_in : require_role decode "system" "system" ≡ ok system_user
unfolding tristar.Core.Security.get_current_user tristar.Core.Security.check_role
    tristar.Core.Security.require_role
allowed_in = refl

not_blocked : (validate [] purchase_offer "demo-001").blocked ≡ false
unfolding tristar.Designer.Fraud.active_offers tristar.Designer.Fraud.is_over_discounted
    tristar.Designer.Fraud.check_over_discounting tristar.Designer.Fraud.check_offer_stacking
    tristar.Designer.Fraud.is_cannibalizing tristar.Designer.Fraud.check_cannibalization
    tristar.Designer.Fraud.check_frequency_abuse tristar.Designer.Fraud.validate
    tristar.Designer.Fraud.record_active_offer tristar.Designer.Fraud.Verdicts.record_times
    tristar.Base.Dict.lookup tristar.Base.Dict.insert tristar.Base.Dict.erase
not_blocked = refl

abbrev sent : OfferBrief
sent = as_json (with_flags (validate [] purchase_offer "demo-001") purchase_offer)

saved : (save sent in_store).0 ≡ ok tt
unfolding tristar.Hub.Store.Memory.get tristar.Hub.Store.Memory.save tristar.Hub.Store.Memory.update
    tristar.Hub.Store.Memory.list tristar.Hub.Store.Memory.exists tristar.Hub.Store.Memory.ping
    tristar.Hub.Store.Memory.clear tristar.Hub.Store.Memory.Contract.memory_laws
    tristar.Base.Dict.lookup tristar.Base.Dict.insert tristar.Base.Dict.erase
saved = refl

purchase_saved_but_failed_example :
    let (answer, s') =
      generate_purchase_triggered_offer
        (over_http memory_store decode "system")
        claude
        settings
        context
        inputs
        state in
    (answer ≡ err internal_error)
    × (purchase_offer.status ≡ active)
    × (view s'.hub.store "uuid-1" ≡ some sent)
unfolding memory_laws
purchase_saved_but_failed_example =
    purchase_saved_but_failed memory_store memory_laws decode claude settings "system" system_user
      context inputs state in_store-IsGood purchase_answer allowed_in not_blocked saved

no_purchase_offer_example :
    let (answer, s', d') =
      purchase_event memory_store decode claude "system" world purchase [] none
        (at noon)
        inputs
        works
        start
        state in
    ((offer_id : String) (total : ℕ) → answer ≢ ok (offer_generated_and_delivered offer_id total))
    × (s'.constraints.delivery_log ≡ start.constraints.delivery_log)
    × (s'.sent ≡ start.sent)
    × (d'.counts ≡ state.counts)
no_purchase_offer_example =
    no_purchase_offer memory_store decode claude "system" world purchase [] none (at noon) inputs
      works start state
