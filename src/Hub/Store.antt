-- ===== src/Hub/Store.antt =====
-- src/backend/services/hub_store.py: the protocol `HubStore` with its contract, and the filters that
-- both implementations share.
pub mod Filters
pub mod Memory
pub mod Redis
use tristar.Base.{
  ℕ, String, Bool, true, false, Option, none, some, List, [], ◌∷◌, ◌≡◌, ◌⊎◌, All, keep, is_some,
  if◌then◌else◌, ◌==◌,
}
use tristar.Clock.{DateTime, TypeError, le_dt, as_utc}
use tristar.Outcome.{Result, ok, err, Action}
use tristar.Models.Offer.{OfferBrief, OfferStatus, TriggerType, is_status, is_trigger}
use tristar.Models.Validation.{offer_ok}

-- `RedisUnavailableError`, `OfferAlreadyExistsError`, and the `TypeError` of a comparison
pub data StoreError : Type 0 where
  redis_unavailable already_exists naive_and_aware : StoreError

abbrev filter_status : Option OfferStatus → List OfferBrief → List OfferBrief
filter_status none offers = offers
filter_status (some s) offers = keep (λ (o : OfferBrief). is_status o.status s) offers

abbrev filter_trigger : Option TriggerType → List OfferBrief → List OfferBrief
filter_trigger none offers = offers
filter_trigger (some t) offers = keep (λ (o : OfferBrief). is_trigger o.trigger_type t) offers

abbrev add_if :
    OfferBrief → Bool → Result TypeError (List OfferBrief) → Result TypeError (List OfferBrief)
add_if o b (err e) = err e
add_if o b (ok rest) = ok (if b then o ∷ rest else rest)

abbrev after_test :
    OfferBrief
    → Result TypeError Bool
    → Result TypeError (List OfferBrief)
    → Result TypeError (List OfferBrief)
after_test o (err e) rest = err e
after_test o (ok b) rest = add_if o b rest

-- `[o for o in offers if o.created_at >= since]`
unfoldable pub created_since : DateTime → List OfferBrief → Result TypeError (List OfferBrief)
created_since since [] = ok []
created_since since (o ∷ offers) =
    after_test o (le_dt since o.created_at) (created_since since offers)

abbrev filter_since : Option DateTime → List OfferBrief → Result TypeError (List OfferBrief)
filter_since none offers = ok offers
filter_since (some since) offers = created_since (as_utc since) offers

-- `_apply_filters`
unfoldable pub apply_filters :
    List OfferBrief
    → Option OfferStatus
    → Option TriggerType
    → Option DateTime
    → Result TypeError (List OfferBrief)
unfolding created_since
apply_filters offers status_filter trigger_type since =
    filter_since since (filter_trigger trigger_type (filter_status status_filter offers))

-- the protocol `HubStore`
pub record HubStore : Type 1 where
  pub State : Type 0
  pub get : String → Action State StoreError (Option OfferBrief)
  pub save : OfferBrief → Action State StoreError (Unit {0})
  pub update : OfferBrief → Action State StoreError (Unit {0})
  pub list :
      Option OfferStatus
      → Option TriggerType
      → Option DateTime
      → Action State StoreError (List OfferBrief)
  pub exists : String → Action State StoreError Bool
  pub ping : State → Bool × State

-- Offers by their ids: what a store is, to its clients.
abbrev pub View : Type 0
View = String → Option OfferBrief

abbrev pub Same : View → View → Type 0
Same v v' = (id : String) → v' id ≡ v id

-- The offer is in its place, and nothing else has changed.
abbrev pub Written : OfferBrief → View → View → Type 0
Written o v v' = (id : String) → v' id ≡ (if o.offer_id == id then some o else v id)

-- What a store must be able to keep: a valid offer whose status is an enum member.
pub record IsStorable (o : OfferBrief) : Type 0 where
  pub valid : offer_ok o ≡ true
  pub member : o.bare_status ≡ false

abbrev pub GetSpec : View → View → String → Result StoreError (Option OfferBrief) → Type 0
GetSpec v v' id (ok found) = (found ≡ v id) × Same v v'
GetSpec v v' id (err redis_unavailable) = Same v v'
GetSpec v v' id (err _) = ⊥

-- A save that fails for the connection may have been carried out all the same.
abbrev pub SaveSpec : View → View → OfferBrief → Result StoreError (Unit {0}) → Type 0
SaveSpec v v' o (ok _) = (v o.offer_id ≡ none) × Written o v v'
SaveSpec v v' o (err already_exists) = (is_some (v o.offer_id) ≡ true) × Same v v'
SaveSpec v v' o (err redis_unavailable) = Same v v' ⊎ ((v o.offer_id ≡ none) × Written o v v')
SaveSpec v v' o (err naive_and_aware) = ⊥

abbrev pub UpdateSpec : View → View → OfferBrief → Result StoreError (Unit {0}) → Type 0
UpdateSpec v v' o (ok _) = Written o v v'
UpdateSpec v v' o (err redis_unavailable) = Same v v' ⊎ Written o v v'
UpdateSpec v v' o (err _) = ⊥

-- A listing shows offers that are in the store and have the status that was asked for.
abbrev pub ListSpec :
    View → View → Option OfferStatus → Result StoreError (List OfferBrief) → Type 0
ListSpec v v' none (ok offers) = Same v v' × All (λ o. v o.offer_id ≡ some o) offers
ListSpec v v' (some s) (ok offers) =
    Same v v' × All (λ o. (v o.offer_id ≡ some o) × (o.status ≡ s)) offers
ListSpec v v' _ (err _) = Same v v'

-- The contract: a view of the state, the states that can arise, and what each operation does to them.
pub record HubStoreLaws (h : HubStore) : Type 1 where
  pub view : h.State → View
  pub IsGood : h.State → Type 0
  pub get-IsGood : (id : String) (s : h.State) → IsGood s → IsGood (h.get id s).1
  pub get_lem :
      (id : String) (s : h.State)
      → IsGood s
      → GetSpec (view s) (view (h.get id s).1) id (h.get id s).0
  pub save-IsGood : (o : OfferBrief) (s : h.State) → IsStorable o → IsGood s → IsGood (h.save o s).1
  pub save_lem :
      (o : OfferBrief) (s : h.State)
      → IsStorable o
      → IsGood s
      → SaveSpec (view s) (view (h.save o s).1) o (h.save o s).0
  pub update-IsGood :
      (o : OfferBrief) (s : h.State) → IsStorable o → IsGood s → IsGood (h.update o s).1
  pub update_lem :
      (o : OfferBrief) (s : h.State)
      → IsStorable o
      → IsGood s
      → UpdateSpec (view s) (view (h.update o s).1) o (h.update o s).0
  pub list-IsGood :
      (status : Option OfferStatus) (trigger : Option TriggerType) (since : Option DateTime)
      (s : h.State)
      → IsGood s
      → IsGood (h.list status trigger since s).1
  pub list_lem :
      (status : Option OfferStatus) (trigger : Option TriggerType) (since : Option DateTime)
      (s : h.State)
      → IsGood s
      → ListSpec
          (view s)
          (view (h.list status trigger since s).1)
          status
          (h.list status trigger since s).0
  -- what is in the store can be stored again
  pub view-IsStorable :
      (id : String) (s : h.State) {o : OfferBrief} → IsGood s → view s id ≡ some o → IsStorable o
  pub view-id :
      (id : String) (s : h.State) {o : OfferBrief} → IsGood s → view s id ≡ some o → o.offer_id ≡ id
