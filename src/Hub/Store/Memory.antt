-- ===== src/Hub/Store/Memory.antt =====
-- `InMemoryHubStore`: a dict of offers.
pub mod Contract
use tristar.Base.{
  ℕ, String, Bool, true, false, Option, none, some, List, [], ◌∷◌, ◌≡◌, ◌⊎◌, inl, inr, refl, arith,
  All, keep, is_some, if◌then◌else◌, ◌==◌, eq_iff, eq_refl, Bool-cases, Option-cases,
}
use tristar.Base.Dict.{
  Dict, lookup, insert, contains, values, lookup-insert, IsDict, insert-IsDict, entries-lookup,
}
use tristar.Clock.{DateTime, TypeError}
use tristar.Outcome.{Result, ok, err, map_err}
use tristar.Models.Offer.{OfferBrief, OfferStatus, TriggerType}
use tristar.Hub.Store.{
  StoreError, already_exists, naive_and_aware, apply_filters, HubStore, HubStoreLaws, View,
  IsStorable, SaveSpec, UpdateSpec, ListSpec, Same, Written,
}

-- `_store`
abbrev pub Store : Type 0
Store = Dict OfferBrief

unfoldable pub get : String → Store → Result StoreError (Option OfferBrief) × Store
get offer_id s = (ok (lookup offer_id s), s)

unfoldable pub save : OfferBrief → Store → Result StoreError (Unit {0}) × Store
save offer s =
    if contains offer.offer_id s
    then (err already_exists, s)
    else (ok tt, insert offer.offer_id offer s)

unfoldable pub update : OfferBrief → Store → Result StoreError (Unit {0}) × Store
update offer s = (ok tt, insert offer.offer_id offer s)

abbrev pub type_error : TypeError → StoreError
type_error _ = naive_and_aware

unfoldable pub list :
    Option OfferStatus
    → Option TriggerType
    → Option DateTime
    → Store
    → Result StoreError (List OfferBrief) × Store
list status_filter trigger_type since s =
    (map_err type_error (apply_filters (values s) status_filter trigger_type since), s)

unfoldable pub exists : String → Store → Result StoreError Bool × Store
exists offer_id s = (ok (contains offer_id s), s)

unfoldable pub ping : Store → Bool × Store
ping s = (true, s)

-- `clear`, for tests
unfoldable pub clear : Store → Store
clear s = []

abbrev pub memory_store : HubStore
memory_store = record {
  State = Store;
  get = get;
  save = save;
  update = update;
  list = list;
  exists = exists;
  ping = ping;
}
