-- ===== src/Hub/Store/Redis.antt =====
-- `RedisHubStore` of src/backend/services/hub_store.py. The Redis server and the JSON codec of pydantic
-- are not part of the program: they are the parameter `Redis`. Nothing calls
-- `validate_redis_config`.
pub mod Contract
use Prim.Native.String
use tristar.Base.{
  String, Bool, true, false, Option, none, some, List, [], ◌∷◌, ◌≡◌, ◌⊎◌, All, map, is_some,
  if◌then◌else◌, ◌==◌,
}
use tristar.Clock.{DateTime, TypeError}
use tristar.Outcome.{Result, ok, err, Action, map_err}
use tristar.Models.Offer.{OfferBrief, OfferStatus, TriggerType}
use tristar.Hub.Store.{
  StoreError, redis_unavailable, already_exists, apply_filters, HubStore, IsStorable,
}

-- any exception of the client
pub data RedisError : Type 0 where
  redis_error : RedisError

-- the commands that the code sends, and the JSON of an offer
pub record Redis : Type 1 where
  pub State : Type 0
  pub Raw : Type 0
  pub get : String → Action State RedisError (Option Raw)
  pub set : String → Raw → Action State RedisError (Unit {0})
  -- `SET … NX`, which says whether it has set the key
  pub set_nx : String → Raw → Action State RedisError Bool
  -- the keys of `SCAN` with the pattern `offer:*`, some of them perhaps twice
  pub scan_iter : Action State RedisError (List String)
  pub mget : List String → Action State RedisError (List (Option Raw))
  pub exists : String → Action State RedisError Bool
  pub ping : Action State RedisError (Unit {0})
  pub model_dump_json : OfferBrief → Raw
  pub model_validate_json : Raw → Option OfferBrief

-- what `validate_redis_config` logs: the policy, or that the server could not be asked
pub data ConfigLog : Type 0 where
  eviction_policy_misconfigured : String → ConfigLog
  config_check_failed : ConfigLog

abbrev policy_or : String → Option String → String
policy_or other none = other
policy_or other (some policy) = policy

-- `validate_redis_config`, from what CONFIG GET says of `maxmemory-policy`
unfoldable pub validate_redis_config : Result RedisError (Option String) → Option ConfigLog
validate_redis_config (err _) = some config_check_failed
validate_redis_config (ok setting) =
    let policy = policy_or "unknown" setting in
    if policy == "noeviction" then none else some (eviction_policy_misconfigured policy)

-- `_key`
abbrev pub key : String → String
key offer_id = String.◌++◌ "offer:" offer_id

abbrev pub unavailable : {A : Type 0} → Result RedisError A → Result StoreError A
unavailable (ok a) = ok a
unavailable (err _) = err redis_unavailable

module _ (r : Redis) where
  open r use {State, Raw}

  -- a text that does not validate is an exception too
  abbrev validated : Option OfferBrief → Result StoreError (Option OfferBrief)
  validated none = err redis_unavailable
  validated (some o) = ok (some o)

  abbrev pub found : Result RedisError (Option Raw) → Result StoreError (Option OfferBrief)
  found (err _) = err redis_unavailable
  found (ok none) = ok none
  found (ok (some raw)) = validated (r.model_validate_json raw)

  unfoldable pub get : String → Action State StoreError (Option OfferBrief)
  get offer_id s = let (a, s') = r.get (key offer_id) s in (found a, s')

  abbrev pub inserted : Result RedisError Bool → Result StoreError (Unit {0})
  inserted (err _) = err redis_unavailable
  inserted (ok true) = ok tt
  inserted (ok false) = err already_exists

  unfoldable pub save : OfferBrief → Action State StoreError (Unit {0})
  save offer s =
      let (a, s') = r.set_nx (key offer.offer_id) (r.model_dump_json offer) s in (inserted a, s')

  unfoldable pub update : OfferBrief → Action State StoreError (Unit {0})
  update offer s =
      let (a, s') = r.set (key offer.offer_id) (r.model_dump_json offer) s in (unavailable a, s')

  abbrev add_valid : Option OfferBrief → List OfferBrief → List OfferBrief
  add_valid none offers = offers
  add_valid (some o) offers = o ∷ offers

  -- the loop over `raw_values`, which skips what does not validate
  unfoldable pub parse_values : List (Option Raw) → List OfferBrief
  parse_values [] = []
  parse_values (none ∷ raws) = parse_values raws
  parse_values (some raw ∷ raws) = add_valid (r.model_validate_json raw) (parse_values raws)

  abbrev any_error : TypeError → StoreError
  any_error _ = redis_unavailable

  abbrev filtered :
      Option OfferStatus
      → Option TriggerType
      → Option DateTime
      → Result RedisError (List (Option Raw))
      → Result StoreError (List OfferBrief)
  filtered status_filter trigger_type since (err _) = err redis_unavailable
  filtered status_filter trigger_type since (ok raw_values) =
      map_err any_error (apply_filters (parse_values raw_values) status_filter trigger_type since)

  abbrev scanned :
      Option OfferStatus
      → Option TriggerType
      → Option DateTime
      → Result RedisError (List String)
      → Action State StoreError (List OfferBrief)
  scanned status_filter trigger_type since (err _) s = (err redis_unavailable, s)
  scanned status_filter trigger_type since (ok []) s = (ok [], s)
  scanned status_filter trigger_type since (ok (k ∷ ks)) s =
      let (a, s') = r.mget (k ∷ ks) s in (filtered status_filter trigger_type since a, s')

  unfoldable pub list :
      Option OfferStatus
      → Option TriggerType
      → Option DateTime
      → Action State StoreError (List OfferBrief)
  unfolding parse_values
  list status_filter trigger_type since s =
      let (keys, s') = r.scan_iter s in scanned status_filter trigger_type since keys s'

  unfoldable pub exists : String → Action State StoreError Bool
  exists offer_id s = let (a, s') = r.exists (key offer_id) s in (unavailable a, s')

  abbrev answers : Result RedisError (Unit {0}) → Bool
  answers (ok _) = true
  answers (err _) = false

  unfoldable pub ping : State → Bool × State
  ping s = let (a, s') = r.ping s in (answers a, s')

  abbrev pub redis_store : HubStore
  redis_store = record {
    State = State;
    get = get;
    save = save;
    update = update;
    list = list;
    exists = exists;
    ping = ping;
  }

-- The keys of a server, by their names.
abbrev pub Keys : Type 0 → Type 0
Keys Raw = String → Option Raw

abbrev pub SameKeys : {Raw : Type 0} → Keys Raw → Keys Raw → Type 0
SameKeys kv kv' = (k : String) → kv' k ≡ kv k

abbrev pub Put : {Raw : Type 0} → String → Raw → Keys Raw → Keys Raw → Type 0
Put k raw kv kv' = (j : String) → kv' j ≡ (if k == j then some raw else kv j)

abbrev pub GetKey :
    {Raw : Type 0} → Keys Raw → Keys Raw → String → Result RedisError (Option Raw) → Type 0
GetKey kv kv' k (ok a) = (a ≡ kv k) × SameKeys kv kv'
GetKey kv kv' k (err _) = SameKeys kv kv'

-- A command that failed may have been carried out all the same.
abbrev pub SetKey :
    {Raw : Type 0} → Keys Raw → Keys Raw → String → Raw → Result RedisError (Unit {0}) → Type 0
SetKey kv kv' k raw (ok _) = Put k raw kv kv'
SetKey kv kv' k raw (err _) = SameKeys kv kv' ⊎ Put k raw kv kv'

abbrev pub SetNxKey :
    {Raw : Type 0} → Keys Raw → Keys Raw → String → Raw → Result RedisError Bool → Type 0
SetNxKey kv kv' k raw (ok true) = (kv k ≡ none) × Put k raw kv kv'
SetNxKey kv kv' k raw (ok false) = (is_some (kv k) ≡ true) × SameKeys kv kv'
SetNxKey kv kv' k raw (err _) = SameKeys kv kv' ⊎ ((kv k ≡ none) × Put k raw kv kv')

abbrev pub ScanKeys :
    {Raw : Type 0} → Keys Raw → Keys Raw → Result RedisError (List String) → Type 0
ScanKeys kv kv' (ok ks) = All (λ k. (id : String) × (k ≡ key id)) ks × SameKeys kv kv'
ScanKeys kv kv' (err _) = SameKeys kv kv'

abbrev pub MgetKeys :
    {Raw : Type 0}
    → Keys Raw
    → Keys Raw
    → List String
    → Result RedisError (List (Option Raw))
    → Type 0
MgetKeys kv kv' ks (ok raws) = (raws ≡ map kv ks) × SameKeys kv kv'
MgetKeys kv kv' ks (err _) = SameKeys kv kv'

-- What is relied on: each command does to the keys what Redis documents, or fails; no key is evicted;
-- and an offer that can be stored comes back from its JSON, which gives only such offers.
pub record RedisLaws (r : Redis) : Type 0 where
  pub keys : r.State → Keys r.Raw
  pub get_lem : (k : String) (s : r.State) → GetKey (keys s) (keys (r.get k s).1) k (r.get k s).0
  pub set_lem :
      (k : String) (raw : r.Raw) (s : r.State)
      → SetKey (keys s) (keys (r.set k raw s).1) k raw (r.set k raw s).0
  pub set_nx_lem :
      (k : String) (raw : r.Raw) (s : r.State)
      → SetNxKey (keys s) (keys (r.set_nx k raw s).1) k raw (r.set_nx k raw s).0
  pub scan_iter_lem : (s : r.State) → ScanKeys (keys s) (keys (r.scan_iter s).1) (r.scan_iter s).0
  pub mget_lem :
      (ks : List String) (s : r.State) → MgetKeys (keys s) (keys (r.mget ks s).1) ks (r.mget ks s).0
  pub dump_validate :
      (o : OfferBrief) → IsStorable o → r.model_validate_json (r.model_dump_json o) ≡ some o
  pub validate-IsStorable :
      (raw : r.Raw) {o : OfferBrief} → r.model_validate_json raw ≡ some o → IsStorable o
