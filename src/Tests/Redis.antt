-- ===== src/Tests/Redis.antt =====
-- The store in Redis over a server that never fails: a dict of offers by their keys.
use tristar.Base.{
  String, Bool, true, false, none, some, List, [], ◌∷◌, ◌≡◌, refl, sym, All, map, if◌then◌else◌,
  ◌==◌, eq_iff, Bool-cases, inl, inr, arith,
}
use tristar.Base.Dict.{Dict, lookup, insert, contains, lookup-insert}
use tristar.Outcome.{Result, ok}
use tristar.Models.Offer.{OfferBrief, active}
use tristar.Hub.Store.{IsStorable, GetSpec, SaveSpec, UpdateSpec, ListSpec}
use tristar.Hub.Store.Redis.{Redis, RedisLaws, RedisError, key, get, save, update, list, SetNxKey}
use tristar.Hub.Store.Redis.Contract.{redis_contract, view, IsGood, drop}
use tristar.Tests.Data.{winter_offer, winter_offer-IsStorable, build, build-IsStorable}

abbrev pub Server : Type 0
Server = Dict OfferBrief

abbrev known : Server → List String
known [] = []
known ((k, o) ∷ s) = if key (drop 6 k) == k then k ∷ known s else known s

abbrev set_nx : String → OfferBrief → Server → Result RedisError Bool × Server
set_nx k o s = if contains k s then (ok false, s) else (ok true, insert k o s)

abbrev pub server : Redis
server = record {
  State = Server;
  Raw = OfferBrief;
  get = λ k s. (ok (lookup k s), s);
  set = λ k o s. (ok tt, insert k o s);
  set_nx = set_nx;
  scan_iter = λ s. (ok (known s), s);
  mget = λ ks s. (ok (map (λ k. lookup k s) ks), s);
  exists = λ k s. (ok (contains k s), s);
  ping = λ s. (ok tt, s);
  model_dump_json = λ o. o;
  model_validate_json = build;
}

pub known-All : (s : Server) → All (λ k. (id : String) × (k ≡ key id)) (known s)
known-All [] = tt
known-All ((k, o) ∷ s) = elim (Bool-cases (key (drop 6 k) == k)) [
  | inl same ↦ rw same ((drop 6 k, sym ((eq_iff (key (drop 6 k)) k).0 same)), known-All s)
  | inr other ↦ rw other (known-All s)
]

pub set_nx-server :
    (k : String) (o : OfferBrief) (s : Server)
    → SetNxKey (λ j. lookup j s) (λ j. lookup j (set_nx k o s).1) k o (set_nx k o s).0
set_nx-server k o s = elim (Bool-cases (contains k s)) [
  | inl there ↦ rw there (there, λ j. refl)
  | inr fresh ↦ rw fresh (ground (arith, fresh), λ j. lookup-insert k j o s)
]

pub build-valid : (o : OfferBrief) → IsStorable o → build o ≡ some o
build-valid o st = rw (st.valid, st.member) refl

abbrev pub server_laws : RedisLaws server
server_laws = record {
  keys = λ s k. lookup k s;
  get_lem = λ k s. (refl, λ j. refl);
  set_lem = λ k o s j. lookup-insert k j o s;
  set_nx_lem = set_nx-server;
  scan_iter_lem = λ s. (known-All s, λ j. refl);
  mget_lem = λ ks s. (refl, λ j. refl);
  dump_validate = build-valid;
  validate-IsStorable = λ o e. build-IsStorable o _ e;
}

redis_contract_example :
    GetSpec
      (view server server_laws [])
      (view server server_laws (get server "offer-1" []).1)
      "offer-1"
      (get server "offer-1" []).0
    × SaveSpec
        (view server server_laws [])
        (view server server_laws (save server winter_offer []).1)
        winter_offer
        (save server winter_offer []).0
    × UpdateSpec
        (view server server_laws [])
        (view server server_laws (update server winter_offer []).1)
        winter_offer
        (update server winter_offer []).0
    × ListSpec
        (view server server_laws [])
        (view server server_laws (list server (some active) none none []).1)
        (some active)
        (list server (some active) none none []).0
    × IsGood server server_laws (get server "offer-1" []).1
    × IsGood server server_laws (save server winter_offer []).1
    × IsGood server server_laws (update server winter_offer []).1
    × IsGood server server_laws (list server (some active) none none []).1
redis_contract_example =
    redis_contract server server_laws winter_offer "offer-1" (some active) none none []
      winter_offer-IsStorable (λ id. unfold lookup in tt)
