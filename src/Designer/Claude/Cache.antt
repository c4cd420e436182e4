-- ===== src/Designer/Claude/Cache.antt =====
-- The in-process cache of claude_api.py. SHA-256 is not part of the program: it is the parameter
-- `sha256`, from a text to its digest. Times are naive UTC, in microseconds.
pub mod Bounds
use tristar.Base.{
  ℕ, ◌+◌, ◌*◌, String, Bool, true, false, not, ◌&&◌, Option, none, some, List, [], ◌∷◌, ltb, leb,
  length, if◌then◌else◌, Text, codes, lower, strip,
}
use tristar.Base.Dict.{Dict, lookup, insert, erase, contains}
use tristar.Clock.{second}
use tristar.Core.Config.{Settings}
use tristar.Models.Offer.{OfferBrief}

-- `_cache`: key → (offer, expires_at)
abbrev pub Cache : Type 0
Cache = Dict (OfferBrief × ℕ)

abbrev pub cache_max_size : ℕ
cache_max_size = 500

-- `del _cache[next(iter(_cache))]`
unfoldable pub evict_oldest : Cache → Cache
evict_oldest [] = []
evict_oldest ((k, e) ∷ cache) = erase k ((k, e) ∷ cache)

abbrev pub answer : String → ℕ → Option (OfferBrief × ℕ) → Cache → Option OfferBrief × Cache
answer key now none cache = (none, cache)
answer key now (some (o, expires_at)) cache =
    if ltb expires_at now then (none, erase key cache) else (some o, cache)

module _ (sha256 : Text → String) where
  -- `_cache_key`
  abbrev pub cache_key : String → String
  cache_key objective = sha256 (strip (lower (codes objective)))

  -- `_get_from_cache`
  unfoldable pub get_from_cache : String → ℕ → Cache → Option OfferBrief × Cache
  get_from_cache objective now cache =
      let key = cache_key objective in answer key now (lookup key cache) cache

  -- `_store_in_cache`
  unfoldable pub store_in_cache : Settings → String → OfferBrief → ℕ → Cache → Cache
  unfolding evict_oldest
  store_in_cache cfg objective o now cache =
      let key = cache_key objective in
      let full = leb cache_max_size (length cache) && not (contains key cache) in
      insert key (o, now + cfg.cache_ttl_seconds * second)
        (if full then evict_oldest cache else cache)
