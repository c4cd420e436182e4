-- ===== src/Designer/Claude/Cache/Bounds.antt =====
-- The size of the cache, and the time its entries stay in it.
use tristar.Base.{
  ℕ, ◌+◌, ◌-◌, ◌*◌, ◌≤◌, String, none, some, [], ◌∷◌, ◌≡◌, refl, arith, leb, length, if◌then◌else◌,
  Text, eq_iff, eq_refl, Bool-cases, inl, inr,
}
use tristar.Base.Dict.{
  erase, contains, lookup-insert, length-insert_old, length-insert-le, length-erase-le,
}
use tristar.Clock.{second}
use tristar.Core.Config.{Settings}
use tristar.Models.Offer.{OfferBrief}
use tristar.Designer.Claude.Cache.{
  Cache, cache_max_size, evict_oldest, cache_key, get_from_cache, store_in_cache,
}

length-erase_head :
    (k : String) (e : OfferBrief × ℕ) (cache : Cache)
    → length (erase k ((k, e) ∷ cache)) ≤ length cache
unfolding erase
length-erase_head k e cache = ground (arith, (eq_iff k k).1 refl, length-erase-le k cache)

length-evict : (cache : Cache) → length (evict_oldest cache) ≤ length cache - 1
unfolding evict_oldest
length-evict [] = omega arith
length-evict ((k, e) ∷ cache) = omega (arith, length-erase_head k e cache)

module _ (sha256 : Text → String) where
  -- Storing an offer in a cache of at most 500 entries leaves at most 500 entries.
  length-store_in_cache :
      (cfg : Settings) (objective : String) (o : OfferBrief) (now : ℕ) (cache : Cache)
      → length cache ≤ cache_max_size
      → length (store_in_cache sha256 cfg objective o now cache) ≤ cache_max_size
  unfolding store_in_cache
  length-store_in_cache cfg objective o now cache h =
      let key = cache_key sha256 objective in
      let entry : OfferBrief × ℕ = (o, now + cfg.cache_ttl_seconds * second) in
      elim (Bool-cases (contains key cache)) [
        | inl old ↦ ground (arith, length-insert_old key entry cache old)
        | inr new ↦ ground (
          arith,
          length-insert-le key entry cache,
          length-insert-le key entry (evict_oldest cache),
          length-evict cache,
        )
      ]

  -- An offer that was stored is found again for an objective with the same key, until its time is
  -- over and no longer.
  pub get_from_cache-store_in_cache :
      (cfg : Settings) (objective again : String) (o : OfferBrief) (now later : ℕ) (cache : Cache)
      → cache_key sha256 again ≡ cache_key sha256 objective
      → (get_from_cache sha256 again later (store_in_cache sha256 cfg objective o now cache)).0
        ≡ (if leb later (now + cfg.cache_ttl_seconds * second) then some o else none)
  unfolding get_from_cache store_in_cache
  get_from_cache-store_in_cache cfg objective again o now later cache same =
      rw (same, lookup-insert, eq_refl) (ground arith)
