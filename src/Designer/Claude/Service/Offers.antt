-- ===== src/Designer/Claude/Service/Offers.antt =====
-- What `generate_from_objective` returns, by way of the cache or of Claude.
use tristar.Base.{
  ℕ, ◌+◌, ◌*◌, String, Option, none, some, List, ◌≡◌, refl, arith, leb, Bool-cases, inl, inr, ltb,
  not, ◌&&◌, length,
}
use mathlib.Core.Path.{subst}
use tristar.Base.Dict.{lookup, contains, insert-All, lookup-All, erase-All}
use tristar.Clock.{second}
use tristar.Outcome.{Result, ok, err}
use tristar.Core.Config.{Settings}
use tristar.Models.Offer.{OfferBrief, marketer_initiated}
use tristar.Designer.Claude.Cache.{
  Cache, cache_key, evict_oldest, answer, cache_max_size, get_from_cache, store_in_cache,
}
use tristar.Designer.Claude.Parse.{ClaudeError}
use tristar.Designer.Claude.Service.{
  Backend, Inputs, marketer, hints, with_id, ask, generated, from_cache, generate_from_objective,
}
use tristar.Designer.Claude.Service.FromClaude.{
  FromClaude, CacheOk, with_id-FromClaude, evict-CacheOk, ok_inj, ask-FromClaude,
}

abbrev returned : OfferBrief → Result ClaudeError OfferBrief
returned = ok

module _ (b : Backend) (cfg : Settings) where
  stored-CacheOk :
      (objective : String) (o : OfferBrief) (now : ℕ) (cache : Cache)
      → FromClaude marketer_initiated o
      → CacheOk cache
      → CacheOk (store_in_cache b.sha256 cfg objective o now cache)
  unfolding store_in_cache
  stored-CacheOk objective o now cache f h =
      let key = cache_key b.sha256 objective in
      let entry : OfferBrief × ℕ = (o, now + cfg.cache_ttl_seconds * second) in
      let add =
        insert-All (λ (_ : String) (e : OfferBrief × ℕ). FromClaude marketer_initiated e.0) key
          entry in
      elim (Bool-cases (leb cache_max_size (length cache) && not (contains key cache))) [
        | inl full ↦ rw full (add (evict_oldest cache) f (evict-CacheOk cache h))
        | inr room ↦ rw room (add cache f h)
      ]

  read-CacheOk :
      (objective : String) (now : ℕ) (cache : Cache)
      → CacheOk cache
      → CacheOk (get_from_cache b.sha256 objective now cache).1
  unfolding get_from_cache
  read-CacheOk objective now cache h = read (lookup key cache)
    where
      key : String
      key = cache_key b.sha256 objective

      read : (found : Option (OfferBrief × ℕ)) → CacheOk (answer key now found cache).1
      read none = h
      read (some (o, expires_at)) = elim (Bool-cases (ltb expires_at now)) [
        | inl old ↦ rw old (
            erase-All (λ (_ : String) (e : OfferBrief × ℕ). FromClaude marketer_initiated e.0) key
              cache h)
        | inr fresh ↦ rw fresh h
      ]

  read-FromClaude :
      (objective : String) (now : ℕ) (cache : Cache) {o : OfferBrief}
      → CacheOk cache
      → (get_from_cache b.sha256 objective now cache).0 ≡ some o
      → FromClaude marketer_initiated o
  unfolding get_from_cache
  read-FromClaude objective now cache {o} h = read (lookup key cache) refl
    where
      key : String
      key = cache_key b.sha256 objective

      read :
          (found : Option (OfferBrief × ℕ))
          → lookup key cache ≡ found
          → (answer key now found cache).0 ≡ some o
          → FromClaude marketer_initiated o
      read none e r = absurd (ground arith)
      read (some (p, expires_at)) e r =
          let same : p ≡ o = ground arith in
          subst (FromClaude marketer_initiated) same (
            lookup-All (λ (_ : String) (e : OfferBrief × ℕ). FromClaude marketer_initiated e.0) key
              cache h e)

  -- What a call has to say of its answer and of the cache.
  abbrev Made : Inputs → Result ClaudeError OfferBrief × Cache → Type 0
  Made i a =
      CacheOk a.1
      × ((o : OfferBrief) → a.0 ≡ ok o → FromClaude marketer_initiated o × (o.offer_id ≡ i.uuid))

  fresh-Made :
      (i : Inputs) (p : OfferBrief) (cache : Cache)
      → FromClaude marketer_initiated p
      → CacheOk cache
      → Made i (returned (with_id i.uuid p), cache)
  fresh-Made i p cache f h = (
    h,
    λ o e.
        subst (λ (q : OfferBrief). FromClaude marketer_initiated q × (q.offer_id ≡ i.uuid))
          (ok_inj refl e) (with_id-FromClaude marketer_initiated i.uuid p f, refl),
  )

  generated-Made :
      (objective : String) (i : Inputs) (r : Result ClaudeError OfferBrief) (cache : Cache)
      → ((p : OfferBrief) → r ≡ ok p → FromClaude marketer_initiated p)
      → CacheOk cache
      → Made i (generated b cfg objective i r cache)
  generated-Made objective i (err e) cache f h = (h, λ o e. absurd (ground arith))
  generated-Made objective i (ok p) cache f h =
      fresh-Made i p (store_in_cache b.sha256 cfg objective (with_id i.uuid p) i.store_now cache)
        (f p refl)
        (stored-CacheOk objective (with_id i.uuid p) i.store_now cache
          (with_id-FromClaude marketer_initiated i.uuid p (f p refl)) h)

  from_cache-Made :
      (objective : String) (segment_hints : Option (List String)) (i : Inputs)
      (c : Option OfferBrief) (cache : Cache)
      → CacheOk cache
      → ((p : OfferBrief) → c ≡ some p → FromClaude marketer_initiated p)
      → Made i (from_cache b cfg objective segment_hints i c cache)
  from_cache-Made objective segment_hints i (some p) cache h f = fresh-Made i p cache (f p refl) h
  from_cache-Made objective segment_hints i none cache h f =
      let prompt = marketer objective (hints segment_hints) in
      generated-Made objective i (ask b prompt marketer_initiated) cache
        (λ p e. ask-FromClaude b cfg prompt marketer_initiated e) h

  pub generate_from_objective-Made :
      (objective : String) (segment_hints : Option (List String)) (i : Inputs) (cache : Cache)
      → CacheOk cache
      → Made i (generate_from_objective b cfg objective segment_hints i cache)
  unfolding generate_from_objective
  generate_from_objective-Made objective segment_hints i cache h =
      let (c, cache') = get_from_cache b.sha256 objective i.cache_now cache in
      from_cache-Made objective segment_hints i c cache'
        (read-CacheOk objective i.cache_now cache h)
        (λ p e. read-FromClaude objective i.cache_now cache h e)

  -- While the cache holds only offers of Claude's for marketers, an offer that
  -- `generate_from_objective` returns has passed validation, is marketer-initiated and has the new id of
  -- the call, whatever text Claude sends, and the cache still holds only such offers.
  pub generate_from_objective_ok :
      (objective : String) (segment_hints : Option (List String)) (i : Inputs) (cache : Cache)
      {o : OfferBrief}
      → CacheOk cache
      → (generate_from_objective b cfg objective segment_hints i cache).0 ≡ ok o
      → FromClaude marketer_initiated o
        × (o.offer_id ≡ i.uuid)
        × CacheOk (generate_from_objective b cfg objective segment_hints i cache).1
  generate_from_objective_ok objective segment_hints i cache {o} h e =
      let (kept, made) = generate_from_objective-Made objective segment_hints i cache h in
      ((made o e).0, (made o e).1, kept)
