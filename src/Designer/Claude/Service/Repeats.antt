-- ===== src/Designer/Claude/Service/Repeats.antt =====
-- An objective that comes again within the time of the cache.
use tristar.Base.{
  suc, eq_refl, ℕ, ◌<◌, some, [], ◌∷◌, ◌==◌, eq_iff, refl, length, leb, ltb, Bool-cases, inl, inr,
  false, Text, All, ◌+◌, ◌*◌, ◌≤◌, String, Option, none, List, ◌≡◌, arith, sym, ap, ◌∙◌,
}
use tristar.Clock.{second}
use tristar.Outcome.{Result, ok, err}
use tristar.Core.Config.{Settings}
use tristar.Models.Offer.{OfferBrief, marketer_initiated}
use tristar.Base.Dict.{lookup, lookup-insert, lookup-erase, length-insert-le, length-erase-le}
use tristar.Designer.Claude.Cache.{
  Cache, cache_key, cache_max_size, answer, get_from_cache, store_in_cache,
}
use tristar.Designer.Claude.Parse.{ClaudeError}
use tristar.Designer.Claude.Service.{
  Prompt, Backend, Inputs, marketer, hints, with_id, ask, generated, from_cache,
  generate_from_objective,
}

-- A call of the service, with what Claude would say at its time.
pub record Call : Type 0 where
  pub api : Prompt → ℕ → Option Text
  pub objective : String
  pub hints : Option (List String)
  pub inputs : Inputs

module _ (b : Backend) (cfg : Settings) where
  abbrev pub answers : Call → Cache → Result ClaudeError OfferBrief × Cache
  answers c cache =
      generate_from_objective (record b { api = c.api }) cfg c.objective c.hints c.inputs cache

  -- The cache after the calls, one after the other.
  abbrev pub after_calls : List Call → Cache → Cache
  after_calls [] cache = cache
  after_calls (c ∷ calls) cache = after_calls calls (answers c cache).1

  abbrev pub key_of : Call → String
  key_of c = cache_key b.sha256 c.objective

  module _ (key : String) (o : OfferBrief) (until : ℕ) where
    abbrev Held : Cache → Type 0
    Held cache = lookup key cache ≡ some (o, until)

    -- The entry is there afterwards, and the cache has grown by one entry at most.
    abbrev Keeps : Cache → Cache → Type 0
    Keeps cache cache' = Held cache' × (length cache' ≤ suc (length cache))

    read-Keeps :
        (j : String) (now : ℕ) (found : Option (OfferBrief × ℕ)) (cache : Cache)
        → (j == key) ≡ false
        → Held cache
        → Held (answer j now found cache).1 × (length (answer j now found cache).1 ≤ length cache)
    read-Keeps j now none cache other held = (held, omega arith)
    read-Keeps j now (some (p, t)) cache other held = elim (Bool-cases (ltb t now)) [
      | inr fresh ↦ rw fresh (held, omega arith)
      | inl over ↦ rw over (rw (lookup-erase, other) held, length-erase-le j cache)
    ]

    generated-Keeps :
        (c : Call) (r : Result ClaudeError OfferBrief) (cache : Cache)
        → (key_of c == key) ≡ false
        → Held cache
        → length cache < cache_max_size
        → Keeps cache (generated (record b { api = c.api }) cfg c.objective c.inputs r cache).1
    generated-Keeps c (err e) cache other held room = (held, omega arith)
    generated-Keeps c (ok p) cache other held room =
        unfold store_in_cache in
        let not_full : leb cache_max_size (length cache) ≡ false = ground arith in
        rw not_full (rw (lookup-insert, other) held, length-insert-le (key_of c) _ cache)

    from_cache-Keeps :
        (c : Call) (cached : Option OfferBrief) (cache : Cache)
        → (key_of c == key) ≡ false
        → Held cache
        → length cache < cache_max_size
        → Keeps cache
            (from_cache (record b { api = c.api }) cfg c.objective c.hints c.inputs cached cache).1
    from_cache-Keeps c (some p) cache other held room = (held, omega arith)
    from_cache-Keeps c none cache other held room =
        generated-Keeps c
          (ask (record b { api = c.api }) (marketer c.objective (hints c.hints)) marketer_initiated)
          cache other held room

    hit :
        (c : Call) (cache : Cache)
        → key_of c ≡ key
        → c.inputs.cache_now ≤ until
        → Held cache
        → answers c cache ≡ (ok (with_id c.inputs.uuid o), cache)
    unfolding generate_from_objective get_from_cache
    hit c cache same fresh held =
        let in_time : ltb until c.inputs.cache_now ≡ false = ground arith in
        rw (same, held, in_time) refl

    answers-Keeps :
        (c : Call) (cache : Cache)
        → (key_of c ≡ key → c.inputs.cache_now ≤ until)
        → Held cache
        → length cache < cache_max_size
        → Keeps cache (answers c cache).1
    answers-Keeps c cache fresh held room = elim (Bool-cases (key_of c == key)) [
      | inl named ↦
          let same = (eq_iff (key_of c) key).0 named in
          rw (hit c cache same (fresh same) held) (held, omega arith)
      | inr other ↦
          unfold generate_from_objective get_from_cache in
          let now = c.inputs.cache_now in
          let found = lookup (key_of c) cache in
          let (cached, cache') = answer (key_of c) now found cache in
          let (held', shorter) = read-Keeps (key_of c) now found cache other held in
          let (held'', grown) =
            from_cache-Keeps c cached cache' other held' (omega (arith, shorter)) in
          (held'', omega (arith, shorter, grown))
    ]

    after_calls-Held :
        (calls : List Call) (cache : Cache)
        → All (λ c. key_of c ≡ key → c.inputs.cache_now ≤ until) calls
        → Held cache
        → length cache + length calls ≤ cache_max_size
        → Held (after_calls calls cache)
    after_calls-Held [] cache fresh held room = held
    after_calls-Held (c ∷ calls) cache fresh held room =
        let (held', grown) = answers-Keeps c cache fresh.0 held (omega (arith, room)) in
        after_calls-Held calls (answers c cache).1 fresh.1 held' (omega (arith, room, grown))

  abbrev pub expiry : Call → ℕ
  expiry c = c.inputs.store_now + cfg.cache_ttl_seconds * second

  generated-Held :
      (c : Call) (r : Result ClaudeError OfferBrief) (cache : Cache) {o : OfferBrief}
      → let (answer', cache') =
          generated (record b { api = c.api }) cfg c.objective c.inputs r cache in
        answer' ≡ ok o → Held (key_of c) o (expiry c) cache'
  generated-Held c (err e) cache h = absurd (ground arith)
  generated-Held c (ok p) cache {o} h =
      unfold store_in_cache in
      let e : with_id c.inputs.uuid p ≡ o = ground arith in
      rw (lookup-insert, eq_refl) (ap (λ (q : OfferBrief). some (q, expiry c)) e)

  -- A call that found nothing and was answered leaves the answer in the cache.
  answers-Held :
      (c : Call) (cache : Cache) {o : OfferBrief}
      → (get_from_cache b.sha256 c.objective c.inputs.cache_now cache).0 ≡ none
      → (answers c cache).0 ≡ ok o
      → Held (key_of c) o (expiry c) (answers c cache).1
  unfolding generate_from_objective
  answers-Held c cache {o} miss h =
      let b' : Backend = record b { api = c.api } in
      let cache' = (get_from_cache b.sha256 c.objective c.inputs.cache_now cache).1 in
      let r = ask b' (marketer c.objective (hints c.hints)) marketer_initiated in
      let run = λ (found : Option OfferBrief).
        from_cache b' cfg c.objective c.hints c.inputs found cache' in
      let step : run (get_from_cache b.sha256 c.objective c.inputs.cache_now cache).0
          ≡ generated b' cfg c.objective c.inputs r cache' =
        ap run miss in
      rw step (generated-Held c r cache' (ap (λ a. a.0) (sym step) ∙ h))

  -- An objective that Claude has answered, and any with the same key, is answered again with the same offer
  -- under the new id of the call until the time of the cache is over, whatever the segment hints and whatever
  -- Claude would say now, and whatever calls come in between. The calls in between are at most as many as the
  -- cache has places left after the first one, and those of the same key come before its time is over.
  pub cached_answer :
      (first : Call) (between : List Call) (again : Call) (cache : Cache) {o : OfferBrief}
      → (get_from_cache b.sha256 first.objective first.inputs.cache_now cache).0 ≡ none
      → (answers first cache).0 ≡ ok o
      → length (answers first cache).1 + length between ≤ cache_max_size
      → All (λ c. key_of c ≡ key_of first → c.inputs.cache_now ≤ expiry first) between
      → key_of again ≡ key_of first
      → again.inputs.cache_now ≤ expiry first
      → (answers again (after_calls between (answers first cache).1)).0
        ≡ ok (with_id again.inputs.uuid o)
  cached_answer first between again cache {o} miss h room early same fresh =
      let key = key_of first in
      let held =
        after_calls-Held key o (expiry first) between (answers first cache).1 early
          (answers-Held first cache miss h) room in
      ap (λ a. a.0) (hit key o (expiry first) again _ same fresh held)
