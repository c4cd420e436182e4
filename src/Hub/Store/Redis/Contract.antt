-- ===== src/Hub/Store/Redis/Contract.antt =====
-- `RedisHubStore` (src/backend/services/hub_store.py) as an instance of the store's contract, over a
-- server that does what is documented.
use Prim.Native.String.append
use mathlib.Core.Path.{subst}
use tristar.Base.{
  ℕ, zero, suc, String, Bool, true, false, Option, none, some, List, [], ◌∷◌, ◌≡◌, ◌⊎◌, inl, inr,
  refl, sym, ap, ◌∙◌, All, All-map, map, is_some, ◌==◌, eq_iff, eq_refl, Bool-cases, arith,
}
use tristar.Clock.{DateTime, TypeError}
use tristar.Outcome.{Result, ok, err, map_err}
use tristar.Models.Offer.{OfferBrief, OfferStatus, TriggerType, is_status_iff}
use tristar.Hub.Store.{
  StoreError, redis_unavailable, apply_filters, HubStoreLaws, View, Same, Written, IsStorable,
  GetSpec, SaveSpec, UpdateSpec, ListSpec,
}
use tristar.Hub.Store.Filters.{apply_filters-All, status_matches}
use tristar.Hub.Store.Redis.{
  Redis, RedisLaws, RedisError, key, unavailable, add_valid, any_error, found, get, inserted, save,
  update, parse_values, filtered, scanned, list, redis_store, Keys, SameKeys, Put, GetKey, SetKey,
  SetNxKey, ScanKeys, MgetKeys,
}

abbrev pub drop : ℕ → String → String
drop zero s = s
drop (suc n) String.[] = String.[]
drop (suc n) (String.◌∷◌ c s) = drop n s

drop-key : (id : String) → drop 6 (key id) ≡ id
drop-key id =
    rw (append.cons, append.cons, append.cons, append.cons, append.cons, append.cons, append.nil)
      refl

key_inj : (a b : String) → key a ≡ key b → a ≡ b
key_inj a b e = sym (drop-key a) ∙ ap (drop 6) e ∙ drop-key b

-- Keys are as different as the ids.
key_eq : (a b : String) → (key a == key b) ≡ (a == b)
key_eq a b = elim (Bool-cases (a == b)) [
  | inl same ↦ rw (same, (eq_iff a b).0 same, eq_refl) refl
  | inr other ↦ elim (Bool-cases (key a == key b)) [
    | inl k ↦
        let back = (eq_iff a b).1 (key_inj a b ((eq_iff (key a) (key b)).0 k)) in
        absurd (ground (arith, other, back))
    | inr k ↦ rw (k, other) refl
  ]
]

module _ (r : Redis) (l : RedisLaws r) where
  open r use {State, Raw}

  abbrev loaded : Option Raw → Option OfferBrief
  loaded none = none
  loaded (some raw) = r.model_validate_json raw

  abbrev pub view : State → View
  view s id = loaded (l.keys s (key id))

  -- A value under the key of an id is the JSON of an offer with that id.
  abbrev pub Entry : String → Option Raw → Type 0
  Entry id none = Unit {0}
  Entry id (some raw) = (o : OfferBrief) × (r.model_validate_json raw ≡ some o) × (o.offer_id ≡ id)

  abbrev pub IsGood : State → Type 0
  IsGood s = (id : String) → Entry id (l.keys s (key id))

  view-Same : (s s' : State) → SameKeys (l.keys s) (l.keys s') → Same (view s) (view s')
  view-Same s s' h id = ap loaded (h (key id))

  pub kept-IsGood : (s s' : State) → SameKeys (l.keys s) (l.keys s') → IsGood s → IsGood s'
  kept-IsGood s s' h g id = subst (Entry id) (sym (h (key id))) (g id)

  view-Written :
      (o : OfferBrief) (s s' : State)
      → IsStorable o
      → Put (key o.offer_id) (r.model_dump_json o) (l.keys s) (l.keys s')
      → Written o (view s) (view s')
  view-Written o s s' st h id =
      ap loaded (h (key id))
      ∙ rw (key_eq o.offer_id id) (elim (Bool-cases (o.offer_id == id)) [
        | inl same ↦ rw same (l.dump_validate o st)
        | inr other ↦ rw other refl
      ])

  written-IsGood :
      (o : OfferBrief) (s s' : State)
      → IsStorable o
      → Put (key o.offer_id) (r.model_dump_json o) (l.keys s) (l.keys s')
      → IsGood s
      → IsGood s'
  written-IsGood o s s' st h g id = subst (Entry id) (sym (h (key id))) (
      rw (key_eq o.offer_id id) (elim (Bool-cases (o.offer_id == id)) [
        | inl same ↦ rw same (o, l.dump_validate o st, (eq_iff o.offer_id id).0 same)
        | inr other ↦ rw other (g id)
      ]))

  got_entry :
      (id : String) (v v' : View) (e : Option Raw)
      → loaded e ≡ v id
      → Entry id e
      → Same v v'
      → GetSpec v v' id (found r (ok e))
  got_entry id v v' none here entry same = (here, same)
  got_entry id v v' (some raw) here (o, valid, named) same = rw valid (sym valid ∙ here, same)

  got :
      (id : String) (v v' : View) (e : Option Raw) (a : Result RedisError (Option Raw))
      → loaded e ≡ v id
      → Entry id e
      → (a ≡ ok e) ⊎ (found r a ≡ err redis_unavailable)
      → Same v v'
      → GetSpec v v' id (found r a)
  got id v v' e a here entry (inr failed) same = rw failed same
  got id v v' e a here entry (inl is) same = rw is (got_entry id v v' e here entry same)

  pub get_case :
      (k : String) (kv kv' : Keys Raw) (a : Result RedisError (Option Raw))
      → GetKey kv kv' k a
      → ((a ≡ ok (kv k)) ⊎ (found r a ≡ err redis_unavailable)) × SameKeys kv kv'
  get_case k kv kv' (ok e) (is, same) = (inl (ap ok is), same)
  get_case k kv kv' (err _) same = (inr refl, same)

  pub get_lem :
      (id : String) (s : State)
      → IsGood s
      → GetSpec (view s) (view (get r id s).1) id (get r id s).0
  unfolding get
  get_lem id s g =
      let (a, s') = r.get (key id) s in
      let (c, same) = get_case (key id) (l.keys s) (l.keys s') a (l.get_lem (key id) s) in
      got id (view s) (view s') (l.keys s (key id)) a refl (g id) c (view-Same s s' same)

  present :
      (id : String) (e : Option Raw) → Entry id e → is_some e ≡ true → is_some (loaded e) ≡ true
  present id none entry h = h
  present id (some raw) (o, valid, _) h = rw valid refl

  pub save_case :
      (o : OfferBrief) (s s' : State) (a : Result RedisError Bool)
      → IsStorable o
      → IsGood s
      → SetNxKey (l.keys s) (l.keys s') (key o.offer_id) (r.model_dump_json o) a
      → SaveSpec (view s) (view s') o (inserted r a) × IsGood s'
  save_case o s s' (ok true) st g (fresh, put) =
      ((ap loaded fresh, view-Written o s s' st put), written-IsGood o s s' st put g)
  save_case o s s' (ok false) st g (there, same) = (
    (present o.offer_id (l.keys s (key o.offer_id)) (g o.offer_id) there, view-Same s s' same),
    kept-IsGood s s' same g,
  )
  save_case o s s' (err _) st g (inl same) = (inl (view-Same s s' same), kept-IsGood s s' same g)
  save_case o s s' (err _) st g (inr (fresh, put)) =
      (inr (ap loaded fresh, view-Written o s s' st put), written-IsGood o s s' st put g)

  pub update_case :
      (o : OfferBrief) (s s' : State) (a : Result RedisError (Unit {0}))
      → IsStorable o
      → IsGood s
      → SetKey (l.keys s) (l.keys s') (key o.offer_id) (r.model_dump_json o) a
      → UpdateSpec (view s) (view s') o (unavailable a) × IsGood s'
  update_case o s s' (ok _) st g put = (view-Written o s s' st put, written-IsGood o s s' st put g)
  update_case o s s' (err _) st g (inl same) = (inl (view-Same s s' same), kept-IsGood s s' same g)
  update_case o s s' (err _) st g (inr put) =
      (inr (view-Written o s s' st put), written-IsGood o s s' st put g)

  abbrev add_value : Option Raw → List OfferBrief → List OfferBrief
  add_value none offers = offers
  add_value (some raw) offers = add_valid r (r.model_validate_json raw) offers

  parse_step :
      (e : Option Raw) (raws : List (Option Raw))
      → parse_values r (e ∷ raws) ≡ add_value e (parse_values r raws)
  unfolding parse_values
  parse_step none raws = refl
  parse_step (some raw) raws = refl

  parsed_value :
      (s : State) (id : String) (e : Option Raw) (rest : List OfferBrief)
      → l.keys s (key id) ≡ e
      → Entry id e
      → All (λ o. view s o.offer_id ≡ some o) rest
      → All (λ o. view s o.offer_id ≡ some o) (add_value e rest)
  parsed_value s id none rest at entry h = h
  parsed_value s id (some raw) rest at (o, valid, named) h =
      rw valid (ap (view s) named ∙ ap loaded at ∙ valid, h)

  parse_values-All :
      (s : State) (ks : List String)
      → IsGood s
      → All (λ k. (id : String) × (k ≡ key id)) ks
      → All (λ o. view s o.offer_id ≡ some o) (parse_values r (map (l.keys s) ks))
  parse_values-All s [] g h = unfold parse_values in tt
  parse_values-All s (k ∷ ks) g ((id, e), h) = rw (parse_step (l.keys s k) (map (l.keys s) ks)) (
      parsed_value s id (l.keys s k) (parse_values r (map (l.keys s) ks)) (ap (l.keys s) (sym e))
        (subst (λ j. Entry id (l.keys s j)) (sym e) (g id)) (parse_values-All s ks g h))

  listed :
      (st : Option OfferStatus) (v v' : View) (a : Result TypeError (List OfferBrief))
      → Same v v'
      → ((offers : List OfferBrief)
          → a ≡ ok offers
          → All (λ o. (v o.offer_id ≡ some o) × (status_matches st o ≡ true)) offers)
      → ListSpec v v' st (map_err (any_error r) a)
  listed none v v' (ok offers) same h = (same, All-map _ _ (λ o p. p.0) offers (h offers refl))
  listed (some s) v v' (ok offers) same h =
      (same, All-map _ _ (λ o p. (p.0, (is_status_iff o.status s).0 p.1)) offers (h offers refl))
  listed none v v' (err e) same h = same
  listed (some s) v v' (err e) same h = same

  failed-ListSpec :
      (st : Option OfferStatus) (v v' : View) → Same v v' → ListSpec v v' st (err redis_unavailable)
  failed-ListSpec none v v' same = same
  failed-ListSpec (some s) v v' same = same

  empty-ListSpec : (st : Option OfferStatus) (v v' : View) → Same v v' → ListSpec v v' st (ok [])
  empty-ListSpec none v v' same = (same, tt)
  empty-ListSpec (some s) v v' same = (same, tt)

  mget_case :
      (st : Option OfferStatus) (t : Option TriggerType) (since : Option DateTime)
      (ks : List String) (s s' : State) (a : Result RedisError (List (Option Raw)))
      → IsGood s
      → All (λ k. (id : String) × (k ≡ key id)) ks
      → MgetKeys (l.keys s) (l.keys s') ks a
      → ListSpec (view s) (view s') st (filtered r st t since a) × IsGood s'
  mget_case st t since ks s s' (err _) g h same =
      (failed-ListSpec st (view s) (view s') (view-Same s s' same), kept-IsGood s s' same g)
  mget_case st t since ks s s' (ok raws) g h (are, same) = (
    listed st (view s) (view s') (apply_filters (parse_values r raws) st t since)
        (view-Same s s' same)
        (λ offers e.
          apply_filters-All (λ o. view s o.offer_id ≡ some o) (parse_values r raws) st t since
            (rw are (parse_values-All s ks g h)) e),
    kept-IsGood s s' same g,
  )

  after_scan :
      (st : Option OfferStatus) (v v' v'' : View) (a : Result StoreError (List OfferBrief))
      → Same v v'
      → ListSpec v' v'' st a
      → ListSpec v v'' st a
  after_scan none v v' v'' (ok offers) same (same', h) =
      (λ id. same' id ∙ same id, All-map _ _ (λ o p. sym (same o.offer_id) ∙ p) offers h)
  after_scan (some s) v v' v'' (ok offers) same (same', h) =
      (λ id. same' id ∙ same id, All-map _ _ (λ o p. (sym (same o.offer_id) ∙ p.0, p.1)) offers h)
  after_scan none v v' v'' (err e) same same' = λ id. same' id ∙ same id
  after_scan (some s) v v' v'' (err e) same same' = λ id. same' id ∙ same id

  pub scan_case :
      (st : Option OfferStatus) (t : Option TriggerType) (since : Option DateTime) (s s' : State)
      (a : Result RedisError (List String))
      → IsGood s
      → ScanKeys (l.keys s) (l.keys s') a
      → ListSpec (view s) (view (scanned r st t since a s').1) st (scanned r st t since a s').0
        × IsGood (scanned r st t since a s').1
  scan_case st t since s s' (err _) g same =
      (failed-ListSpec st (view s) (view s') (view-Same s s' same), kept-IsGood s s' same g)
  scan_case st t since s s' (ok []) g (_, same) =
      (empty-ListSpec st (view s) (view s') (view-Same s s' same), kept-IsGood s s' same g)
  scan_case st t since s s' (ok (k ∷ ks)) g (named, same) =
      let (a, s'') = r.mget (k ∷ ks) s' in
      let (sp, g'') =
        mget_case st t since (k ∷ ks) s' s'' a (kept-IsGood s s' same g) named
          (l.mget_lem (k ∷ ks) s') in
      (
        after_scan st (view s) (view s') (view s'') (filtered r st t since a) (view-Same s s' same)
            sp,
        g'',
      )

  -- Over any server that does what Redis documents, and in any state in which each offer stands under
  -- the key of its id, each operation of the store in Redis does what the contract says: a read finds the
  -- offer or fails, a save writes a new offer, refuses one that is there, or fails, an update writes or
  -- fails, a listing shows offers of the store, of the status that was asked for, or fails, nothing else
  -- changes, and the offers stay under their keys. A write that fails may have been carried out.
  pub redis_contract :
      (o : OfferBrief) (id : String) (status : Option OfferStatus) (trigger : Option TriggerType)
      (since : Option DateTime) (s : State)
      → IsStorable o
      → IsGood s
      → GetSpec (view s) (view (get r id s).1) id (get r id s).0
        × SaveSpec (view s) (view (save r o s).1) o (save r o s).0
        × UpdateSpec (view s) (view (update r o s).1) o (update r o s).0
        × ListSpec
            (view s)
            (view (list r status trigger since s).1)
            status
            (list r status trigger since s).0
        × IsGood (get r id s).1
        × IsGood (save r o s).1
        × IsGood (update r o s).1
        × IsGood (list r status trigger since s).1
  unfolding get save update list
  redis_contract o id status trigger since s st g =
      let k = key o.offer_id in
      let raw = r.model_dump_json o in
      let saved =
        save_case o s (r.set_nx k raw s).1 (r.set_nx k raw s).0 st g (l.set_nx_lem k raw s) in
      let written = update_case o s (r.set k raw s).1 (r.set k raw s).0 st g (l.set_lem k raw s) in
      let (keys, s') = r.scan_iter s in
      let listing = scan_case status trigger since s s' keys g (l.scan_iter_lem s) in
      let (_, same) =
        get_case (key id) (l.keys s) (l.keys (r.get (key id) s).1) (r.get (key id) s).0
          (l.get_lem (key id) s) in
      (
        get_lem id s g,
        saved.0,
        written.0,
        listing.0,
        kept-IsGood s (r.get (key id) s).1 same g,
        saved.1,
        written.1,
        listing.1,
      )

  pub view-entry :
      (id : String) (e : Option Raw) {o : OfferBrief}
      → Entry id e
      → loaded e ≡ some o
      → IsStorable o × (o.offer_id ≡ id)
  view-entry id none entry h = absurd (ground arith)
  view-entry id (some raw) {o} (p, valid, named) h =
      let same : p ≡ o = ground arith in
      (l.validate-IsStorable raw h, ap (λ (x : OfferBrief). x.offer_id) (sym same) ∙ named)

  -- The store in Redis as an implementation of the protocol.
  unfoldable pub redis_laws : HubStoreLaws (redis_store r)
  unfolding get save update list
  redis_laws = record {
    view = view;
    IsGood = IsGood;
    get-IsGood = λ id s g.
        kept-IsGood s (r.get (key id) s).1
          (get_case (key id) (l.keys s) (l.keys (r.get (key id) s).1) (r.get (key id) s).0
            (l.get_lem (key id) s)).1
          g;
    get_lem = get_lem;
    save-IsGood = λ o s st g.
        (save_case o s _ _ st g (l.set_nx_lem (key o.offer_id) (r.model_dump_json o) s)).1;
    save_lem = λ o s st g.
        (save_case o s _ _ st g (l.set_nx_lem (key o.offer_id) (r.model_dump_json o) s)).0;
    update-IsGood = λ o s st g.
        (update_case o s _ _ st g (l.set_lem (key o.offer_id) (r.model_dump_json o) s)).1;
    update_lem = λ o s st g.
        (update_case o s _ _ st g (l.set_lem (key o.offer_id) (r.model_dump_json o) s)).0;
    list-IsGood = λ st t since s g.
        (scan_case st t since s (r.scan_iter s).1 (r.scan_iter s).0 g (l.scan_iter_lem s)).1;
    list_lem = λ st t since s g.
        (scan_case st t since s (r.scan_iter s).1 (r.scan_iter s).0 g (l.scan_iter_lem s)).0;
    view-IsStorable = λ id s g h. (view-entry id (l.keys s (key id)) (g id) h).0;
    view-id = λ id s g h. (view-entry id (l.keys s (key id)) (g id) h).1;
  }
