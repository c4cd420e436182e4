-- ===== src/Hub/Sweep/Complete.antt =====
-- The sweep over `InMemoryHubStore`: the active offers that are left after it.
use tristar.Base.{
  ℕ, String, Bool, true, false, some, List, [], ◌∷◌, ◌≡◌, ◌⊎◌, inl, inr, refl, sym, ◌∙◌, ap, arith,
  eq_iff, Bool-cases, ◌==◌, keep, ◌+◌,
}
use tristar.Base.Dict.{lookup, insert, values, lookup-insert}
use tristar.Clock.{DateTime}
use tristar.Models.Offer.{OfferBrief, active, expired, with_status, is_status, is_status_iff}
use tristar.Hub.Store.{apply_filters}
use tristar.Hub.Store.Memory.{Store, list, update, memory_store}
use tristar.Hub.Store.Memory.Contract.{IsGood, memory_laws}
use tristar.Hub.Sweep.{is_due, expire_each, sweep}
use tristar.Hub.Sweep.Expiry.{sweep-Expires}

abbrev Has : OfferBrief → List OfferBrief → Type 0
Has o [] = ⊥
Has o (p ∷ offers) = (o ≡ p) ⊎ Has o offers

Has-values : (id : String) (o : OfferBrief) (s : Store) → lookup id s ≡ some o → Has o (values s)
unfolding lookup
Has-values id o [] h = absurd (ground arith)
Has-values id o ((k, p) ∷ s) h = elim (Bool-cases (k == id)) [
  | inl same ↦ inl (sym (ground (arith, same)))
  | inr other ↦ inr (Has-values id o s (ground (arith, other)))
]

Has-keep :
    (p : OfferBrief → Bool) (o : OfferBrief) (offers : List OfferBrief)
    → p o ≡ true
    → Has o offers
    → Has o (keep p offers)
Has-keep p o [] h i = absurd i
Has-keep p o (q ∷ offers) h i = elim i [
  | inl e ↦ rw (ap p (sym e) ∙ h) (inl e)
  | inr later ↦ elim (Bool-cases (p q)) [
    | inl kept ↦ rw kept (inr (Has-keep p o offers h later))
    | inr dropped ↦ rw dropped (Has-keep p o offers h later)
  ]
]

-- The entry under the id is an expired offer.
abbrev ExpiredAt : String → Store → Type 0
ExpiredAt id s = (p : OfferBrief) × (lookup id s ≡ some p) × (p.status ≡ expired)

ExpiredAt-insert :
    (id : String) (o : OfferBrief) (s : Store)
    → ExpiredAt id s
    → ExpiredAt id (insert o.offer_id (with_status expired o) s)
ExpiredAt-insert id o s (p, found, e) = elim (Bool-cases (o.offer_id == id)) [
  | inl same ↦ (with_status expired o, rw (lookup-insert, same) refl, refl)
  | inr other ↦ (p, rw (lookup-insert, other) found, e)
]

module _ (now : DateTime) where
  stays_expired :
      (id : String) (offers : List OfferBrief) (n : ℕ) (s : Store)
      → ExpiredAt id s
      → ExpiredAt id (expire_each memory_store now offers n s).1
  unfolding expire_each update
  stays_expired id [] n s h = h
  stays_expired id (o ∷ offers) n s h = elim (Bool-cases (is_due now o.valid_until)) [
    | inr early ↦ rw early (stays_expired id offers n s h)
    | inl due ↦ rw due (
        stays_expired id offers (n + 1) (insert o.offer_id (with_status expired o) s)
          (ExpiredAt-insert id o s h))
  ]

  expires_each :
      (p : OfferBrief) (offers : List OfferBrief) (n : ℕ) (s : Store)
      → Has p offers
      → is_due now p.valid_until ≡ true
      → ExpiredAt p.offer_id (expire_each memory_store now offers n s).1
  unfolding expire_each update
  expires_each p [] n s i due = absurd i
  expires_each p (o ∷ offers) n s i due = elim i [
    | inl e ↦ rw (ap (λ (q : OfferBrief). is_due now q.valid_until) (sym e) ∙ due) (
        stays_expired p.offer_id offers (n + 1) (insert o.offer_id (with_status expired o) s) (
          with_status expired o,
          lookup-insert o.offer_id p.offer_id (with_status expired o) s
              ∙ ground (
                arith,
                (eq_iff o.offer_id p.offer_id).1 (ap (λ (q : OfferBrief). q.offer_id) (sym e)),
              ),
          refl,
        ))
    | inr later ↦ elim (Bool-cases (is_due now o.valid_until)) [
      | inr early ↦ rw early (expires_each p offers n s later due)
      | inl first ↦
          rw first
            (expires_each p offers (n + 1) (insert o.offer_id (with_status expired o) s) later due)
    ]
  ]

  sweep-listed :
      (s : Store)
      → sweep memory_store now s
        ≡ expire_each memory_store now
            (keep (λ (o : OfferBrief). is_status o.status active) (values s))
            0
            s
  unfolding sweep list apply_filters
  sweep-listed s = refl

  expired_of_due :
      (id : String) (o : OfferBrief) (s : Store)
      → o.offer_id ≡ id
      → lookup id s ≡ some o
      → o.status ≡ active
      → is_due now o.valid_until ≡ true
      → ExpiredAt id (sweep memory_store now s).1
  expired_of_due id o s named found act due =
      rw (sweep-listed, ← named)
        (expires_each o (keep (λ (p : OfferBrief). is_status p.status active) (values s)) 0 s
          (Has-keep _ o (values s) ((is_status_iff o.status active).1 act)
            (Has-values id o s found))
          due)

-- After a sweep of a good store in memory, an offer that is active is not past its time.
pub sweep_complete :
    (now : DateTime) (id : String) (o : OfferBrief) (s : Store)
    → IsGood s
    → lookup id (sweep memory_store now s).1 ≡ some o
    → o.status ≡ active
    → is_due now o.valid_until ≡ false
unfolding memory_laws
sweep_complete now id o s g after act = elim (Bool-cases (is_due now o.valid_until)) [
  | inr early ↦ early
  | inl due ↦
      let (good, each) = sweep-Expires memory_store memory_laws now s g in
      elim (each id) [
        | inl same ↦
            let (p, found, e) =
              expired_of_due now id o s (memory_laws.view-id id s g (sym same ∙ after))
                (sym same ∙ after) act due in
            ground arith
        | inr (p, before, was, d, found) ↦ ground arith
      ]
]
