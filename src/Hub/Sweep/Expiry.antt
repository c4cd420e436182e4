-- ===== src/Hub/Sweep/Expiry.antt =====
-- The sweep: its effect on each entry of the store.
use mathlib.Core.Path.{subst}
use tristar.Base.{
  ℕ, String, true, Option, none, some, List, [], ◌∷◌, ◌≡◌, ◌⊎◌, inl, inr, sym, ◌∙◌, ap, All,
  All-map, arith, eq_iff, Bool-cases, ◌==◌,
}
use tristar.Clock.{DateTime}
use tristar.Outcome.{Result, ok, err}
use tristar.Models.Offer.{OfferBrief, active, expired, with_status}
use tristar.Hub.Store.{
  HubStore, HubStoreLaws, StoreError, redis_unavailable, already_exists, naive_and_aware, View,
  Written, IsStorable, UpdateSpec, ListSpec,
}
use tristar.Hub.Routes.Lifecycle.{with_status-IsStorable}
use tristar.Hub.Sweep.{is_due, count, expire_each, swept, sweep}

-- An entry is as it was, or it was active and due and is expired now, and otherwise the same.
abbrev pub Expires : DateTime → Option OfferBrief → Option OfferBrief → Type 0
Expires now a b =
    (b ≡ a)
    ⊎ ((o : OfferBrief) × (a ≡ some o)
        × (o.status ≡ active)
        × (is_due now o.valid_until ≡ true)
        × (b ≡ some (with_status expired o)))

module _ (h : HubStore) (l : HubStoreLaws h) (now : DateTime) where
  open h use {State}

  -- What holds of the state after some rounds of the loop, against the view before the first.
  record SoFar (v : View) (s : State) : Type 0 where
    good : l.IsGood s
    each : (id : String) → Expires now (v id) (l.view s id)

  -- An offer as the listing found it.
  abbrev Found : View → OfferBrief → Type 0
  Found v o = (v o.offer_id ≡ some o) × (o.status ≡ active) × IsStorable o

  write_one :
      (v w w' : View) (o : OfferBrief)
      → Found v o
      → is_due now o.valid_until ≡ true
      → ((id : String) → Expires now (v id) (w id))
      → Written (with_status expired o) w w'
      → (id : String) → Expires now (v id) (w' id)
  write_one v w w' o f due each wr id = elim (Bool-cases (o.offer_id == id)) [
    | inl same ↦
        let e : o.offer_id ≡ id = (eq_iff o.offer_id id).0 same in
        inr (o, ap v (sym e) ∙ f.0, f.1, due, wr id ∙ ground (arith, same))
    | inr other ↦ subst (λ b. Expires now (v id) b) (sym (wr id ∙ ground (arith, other))) (each id)
  ]

  update_one :
      (v w w' : View) (o : OfferBrief) (r : Result StoreError (Unit {0}))
      → Found v o
      → is_due now o.valid_until ≡ true
      → ((id : String) → Expires now (v id) (w id))
      → UpdateSpec w w' (with_status expired o) r
      → (id : String) → Expires now (v id) (w' id)
  update_one v w w' o (ok _) f due each sp = write_one v w w' o f due each sp
  update_one v w w' o (err redis_unavailable) f due each sp = elim sp [
    | inl same ↦ λ id. subst (λ b. Expires now (v id) b) (sym (same id)) (each id)
    | inr wr ↦ write_one v w w' o f due each wr
  ]
  update_one v w w' o (err already_exists) f due each sp = absurd sp
  update_one v w w' o (err naive_and_aware) f due each sp = absurd sp

  expire_each-SoFar :
      (v : View) (offers : List OfferBrief) (n : ℕ) (s : State)
      → All (Found v) offers
      → SoFar v s
      → SoFar v (expire_each h now offers n s).1
  unfolding expire_each
  expire_each-SoFar v [] n s f k = k
  expire_each-SoFar v (o ∷ offers) n s f k = elim (Bool-cases (is_due now o.valid_until)) [
    | inr early ↦ rw early (expire_each-SoFar v offers n s f.1 k)
    | inl due ↦
        let st = with_status-IsStorable expired o f.0.2 in
        let (r, s') = h.update (with_status expired o) s in
        rw due (
          expire_each-SoFar v offers (count r n) s' f.1 (record {
            good = l.update-IsGood (with_status expired o) s st k.good;
            each =
                update_one v (l.view s) (l.view s') o r f.0 due k.each
                  (l.update_lem (with_status expired o) s st k.good);
          }))
  ]

  swept-SoFar :
      (s s' : State) (r : Result StoreError (List OfferBrief))
      → l.IsGood s
      → l.IsGood s'
      → ListSpec (l.view s) (l.view s') (some active) r
      → SoFar (l.view s) (swept h now r s').1
  unfolding sweep
  swept-SoFar s s' (err e) g g' sp = record { good = g'; each = λ id. inl (sp id) }
  swept-SoFar s s' (ok offers) g g' sp =
      expire_each-SoFar (l.view s) offers 0 s'
        (All-map _ _ (λ o p. (p.0, p.1, l.view-IsStorable o.offer_id s g p.0)) offers sp.1)
        (record { good = g'; each = λ id. inl (sp.0 id) })

  -- A sweep of a good store, whatever fails in it, leaves a good store in which each entry is as it
  -- was, or was active and past its time and is now expired.
  pub sweep-Expires :
      (s : State)
      → l.IsGood s
      → l.IsGood (sweep h now s).1
        × ((id : String) → Expires now (l.view s id) (l.view (sweep h now s).1 id))
  unfolding sweep
  sweep-Expires s g =
      let (r, s') = h.list (some active) none none s in
      let k =
        swept-SoFar s s' r g (l.list-IsGood (some active) none none s g)
          (l.list_lem (some active) none none s g) in
      (k.good, k.each)
