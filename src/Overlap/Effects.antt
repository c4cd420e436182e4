-- ===== src/Overlap/Effects.antt =====
-- One step of a task: what it does to the store, and what the task knows afterwards.
use mathlib.Core.Path.{subst}
use tristar.Base.{
  String, Option, none, some, ◌≡◌, ◌≢◌, inl, inr, refl, arith, sym, ◌∙◌, ap, ◌==◌, eq_iff,
  Bool-cases,
}
use tristar.Outcome.{Result, ok, err}
use tristar.Models.Offer.{OfferBrief, OfferStatus, approved, expired, with_status}
use tristar.Hub.Store.{
  StoreError, redis_unavailable, already_exists, naive_and_aware, View, Same, Written, SaveSpec,
  UpdateSpec,
}
use tristar.Hub.Change.{Allowed, Change, unchanged, moved, replaced}
use tristar.Overlap.Knowledge.{Listed, IsRead, IsDraft, Leaves}

pub Same-Leaves : (v v' : View) → Same v v' → (id : String) → Leaves (v id) (v' id)
Same-Leaves v v' same id = λ o e. inl (same id ∙ e)

Fresh-Leaves :
    (o : OfferBrief) (v v' : View)
    → v o.offer_id ≡ none
    → Written o v v'
    → (id : String) → Leaves (v id) (v' id)
Fresh-Leaves o v v' fresh w id p e = elim (Bool-cases (o.offer_id == id)) [
  | inl same ↦
      let named : o.offer_id ≡ id = (eq_iff o.offer_id id).0 same in
      let gone : v id ≡ none = ap v (sym named) ∙ fresh in absurd (ground arith)
  | inr other ↦ inl (w id ∙ ground (arith, other))
]

-- A save never changes an offer that is there.
pub saved-Leaves :
    (o : OfferBrief) (v v' : View) (r : Result StoreError (Unit {0}))
    → SaveSpec v v' o r
    → (id : String) → Leaves (v id) (v' id)
saved-Leaves o v v' (ok _) (fresh, w) = Fresh-Leaves o v v' fresh w
saved-Leaves o v v' (err already_exists) (_, same) = Same-Leaves v v' same
saved-Leaves o v v' (err redis_unavailable) sp = elim sp [
  | inl same ↦ Same-Leaves v v' same
  | inr (fresh, w) ↦ Fresh-Leaves o v v' fresh w
]
saved-Leaves o v v' (err naive_and_aware) sp = absurd sp

Written-others :
    (o : OfferBrief) (v v' : View) (id : String)
    → o.offer_id ≢ id
    → Written o v v'
    → Leaves (v id) (v' id)
Written-others o v v' id other w p e = elim (Bool-cases (o.offer_id == id)) [
  | inl same ↦ absurd (other ((eq_iff o.offer_id id).0 same))
  | inr differs ↦ inl (w id ∙ ground (arith, differs))
]

-- A write leaves the offers of other ids.
pub updated-others :
    (o : OfferBrief) (v v' : View) (r : Result StoreError (Unit {0})) (id : String)
    → o.offer_id ≢ id
    → UpdateSpec v v' o r
    → Leaves (v id) (v' id)
updated-others o v v' (ok _) id other sp = Written-others o v v' id other sp
updated-others o v v' (err redis_unavailable) id other sp = elim sp [
  | inl same ↦ Same-Leaves v v' same id
  | inr w ↦ Written-others o v v' id other w
]
updated-others o v v' (err already_exists) id other sp = absurd sp
updated-others o v v' (err naive_and_aware) id other sp = absurd sp

Expired-Leaves :
    (o : OfferBrief) (v v' : View)
    → Listed v o
    → Written (with_status expired o) v v'
    → (id : String) → Leaves (v id) (v' id)
Expired-Leaves o v v' (st, act, is) w id p e = elim (Bool-cases (o.offer_id == id)) [
  | inl same ↦
      let here : v o.offer_id ≡ v id = ap v ((eq_iff o.offer_id id).0 same) in
      let now : v' id ≡ some (with_status expired o) = w id ∙ ground (arith, same) in
      elim is [
        | inl there ↦
            let it : p ≡ o = ground arith in
            inr (
              ap (λ (x : OfferBrief). x.status) it ∙ act,
              now ∙ ap (λ (x : OfferBrief). some (with_status expired x)) (sym it),
            )
        | inr over ↦ inl (now ∙ ground arith)
      ]
  | inr differs ↦ inl (w id ∙ ground (arith, differs))
]

-- The write of a sweep is one that every task allows for.
pub expired-Leaves :
    (o : OfferBrief) (v v' : View) (r : Result StoreError (Unit {0}))
    → Listed v o
    → UpdateSpec v v' (with_status expired o) r
    → (id : String) → Leaves (v id) (v' id)
expired-Leaves o v v' (ok _) k sp = Expired-Leaves o v v' k sp
expired-Leaves o v v' (err redis_unavailable) k sp = elim sp [
  | inl same ↦ Same-Leaves v v' same
  | inr w ↦ Expired-Leaves o v v' k w
]
expired-Leaves o v v' (err already_exists) k sp = absurd sp
expired-Leaves o v v' (err naive_and_aware) k sp = absurd sp

pub expires :
    (o : OfferBrief) (v : View) → Listed v o → Change (v o.offer_id) (some (with_status expired o))
expires o v (st, act, inl there) =
    moved o expired there refl
      (subst (λ (s : OfferStatus). Allowed s expired) (sym act) Allowed.expire)
expires o v (st, act, inr over) = unchanged (sym over)

pub changes_status :
    (o : OfferBrief) (new : OfferStatus) (a : Option OfferBrief)
    → Allowed o.status new
    → IsRead a o new
    → Change a (some (with_status new o))
changes_status o new a allowed (inl there) = moved o new there refl allowed
changes_status o new a allowed (inr (act, over, e)) =
    unchanged (ap (λ (s : OfferStatus). some (with_status s o)) over ∙ sym e)

pub approves :
    (o : OfferBrief) (a : Option OfferBrief) → IsDraft a → Change a (some (with_status approved o))
approves o a (stored, e, old) = replaced stored (with_status approved o) e refl old refl
