-- ===== src/Hub/Change.antt =====
-- The life of an offer in the Hub: how each handler may change what is stored under an id.
use mathlib.Core.Path.{subst}
use tristar.Base.{
  String, false, Option, none, some, ◌≡◌, ◌↔◌, inl, inr, refl, arith, sym, ◌∙◌, ◌==◌, eq_iff,
  Bool-cases,
}
use tristar.Outcome.{Result, ok, err}
use tristar.Models.Offer.{
  OfferBrief, OfferStatus, draft, approved, active, expired, purchase_triggered, with_status,
}
use tristar.Hub.Store.{
  StoreError, redis_unavailable, already_exists, naive_and_aware, View, Same, Written, SaveSpec,
  UpdateSpec,
}
use tristar.Hub.Routes.{validate_transition, starts_wrong}

-- The diagram of `VALID_TRANSITIONS`.
pub data Allowed : OfferStatus → OfferStatus → Type 0 where
  approve : Allowed draft approved
  activate : Allowed approved active
  expire : Allowed active expired

-- How an entry of the store may change in one request.
pub data Change (a b : Option OfferBrief) : Type 0 where
  unchanged : b ≡ a → Change a b
  -- a new offer, which is active at once only if a purchase triggered it
  created :
      (o : OfferBrief)
      → a ≡ none
      → b ≡ some o
      → (o.status ≡ active → o.trigger_type ≡ purchase_triggered)
      → Change a b
  -- the status has moved along the diagram, and nothing else has changed
  moved :
      (o : OfferBrief) (new : OfferStatus)
      → a ≡ some o
      → b ≡ some (with_status new o)
      → Allowed o.status new
      → Change a b
  -- an approval, which also puts the approved text in place of the stored one
  replaced :
      (o p : OfferBrief)
      → a ≡ some o
      → b ≡ some p
      → o.status ≡ draft
      → p.status ≡ approved
      → Change a b

abbrev pub Changes : View → View → Type 0
Changes v v' = (id : String) → Change (v id) (v' id)

-- `_validate_transition` lets a change of status pass exactly if the diagram has it.
pub validate_transition-Allowed :
    (old new : OfferStatus) → (validate_transition old new ≡ ok tt) ↔ Allowed old new
unfolding validate_transition
validate_transition-Allowed old new = (fwd old new, bwd)
  where
    fwd : (old new : OfferStatus) → validate_transition old new ≡ ok tt → Allowed old new
    fwd draft approved h = approve
    fwd approved active h = activate
    fwd active expired h = expire
    fwd _ _ h = absurd (ground arith)

    bwd : {old new : OfferStatus} → Allowed old new → validate_transition old new ≡ ok tt
    bwd approve = refl
    bwd activate = refl
    bwd expire = refl

pub Same-Changes : (v v' : View) → Same v v' → Changes v v'
Same-Changes v v' h id = unchanged (h id)

starts_right :
    (o : OfferBrief)
    → starts_wrong o ≡ false
    → o.status ≡ active
    → o.trigger_type ≡ purchase_triggered
unfolding starts_wrong
starts_right o h a = ground arith

-- A write changes the entry of its own offer, and no other.
Written-Changes :
    (o : OfferBrief) (v v' : View) → Written o v v' → Change (v o.offer_id) (some o) → Changes v v'
Written-Changes o v v' w c id = elim (Bool-cases (o.offer_id == id)) [
  | inl same ↦
      let e : o.offer_id ≡ id = (eq_iff o.offer_id id).0 same in
      let now : v' id ≡ some o = w id ∙ ground (arith, same) in
      subst (λ b. Change (v id) b) (sym now) (subst (λ i. Change (v i) (some o)) e c)
  | inr other ↦ unchanged (w id ∙ ground (arith, other))
]

pub saved-Changes :
    (o : OfferBrief) (v v' : View) (r : Result StoreError (Unit {0}))
    → starts_wrong o ≡ false
    → SaveSpec v v' o r
    → Changes v v'
saved-Changes o v v' (ok _) right (fresh, w) =
    Written-Changes o v v' w (created o fresh refl (starts_right o right))
saved-Changes o v v' (err already_exists) right (_, same) = Same-Changes v v' same
saved-Changes o v v' (err redis_unavailable) right h = elim h [
  | inl same ↦ Same-Changes v v' same
  | inr (fresh, w) ↦ Written-Changes o v v' w (created o fresh refl (starts_right o right))
]
saved-Changes o v v' (err naive_and_aware) right h = absurd h

pub updated-Changes :
    (o : OfferBrief) (v v' : View) (r : Result StoreError (Unit {0}))
    → Change (v o.offer_id) (some o)
    → UpdateSpec v v' o r
    → Changes v v'
updated-Changes o v v' (ok _) c w = Written-Changes o v v' w c
updated-Changes o v v' (err redis_unavailable) c h = elim h [
  | inl same ↦ Same-Changes v v' same
  | inr w ↦ Written-Changes o v v' w c
]
updated-Changes o v v' (err already_exists) c h = absurd h
updated-Changes o v v' (err naive_and_aware) c h = absurd h
