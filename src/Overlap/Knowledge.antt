-- ===== src/Overlap/Knowledge.antt =====
-- What a task has read from the store, and what of it stays true while the task waits.
use mathlib.Core.Path.{subst}
use tristar.Base.{
  String, false, Option, none, some, ◌≡◌, ◌≢◌, ◌⊎◌, inl, inr, refl, arith, ◌∙◌, ap, All, All-map,
}
use tristar.Outcome.{Result, ok, err}
use tristar.Models.Offer.{OfferBrief, OfferStatus, draft, active, expired, with_status}
use tristar.Hub.Store.{View, IsStorable}
use tristar.Hub.Routes.{starts_wrong}
use tristar.Hub.Change.{Allowed, Change, unchanged, created, moved, replaced, Changes}
use tristar.Hub.Change
use tristar.Designer.Claude.Parse.{ClaudeError}
use tristar.Overlap.{
  Task, saving, reading, generated, changing, writing_status, approving, writing_approval, sweeping,
  expiring, answered,
}

-- The id of the offer that a change of status or an approval is for.
abbrev pub mover : Task → Option String
mover (changing user id new) = some id
mover (writing_status user id o new) = some id
mover (approving user id o) = some id
mover (writing_approval user id o) = some id
mover _ = none

-- Not both are a change or an approval of one offer.
abbrev pub Distinct : Task → Task → Type 0
Distinct t u = (id : String) → mover t ≡ some id → mover u ≢ some id

-- An offer that the sweep has listed: still there, or expired in the meantime.
abbrev pub IsListed : Option OfferBrief → OfferBrief → Type 0
IsListed a o = (a ≡ some o) ⊎ (a ≡ some (with_status expired o))

abbrev pub Listed : View → OfferBrief → Type 0
Listed v o = IsStorable o × (o.status ≡ active) × IsListed (v o.offer_id) o

-- An offer that a change has read: still there, or the change is that which a sweep has made.
abbrev pub IsRead : Option OfferBrief → OfferBrief → OfferStatus → Type 0
IsRead a o new =
    (a ≡ some o) ⊎ ((o.status ≡ active) × (new ≡ expired) × (a ≡ some (with_status expired o)))

abbrev pub IsDraft : Option OfferBrief → Type 0
IsDraft a = (stored : OfferBrief) × (a ≡ some stored) × (stored.status ≡ draft)

abbrev pub IsFromClaude : Result ClaudeError OfferBrief → Type 0
IsFromClaude (ok o) = IsStorable o × (starts_wrong o ≡ false)
IsFromClaude (err _) = Unit {0}

-- What a task knows of the store and of the body of its request.
abbrev pub Knows : View → Task → Type 0
Knows v (saving user o) = IsStorable o
Knows v (generated user r) = IsFromClaude r
Knows v (writing_status user id o new) =
    IsStorable o × (o.offer_id ≡ id) × Allowed o.status new × IsRead (v id) o new
Knows v (approving user id o) = IsStorable o
Knows v (writing_approval user id o) = IsStorable o × (o.offer_id ≡ id) × IsDraft (v id)
Knows v (expiring now o offers n) = Listed v o × All (Listed v) offers
Knows v _ = Unit {0}

-- How an entry may change under a task that has read it: not at all, or by a sweep.
abbrev pub Leaves : Option OfferBrief → Option OfferBrief → Type 0
Leaves a b =
    (o : OfferBrief)
    → a ≡ some o
    → (b ≡ some o) ⊎ ((o.status ≡ active) × (b ≡ some (with_status expired o)))

listed_status :
    (a : Option OfferBrief) (o q : OfferBrief)
    → o.status ≡ active
    → IsListed a o
    → a ≡ some q
    → (q ≡ o) ⊎ ((q ≡ with_status expired o) × (q.status ≡ expired))
listed_status a o q act (inl e) was = inl (ground arith)
listed_status a o q act (inr e) was =
    let same : q ≡ with_status expired o = ground arith in
    inr (same, ap (λ (x : OfferBrief). x.status) same)

pub only_expires : {s t : OfferStatus} → Allowed s t → s ≡ active → t ≡ expired
only_expires Change.approve e = absurd (ground arith)
only_expires Change.activate e = absurd (ground arith)
only_expires Change.expire e = refl

ends_expired : {s t : OfferStatus} → Allowed s t → s ≡ expired → ⊥
ends_expired Change.approve e = ground arith
ends_expired Change.activate e = ground arith
ends_expired Change.expire e = ground arith

-- Whatever request changes an entry, an offer that a sweep has listed is there or expired.
IsListed-stable :
    (a b : Option OfferBrief) (o : OfferBrief)
    → o.status ≡ active
    → Change a b
    → IsListed a o
    → IsListed b o
IsListed-stable a b o act (unchanged same) (inl e) = inl (same ∙ e)
IsListed-stable a b o act (unchanged same) (inr e) = inr (same ∙ e)
IsListed-stable a b o act (created p fresh there right) (inl e) = absurd (ground arith)
IsListed-stable a b o act (created p fresh there right) (inr e) = absurd (ground arith)
IsListed-stable a b o act (moved q new was now allowed) i = elim (listed_status a o q act i was) [
  | inl same ↦
      let only =
        only_expires (subst (λ (s : OfferStatus). Allowed s new) (was_active same) allowed) refl in
      inr (now ∙ ap some (restated same only))
  | inr (_, over) ↦
      absurd (ends_expired (subst (λ (s : OfferStatus). Allowed s new) over allowed) refl)
]
  where
    was_active : q ≡ o → q.status ≡ active
    was_active same = ap (λ (x : OfferBrief). x.status) same ∙ act

    restated : q ≡ o → new ≡ expired → with_status new q ≡ with_status expired o
    restated e f = ground arith
IsListed-stable a b o act (replaced q p was now old new) i = elim (listed_status a o q act i was) [
  | inl same ↦ absurd (ground arith)
  | inr (_, over) ↦ absurd (ground arith)
]

pub Listed-stable : (v v' : View) → Changes v v' → (o : OfferBrief) → Listed v o → Listed v' o
Listed-stable v v' c o (st, act, is) =
    (st, act, IsListed-stable (v o.offer_id) (v' o.offer_id) o act (c o.offer_id) is)

IsRead-stable :
    (a b : Option OfferBrief) (o : OfferBrief) (new : OfferStatus)
    → Allowed o.status new
    → Leaves a b
    → IsRead a o new
    → IsRead b o new
IsRead-stable a b o new allowed keeps (inl e) = elim (keeps o e) [
  | inl same ↦ inl same
  | inr (act, over) ↦ inr (act, only_expires allowed act, over)
]
IsRead-stable a b o new allowed keeps (inr (act, over, e)) =
    elim (keeps (with_status expired o) e) [
      | inl same ↦ inr (act, over, same)
      | inr (odd, _) ↦ absurd (ground arith)
    ]

IsDraft-stable : (a b : Option OfferBrief) → Leaves a b → IsDraft a → IsDraft b
IsDraft-stable a b keeps (stored, e, old) = elim (keeps stored e) [
  | inl same ↦ (stored, same, old)
  | inr (act, _) ↦ absurd (ground arith)
]

-- What a task knows stays true while others change the store, if only sweeps touch the offer that the
-- task is to change.
pub Knows-stable :
    (v v' : View) (t : Task)
    → Changes v v'
    → ((id : String) → mover t ≡ some id → Leaves (v id) (v' id))
    → Knows v t
    → Knows v' t
Knows-stable v v' (saving user o) c f k = k
Knows-stable v v' (reading user id) c f k = tt
Knows-stable v v' (Task.listing a b d e) c f k = tt
Knows-stable v v' (generated user r) c f k = k
Knows-stable v v' (changing user id new) c f k = tt
Knows-stable v v' (writing_status user id o new) c f (st, named, allowed, is) =
    (st, named, allowed, IsRead-stable (v id) (v' id) o new allowed (f id refl) is)
Knows-stable v v' (approving user id o) c f k = k
Knows-stable v v' (writing_approval user id o) c f (st, named, is) =
    (st, named, IsDraft-stable (v id) (v' id) (f id refl) is)
Knows-stable v v' (sweeping now) c f k = tt
Knows-stable v v' (expiring now o offers n) c f (one, rest) =
    (Listed-stable v v' c o one, All-map _ _ (Listed-stable v v' c) offers rest)
Knows-stable v v' (answered r) c f k = tt
