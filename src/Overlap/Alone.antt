-- ===== src/Overlap/Alone.antt =====
-- A task that no other interrupts, and the handler that it stands for.
use tristar.Base.{
  ℕ, zero, suc, String, Option, none, some, List, [], ◌∷◌, ◌≡◌, inl, inr, refl, Bool-cases, ◌==◌,
}
use tristar.Clock.{DateTime}
use tristar.Outcome.{Result, ok, err}
use tristar.Core.Http.{HttpError}
use tristar.Core.Security.{AuthUser}
use tristar.Models.Offer.{
  OfferBrief, OfferStatus, approved, active, expired, TriggerType, is_critical, with_status,
}
use tristar.Hub.Store.{HubStore, StoreError, redis_unavailable, already_exists, naive_and_aware}
use tristar.Hub.Routes.{
  validate_transition, save_offer, get_offer, list_offers, move, found, update_offer_status,
}
use tristar.Hub.Sweep.{is_due, count, expire_each, swept, sweep}
use tristar.Designer.Claude.Parse.{ClaudeError}
use tristar.Designer.Routes
use tristar.Designer.Routes.{DesignerState, checked, current, approve_offer}
use tristar.Overlap
use tristar.Overlap.{
  Task, saving, reading, generated, changing, writing_status, approving, writing_approval, sweeping,
  expiring, answered, Response, offer, approval, after_validation, after_read, after_draft,
  after_current, next_due, after_list, with_store, look_up, resume,
}

module _ (h : HubStore) where
  open h use {State}

  -- `n` steps of the task, one after the other
  abbrev steps : ℕ → Task × DesignerState State → Task × DesignerState State
  steps zero c = c
  steps (suc n) (t, s) = steps n (resume h t s)

  -- The task ends, with this response and this state.
  abbrev pub Ends : Task → DesignerState State → Response → DesignerState State → Type 0
  Ends t s r s' = (n : ℕ) × (steps n (t, s) ≡ (answered r, s'))

  validated-eq-move :
      (user : AuthUser) (id : String) (o : OfferBrief) (new : OfferStatus)
      (r : Result HttpError (Unit {0})) (s : DesignerState State)
      → resume h (after_validation user id o new r) s ≡ (
        answered (offer (move h user id o new r s.hub).0),
        record s { hub = (move h user id o new r s.hub).1 },
      )
  unfolding resume
  validated-eq-move user id o new (err e) s = unfold move in refl
  validated-eq-move user id o new (ok tt) s = refl

  read-eq-found :
      (user : AuthUser) (id : String) (new : OfferStatus)
      (r : Result StoreError (Option OfferBrief)) (s : DesignerState State)
      → resume h (after_read user id new r) s ≡ (
        answered (offer (found h user id new r s.hub).0),
        record s { hub = (found h user id new r s.hub).1 },
      )
  read-eq-found user id new (err e) s = unfold resume update_offer_status in refl
  read-eq-found user id new (ok none) s = unfold resume update_offer_status in refl
  read-eq-found user id new (ok (some o)) s =
      validated-eq-move user id o new (validate_transition o.status new) s

  drafted-eq-approve :
      (user : AuthUser) (id : String) (o : OfferBrief) (r : Result HttpError (Unit {0}))
      (s : DesignerState State)
      → resume h (after_draft user id o r) s ≡ (
        answered (approval (Routes.approve h user id o r s).0),
        (Routes.approve h user id o r s).1,
      )
  unfolding resume
  drafted-eq-approve user id o (err e) s = unfold Routes.approve in refl
  drafted-eq-approve user id o (ok tt) s = refl

  current-eq :
      (user : AuthUser) (id : String) (o : OfferBrief) (r : Result StoreError (Option OfferBrief))
      (s : DesignerState State)
      → resume h (after_current user id o r) s
        ≡ (answered (approval (current h user id o r s).0), (current h user id o r s).1)
  current-eq user id o (err redis_unavailable) s = unfold resume approve_offer in refl
  current-eq user id o (err already_exists) s = unfold resume approve_offer in refl
  current-eq user id o (err naive_and_aware) s = unfold resume approve_offer in refl
  current-eq user id o (ok none) s = unfold resume approve_offer in refl
  current-eq user id o (ok (some stored)) s =
      drafted-eq-approve user id o (validate_transition stored.status approved) s

  approving-Ends :
      (user : AuthUser) (id : String) (o : OfferBrief) (s : DesignerState State)
      → steps 2 (approving user id o, s)
        ≡ (answered (approval (approve_offer h user id o s).0), (approve_offer h user id o s).1)
  unfolding resume approve_offer
  approving-Ends user id o s = elim (Bool-cases (o.offer_id == id)) [
    | inr other ↦ rw other refl
    | inl named ↦ elim (Bool-cases (is_critical o.risk_flags.severity)) [
      | inl bad ↦ rw (named, bad) refl
      | inr harmless ↦
          let (r, store) = h.get id s.hub.store in
          rw (named, harmless) (current-eq user id o r (with_store h s store))
    ]
  ]

  next_due-Ends :
      (now : DateTime) (offers : List OfferBrief) (n : ℕ) (s : DesignerState State)
      → Ends
          (next_due now offers n)
          s
          (Overlap.swept (expire_each h now offers n s.hub.store).0)
          (with_store h s (expire_each h now offers n s.hub.store).1)
  unfolding next_due expire_each resume
  next_due-Ends now [] n s = (0, refl)
  next_due-Ends now (o ∷ offers) n s = elim (Bool-cases (is_due now o.valid_until)) [
    | inr early ↦ rw early (next_due-Ends now offers n s)
    | inl due ↦
        let (r, store) = h.update (with_status expired o) s.hub.store in
        let (k, e) = next_due-Ends now offers (count r n) (with_store h s store) in
        rw due (suc k, e)
  ]

  listed-Ends :
      (now : DateTime) (r : Result StoreError (List OfferBrief)) (s : DesignerState State)
      → Ends
          (after_list now r)
          s
          (Overlap.swept (swept h now r s.hub.store).0)
          (with_store h s (swept h now r s.hub.store).1)
  listed-Ends now (err e) s = unfold sweep in (0, refl)
  listed-Ends now (ok offers) s = unfold sweep in next_due-Ends now offers 0 s

  -- A task that is resumed until it ends, with no other task in between, ends, and with the answer and the
  -- state of the handler as a whole: for a save, a read, a listing, a generation from Claude's answer on,
  -- a change of status, an approval and a sweep.
  tasks_alone :
      (user : AuthUser) (id : String) (o : OfferBrief) (new : OfferStatus)
      (status : Option OfferStatus) (member : Option String) (trigger : Option TriggerType)
      (since : Option DateTime) (claude : Result ClaudeError OfferBrief) (now : DateTime)
      (s : DesignerState State)
      → Ends
          (saving user o)
          s
          (offer (save_offer h user o s.hub).0)
          (record s { hub = (save_offer h user o s.hub).1 })
        × Ends
            (reading user id)
            s
            (offer (get_offer h user id s.hub).0)
            (record s { hub = (get_offer h user id s.hub).1 })
        × Ends
            (Task.listing status member trigger since)
            s
            (Response.listing (list_offers h status member trigger since s.hub).0)
            (record s { hub = (list_offers h status member trigger since s.hub).1 })
        × Ends
            (generated user claude)
            s
            (offer (checked h user claude s).0)
            (checked h user claude s).1
        × Ends
            (changing user id new)
            s
            (offer (update_offer_status h user id new s.hub).0)
            (record s { hub = (update_offer_status h user id new s.hub).1 })
        × Ends
            (approving user id o)
            s
            (approval (approve_offer h user id o s).0)
            (approve_offer h user id o s).1
        × Ends
            (sweeping now)
            s
            (Overlap.swept (sweep h now s.hub.store).0)
            (with_store h s (sweep h now s.hub.store).1)
  tasks_alone user id o new status member trigger since claude now s = (
    (1, unfold resume in refl),
    (1, unfold resume in refl),
    (1, unfold resume in refl),
    (1, unfold resume in refl),
    (2, changed),
    (2, approving-Ends user id o s),
    swept_whole,
  )
    where
      changed : steps 2 (changing user id new, s) ≡ (
        answered (offer (update_offer_status h user id new s.hub).0),
        record s { hub = (update_offer_status h user id new s.hub).1 },
      )
      changed =
          unfold resume update_offer_status in
          let (r, store) = h.get id s.hub.store in
          read-eq-found user id new r (with_store h s store)

      swept_whole :
          Ends
            (sweeping now)
            s
            (Overlap.swept (sweep h now s.hub.store).0)
            (with_store h s (sweep h now s.hub.store).1)
      swept_whole =
          unfold resume sweep in
          let (r, store) = h.list (some active) none none s.hub.store in
          let (n, e) = listed-Ends now r (with_store h s store) in (suc n, e)
