-- ===== src/Hub/Routes/Lifecycle.antt =====
-- The Hub's handlers (src/backend/api/hub.py), the invariant of the store and the life of an offer,
-- over any store that keeps the contract.
use mathlib.Core.Path.{subst}
use tristar.Base.{String, Option, none, some, List, ◌≡◌, inl, inr, refl, sym, ◌∙◌, Bool-cases, ap}
use tristar.Outcome.{Result, ok, err}
use tristar.Core.Http.{HttpError}
use tristar.Core.Security.{AuthUser}
use tristar.Clock.{DateTime}
use tristar.Models.Offer.{OfferBrief, OfferStatus, TriggerType, with_status}
use tristar.Models.Validation.{offer_ok}
use tristar.Hub.Store.{
  HubStore, HubStoreLaws, StoreError, redis_unavailable, already_exists, naive_and_aware, View,
  Same, IsStorable, GetSpec, ListSpec,
}
use tristar.Hub.Change.{
  Allowed, Change, moved, Changes, Same-Changes, saved-Changes, updated-Changes,
  validate_transition-Allowed,
}
use tristar.Hub.Routes.{
  HubState, validate_transition, starts_wrong, save_offer, saved, get_offer, list_offers, listed,
  read, move, updated, found, update_offer_status, since_utc,
}

-- A change of the status leaves an offer that can be stored.
pub with_status-IsStorable :
    (new : OfferStatus) (o : OfferBrief) → IsStorable o → IsStorable (with_status new o)
unfolding offer_ok
with_status-IsStorable new o st = record { valid = st.valid; member = refl }

module _ (h : HubStore) (l : HubStoreLaws h) where
  open h use {State}

  -- What a handler that was called at `s` has done, when it left `s'` behind.
  pub record Keeps (s s' : HubState State) : Type 0 where
    pub good : l.IsGood s'.store
    pub changes : Changes (l.view s.store) (l.view s'.store)

  pub same-Keeps : (s s' : HubState State) → s' ≡ s → l.IsGood s.store → Keeps s s'
  same-Keeps s s' e g =
      subst (Keeps s) (sym e)
        (record { good = g; changes = Same-Changes (l.view s.store) (l.view s.store) (λ id. refl) })

  pub saved-store :
      (user : AuthUser) (o : OfferBrief) (r : Result StoreError (Unit {0})) (s : HubState State)
      → (saved h user o r s).1.store ≡ s.store
  unfolding save_offer
  saved-store user o (ok _) s = refl
  saved-store user o (err e) s = refl

  -- Saving an offer that passed validation keeps the life of every offer.
  pub save_offer-Keeps :
      (user : AuthUser) (o : OfferBrief) (s : HubState State)
      → IsStorable o
      → l.IsGood s.store
      → Keeps s (save_offer h user o s).1
  unfolding save_offer
  save_offer-Keeps user o s st g = elim (Bool-cases (starts_wrong o)) [
    | inl wrong ↦
        rw wrong (record {
          good = g;
          changes = Same-Changes (l.view s.store) (l.view s.store) (λ id. refl);
        })
    | inr right ↦
        let (r, store) = h.save o s.store in
        let same = saved-store user o r (record s { store = store }) in
        rw right (record {
          good = rw same (l.save-IsGood o s.store st g);
          changes =
              rw same (
                saved-Changes o (l.view s.store) (l.view store) r right
                  (l.save_lem o s.store st g));
        })
  ]

  pub get-Same :
      (v v' : View) (id : String) (r : Result StoreError (Option OfferBrief))
      → GetSpec v v' id r
      → Same v v'
  get-Same v v' id (ok o) sp = sp.1
  get-Same v v' id (err redis_unavailable) sp = sp
  get-Same v v' id (err already_exists) sp = absurd sp
  get-Same v v' id (err naive_and_aware) sp = absurd sp

  pub list-Same :
      (v v' : View) (st : Option OfferStatus) (r : Result StoreError (List OfferBrief))
      → ListSpec v v' st r
      → Same v v'
  list-Same v v' none (ok o) sp = sp.0
  list-Same v v' (some s) (ok o) sp = sp.0
  list-Same v v' none (err e) sp = sp
  list-Same v v' (some s) (err e) sp = sp

  pub read-store :
      (user : AuthUser) (id : String) (r : Result StoreError (Option OfferBrief))
      (s : HubState State)
      → (read h user id r s).1.store ≡ s.store
  unfolding get_offer
  read-store user id (ok none) s = refl
  read-store user id (ok (some o)) s = refl
  read-store user id (err e) s = refl

  pub listed-store :
      (r : Result StoreError (List OfferBrief)) (s : HubState State)
      → (listed h r s).1.store ≡ s.store
  listed-store (ok o) s = refl
  listed-store (err e) s = refl

  pub get_offer-Keeps :
      (user : AuthUser) (id : String) (s : HubState State)
      → l.IsGood s.store
      → Keeps s (get_offer h user id s).1
  unfolding get_offer
  get_offer-Keeps user id s g =
      let (r, store) = h.get id s.store in
      let same = read-store user id r (record s { store = store }) in
      record {
        good = rw same (l.get-IsGood id s.store g);
        changes = rw same (
            Same-Changes (l.view s.store) (l.view store)
              (get-Same (l.view s.store) (l.view store) id r (l.get_lem id s.store g)));
      }

  pub list_offers-Keeps :
      (st : Option OfferStatus) (member : Option String) (t : Option TriggerType)
      (since : Option DateTime) (s : HubState State)
      → l.IsGood s.store
      → Keeps s (list_offers h st member t since s).1
  unfolding list_offers
  list_offers-Keeps st member t since s g =
      let (r, store) = h.list st t (since_utc h since) s.store in
      let same = listed-store r (record s { store = store }) in
      record {
        good = rw same (l.list-IsGood st t (since_utc h since) s.store g);
        changes = rw same (
            Same-Changes (l.view s.store) (l.view store) (
              list-Same (l.view s.store) (l.view store) st r
                (l.list_lem st t (since_utc h since) s.store g)));
      }

  pub updated-store :
      (user : AuthUser) (id : String) (o : OfferBrief) (new : OfferStatus)
      (r : Result StoreError (Unit {0})) (s : HubState State)
      → (updated h user id o new r s).1.store ≡ s.store
  unfolding move
  updated-store user id o new (ok _) s = refl
  updated-store user id o new (err e) s = refl

  -- The step after the offer was found, in a store with the view in which it was found.
  move-Keeps :
      (user : AuthUser) (id : String) (o : OfferBrief) (new : OfferStatus) (s : HubState State)
      → l.IsGood s.store
      → l.view s.store id ≡ some o
      → Keeps s (move h user id o new (validate_transition o.status new) s).1
  move-Keeps user id o new s g there =
      go (validate_transition o.status new) (λ e. (validate_transition-Allowed o.status new).0 e)
    where
      named : o.offer_id ≡ id
      named = l.view-id id s.store g there

      st : IsStorable (with_status new o)
      st = with_status-IsStorable new o (l.view-IsStorable id s.store g there)

      go :
          (r : Result HttpError (Unit {0}))
          → (r ≡ ok tt → Allowed o.status new)
          → Keeps s (move h user id o new r s).1
      go (err e) allowed =
          unfold move in
          record { good = g; changes = Same-Changes (l.view s.store) (l.view s.store) (λ j. refl) }
      go (ok _) allowed =
          unfold move in
          let (r, store) = h.update (with_status new o) s.store in
          let same = updated-store user id o new r (record s { store = store }) in
          record {
            good = rw same (l.update-IsGood (with_status new o) s.store st g);
            changes = rw same (
                updated-Changes (with_status new o) (l.view s.store) (l.view store) r
                  (moved o new (ap (l.view s.store) named ∙ there) refl (allowed refl))
                  (l.update_lem (with_status new o) s.store st g));
          }

  -- A read before a change does not count.
  pub after_read :
      (s s' s'' : HubState State)
      → Same (l.view s.store) (l.view s'.store)
      → Keeps s' s''
      → Keeps s s''
  after_read s s' s'' same k = record {
    good = k.good;
    changes = λ id. subst (λ a. Change a (l.view s''.store id)) (same id) (k.changes id);
  }

  found-Keeps :
      (user : AuthUser) (id : String) (new : OfferStatus) (s s' : HubState State)
      (r : Result StoreError (Option OfferBrief))
      → l.IsGood s'.store
      → GetSpec (l.view s.store) (l.view s'.store) id r
      → Keeps s (found h user id new r s').1
  unfolding update_offer_status
  found-Keeps user id new s s' (ok none) g sp = record {
    good = g;
    changes = Same-Changes (l.view s.store) (l.view s'.store) sp.1;
  }
  found-Keeps user id new s s' (ok (some o)) g sp =
      after_read s s' _ sp.1 (move-Keeps user id o new s' g (sp.1 id ∙ sym sp.0))
  found-Keeps user id new s s' (err redis_unavailable) g sp = record {
    good = g;
    changes = Same-Changes (l.view s.store) (l.view s'.store) sp;
  }
  found-Keeps user id new s s' (err already_exists) g sp = absurd sp
  found-Keeps user id new s s' (err naive_and_aware) g sp = absurd sp

  -- A change of status on a good store, whatever it answers, leaves a good store in which each
  -- entry is as it was or has changed along the life of an offer.
  pub update_offer_status-Keeps :
      (user : AuthUser) (id : String) (new : OfferStatus) (s : HubState State)
      → l.IsGood s.store
      → Keeps s (update_offer_status h user id new s).1
  unfolding update_offer_status
  update_offer_status-Keeps user id new s g =
      let (r, store) = h.get id s.store in
      found-Keeps user id new s (record s { store = store }) r (l.get-IsGood id s.store g)
        (l.get_lem id s.store g)
