-- ===== src/Hub/Store/Memory/Contract.antt =====
-- `InMemoryHubStore` (src/backend/services/hub_store.py) as an instance of the store's contract.
use tristar.Clock.{DateTime, TypeError}
use tristar.Models.Offer.{TriggerType, OfferStatus, OfferBrief, is_status_iff}
use tristar.Base.{
  List, String, true, false, Option, none, some, ◌≡◌, inl, inr, refl, All, All-map, All-both,
  is_some, Bool-cases, sym,
}
use mathlib.Core.Path.{subst}
use tristar.Base.Dict.{
  lookup, insert, contains, values, lookup-insert, IsDict, insert-IsDict, entries-lookup,
  insert-All, lookup-All, values-All,
}
use tristar.Outcome.{Result, ok, err, map_err}
use tristar.Hub.Store.{
  GetSpec, UpdateSpec, apply_filters, HubStoreLaws, View, IsStorable, SaveSpec, ListSpec,
}
use tristar.Hub.Store.Filters.{apply_filters-All, status_matches}
use tristar.Hub.Store.Memory.{Store, type_error, get, save, update, list, memory_store}

-- Every offer stands under its id and can be stored.
abbrev pub Entry : String → OfferBrief → Type 0
Entry id o = (o.offer_id ≡ id) × IsStorable o

pub record IsGood (s : Store) : Type 0 where
  pub dict : IsDict s
  pub entries : All (λ e. Entry e.0 e.1) s

pub insert-IsGood :
    (o : OfferBrief) (s : Store) → IsStorable o → IsGood s → IsGood (insert o.offer_id o s)
insert-IsGood o s st g = record {
  dict = insert-IsDict o.offer_id o s g.dict;
  entries = insert-All Entry o.offer_id o s (refl, st) g.entries;
}

pub save-IsGood : (o : OfferBrief) (s : Store) → IsStorable o → IsGood s → IsGood (save o s).1
unfolding save
save-IsGood o s st g = elim (Bool-cases (contains o.offer_id s)) [
  | inl there ↦ rw there g
  | inr fresh ↦ rw fresh (insert-IsGood o s st g)
]

abbrev pub view : Store → View
view s id = lookup id s

is_none : (o : Option OfferBrief) → is_some o ≡ false → o ≡ none
is_none none h = refl
is_none (some o) h = cc

pub save_lem : (o : OfferBrief) (s : Store) → SaveSpec (view s) (view (save o s).1) o (save o s).0
unfolding save
save_lem o s = elim (Bool-cases (contains o.offer_id s)) [
  | inl there ↦ rw there (there, λ id. refl)
  | inr fresh ↦
      rw fresh (is_none (lookup o.offer_id s) fresh, λ id. lookup-insert o.offer_id id o s)
]

pub stored : (s : Store) → IsGood s → All (λ o. lookup o.offer_id s ≡ some o) (values s)
stored s g =
    values-All (λ o. lookup o.offer_id s ≡ some o) s
      (All-map _ _ (λ e p. subst (λ i. lookup i s ≡ some e.1) (sym p.1.0) p.0) s
        (All-both (λ e. lookup e.0 s ≡ some e.1) (λ e. Entry e.0 e.1) s (entries-lookup s g.dict)
          g.entries))

pub listed :
    (st : Option OfferStatus) (v : View) (r : Result TypeError (List OfferBrief))
    → ((found : List OfferBrief)
        → r ≡ ok found
        → All (λ o. (v o.offer_id ≡ some o) × (status_matches st o ≡ true)) found)
    → ListSpec v v st (map_err type_error r)
listed none v (ok found) h = (λ id. refl, All-map _ _ (λ o p. p.0) found (h found refl))
listed (some s) v (ok found) h =
    (λ id. refl, All-map _ _ (λ o p. (p.0, (is_status_iff o.status s).0 p.1)) found (h found refl))
listed none v (err e) h = λ id. refl
listed (some s) v (err e) h = λ id. refl

-- The store in memory keeps the contract of `HubStore`: it is a map from ids to offers in which a save
-- never replaces an offer, an update always does, and a listing shows only what is stored.
unfoldable pub memory_laws : HubStoreLaws memory_store
unfolding get save update list
memory_laws = record {
  view = view;
  IsGood = IsGood;
  get-IsGood = λ id s g. g;
  get_lem = λ id s g. (refl, λ j. refl);
  save-IsGood = save-IsGood;
  save_lem = λ o s st g. save_lem o s;
  update-IsGood = insert-IsGood;
  update_lem = λ o s st g id. lookup-insert o.offer_id id o s;
  list-IsGood = λ st t since s g. g;
  list_lem = λ st t since s g. listed st (view s) (apply_filters (values s) st t since) (λ found e.
      apply_filters-All (λ o. lookup o.offer_id s ≡ some o) (values s) st t since (stored s g) e);
  view-IsStorable = λ id s g e. (lookup-All Entry id s g.entries e).1;
  view-id = λ id s g e. (lookup-All Entry id s g.entries e).0;
}

-- Over a good store in memory, each operation does what the contract says for any answer: a read finds
-- the entry, a save writes a new offer or fails for one that is there, an update writes, a listing shows
-- offers of the store, of the status that was asked for, or fails, nothing else changes, and the store
-- stays good.
pub memory_contract :
    (o : OfferBrief) (id : String) (status : Option OfferStatus) (trigger : Option TriggerType)
    (since : Option DateTime) (s : Store)
    → IsStorable o
    → IsGood s
    → GetSpec (view s) (view (get id s).1) id (get id s).0
      × SaveSpec (view s) (view (save o s).1) o (save o s).0
      × UpdateSpec (view s) (view (update o s).1) o (update o s).0
      × ListSpec
          (view s)
          (view (list status trigger since s).1)
          status
          (list status trigger since s).0
      × IsGood (save o s).1
      × IsGood (update o s).1
unfolding memory_laws
memory_contract o id status trigger since s st g = (
  memory_laws.get_lem id s g,
  memory_laws.save_lem o s st g,
  memory_laws.update_lem o s st g,
  memory_laws.list_lem status trigger since s g,
  memory_laws.save-IsGood o s st g,
  memory_laws.update-IsGood o s st g,
)
