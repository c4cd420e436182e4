-- ===== src/Hub/Store/Filters.antt =====
-- `_apply_filters`: what a listing with filters holds, and when it fails.
use tristar.Base.{
  ℕ, Bool, true, false, ◌&&◌, Option, none, some, List, [], ◌∷◌, ◌≡◌, ◌⊎◌, inl, inr, refl, arith,
  All, keep, All-keep, keep-passes, All-both, Option-cases, sym, ap, ◌∙◌, leb, ◌+◌,
}
use mathlib.Core.Path.{subst}
use tristar.Clock.{DateTime, TypeError, naive_and_aware, le_dt, as_utc, is_naive, utc_offset}
use tristar.Outcome.{Result, ok, err}
use tristar.Models.Offer.{OfferBrief, OfferStatus, TriggerType, is_status, is_trigger}
use tristar.Hub.Store.{
  apply_filters, created_since, filter_status, filter_trigger, filter_since, after_test,
}

module _ (P : OfferBrief → Type 0) where
  after_test-All :
      (o : OfferBrief) (t : Result TypeError Bool) (rest : Result TypeError (List OfferBrief))
      {found : List OfferBrief}
      → P o
      → ((l : List OfferBrief) → rest ≡ ok l → All P l)
      → after_test o t rest ≡ ok found
      → All P found
  after_test-All o (err e) rest p r h = absurd (ground arith)
  after_test-All o (ok b) (err e) p r h = absurd (ground arith)
  after_test-All o (ok true) (ok l) {found} p r h =
      let e : o ∷ l ≡ found = cc in subst (All P) e (p, r l refl)
  after_test-All o (ok false) (ok l) {found} p r h =
      let e : l ≡ found = cc in subst (All P) e (r l refl)

  created_since-All :
      (since : DateTime) (offers : List OfferBrief) {found : List OfferBrief}
      → All P offers
      → created_since since offers ≡ ok found
      → All P found
  unfolding created_since
  created_since-All since [] {found} h e = let f : [] ≡ found = cc in subst (All P) f tt
  created_since-All since (o ∷ offers) h e =
      after_test-All o (le_dt since o.created_at) (created_since since offers) h.0
        (λ l r. created_since-All since offers h.1 r) e

-- The test that the filters make of an offer whose `created_at` is aware.
abbrev pub status_matches : Option OfferStatus → OfferBrief → Bool
status_matches none o = true
status_matches (some s) o = is_status o.status s

abbrev trigger_matches : Option TriggerType → OfferBrief → Bool
trigger_matches none o = true
trigger_matches (some t) o = is_trigger o.trigger_type t

abbrev instant_le : Option ℕ → ℕ → Option ℕ → ℕ → Bool
instant_le (some x) a (some y) b = leb (a + y) (b + x)
instant_le _ a _ b = false

abbrev since_matches : Option DateTime → OfferBrief → Bool
since_matches none o = true
since_matches (some since) o =
    instant_le (as_utc since).offset since.wall o.created_at.offset o.created_at.wall

abbrev IsAware : OfferBrief → Type 0
IsAware o = is_naive o.created_at ≡ false

keep-keep :
    (p q : OfferBrief → Bool) (offers : List OfferBrief)
    → keep q (keep p offers) ≡ keep (λ o. p o && q o) offers
keep-keep p q [] = refl
keep-keep p q (o ∷ offers) = ground (arith, keep-keep p q offers)

keep-true : (offers : List OfferBrief) → keep (λ (o : OfferBrief). true) offers ≡ offers
keep-true [] = refl
keep-true (o ∷ offers) = ap (λ (l : List OfferBrief). o ∷ l) (keep-true offers)

filter_status-keep :
    (st : Option OfferStatus) (offers : List OfferBrief)
    → filter_status st offers ≡ keep (status_matches st) offers
filter_status-keep none offers = sym (keep-true offers)
filter_status-keep (some s) offers = refl

filter_trigger-keep :
    (t : Option TriggerType) (offers : List OfferBrief)
    → filter_trigger t offers ≡ keep (trigger_matches t) offers
filter_trigger-keep none offers = sym (keep-true offers)
filter_trigger-keep (some t) offers = refl

created_since-keep :
    (wall x : ℕ) (offers : List OfferBrief)
    → All IsAware offers
    → created_since (record { wall = wall; offset = some x }) offers
      ≡ ok (keep (λ o. instant_le (some x) wall o.created_at.offset o.created_at.wall) offers)
unfolding created_since le_dt
created_since-keep wall x [] h = refl
created_since-keep wall x (o ∷ offers) h = ground (arith, created_since-keep wall x offers h.1, h.0)

filter_since-keep :
    (since : Option DateTime) (offers : List OfferBrief)
    → All IsAware offers
    → filter_since since offers ≡ ok (keep (since_matches since) offers)
filter_since-keep none offers h = ap ok (sym (keep-true offers))
filter_since-keep (some since) offers h = elim (Option-cases since.offset) [
  | inl n ↦ rw n (created_since-keep since.wall utc_offset offers h)
  | inr (x, e) ↦ rw e (created_since-keep since.wall x offers h)
]

-- The test of all three filters.
abbrev pub matches : Option OfferStatus → Option TriggerType → Option DateTime → OfferBrief → Bool
matches st t since o = (status_matches st o && trigger_matches t o) && since_matches since o

-- If every creation time is aware, a listing holds exactly the offers that pass every filter that was
-- given, in the order of the store; a naive `since` counts as UTC.
pub apply_filters-keep :
    (offers : List OfferBrief) (st : Option OfferStatus) (t : Option TriggerType)
    (since : Option DateTime)
    → All IsAware offers
    → apply_filters offers st t since ≡ ok (keep (matches st t since) offers)
unfolding apply_filters
apply_filters-keep offers st t since h =
    rw (filter_status-keep, filter_trigger-keep, keep-keep)
      (filter_since-keep since (keep (λ o. status_matches st o && trigger_matches t o) offers)
          (All-keep IsAware (λ o. status_matches st o && trigger_matches t o) offers h)
        ∙ ap ok (keep-keep _ _ offers))

-- Some offer that passes a test was created at a naive time.
abbrev HasNaive : (OfferBrief → Bool) → List OfferBrief → Type 0
HasNaive p [] = ⊥
HasNaive p (o ∷ offers) = ((p o ≡ true) × (is_naive o.created_at ≡ true)) ⊎ HasNaive p offers

created_since-naive :
    (p : OfferBrief → Bool) (wall x : ℕ) (offers : List OfferBrief)
    → HasNaive p offers
    → created_since (record { wall = wall; offset = some x }) (keep p offers) ≡ err naive_and_aware
unfolding created_since le_dt
created_since-naive p wall x [] h = absurd h
created_since-naive p wall x (o ∷ offers) h = elim h [
  | inl here ↦ ground arith
  | inr later ↦ ground (arith, created_since-naive p wall x offers later)
]

-- A listing with a `since` filter fails, and shows nothing, as soon as one offer that passes the
-- other filters was created at a naive time: Python does not compare it with an aware `since`.
pub apply_filters-naive :
    (offers : List OfferBrief) (st : Option OfferStatus) (t : Option TriggerType) (since : DateTime)
    → HasNaive (λ o. status_matches st o && trigger_matches t o) offers
    → apply_filters offers st t (some since) ≡ err naive_and_aware
unfolding apply_filters
apply_filters-naive offers st t since h =
    rw (filter_status-keep, filter_trigger-keep, keep-keep)
      (elim (Option-cases since.offset) [
        | inl n ↦ rw n (created_since-naive _ since.wall utc_offset offers h)
        | inr (x, e) ↦ rw e (created_since-naive _ since.wall x offers h)
      ])

module _ (P : OfferBrief → Type 0) where
  filter_since-All :
      (since : Option DateTime) (offers : List OfferBrief) {found : List OfferBrief}
      → All P offers
      → filter_since since offers ≡ ok found
      → All P found
  filter_since-All none offers {found} h e = let f : offers ≡ found = cc in subst (All P) f h
  filter_since-All (some since) offers h e = created_since-All P (as_utc since) offers h e

-- Whatever the creation times, what a listing holds is in the list that it was made from, and has
-- the status that was asked for.
pub apply_filters-All :
    (P : OfferBrief → Type 0) (offers : List OfferBrief) (st : Option OfferStatus)
    (t : Option TriggerType) (since : Option DateTime) {found : List OfferBrief}
    → All P offers
    → apply_filters offers st t since ≡ ok found
    → All (λ o. P o × (status_matches st o ≡ true)) found
unfolding apply_filters
apply_filters-All P offers st t since h e =
    let Q : OfferBrief → Type 0 = λ o. P o × (status_matches st o ≡ true) in
    filter_since-All Q since (filter_trigger t (filter_status st offers))
      (rw (filter_trigger-keep, filter_status-keep)
        (All-keep Q (trigger_matches t) (keep (status_matches st) offers) (
          All-both P (λ o. status_matches st o ≡ true) (keep (status_matches st) offers)
            (All-keep P (status_matches st) offers h) (keep-passes (status_matches st) offers))))
      e
