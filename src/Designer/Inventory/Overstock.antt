-- ===== src/Designer/Inventory/Overstock.antt =====
-- The overstock list is a stable sort, and the number of suggestions follows the limit, also below zero.
use mathlib.Core.List.{Perm}
use mathlib.Core.List.Perm
use tristar.Base.{
  ℕ, zero, suc, ◌+◌, ◌-◌, ◌≤◌, ◌<◌, Bool, List, [], ◌∷◌, ◌≡◌, refl, arith, ap, sym, ◌∙◌, ltb, leb,
  nat_eq, length, take, keep, All, All-map, Bool-cases, inl, inr, if◌then◌else◌,
}
use tristar.Outcome.{Result, ok, err}
use tristar.Designer.Inventory.{
  ℤ, pos, negsuc, Item, Inventory, InventorySuggestion, ValidationError, overstock_threshold,
  is_stale, place, sort_by_units, get_overstock_items, slice, add, suggest, suggest_all,
  get_suggestions,
}
use tristar.Designer.Routes.{at_most_10, get_inventory_suggestions}

-- No row has more units than one before it.
abbrev pub IsDescending : List Item → Type 0
IsDescending [] = Unit {0}
IsDescending (x ∷ xs) = All (λ (y : Item). y.units_in_stock ≤ x.units_in_stock) xs × IsDescending xs

abbrev pub has_units : ℕ → List Item → List Item
has_units u xs = keep (λ (x : Item). nat_eq x.units_in_stock u) xs

place-All :
    (n : ℕ) (x : Item) (ys : List Item)
    → x.units_in_stock ≤ n
    → All (λ (y : Item). y.units_in_stock ≤ n) ys
    → All (λ (y : Item). y.units_in_stock ≤ n) (place x ys)
unfolding place
place-All n x [] h a = (h, tt)
place-All n x (y ∷ ys) h a = elim (Bool-cases (leb y.units_in_stock x.units_in_stock)) [
  | inl here ↦ rw here (h, a)
  | inr later ↦ rw later (a.0, place-All n x ys h a.1)
]

place-IsDescending : (x : Item) (ys : List Item) → IsDescending ys → IsDescending (place x ys)
unfolding place
place-IsDescending x [] d = (tt, tt)
place-IsDescending x (y ∷ ys) d = elim (Bool-cases (leb y.units_in_stock x.units_in_stock)) [
  | inl here ↦
      let le : y.units_in_stock ≤ x.units_in_stock = ground arith in
      rw here (
        (
          le,
          All-map (λ (z : Item). z.units_in_stock ≤ y.units_in_stock)
              (λ (z : Item). z.units_in_stock ≤ x.units_in_stock) (λ z h. omega arith) ys d.0,
        ),
        d,
      )
  | inr later ↦
      rw later (place-All y.units_in_stock x ys (ground arith) d.0, place-IsDescending x ys d.1)
]

sort-IsDescending : (xs : List Item) → IsDescending (sort_by_units xs)
unfolding sort_by_units
sort-IsDescending [] = tt
sort-IsDescending (x ∷ xs) = place-IsDescending x (sort_by_units xs) (sort-IsDescending xs)

place-Perm : (x : Item) (ys : List Item) → Perm (place x ys) (x ∷ ys)
unfolding place
place-Perm x [] = Perm.refl (x ∷ [])
place-Perm x (y ∷ ys) = elim (Bool-cases (leb y.units_in_stock x.units_in_stock)) [
  | inl here ↦ rw here (Perm.refl (x ∷ y ∷ ys))
  | inr later ↦ rw later (Perm.trans (Perm.cons y (place-Perm x ys)) (Perm.swap x y ys))
]

sort-Perm : (xs : List Item) → Perm (sort_by_units xs) xs
unfolding sort_by_units
sort-Perm [] = Perm.refl []
sort-Perm (x ∷ xs) = Perm.trans (place-Perm x (sort_by_units xs)) (Perm.cons x (sort-Perm xs))

units-cons :
    (u : ℕ) (z : Item) (xs ys : List Item)
    → has_units u xs ≡ has_units u ys
    → has_units u (z ∷ xs) ≡ has_units u (z ∷ ys)
units-cons u z xs ys e = elim (Bool-cases (nat_eq z.units_in_stock u)) [
  | inl same ↦ rw (same, e) refl
  | inr other ↦ rw (other, e) refl
]

units-swap :
    (u : ℕ) (x y : Item) (ys : List Item)
    → x.units_in_stock < y.units_in_stock
    → has_units u (y ∷ x ∷ ys) ≡ has_units u (x ∷ y ∷ ys)
units-swap u x y ys lt = ground arith

place-units : (u : ℕ) (x : Item) (ys : List Item) → has_units u (place x ys) ≡ has_units u (x ∷ ys)
unfolding place
place-units u x [] = refl
place-units u x (y ∷ ys) = elim (Bool-cases (leb y.units_in_stock x.units_in_stock)) [
  | inl here ↦ rw here refl
  | inr later ↦ rw later (
      units-cons u y (place x ys) (x ∷ ys) (place-units u x ys)
      ∙ units-swap u x y ys (ground arith))
]

sort-units : (u : ℕ) (xs : List Item) → has_units u (sort_by_units xs) ≡ has_units u xs
unfolding sort_by_units
sort-units u [] = refl
sort-units u (x ∷ xs) =
    place-units u x (sort_by_units xs) ∙ units-cons u x (sort_by_units xs) xs (sort-units u xs)

-- The overstock list has exactly the rows with more than 500 units, as often as the file has them, with
-- the units going down, and rows with equal units in the order of the file.
pub get_overstock_items_lem :
    (inv : Inventory)
    → let over = keep (λ (x : Item). ltb overstock_threshold x.units_in_stock) inv.items in
      Perm (get_overstock_items inv) over
      × IsDescending (get_overstock_items inv)
      × ((u : ℕ) → has_units u (get_overstock_items inv) ≡ has_units u over)
unfolding get_overstock_items
get_overstock_items_lem inv =
    let over = keep (λ (x : Item). ltb overstock_threshold x.units_in_stock) inv.items in
    (sort-Perm over, sort-IsDescending over, λ u. sort-units u over)

length-suggest_all :
    (stale : Bool) (xs : List Item) {out : List InventorySuggestion}
    → suggest_all stale xs ≡ ok out
    → length out ≡ length xs
unfolding suggest_all
length-suggest_all stale [] {out} e = let same : [] ≡ out = ground arith in ap length (sym same)
length-suggest_all stale (x ∷ xs) {out} e =
    added (suggest stale x) (suggest_all stale xs) (λ ys r. length-suggest_all stale xs r) e
  where
    added :
        (r : Result ValidationError InventorySuggestion)
        (rest : Result ValidationError (List InventorySuggestion))
        → ((ys : List InventorySuggestion) → rest ≡ ok ys → length ys ≡ length xs)
        → add r rest ≡ ok out
        → length out ≡ length (x ∷ xs)
    added (err b) rest f h = absurd (ground arith)
    added (ok a) (err b) f h = absurd (ground arith)
    added (ok a) (ok ys) f h =
        let same : a ∷ ys ≡ out = ground arith in ap length (sym same) ∙ ap suc (f ys refl)

abbrev least : ℕ → ℕ → ℕ
least a b = if leb a b then a else b

-- How many suggestions a limit lets through.
abbrev pub allowed : ℤ → ℕ → ℕ
allowed (pos n) overstock = least overstock (least n 10)
allowed (negsuc n) overstock = overstock - (n + 1)

length-take-least : {A : Type 0} (n : ℕ) (xs : List A) → length (take n xs) ≡ least (length xs) n
length-take-least zero xs = ground arith
length-take-least (suc n) [] = ground arith
length-take-least (suc n) (x ∷ xs) = ground (arith, length-take-least n xs)

length-slice :
    (limit : ℤ) (xs : List Item) → length (slice (at_most_10 limit) xs) ≡ allowed limit (length xs)
unfolding slice
length-slice (pos n) xs = elim (Bool-cases (leb n 10)) [
  | inl few ↦ rw few (length-take-least n xs)
  | inr many ↦ rw many (length-take-least 10 xs)
]
length-slice (negsuc n) xs = ground (arith, length-take-least (length xs - (n + 1)) xs)

-- If suggestions are returned, there are as many as overstock rows, but no more than the limit and no
-- more than 10, for a limit that is not negative; for the limit -k there are k fewer than overstock
-- rows, however many that are.
pub length-get_inventory_suggestions :
    (limit : ℤ) (now : ℕ) (inv : Inventory) {out : List InventorySuggestion}
    → get_inventory_suggestions limit now inv ≡ ok out
    → length out ≡ allowed limit (length (get_overstock_items inv))
unfolding get_inventory_suggestions get_suggestions
length-get_inventory_suggestions limit now inv e =
    length-suggest_all (is_stale now inv) (slice (at_most_10 limit) (get_overstock_items inv)) e
    ∙ length-slice limit (get_overstock_items inv)
