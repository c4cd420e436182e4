-- ===== src/Designer/Inventory.antt =====
-- src/backend/services/inventory_service.py. A row of the file is a record: the fields that the code
-- reads are there, and the units are a natural number. Times are in microseconds.
pub mod Overstock
use tristar.Base.{
  ℕ, zero, suc, ◌+◌, ◌-◌, ◌*◌, String, Bool, true, false, Option, none, some, List, [], ◌∷◌, ltb,
  leb, length, take, keep, if◌then◌else◌, ◌==◌, ◌||◌,
}
use tristar.Clock.{hour}
use tristar.Outcome.{Result, ok, err}

-- `pos n` is n, `negsuc n` is -1 - n
pub data ℤ : Type 0 where
  pos negsuc : ℕ → ℤ

pub record Item : Type 0 where
  pub product_id : String
  pub product_name : String
  pub category : String
  pub store : String
  pub units_in_stock : ℕ
  pub urgency : Option String

-- `_items` and `_loaded_at`
pub record Inventory : Type 0 where
  pub items : List Item
  pub loaded_at : Option ℕ

-- the text of the objective, by its template in `_URGENCY_MAP`
pub data Objective : Type 0 where
  clear promote : String → ℕ → Objective
  gentle_push : String → Objective

pub record InventorySuggestion : Type 0 where
  pub product_id : String
  pub product_name : String
  pub category : String
  pub store : String
  pub units_in_stock : ℕ
  pub urgency : String
  pub suggested_objective : Objective
  pub stale : Bool

-- the `ValidationError` of `urgency`
pub data ValidationError : Type 0 where
  bad_urgency : ValidationError

abbrev pub overstock_threshold : ℕ
overstock_threshold = 500

-- `_load`, of the rows of the file if there is one
unfoldable pub load : Option (List Item) → ℕ → Inventory
load none now = record { items = []; loaded_at = none }
load (some items) now = record { items = items; loaded_at = some now }

abbrev older : ℕ → Option ℕ → Bool
older now none = true
older now (some loaded_at) = ltb (24 * hour) (now - loaded_at)

-- `_is_stale`
unfoldable pub is_stale : ℕ → Inventory → Bool
is_stale now inv = older now inv.loaded_at

-- `sorted(…, key=units, reverse=True)`, which keeps the order of rows with equal units
unfoldable pub place : Item → List Item → List Item
place x [] = x ∷ []
place x (y ∷ ys) =
    let rest = place x ys in if leb y.units_in_stock x.units_in_stock then x ∷ y ∷ ys else y ∷ rest

unfoldable pub sort_by_units : List Item → List Item
unfolding place
sort_by_units [] = []
sort_by_units (x ∷ xs) = place x (sort_by_units xs)

-- `get_overstock_items`
unfoldable pub get_overstock_items : Inventory → List Item
unfolding sort_by_units
get_overstock_items inv =
    sort_by_units (keep (λ (x : Item). ltb overstock_threshold x.units_in_stock) inv.items)

-- `xs[:limit]`: a negative limit leaves out that many items at the end
unfoldable pub slice : {A : Type 0} → ℤ → List A → List A
slice (pos n) xs = take n xs
slice (negsuc n) xs = take (length xs - (n + 1)) xs

abbrev urgency_of : Option String → String
urgency_of none = "medium"
urgency_of (some u) = u

-- the template of `_URGENCY_MAP`, with `medium` for an unknown urgency
unfoldable pub objective_for : String → String → ℕ → Objective
objective_for urgency name units =
    if urgency == "high"
    then clear name units
    else if urgency == "low"
    then gentle_push name
    else promote name units

-- the pattern of `urgency` in `InventorySuggestion`
abbrev urgency_ok : String → Bool
urgency_ok u = u == "high" || (u == "medium" || u == "low")

unfoldable pub suggest : Bool → Item → Result ValidationError InventorySuggestion
unfolding objective_for
suggest stale item =
    let urgency = urgency_of item.urgency in
    if urgency_ok urgency
    then ok (record {
      product_id = item.product_id;
      product_name = item.product_name;
      category = item.category;
      store = item.store;
      units_in_stock = item.units_in_stock;
      urgency = urgency;
      suggested_objective = objective_for urgency item.product_name item.units_in_stock;
      stale = stale;
    })
    else err bad_urgency

abbrev add :
    Result ValidationError InventorySuggestion
    → Result ValidationError (List InventorySuggestion)
    → Result ValidationError (List InventorySuggestion)
add (err e) rest = err e
add (ok s) (err e) = err e
add (ok s) (ok rest) = ok (s ∷ rest)

unfoldable pub suggest_all : Bool → List Item → Result ValidationError (List InventorySuggestion)
unfolding suggest
suggest_all stale [] = ok []
suggest_all stale (x ∷ xs) = add (suggest stale x) (suggest_all stale xs)

-- `get_suggestions`
unfoldable pub get_suggestions :
    ℤ → ℕ → Inventory → Result ValidationError (List InventorySuggestion)
unfolding is_stale get_overstock_items slice suggest_all
get_suggestions limit now inv =
    suggest_all (is_stale now inv) (slice limit (get_overstock_items inv))
