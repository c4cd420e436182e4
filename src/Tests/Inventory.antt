-- ===== src/Tests/Inventory.antt =====
-- The inventory on sample data.
use mathlib.Core.List.{Perm}
use tristar.Base.{
  sym, ap, ◌∙◌, ℕ, ◌+◌, ◌-◌, ◌*◌, ◌≤◌, ◌<◌, String, Bool, true, false, not, ◌&&◌, ◌||◌, Option,
  none, some, List, [], ◌∷◌, ◌≡◌, ◌≢◌, ◌⊎◌, ◌↔◌, inl, inr, refl, arith, Text, codes, take, keep,
  length, is_some, is_empty, ltb, leb, if◌then◌else◌,
}
use tristar.Base.Dict.{lookup}
use tristar.Outcome.{ok}
use tristar.Designer.Inventory.{
  ℤ, pos, negsuc, Item, Inventory, InventorySuggestion, overstock_threshold, get_overstock_items,
  promote,
}
use tristar.Designer.Inventory.Overstock.{
  IsDescending, has_units, allowed, get_overstock_items_lem, length-get_inventory_suggestions,
}
use tristar.Designer.Routes.{
  DesignerState, generate_offer_brief, approve_offer, generate_purchase_triggered_offer,
  get_inventory_suggestions,
}
use tristar.Tests.Data.{noon}

abbrev skates : Item
skates = record {
  product_id = "P-1";
  product_name = "Skates";
  category = "sports";
  store = "CTC-ON-001";
  units_in_stock = 620;
  urgency = some "high";
}

abbrev inventory : Inventory
inventory = record {
  items =
      skates
      ∷ record skates { product_id = "P-2"; units_in_stock = 40 }
      ∷ record skates { product_id = "P-3"; units_in_stock = 900; urgency = none }
      ∷ [];
  loaded_at = some noon;
}

get_overstock_items_lem_example :
    let over = keep (λ (x : Item). ltb overstock_threshold x.units_in_stock) inventory.items in
    Perm (get_overstock_items inventory) over
    × IsDescending (get_overstock_items inventory)
    × ((u : ℕ) → has_units u (get_overstock_items inventory) ≡ has_units u over)
get_overstock_items_lem_example = get_overstock_items_lem inventory

abbrev all_but_one : List InventorySuggestion
all_but_one =
    record {
      product_id = "P-3";
      product_name = "Skates";
      category = "sports";
      store = "CTC-ON-001";
      units_in_stock = 900;
      urgency = "medium";
      suggested_objective = promote "Skates" 900;
      stale = false;
    }
    ∷ []

suggested : get_inventory_suggestions (negsuc 0) noon inventory ≡ ok all_but_one
unfolding tristar.Designer.Inventory.load tristar.Designer.Inventory.is_stale
    tristar.Designer.Inventory.place tristar.Designer.Inventory.sort_by_units
    tristar.Designer.Inventory.get_overstock_items tristar.Designer.Inventory.slice
    tristar.Designer.Inventory.objective_for tristar.Designer.Inventory.suggest
    tristar.Designer.Inventory.suggest_all tristar.Designer.Inventory.get_suggestions
    tristar.Designer.Routes.claude_error tristar.Designer.Routes.raise_if_fraud_blocked
    tristar.Designer.Routes.checked tristar.Designer.Routes.generate_offer_brief
    tristar.Designer.Routes.checked_purchase
    tristar.Designer.Routes.generate_purchase_triggered_offer tristar.Designer.Routes.approve
    tristar.Designer.Routes.approve_offer tristar.Designer.Routes.get_inventory_suggestions
    tristar.Base.Dict.lookup tristar.Base.Dict.insert tristar.Base.Dict.erase
suggested = refl

length-get_inventory_suggestions_example :
    1 ≡ allowed (negsuc 0) (length (get_overstock_items inventory))
length-get_inventory_suggestions_example =
    length-get_inventory_suggestions (negsuc 0) noon inventory suggested
