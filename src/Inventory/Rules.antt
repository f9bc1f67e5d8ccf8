-- ===== src/Inventory/Rules.antt =====
-- apps/api/src/modules/inventory/inventory.rules.ts, and the counts by result of the service.
use asset_it.Prelude.{
  ℕ, suc, Bool, not, ◌==◌, Option, List, [], ◌∷◌, Text, text, same_id, if◌then◌else◌,
}
use asset_it.Store.InventoryRows.{InventoryResult, InventoryItem}

unfoldable pub inventory_result : Option ℕ → Option ℕ → Option ℕ → Option ℕ → Bool → InventoryResult
inventory_result expected_location expected_custodian observed_location observed_custodian
      expected =
    if not expected
    then InventoryResult.unexpected
    else if not (same_id expected_custodian observed_custodian)
    then InventoryResult.custodian_mismatch
    else if not (same_id expected_location observed_location)
    then InventoryResult.location_mismatch
    else InventoryResult.matched

pub result_name : InventoryResult → Text
result_name InventoryResult.pending = text "PENDING"
result_name InventoryResult.matched = text "MATCHED"
result_name InventoryResult.missing = text "MISSING"
result_name InventoryResult.unexpected = text "UNEXPECTED"
result_name InventoryResult.location_mismatch = text "LOCATION_MISMATCH"
result_name InventoryResult.custodian_mismatch = text "CUSTODIAN_MISMATCH"

abbrev pub result_index : InventoryResult → ℕ
result_index InventoryResult.pending = 0
result_index InventoryResult.matched = 1
result_index InventoryResult.missing = 2
result_index InventoryResult.unexpected = 3
result_index InventoryResult.location_mismatch = 4
result_index InventoryResult.custodian_mismatch = 5

abbrev pub same_result : InventoryResult → InventoryResult → Bool
same_result a b = result_index a == result_index b

-- `{ ...value, [key]: (value[key] || 0) + 1 }`: an object keeps the order in which its keys came.
unfoldable pub add_one : InventoryResult → List (InventoryResult × ℕ) → List (InventoryResult × ℕ)
add_one key [] = (key, 1) ∷ []
add_one key (entry ∷ rest) =
    let later = add_one key rest in
    if same_result entry.0 key then (entry.0, suc entry.1) ∷ rest else entry ∷ later

-- The callback of `reduce`, over the rest of the items.
unfoldable pub summary_from :
    List (InventoryResult × ℕ) → List InventoryItem → List (InventoryResult × ℕ)
summary_from value [] = value
summary_from value (item ∷ rest) = summary_from (add_one item.result value) rest

unfoldable pub summary : List InventoryItem → List (InventoryResult × ℕ)
summary items = summary_from [] items
