-- ===== src/Inventory/Summary.antt =====
-- The counts by result (`summary` of `InventoryService`) against counting the items one by one.
use asset_it.Prelude.{
  ℕ, suc, ◌+◌, true, false, ◌≡◌, List, [], ◌∷◌, length, if◌then◌else◌, Bool-cases, inl, inr, arith,
}
use asset_it.Store.InventoryRows.{InventoryItem, InventoryResult}
use asset_it.Inventory.Rules.{same_result, add_one, summary_from, summary}

-- `value[key] || 0`
abbrev pub look_up : InventoryResult → List (InventoryResult × ℕ) → ℕ
look_up key [] = 0
look_up key (entry ∷ rest) =
    let later = look_up key rest in if same_result entry.0 key then entry.1 else later

abbrev pub count_of : InventoryResult → List InventoryItem → ℕ
count_of key [] = 0
count_of key (i ∷ rest) =
    let later = count_of key rest in if same_result i.result key then suc later else later

abbrev pub total : List (InventoryResult × ℕ) → ℕ
total [] = 0
total (entry ∷ rest) = entry.1 + total rest

add_one-same :
    (key same : InventoryResult) (value : List (InventoryResult × ℕ))
    → same_result key same ≡ true
    → look_up same (add_one key value) ≡ suc (look_up same value)
unfolding add_one
add_one-same key same [] equal = ground arith
add_one-same key same (entry ∷ rest) equal =
    let later = add_one-same key same rest equal in ground arith

add_one-other :
    (key other : InventoryResult) (value : List (InventoryResult × ℕ))
    → same_result key other ≡ false
    → look_up other (add_one key value) ≡ look_up other value
unfolding add_one
add_one-other key other [] different = ground arith
add_one-other key other (entry ∷ rest) different =
    let later = add_one-other key other rest different in ground arith

add_one-total :
    (key : InventoryResult) (value : List (InventoryResult × ℕ))
    → total (add_one key value) ≡ suc (total value)
unfolding add_one
add_one-total key [] = ground arith
add_one-total key (entry ∷ rest) = let later = add_one-total key rest in ground arith

summary_from-counts :
    (key : InventoryResult) (value : List (InventoryResult × ℕ)) (items : List InventoryItem)
    → look_up key (summary_from value items) ≡ look_up key value + count_of key items
unfolding summary_from
summary_from-counts key value [] = omega arith
summary_from-counts key value (i ∷ rest) =
    let later = summary_from-counts key (add_one i.result value) rest in
    elim (Bool-cases (same_result i.result key)) [
      | inl same ↦ let one = add_one-same i.result key value same in ground arith
      | inr different ↦ let none_more = add_one-other i.result key value different in ground arith
    ]

summary_from-total :
    (value : List (InventoryResult × ℕ)) (items : List InventoryItem)
    → total (summary_from value items) ≡ total value + length items
unfolding summary_from
summary_from-total value [] = omega arith
summary_from-total value (i ∷ rest) =
    let later = summary_from-total (add_one i.result value) rest in
    let one = add_one-total i.result value in omega (arith, later, one)

-- The summary of a session gives, for every result, the number of its items with that result, none
-- where it has no entry; and its numbers add up to the number of items.
pub summary-counts :
    (key : InventoryResult) (items : List InventoryItem)
    → (look_up key (summary items) ≡ count_of key items) × (total (summary items) ≡ length items)
unfolding summary
summary-counts key items =
    let counts = summary_from-counts key [] items in
    let sum = summary_from-total [] items in (omega (arith, counts), omega (arith, sum))
