-- ===== src/Inventory/Judging.antt =====
-- What the result of an item says, and that a scan gives an item a result that says so.
use asset_it.Prelude.{
  ℕ, true, false, ==_iff, ◌≡◌, ◌≢◌, refl, ap, sym, subst, ◌∙◌, ◌⊎◌, Option, none, some, same_id,
  inl, inr, Bool-cases, arith,
}
use asset_it.Store.Rows.{Actor, Asset}
use asset_it.Store.InventoryRows.{InventoryResult, InventoryItem}
use asset_it.Inventory.Rules.{inventory_result}
use asset_it.Inventory.Opening.{blank_item}
use asset_it.Inventory.Scanning.{
  ScanInventory, scan_result, seen_location, seen_custodian, observed,
}

abbrev pub NothingSeen : InventoryItem → Type 0
NothingSeen i = (i.observed_location_id ≡ none) × (i.observed_custodian_id ≡ none)

-- What each result says of the book value and of what was seen.
abbrev pub Means : InventoryResult → InventoryItem → Type 0
Means InventoryResult.pending i = NothingSeen i × (i.scanned_at ≡ none)
Means InventoryResult.missing i = NothingSeen i
Means InventoryResult.unexpected i =
    (i.expected_location_id ≡ none) × (i.expected_custodian_id ≡ none)
Means InventoryResult.matched i =
    (i.expected_location_id ≡ i.observed_location_id)
    × (i.expected_custodian_id ≡ i.observed_custodian_id)
Means InventoryResult.location_mismatch i =
    (i.expected_location_id ≢ i.observed_location_id)
    × (i.expected_custodian_id ≡ i.observed_custodian_id)
Means InventoryResult.custodian_mismatch i = i.expected_custodian_id ≢ i.observed_custodian_id

abbrev pub Judged : InventoryItem → Type 0
Judged i = Means i.result i

same_id-eq : (a b : Option ℕ) → same_id a b ≡ true → a ≡ b
same_id-eq none none e = refl
same_id-eq none (some b) e = absurd (ground arith)
same_id-eq (some a) none e = absurd (ground arith)
same_id-eq (some a) (some b) e = ap some ((==_iff a b).0 e)

same_id_refl : (a : Option ℕ) → same_id a a ≡ true
same_id_refl none = refl
same_id_refl (some a) = (==_iff a a).1 refl

same_id-neq : (a b : Option ℕ) → same_id a b ≡ false → a ≢ b
same_id-neq a b e same =
    let t = subst (λ c. same_id a c ≡ true) same (same_id_refl a) in absurd (ground arith)

pub inventory_result-cases :
    (l c seen_l seen_c : Option ℕ)
    → ((inventory_result l c seen_l seen_c true ≡ InventoryResult.custodian_mismatch)
        × (c ≢ seen_c))
      ⊎ (((inventory_result l c seen_l seen_c true ≡ InventoryResult.location_mismatch)
            × (l ≢ seen_l)
            × (c ≡ seen_c))
          ⊎ ((inventory_result l c seen_l seen_c true ≡ InventoryResult.matched)
              × (l ≡ seen_l)
              × (c ≡ seen_c)))
unfolding inventory_result
inventory_result-cases l c seen_l seen_c = elim (Bool-cases (same_id c seen_c)) [
  | inr moved ↦ inl (ground arith, same_id-neq c seen_c moved)
  | inl kept ↦ elim (Bool-cases (same_id l seen_l)) [
    | inr away ↦ inr (inl (ground arith, same_id-neq l seen_l away, same_id-eq c seen_c kept))
    | inl there ↦ inr (inr (ground arith, same_id-eq l seen_l there, same_id-eq c seen_c kept))
  ]
]

-- The item that `inventoryResult` judges.
pub inventory_result-Means :
    (i : InventoryItem) (r : InventoryResult)
    → inventory_result i.expected_location_id i.expected_custodian_id i.observed_location_id
        i.observed_custodian_id true
      ≡ r
    → Means r i
inventory_result-Means i r e =
    elim (inventory_result-cases i.expected_location_id i.expected_custodian_id
      i.observed_location_id i.observed_custodian_id) [
        | inl (is, moved) ↦ subst (λ x. Means x i) (sym is ∙ e) moved
        | inr (inl (is, away, kept)) ↦ subst (λ x. Means x i) (sym is ∙ e) (away, kept)
        | inr (inr (is, there, kept)) ↦ subst (λ x. Means x i) (sym is ∙ e) (there, kept)
      ]

pub scan_result-unseen :
    (current : Option InventoryItem) (body : ScanInventory) (a : Asset)
    → body.found ≡ false
    → InventoryResult.missing ≡ scan_result current body a
unfolding scan_result
scan_result-unseen current body a unseen = ground arith

pub scan_result-new :
    (body : ScanInventory) (a : Asset)
    → body.found ≡ true
    → InventoryResult.unexpected ≡ scan_result none body a
unfolding scan_result inventory_result
scan_result-new body a seen = ground arith

-- An asset that has an item and is seen is compared with the book value.
pub scan_result-expected :
    (i : InventoryItem) (body : ScanInventory) (a : Asset)
    → body.found ≡ true
    → (scan_result (some i) body a ≡ InventoryResult.custodian_mismatch)
      ⊎ ((scan_result (some i) body a ≡ InventoryResult.location_mismatch)
          ⊎ (scan_result (some i) body a ≡ InventoryResult.matched))
unfolding scan_result
scan_result-expected i body a found =
    elim (inventory_result-cases i.expected_location_id i.expected_custodian_id
      (seen_location body a) (seen_custodian body a)) [
        | inl (is, moved) ↦ inl (ground arith)
        | inr (inl (is, away, kept)) ↦ inr (inl (ground arith))
        | inr (inr (is, there, kept)) ↦ inr (inr (ground arith))
      ]

-- A scan of an item judges it, and so does one that makes the item.
pub observed-Judged :
    (body : ScanInventory) (a : Asset) (now : ℕ) (actor : Actor) (i : InventoryItem)
    → Judged (observed body a (scan_result (some i) body a) now actor i)
unfolding scan_result
observed-Judged body a now actor i =
    let i' = observed body a (scan_result (some i) body a) now actor i in
    elim (Bool-cases body.found) [
      | inl seen ↦ inventory_result-Means i' (scan_result (some i) body a) (ground arith)
      | inr unseen ↦
          subst (λ x. Means x i') (scan_result-unseen (some i) body a unseen)
            (ground arith, ground arith)
    ]

pub new-Judged :
    (body : ScanInventory) (a : Asset) (now : ℕ) (actor : Actor) (n : ℕ)
    → Judged (observed body a (scan_result none body a) now actor (blank_item n none none))
new-Judged body a now actor n =
    let i' = observed body a (scan_result none body a) now actor (blank_item n none none) in
    elim (Bool-cases body.found) [
      | inl seen ↦ subst (λ x. Means x i') (scan_result-new body a seen) (refl, refl)
      | inr unseen ↦
          subst (λ x. Means x i') (scan_result-unseen none body a unseen)
            (ground arith, ground arith)
    ]
