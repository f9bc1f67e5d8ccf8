-- ===== src/Inventory/Items.antt =====
-- The items of a session: one for an asset, each with a result that says what was seen.
use asset_it.Prelude.{
  ℕ, true, false, ==_iff, ◌≡◌, refl, ap, sym, subst, ◌∙◌, none, some, List, [], ◌∷◌, map, All,
  includes, distinct, inl, inr, Bool-cases, Option-cases, arith,
}
use asset_it.Store.Rows.{Actor, Asset}
use asset_it.Store.InventoryRows.{InventoryItem}
use asset_it.Inventory.Judging.{Judged, observed-Judged, new-Judged}
use asset_it.Inventory.Scanning.{
  ScanInventory, item_of, is_of, scan_result, observed, change_item, write_item,
}

abbrev pub asset_ids : List InventoryItem → List ℕ
asset_ids [] = []
asset_ids (i ∷ rest) = i.asset_id ∷ asset_ids rest

-- The items of a session: one for an asset, each judged.
pub record SoundItems (items : List InventoryItem) : Type 0 where
  pub once : distinct (asset_ids items) ≡ true
  pub judged : All Judged items

item_of-none :
    (n : ℕ) (items : List InventoryItem)
    → item_of n items ≡ none
    → includes n (asset_ids items) ≡ false
item_of-none n [] e = refl
item_of-none n (i ∷ rest) e = let later = item_of-none n rest (ground arith) in ground arith

change_item-ids :
    (n : ℕ) (change : InventoryItem → InventoryItem) (items : List InventoryItem)
    → ((i : InventoryItem) → (change i).asset_id ≡ i.asset_id)
    → asset_ids (map (change_item n change) items) ≡ asset_ids items
change_item-ids n change [] same = refl
change_item-ids n change (i ∷ rest) same =
    let later = change_item-ids n change rest same in let this = same i in ground arith

change_item-others :
    (n : ℕ) (change : InventoryItem → InventoryItem) (items : List InventoryItem)
    → includes n (asset_ids items) ≡ false
    → map (change_item n change) items ≡ items
change_item-others n change [] absent = refl
change_item-others n change (i ∷ rest) absent =
    let later = change_item-others n change rest (ground arith) in ground arith

change_item-here :
    (n : ℕ) (change : InventoryItem → InventoryItem) (x : InventoryItem) (rest : List InventoryItem)
    (i : InventoryItem)
    → is_of n x ≡ true
    → item_of n (x ∷ rest) ≡ some i
    → change i ≡ change_item n change x
change_item-here n change x rest i here found = ground arith

change_item-away :
    (n : ℕ) (change : InventoryItem → InventoryItem) (x : InventoryItem)
    → is_of n x ≡ false
    → x ≡ change_item n change x
change_item-away n change x away = ground arith

once-here :
    (n : ℕ) (x : InventoryItem) (rest : List InventoryItem)
    → is_of n x ≡ true
    → distinct (asset_ids (x ∷ rest)) ≡ true
    → includes n (asset_ids rest) ≡ false
once-here n x rest here once =
    subst (λ m. includes m (asset_ids rest) ≡ false) ((==_iff x.asset_id n).0 here) (ground arith)

change_item-Judged :
    (n : ℕ) (change : InventoryItem → InventoryItem) (items : List InventoryItem)
    (i : InventoryItem)
    → distinct (asset_ids items) ≡ true
    → item_of n items ≡ some i
    → Judged (change i)
    → All Judged items
    → All Judged (map (change_item n change) items)
change_item-Judged n change [] i once found new all = tt
change_item-Judged n change (x ∷ rest) i once found new (this, all) =
    elim (Bool-cases (is_of n x)) [
      | inl here ↦ (
        subst Judged (change_item-here n change x rest i here found) new,
        subst (All Judged) (sym (change_item-others n change rest (once-here n x rest here once)))
            all,
      )
      | inr away ↦ (
        subst Judged (change_item-away n change x away) this,
        change_item-Judged n change rest i (ground arith) (ground arith) new all,
      )
    ]

-- A scan keeps the items sound.
pub scan-SoundItems :
    (body : ScanInventory) (a : Asset) (now : ℕ) (actor : Actor) (n : ℕ)
    (items : List InventoryItem)
    → SoundItems items
    → SoundItems (
        write_item
          (item_of n items)
          n
          (observed body a (scan_result (item_of n items) body a) now actor)
          items)
unfolding write_item
scan-SoundItems body a now actor n items h = elim (Option-cases (item_of n items)) [
  | inl absent ↦
      subst
        (λ current.
          SoundItems
            (write_item current n (observed body a (scan_result current body a) now actor) items))
        (sym absent)
        (record {
          once = let new = item_of-none n items absent in let old = h.once in ground arith;
          judged = (new-Judged body a now actor n, h.judged);
        })
  | inr (i, found) ↦
      subst
        (λ current.
          SoundItems
            (write_item current n (observed body a (scan_result current body a) now actor) items))
        (sym found)
        (record {
          once =
              ap distinct (
                change_item-ids n (observed body a (scan_result (some i) body a) now actor) items
                  (λ j. refl))
              ∙ h.once;
          judged =
              change_item-Judged n (observed body a (scan_result (some i) body a) now actor) items i
                h.once found (observed-Judged body a now actor i) h.judged;
        })
]
