-- ===== src/Inventory/Board.antt =====
-- A session seen from outside is a board: for an asset, the result of its item. What the requests do
-- to the items refines what they do to the board.
use asset_it.Prelude.{
  ℕ, false, ◌==◌, ==_iff, ==_refl, ◌⊎◌, ◌≡◌, refl, sym, subst, List, [], ◌∷◌, map, Option, none,
  some, option_map, if◌then◌else◌, Bool-cases, inl, inr, arith,
}
use asset_it.Store.Rows.{Actor, Asset}
use asset_it.Store.InventoryRows.{InventoryItem, InventoryResult}
use asset_it.Inventory.Rules.{same_result}
use asset_it.Inventory.Opening.{expected_item, blank_item}
use asset_it.Inventory.Scanning.{
  ScanInventory, is_of, item_of, scan_result, observed, change_item, write_item,
}
use asset_it.Inventory.Ending.{given_up}

abbrev pub result_of : InventoryItem → InventoryResult
result_of i = i.result

abbrev pub Board : Type 0
Board = ℕ → Option InventoryResult

abbrev pub board : List InventoryItem → Board
board items n = option_map result_of (item_of n items)

-- The board after a result for `n`, and after closing.
abbrev pub marked : ℕ → InventoryResult → Board → Board
marked n r b m = if m == n then some r else b m

abbrev pub given_up_result : InventoryResult → InventoryResult
given_up_result r = if same_result r InventoryResult.pending then InventoryResult.missing else r

abbrev pub without_pending : Board → Board
without_pending b m = option_map given_up_result (b m)

board-change_away :
    (n m : ℕ) (change : InventoryItem → InventoryItem) (items : List InventoryItem)
    → ((j : InventoryItem) → (change j).asset_id ≡ j.asset_id)
    → (m == n) ≡ false
    → board (map (change_item n change) items) m ≡ board items m
board-change_away n m change [] acts away = refl
board-change_away n m change (x ∷ rest) acts away =
    let later = board-change_away n m change rest acts away in
    let same = acts x in
    elim (Bool-cases (is_of n x)) [ inl hit ↦ ground arith | inr miss ↦ ground arith ]

board-change :
    (n : ℕ) (change : InventoryItem → InventoryItem) (r : InventoryResult)
    (items : List InventoryItem) (i : InventoryItem)
    → ((j : InventoryItem) → ((change j).asset_id ≡ j.asset_id) × ((change j).result ≡ r))
    → item_of n items ≡ some i
    → board (map (change_item n change) items) n ≡ some r
board-change n change r [] i acts found = absurd (ground arith)
board-change n change r (x ∷ rest) i acts found =
    let (same, new) = acts x in
    elim (Bool-cases (is_of n x)) [
      | inl hit ↦ ground arith
      | inr miss ↦ let later = board-change n change r rest i acts (ground arith) in ground arith
    ]

board-write_at :
    (n m : ℕ) (change : InventoryItem → InventoryItem) (r : InventoryResult)
    (items : List InventoryItem) (current : Option InventoryItem)
    → ((j : InventoryItem) → ((change j).asset_id ≡ j.asset_id) × ((change j).result ≡ r))
    → item_of n items ≡ current
    → board (write_item current n change items) m ≡ marked n r (board items) m
unfolding write_item
board-write_at n m change r items none acts absent =
    let (same, new) = acts (blank_item n none none) in
    let itself = ==_refl n in
    elim (Bool-cases (m == n)) [
      | inl here ↦ let equal = (==_iff m n).0 here in ground arith
      | inr away ↦ let apart = ==_iff n m in ground arith
    ]
board-write_at n m change r items (some i) acts found = elim (Bool-cases (m == n)) [
  | inl here ↦
      let equal = (==_iff m n).0 here in
      let at = board-change n change r items i acts found in
      subst (λ l. board (map (change_item n change) items) l ≡ marked n r (board items) l)
        (sym equal) (let itself = ==_refl n in ground arith)
  | inr away ↦ let rest = board-change_away n m change items (λ j. (acts j).0) away in ground arith
]

pub board-scan :
    (body : ScanInventory) (a : Asset) (now : ℕ) (actor : Actor) (n m : ℕ)
    (items : List InventoryItem)
    → board
        (write_item
          (item_of n items)
          n
          (observed body a (scan_result (item_of n items) body a) now actor)
          items)
        m
      ≡ marked n (scan_result (item_of n items) body a) (board items) m
board-scan body a now actor n m items =
    board-write_at n m (observed body a (scan_result (item_of n items) body a) now actor)
      (scan_result (item_of n items) body a) items (item_of n items) (λ j. (refl, refl)) refl

given_up-acts :
    (i : InventoryItem)
    → ((given_up i).asset_id ≡ i.asset_id) × ((given_up i).result ≡ given_up_result i.result)
given_up-acts i = elim (Bool-cases (same_result i.result InventoryResult.pending)) [
  | inl waits ↦ (ground arith, ground arith)
  | inr counted ↦ (ground arith, ground arith)
]

pub board-close :
    (m : ℕ) (items : List InventoryItem)
    → board (map given_up items) m ≡ without_pending (board items) m
board-close m [] = refl
board-close m (i ∷ rest) =
    let later = board-close m rest in let (same, new) = given_up-acts i in ground arith

pub board-open :
    (m : ℕ) (rows : List (ℕ × Asset))
    → (board (map expected_item rows) m ≡ none)
      ⊎ (board (map expected_item rows) m ≡ some InventoryResult.pending)
board-open m [] = inl refl
board-open m (row ∷ rest) = elim (Bool-cases (row.0 == m)) [
  | inl here ↦ inr (ground arith)
  | inr away ↦ elim (board-open m rest) [
    | inl absent ↦ inl (ground arith)
    | inr waits ↦ inr (ground arith)
  ]
]
