-- ===== src/Inventory/Rescan.antt =====
-- The same asset scanned twice in a session that does not expect it.
use asset_it.Prelude.{
  ℕ, true, ==_refl, ◌≡◌, refl, ap, sym, subst, ◌∙◌, ◌⊎◌, inl, inr, Option, none, some, List, [],
  ◌∷◌, map, get_or, ok, Bool-cases, arith,
}
use asset_it.Store.Rows.{Actor, Asset}
use asset_it.Store.InventoryRows.{InventorySession, InventoryResult, InventoryItem}
use asset_it.Store.Tables.{Env, Db}
use asset_it.Inventory.Guards.{assets_below, first_of}
use asset_it.Inventory.Opening.{blank_item}
use asset_it.Inventory.Scanning.{
  ScanInventory, carries, is_of, item_of, scan_result, observed, change_item, write_item, scan,
  write_scan,
}
use asset_it.Inventory.Judging.{scan_result-expected}
use asset_it.Inventory.Changes.{scanned, scan-writes}

-- What the result of a scan says of the scan.
scan_result-unexpected :
    (current : Option InventoryItem) (body : ScanInventory) (a : Asset)
    → scan_result current body a ≡ InventoryResult.unexpected
    → (body.found ≡ true)
unfolding scan_result
scan_result-unexpected current body a e = ground arith

item_of-change :
    (n : ℕ) (change : InventoryItem → InventoryItem) (items : List InventoryItem)
    (i : InventoryItem)
    → ((j : InventoryItem) → (change j).asset_id ≡ j.asset_id)
    → item_of n items ≡ some i
    → (j : InventoryItem) × (item_of n (map (change_item n change) items) ≡ some j)
item_of-change n change [] i acts found = absurd (ground arith)
item_of-change n change (x ∷ rest) i acts found =
    let same = acts x in
    elim (Bool-cases (is_of n x)) [
      | inl hit ↦ (change x, ground arith)
      | inr miss ↦
          let (j, later) = item_of-change n change rest i acts (ground arith) in (j, ground arith)
    ]

-- After a scan the asset has an item.
item_of-write :
    (n : ℕ) (change : InventoryItem → InventoryItem) (items : List InventoryItem)
    (current : Option InventoryItem)
    → ((j : InventoryItem) → (change j).asset_id ≡ j.asset_id)
    → item_of n items ≡ current
    → (j : InventoryItem) × (item_of n (write_item current n change items) ≡ some j)
unfolding write_item
item_of-write n change items none acts absent =
    let same = acts (blank_item n none none) in
    let itself = ==_refl n in (change (blank_item n none none), ground arith)
item_of-write n change items (some i) acts found = item_of-change n change items i acts found

-- What a scan leaves for the next one.
record Left (env : Env) (k : ℕ) (body : ScanInventory) (actor : Actor) (db db' : Db)
    (r : InventoryResult) (s : InventorySession) (row : ℕ × Asset) : Type 0 where
  result : scan_result (item_of row.0 s.items) body row.1 ≡ r
  session : db'.sessions k ≡ some (scanned env body actor row.0 row.1 s)
  asset : db'.asset ≡ db.asset
  next : db'.next_id ≡ db.next_id

write_scan-Left :
    (env : Env) (k : ℕ) (body : ScanInventory) (actor : Actor) (db : Db) (s : InventorySession)
    (row : ℕ × Asset)
    → Left env k body actor db
        (write_scan env k s body actor row.0 row.1 db).1
        (write_scan env k s body actor row.0 row.1 db).0
        s
        row
unfolding write_scan
write_scan-Left env k body actor db s row = record {
  result = refl;
  session = (let itself = ==_refl k in ground arith);
  asset = refl;
  next = refl;
}

-- If a scan finds an asset unexpected, the same scan again, where it succeeds, does not: since the
-- first scan made an item for the asset, the second compares what is seen with the empty book value
-- of that item, and reports another holder, another place or a match.
pub scan-forgets_unexpected :
    (env : Env) (k : ℕ) (body : ScanInventory) (actor : Actor) (db db' db'' : Db)
    (r : InventoryResult)
    → scan env k body actor db ≡ ok (InventoryResult.unexpected, db')
    → scan env k body actor db' ≡ ok (r, db'')
    → (r ≡ InventoryResult.custodian_mismatch)
      ⊎ ((r ≡ InventoryResult.location_mismatch) ⊎ (r ≡ InventoryResult.matched))
scan-forgets_unexpected env k body actor db db' db'' r first second =
    let (s, row, here, going, found, wrote) = scan-writes env k body actor db db' _ first in
    let (s2, row2, here2, going2, found2, wrote2) =
      scan-writes env k body actor db' db'' r second in
    let left =
      subst (λ (x : InventoryResult × Db). Left env k body actor db x.1 x.0 s row) wrote
        (write_scan-Left env k body actor db s row) in
    let left2 =
      subst (λ (x : InventoryResult × Db). Left env k body actor db' x.1 x.0 s2 row2) wrote2
        (write_scan-Left env k body actor db' s2 row2) in
    let (item, has) =
      item_of-write row.0
        (observed body row.1 (scan_result (item_of row.0 s.items) body row.1) env.now actor) s.items
        (item_of row.0 s.items) (λ j. refl) refl in
    let p = carries env body.value in
    let rows =
      ap (λ (f : ℕ → Option Asset). first_of (assets_below db.next_id f p)) (sym left.asset)
      ∙ ap (λ n. first_of (assets_below n db'.asset p)) (sym left.next) in
    let same_row = ap (λ o. get_or o row) (sym found ∙ rows ∙ found2) in
    let same_session = ap (λ o. get_or o s2) (sym left.session ∙ here2) in
    let there =
      subst (λ (w : ℕ × Asset). item_of w.0 s2.items ≡ some item) same_row
        (subst (λ (x : InventorySession). item_of row.0 x.items ≡ some item) same_session has) in
    let again = sym (ap (λ c. scan_result c body row2.1) there) ∙ left2.result in
    elim (scan_result-expected item body row2.1
      (scan_result-unexpected (item_of row.0 s.items) body row.1 left.result)) [
        | inl is ↦ inl (sym again ∙ is)
        | inr (inl is) ↦ inr (inl (sym again ∙ is))
        | inr (inr is) ↦ inr (inr (sym again ∙ is))
      ]
