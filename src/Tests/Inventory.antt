-- ===== src/Tests/Inventory.antt =====
-- The theorems on stock counts at a small store, with a session open for one asset.
use asset_it.Prelude.{
  ◌≡◌, refl, true, none, some, inl, List, [], ◌∷◌, text, ◌⊎◌, ◌==◌, if◌then◌else◌, arith,
}
use asset_it.Store.Enums.{StatusCode}
use asset_it.Store.Rows.{Asset}
use asset_it.Store.InventoryRows.{InventorySession, InventoryStatus, InventoryItem, InventoryResult}
use asset_it.Store.Tables.{Db}
use asset_it.Tests.Samples.{env, boss, start, stocked}
use asset_it.Inventory.Rules.{inventory_result}
use asset_it.Inventory.Guards.{assets_below}
use asset_it.Inventory.Opening.{CreateInventory, blank_item}
use asset_it.Inventory.Rules.{summary}
use asset_it.Inventory.Scanning.{ScanInventory, scan, write_scan, write_item, scan_result}
use asset_it.Inventory.Calls.{Call, Request, creates, scans, closes, cancels, removes, run}
use asset_it.Inventory.Sessions.{SoundCounts, run-SoundCounts}
use asset_it.Inventory.Ended.{Kept, run-Kept}
use asset_it.Inventory.Refinement.{Given, CountRun, count_at, run-CountRun}
use asset_it.Inventory.Summary.{look_up, total, summary-counts}
use asset_it.Inventory.Rescan.{scan-forgets_unexpected}

abbrev whole_room : CreateInventory
whole_room = record {
  name = text "Q3";
  department_id = none;
  location_id = some 2;
  warehouse_id = none;
  category_id = none;
}

abbrev look : ScanInventory
look = record {
  value = text "LT";
  observed_location_id = some 2;
  observed_custodian_id = none;
  found = true;
  note = none;
}

-- A session that expects asset 8 alone.
abbrev session : InventoryStatus → InventorySession
session s = record {
  id = 50;
  inventory_no = text "KK-1";
  name = text "Q2";
  status = s;
  scope_department_id = none;
  scope_location_id = none;
  scope_warehouse_id = none;
  scope_category_id = none;
  started_at = 500;
  closed_at = none;
  cancelled_at = none;
  created_by = 1;
  items = blank_item 8 (some 2) none ∷ [];
}

abbrev with_session : InventoryStatus → Db
with_session s = record start { sessions = λ k. if k == 50 then some (session s) else none }

abbrev ask : Call → Request
ask call = record { env = env; actor = boss; call = call }

abbrev story : List Request
story =
    ask (creates whole_room)
    ∷ ask (scans 100 look)
    ∷ ask (scans 50 look)
    ∷ ask (closes 100)
    ∷ ask (cancels 50)
    ∷ ask (removes 50)
    ∷ []

start-SoundCounts : SoundCounts start
start-SoundCounts = record { sessions = λ k s e. absurd (ground arith) }

run-SoundCounts_example : SoundCounts (run story start)
run-SoundCounts_example = run-SoundCounts story start start-SoundCounts

run-Kept_example :
    Kept 50 (session InventoryStatus.cancelled) (run story (with_session InventoryStatus.cancelled))
run-Kept_example =
    run-Kept 50 (session InventoryStatus.cancelled) story (with_session InventoryStatus.cancelled)
      refl (record { given = omega arith; same = inl refl })

with_session-Given : Given (with_session InventoryStatus.open_)
with_session-Given k above = ground arith

run-CountRun_example :
    CountRun 50 story
      (count_at 50 (with_session InventoryStatus.open_))
      (count_at 50 (run story (with_session InventoryStatus.open_)))
run-CountRun_example = run-CountRun 50 story (with_session InventoryStatus.open_) with_session-Given

summary-counts_example :
    (look_up InventoryResult.pending (summary (session InventoryStatus.open_).items) ≡ 1)
    × (total (summary (session InventoryStatus.open_).items) ≡ 1)
summary-counts_example =
    summary-counts InventoryResult.pending (session InventoryStatus.open_).items

abbrev shelf_asset : Asset
shelf_asset = stocked 9 StatusCode.reserved

abbrev once : Db
once =
    (write_scan env 50 (session InventoryStatus.open_) look boss 9 shelf_asset
      (with_session InventoryStatus.open_)).1

abbrev item_9 : InventoryItem
item_9 = record (blank_item 9 none none) {
  observed_location_id = some 2;
  scanned_at = some 1000;
  scanned_by = some 1;
  result = InventoryResult.unexpected;
}

abbrev session_once : InventorySession
session_once = record (session InventoryStatus.open_) {
  items = item_9 ∷ blank_item 8 (some 2) none ∷ [];
}

scan-forgets_unexpected_example :
    (InventoryResult.location_mismatch ≡ InventoryResult.custodian_mismatch)
    ⊎ ((InventoryResult.location_mismatch ≡ InventoryResult.location_mismatch)
        ⊎ (InventoryResult.location_mismatch ≡ InventoryResult.matched))
unfolding scan assets_below text write_scan scan_result inventory_result write_item
scan-forgets_unexpected_example =
    scan-forgets_unexpected env 50 look boss (with_session InventoryStatus.open_) once
      (write_scan env 50 session_once look boss 9 shelf_asset once).1
      InventoryResult.location_mismatch refl refl
