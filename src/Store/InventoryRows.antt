-- ===== src/Store/InventoryRows.antt =====
-- Rows of a stock count. The items of a session are listed in it, and are told apart by their assets:
-- the key of session and asset is unique.
use asset_it.Prelude.{ℕ, Option, List, Text}

pub data InventoryStatus : Type 0 where
  open_ closed cancelled : InventoryStatus

pub data InventoryResult : Type 0 where
  pending matched location_mismatch custodian_mismatch missing unexpected : InventoryResult

pub record InventoryItem : Type 0 where
  pub asset_id : ℕ
  pub expected_location_id : Option ℕ
  pub expected_custodian_id : Option ℕ
  pub observed_location_id : Option ℕ
  pub observed_custodian_id : Option ℕ
  pub scanned_at : Option ℕ
  pub scanned_by : Option ℕ
  pub result : InventoryResult
  pub note : Option Text

pub record InventorySession : Type 0 where
  pub id : ℕ
  pub inventory_no : Text
  pub name : Text
  pub status : InventoryStatus
  pub scope_department_id : Option ℕ
  pub scope_location_id : Option ℕ
  pub scope_warehouse_id : Option ℕ
  pub scope_category_id : Option ℕ
  pub started_at : ℕ
  pub closed_at : Option ℕ
  pub cancelled_at : Option ℕ
  pub created_by : ℕ
  pub items : List InventoryItem
