-- ===== src/Store/Rows.antt =====
-- Rows of the tables that the asset services read and write (apps/api/prisma/schema.prisma).
-- Identifiers are UUIDs, which are only compared: they are numbers here. Times are milliseconds,
-- money is in hundredths (`Decimal(18, 2)`), a nullable column is an `Option`.
use asset_it.Prelude.{ℕ, Bool, Option, List, Text}
use asset_it.Store.Enums.{
  Role, StatusCode, AssignmentType, AssignmentStatus, ReturnOutcome, MaintenanceStatus,
  MaintenanceOutcome, HistoryAction,
}

pub record Actor : Type 0 where
  pub id : ℕ
  pub role : Role
  pub department_id : Option ℕ

pub record Person : Type 0 where
  pub id : ℕ
  pub full_name : Text
  pub department_id : ℕ
  pub linked_user_id : Option ℕ
  pub active : Bool

pub record Location : Type 0 where
  pub id : ℕ
  pub name : Text
  pub active : Bool

pub record Warehouse : Type 0 where
  pub id : ℕ
  pub name : Text
  pub location_id : ℕ
  pub active : Bool

pub record Asset : Type 0 where
  pub id : ℕ
  pub asset_tag : Text
  pub name : Text
  pub serial_number : Option Text
  pub barcode : Option Text
  pub category_id : ℕ
  pub purchase_cost : Option ℕ
  pub status : StatusCode
  pub assigned_user_id : Option ℕ
  pub current_custodian_id : Option ℕ
  pub department_id : Option ℕ
  pub location_id : Option ℕ
  pub warehouse_id : Option ℕ
  pub deleted : Bool

pub record Assignment : Type 0 where
  pub id : ℕ
  pub assignment_no : Text
  pub asset_id : ℕ
  pub type : AssignmentType
  pub assigned_to_id : ℕ
  pub department_id : ℕ
  pub location_id : ℕ
  pub expected_return_date : Option ℕ
  pub condition_out : Text
  pub note : Option Text
  pub assigned_by : ℕ
  pub status : AssignmentStatus
  pub closed_at : Option ℕ

pub record AssetReturn : Type 0 where
  pub id : ℕ
  pub return_no : Text
  pub assignment_id : ℕ
  pub asset_id : ℕ
  pub warehouse_id : Option ℕ
  pub location_id : ℕ
  pub condition_in : Text
  pub outcome : ReturnOutcome
  pub note : Option Text
  pub returned_by : ℕ

pub record AssetTransfer : Type 0 where
  pub id : ℕ
  pub transfer_no : Text
  pub asset_id : ℕ
  pub from_location_id : Option ℕ
  pub to_location_id : ℕ
  pub from_warehouse_id : Option ℕ
  pub to_warehouse_id : Option ℕ
  pub condition : Option Text
  pub reason : Text
  pub transferred_by : ℕ

pub record MaintenanceRecord : Type 0 where
  pub id : ℕ
  pub maintenance_no : Text
  pub asset_id : ℕ
  pub warehouse_id : Option ℕ
  pub issue : Text
  pub performed_by : ℕ
  pub status : MaintenanceStatus
  pub completed_at : Option ℕ
  pub resolution : Option Text
  pub outcome : Option MaintenanceOutcome
  pub cost : Option ℕ

-- A column that the source leaves out is `none`.
pub record AssetHistory : Type 0 where
  pub asset_id : ℕ
  pub action : HistoryAction
  pub from_user_id : Option ℕ
  pub to_user_id : Option ℕ
  pub from_location_id : Option ℕ
  pub to_location_id : Option ℕ
  pub reference_type : Option Text
  pub reference_id : Option ℕ
  pub description : Text
  pub performed_by : ℕ

-- The JSON values of an audit entry: `id` for an identifier, `ids` for an array of them, `records`
-- for an array of objects with texts.
pub data Json : Type 0 where
  null : Json
  id : ℕ → Json
  str : Text → Json
  status : StatusCode → Json
  ids : List ℕ → Json
  records : List (List (Text × Text)) → Json
  number : ℕ → Json
  -- an object of numbers
  counts : List (Text × ℕ) → Json

pub record AuditLog : Type 0 where
  pub user_id : ℕ
  pub action : Text
  pub entity_type : Text
  pub entity_id : ℕ
  pub old_values : List (Text × Json)
  pub new_values : List (Text × Json)
