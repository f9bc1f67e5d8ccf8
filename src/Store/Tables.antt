-- ===== src/Store/Tables.antt =====
-- The tables that the asset services write, what a request reads besides, and the Prisma calls with
-- the constraints that the migrations put on the tables. A call returns the new tables or throws; a
-- transaction that throws is rolled back, so an exception comes with no tables.
use asset_it.Prelude.{
  ℕ, suc, Bool, ◌&&◌, ◌||◌, Option, none, some, List, ◌∷◌, ◌++◌, map, Text, text, text_eq, any,
  find, is_some, ◌==◌, if◌then◌else◌, ok, err,
}
use asset_it.Store.Enums.{StatusCode, AssignmentStatus, is_open, is_open_maintenance}
use asset_it.Store.Rows.{
  Person, Location, Warehouse, Asset, Assignment, AssetReturn, AssetTransfer, MaintenanceRecord,
  AssetHistory, AuditLog,
}
use asset_it.Store.DisposalRows.{DisposalCase}
use asset_it.Store.InventoryRows.{InventorySession}
use asset_it.Store.Exceptions.{Outcome, unique_violation, check_violation, record_missing}

-- What a request finds: the clock, the date and the time in a document number, the random part of the
-- number with a given prefix, and the reference tables, which the modelled services only read.
pub record Env : Type 0 where
  pub now : ℕ
  pub day : Text
  pub stamp : Text
  pub short_id : Text → Text
  pub has_status : StatusCode → Bool
  pub person : ℕ → Option Person
  pub location : ℕ → Option Location
  pub warehouse : ℕ → Option Warehouse
  pub department_name : ℕ → Option Text
  pub category_name : ℕ → Text
  pub category_active : ℕ → Bool
  pub is_archived : StatusCode → Bool
  pub user_name : ℕ → Text
  -- the comparison of the database that leaves the case of letters out, and `toISOString`
  pub same_code : Text → Text → Bool
  pub iso : ℕ → Text

-- Rows stand newest first; `next_id` is the identifier that the next row gets.
pub record Db : Type 0 where
  pub asset : ℕ → Option Asset
  pub assignments : List Assignment
  pub returns : List AssetReturn
  pub transfers : List AssetTransfer
  pub maintenance : List MaintenanceRecord
  pub history : List AssetHistory
  pub audit : List AuditLog
  pub cases : ℕ → Option DisposalCase
  pub sessions : ℕ → Option InventorySession
  pub next_id : ℕ

-- `${prefix}-${date}-${random}`
pub reference : Env → Text → Text
reference env prefix = prefix ++ (text "-" ++ (env.day ++ (text "-" ++ env.short_id prefix)))

-- The CHECK `assets_custody_excludes_warehouse` fails on such a row.
abbrev pub in_two_places : Asset → Bool
in_two_places a = is_some a.warehouse_id && is_some a.current_custodian_id

abbrev pub put_asset : (ℕ → Option Asset) → ℕ → Asset → ℕ → Option Asset
put_asset f k a j = if j == k then some a else f j

-- `tx.asset.update({ where: { id }, data })`
unfoldable pub update_asset : ℕ → (Asset → Asset) → Db → Outcome Db
update_asset k change db = elim (db.asset k) [
  | none ↦ err record_missing
  | some a ↦
      if in_two_places (change a)
      then err check_violation
      else ok (record db { asset = put_asset db.asset k (change a) })
]

abbrev pub open_for : ℕ → Assignment → Bool
open_for k r = is_open r.status && r.asset_id == k

abbrev pub open_maintenance_for : ℕ → MaintenanceRecord → Bool
open_maintenance_for k r = is_open_maintenance r.status && r.asset_id == k

-- `tx.assetAssignment.findFirst({ where: { assetId, status: OPEN } })`
abbrev pub open_assignment : Db → ℕ → Option Assignment
open_assignment db k = find (open_for k) db.assignments

-- `tx.maintenanceRecord.findFirst({ where: { assetId, status: OPEN } })`
abbrev pub open_record : Db → ℕ → Option MaintenanceRecord
open_record db k = find (open_maintenance_for k) db.maintenance

-- The unique keys `assignmentNo` and `asset_assignments_one_open_per_asset`.
unfoldable pub create_assignment : Assignment → Db → Outcome Db
create_assignment row db =
    if any (λ (r : Assignment). text_eq r.assignment_no row.assignment_no) db.assignments
      || (is_open row.status && is_some (open_assignment db row.asset_id))
    then err unique_violation
    else ok (record db { assignments = row ∷ db.assignments; next_id = suc db.next_id })

-- `tx.assetAssignment.update({ where: { id }, data: { status: CLOSED, closedAt } })`
abbrev pub close_row : ℕ → ℕ → Assignment → Assignment
close_row k now r =
    if r.id == k then record r { status = AssignmentStatus.closed; closed_at = some now } else r

unfoldable pub close_assignment : ℕ → ℕ → Db → Db
close_assignment k now db = record db { assignments = map (close_row k now) db.assignments }

-- The unique keys `returnNo` and `assignmentId`.
unfoldable pub create_return : AssetReturn → Db → Outcome Db
create_return row db =
    if any
      (λ (r : AssetReturn).
        text_eq r.return_no row.return_no || r.assignment_id == row.assignment_id)
      db.returns
    then err unique_violation
    else ok (record db { returns = row ∷ db.returns; next_id = suc db.next_id })

-- The unique key `transferNo`.
unfoldable pub create_transfer : AssetTransfer → Db → Outcome Db
create_transfer row db =
    if any (λ (r : AssetTransfer). text_eq r.transfer_no row.transfer_no) db.transfers
    then err unique_violation
    else ok (record db { transfers = row ∷ db.transfers; next_id = suc db.next_id })

-- The unique keys `maintenanceNo` and `maintenance_records_one_open_per_asset`.
unfoldable pub create_maintenance : MaintenanceRecord → Db → Outcome Db
create_maintenance row db =
    if any (λ (r : MaintenanceRecord). text_eq r.maintenance_no row.maintenance_no) db.maintenance
      || (is_open_maintenance row.status && is_some (open_record db row.asset_id))
    then err unique_violation
    else ok (record db { maintenance = row ∷ db.maintenance; next_id = suc db.next_id })

-- `tx.maintenanceRecord.update({ where: { id }, data })`, on the row that was read
abbrev pub replace_record : MaintenanceRecord → MaintenanceRecord → MaintenanceRecord
replace_record row r = if r.id == row.id then row else r

unfoldable pub update_maintenance : MaintenanceRecord → Db → Db
update_maintenance row db = record db { maintenance = map (replace_record row) db.maintenance }

-- `tx.assetHistory.create` and `tx.auditLog.create`
abbrev pub add_history : AssetHistory → Db → Db
add_history row db = record db { history = row ∷ db.history }

abbrev pub add_audit : AuditLog → Db → Db
add_audit row db = record db { audit = row ∷ db.audit }
