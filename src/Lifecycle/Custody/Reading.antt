-- ===== src/Lifecycle/Custody/Reading.antt =====
-- How the ledger laws read the rows of the two tables.
use asset_it.Prelude.{ℕ, Bool}
use asset_it.Store.Enums.{is_open, is_open_maintenance}
use asset_it.Store.Rows.{Assignment, MaintenanceRecord}

abbrev pub assignment_id : Assignment → ℕ
assignment_id r = r.id

abbrev pub assignment_asset : Assignment → ℕ
assignment_asset r = r.asset_id

abbrev pub assignment_open : Assignment → Bool
assignment_open r = is_open r.status

abbrev pub record_id : MaintenanceRecord → ℕ
record_id r = r.id

abbrev pub record_asset : MaintenanceRecord → ℕ
record_asset r = r.asset_id

abbrev pub record_open : MaintenanceRecord → Bool
record_open r = is_open_maintenance r.status
