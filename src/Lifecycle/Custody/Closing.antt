-- ===== src/Lifecycle/Custody/Closing.antt =====
-- The laws of `Store.Ledger` at the two tables: closing the open assignment of an asset, and
-- completing its open maintenance record.
use asset_it.Prelude.{ℕ, ◌≡◌, ◌≢◌, some, none, List, map, find, false, ==_refl, arith}
use asset_it.Store.Rows.{Assignment, MaintenanceRecord}
use asset_it.Store.Tables.{close_row, replace_record, open_for, open_maintenance_for}
use asset_it.Store.Ledger.{
  Below, OneOpen, find-close_self, find-close_ne, Below-close, OneOpen-close,
}
use asset_it.Lifecycle.Custody.Reading.{
  assignment_id, assignment_asset, assignment_open, record_id, record_asset, record_open,
}

module _ (o : Assignment) (now k n : ℕ) (rows : List Assignment)
    (below : Below assignment_id assignment_asset assignment_open n rows)
    (one : OneOpen assignment_id assignment_asset assignment_open rows)
    (found : find (open_for k) rows ≡ some o) where
  others : (r : Assignment) → r.id ≢ o.id → close_row o.id now r ≡ r
  others r away = ground arith

  keeps_id : (r : Assignment) → (close_row o.id now r).id ≡ r.id
  keeps_id r = ground arith

  same_key : (close_row o.id now o).asset_id ≡ o.asset_id
  same_key = ground arith

  shut : assignment_open (close_row o.id now o) ≡ false
  shut = rw (==_refl o.id)

  pub closed_self : find (open_for k) (map (close_row o.id now) rows) ≡ none
  closed_self =
      find-close_self assignment_id assignment_asset assignment_open (close_row o.id now) o others
        keeps_id same_key shut k n rows below one found

  pub closed_ne :
      (j : ℕ) → j ≢ k → find (open_for j) (map (close_row o.id now) rows) ≡ find (open_for j) rows
  closed_ne j away =
      find-close_ne assignment_id assignment_asset assignment_open (close_row o.id now) o others
        keeps_id same_key shut k j n rows away below found

  pub closed-Below :
      Below assignment_id assignment_asset assignment_open n (map (close_row o.id now) rows)
  closed-Below =
      Below-close assignment_id assignment_asset assignment_open (close_row o.id now) o others
        keeps_id same_key shut n rows below

  pub closed-OneOpen :
      OneOpen assignment_id assignment_asset assignment_open (map (close_row o.id now) rows)
  closed-OneOpen =
      OneOpen-close assignment_id assignment_asset assignment_open (close_row o.id now) o others
        keeps_id same_key shut k n rows below one found

-- `done` is `o` with its status and result written.
module _ (o done : MaintenanceRecord) (k n : ℕ) (rows : List MaintenanceRecord)
    (below : Below record_id record_asset record_open n rows)
    (one : OneOpen record_id record_asset record_open rows)
    (found : find (open_maintenance_for k) rows ≡ some o) (same : done.id ≡ o.id)
    (key : done.asset_id ≡ o.asset_id) (over : record_open done ≡ false) where
  rest : (r : MaintenanceRecord) → r.id ≢ o.id → replace_record done r ≡ r
  rest r away = ground arith

  keeps : (r : MaintenanceRecord) → (replace_record done r).id ≡ r.id
  keeps r = ground arith

  kept_asset : (replace_record done o).asset_id ≡ o.asset_id
  kept_asset = ground arith

  no_longer : record_open (replace_record done o) ≡ false
  no_longer = ground arith

  pub completed_self : find (open_maintenance_for k) (map (replace_record done) rows) ≡ none
  completed_self =
      find-close_self record_id record_asset record_open (replace_record done) o rest keeps
        kept_asset no_longer k n rows below one found

  pub completed_ne :
      (j : ℕ)
      → j ≢ k
      → find (open_maintenance_for j) (map (replace_record done) rows)
        ≡ find (open_maintenance_for j) rows
  completed_ne j away =
      find-close_ne record_id record_asset record_open (replace_record done) o rest keeps kept_asset
        no_longer k j n rows away below found

  pub completed-Below : Below record_id record_asset record_open n (map (replace_record done) rows)
  completed-Below =
      Below-close record_id record_asset record_open (replace_record done) o rest keeps kept_asset
        no_longer n rows below

  pub completed-OneOpen :
      OneOpen record_id record_asset record_open (map (replace_record done) rows)
  completed-OneOpen =
      OneOpen-close record_id record_asset record_open (replace_record done) o rest keeps kept_asset
        no_longer k n rows below one found
