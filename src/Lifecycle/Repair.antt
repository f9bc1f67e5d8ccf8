-- ===== src/Lifecycle/Repair.antt =====
-- `openMaintenance` and `completeMaintenance` of `LifecycleService`.
use asset_it.Prelude.{
  ℕ, Bool, true, false, not, ◌&&◌, ◌==◌, Option, none, some, [], ◌∷◌, ◌++◌, Text, text, trim, ok,
  throw_if, or_throw, ◌>>=◌, ◌>>◌, option_map, option_bind, or_else, is_some, find,
}
use asset_it.Store.Enums.{
  StatusCode, MaintenanceOutcome, MaintenanceStatus, HistoryAction, is_open_maintenance,
}
use asset_it.Store.Rows.{Actor, Warehouse, Asset, MaintenanceRecord, Json}
use asset_it.Store.Exceptions.{
  Outcome, bad_request, not_found, record_missing, return_before_maintenance,
  maintenance_warehouse_invalid, maintenance_not_found, ready_must_choose_warehouse,
  receiving_warehouse_invalid,
}
use asset_it.Store.Tables.{
  Env, Db, reference, update_asset, open_assignment, create_maintenance, update_maintenance,
  add_history, add_audit,
}
use asset_it.Lifecycle.Rules.{assert_maintenance_open_allowed, maintenance_target}
use asset_it.Lifecycle.Guards.{
  assert_operator, assert_department_scope, apply_rule, find_status, find_asset, on_conflict,
}
use asset_it.Lifecycle.Recall.{active_warehouse}

-- `OpenMaintenanceDto`
pub record OpenMaintenance : Type 0 where
  pub warehouse_id : Option ℕ
  pub issue : Text

abbrev pub in_repair : StatusCode → Asset → Asset
in_repair target a = record a {
  status = target;
  current_custodian_id = none;
  assigned_user_id = none;
}

abbrev pub maintenance_row :
    Env → Db → ℕ → Option Warehouse → OpenMaintenance → Actor → MaintenanceRecord
maintenance_row env db asset_id warehouse body actor = record {
  id = db.next_id;
  maintenance_no = reference env (text "PBT");
  asset_id = asset_id;
  warehouse_id = option_map (λ (w : Warehouse). w.id) warehouse;
  issue = trim body.issue;
  performed_by = actor.id;
  status = MaintenanceStatus.open_;
  completed_at = none;
  resolution = none;
  outcome = none;
  cost = none;
}

unfoldable pub open_maintenance :
    Env → ℕ → OpenMaintenance → Actor → Db → Outcome (MaintenanceRecord × Db)
unfolding assert_operator assert_department_scope assert_maintenance_open_allowed create_maintenance
    update_asset
open_maintenance env asset_id body actor db = do
  assert_operator actor
  on_conflict do
    asset ← find_asset db asset_id
    assert_department_scope actor asset.department_id
    apply_rule (assert_maintenance_open_allowed asset.status)
    throw_if (is_some (open_assignment db asset_id)) (bad_request return_before_maintenance)
    let warehouse = option_bind body.warehouse_id (active_warehouse env)
    throw_if (is_some body.warehouse_id && not (is_some warehouse))
        (bad_request maintenance_warehouse_invalid)
    target_status ← find_status env StatusCode.maintenance
    let row = maintenance_row env db asset_id warehouse body actor
    db₁ ← create_maintenance row db
    db₂ ← update_asset asset_id (in_repair target_status) db₁
    ok (
      row,
      add_history
          (record {
            asset_id = asset_id;
            action = HistoryAction.maintenance;
            from_user_id = none;
            to_user_id = none;
            from_location_id = none;
            to_location_id = none;
            reference_type = some (text "MaintenanceRecord");
            reference_id = some row.id;
            description = text "Mở bảo trì: " ++ trim body.issue;
            performed_by = actor.id;
          })
          db₂,
    )

-- `CompleteMaintenanceDto`
pub record CompleteMaintenance : Type 0 where
  pub outcome : MaintenanceOutcome
  pub resolution : Text
  pub cost : Option ℕ
  pub warehouse_id : Option ℕ

abbrev pub is_disposed_outcome : MaintenanceOutcome → Bool
is_disposed_outcome MaintenanceOutcome.disposed = true
is_disposed_outcome _ = false

-- The warehouse is looked up only for an asset that becomes ready, and must then be there.
abbrev pub receiving_warehouse : Env → MaintenanceOutcome → Option ℕ → Outcome (Option Warehouse)
receiving_warehouse env MaintenanceOutcome.ready warehouse_id = do
  k ← or_throw warehouse_id (bad_request ready_must_choose_warehouse)
  warehouse ← or_throw (active_warehouse env k) (bad_request receiving_warehouse_invalid)
  ok (some warehouse)
receiving_warehouse env _ warehouse_id = ok none

-- `condition ? null : value`
abbrev pub null_if : Bool → Option ℕ → Option ℕ
null_if true v = none
null_if false v = v

abbrev pub repaired : StatusCode → Option Warehouse → MaintenanceOutcome → Asset → Asset
repaired target warehouse outcome a = record a {
  status = target;
  warehouse_id =
      or_else (option_map (λ (w : Warehouse). w.id) warehouse)
        (null_if (is_disposed_outcome outcome) a.warehouse_id);
  location_id = or_else (option_map (λ (w : Warehouse). w.location_id) warehouse) a.location_id;
  current_custodian_id = none;
  assigned_user_id = none;
  department_id = null_if (is_disposed_outcome outcome) a.department_id;
}

pub outcome_text : MaintenanceOutcome → Text
outcome_text MaintenanceOutcome.ready = text "READY"
outcome_text MaintenanceOutcome.broken = text "BROKEN"
outcome_text MaintenanceOutcome.disposed = text "DISPOSED"

abbrev pub completion_action : MaintenanceOutcome → HistoryAction
completion_action MaintenanceOutcome.disposed = HistoryAction.disposed
completion_action _ = HistoryAction.maintenance

-- `tx.maintenanceRecord.findFirst({ where: { id, status: OPEN } })`
abbrev pub open_record_by_id : Db → ℕ → Option MaintenanceRecord
open_record_by_id db k =
    find (λ (r : MaintenanceRecord). is_open_maintenance r.status && r.id == k) db.maintenance

-- `record.asset` is there by its foreign key.
unfoldable pub complete_maintenance :
    Env → ℕ → CompleteMaintenance → Actor → Db → Outcome (MaintenanceRecord × Db)
unfolding assert_operator assert_department_scope maintenance_target update_maintenance update_asset
complete_maintenance env record_id body actor db = do
  assert_operator actor
  row ← or_throw (open_record_by_id db record_id) (not_found maintenance_not_found)
  asset ← or_throw (db.asset row.asset_id) record_missing
  assert_department_scope actor asset.department_id
  target ← apply_rule (maintenance_target asset.status body.outcome)
  warehouse ← receiving_warehouse env body.outcome body.warehouse_id
  target_status ← find_status env target
  let completed : MaintenanceRecord = record row {
    status = MaintenanceStatus.completed;
    completed_at = some env.now;
    resolution = some (trim body.resolution);
    outcome = some body.outcome;
    cost = body.cost;
    warehouse_id = or_else (option_map (λ (w : Warehouse). w.id) warehouse) row.warehouse_id;
  }
  let db₁ = update_maintenance completed db
  db₂ ← update_asset row.asset_id (repaired target_status warehouse body.outcome) db₁
  let db₃ =
      add_history
        (record {
          asset_id = row.asset_id;
          action = completion_action body.outcome;
          from_user_id = none;
          to_user_id = none;
          from_location_id = none;
          to_location_id = none;
          reference_type = some (text "MaintenanceRecord");
          reference_id = some row.id;
          description = text "Hoàn tất bảo trì: " ++ outcome_text body.outcome;
          performed_by = actor.id;
        })
        db₂
  ok (
    completed,
    add_audit
        (record {
          user_id = actor.id;
          action = text "MAINTENANCE_COMPLETED";
          entity_type = text "Asset";
          entity_id = row.asset_id;
          old_values = [];
          new_values =
              (text "maintenanceId", Json.id row.id)
              ∷ (text "outcome", Json.str (outcome_text body.outcome))
              ∷ (text "status", Json.status target)
              ∷ [];
        })
        db₃,
  )
