-- ===== src/Lifecycle/Recall.antt =====
-- `returnAsset` of `LifecycleService`.
use asset_it.Prelude.{
  ℕ, Bool, true, false, not, ◌&&◌, Option, none, some, [], ◌∷◌, ◌++◌, Text, text, trim, ok,
  throw_if, or_throw, ◌>>=◌, ◌>>◌, only_if, option_map, option_bind, or_else, get_or, is_some,
  is_nonempty,
}
use asset_it.Store.Enums.{StatusCode, ReturnOutcome, HistoryAction, MaintenanceStatus}
use asset_it.Store.Rows.{
  Actor, Person, Location, Warehouse, Asset, Assignment, AssetReturn, MaintenanceRecord, Json,
}
use asset_it.Store.Exceptions.{
  Outcome, Reason, bad_request, open_assignment_not_found, receiving_warehouse_invalid,
  ready_needs_warehouse, receiving_location_required, receiving_location_invalid,
}
use asset_it.Store.Tables.{
  Env, Db, reference, update_asset, open_assignment, close_assignment, create_return,
  create_maintenance, add_history, add_audit,
}
use asset_it.Lifecycle.Rules.{return_target}
use asset_it.Lifecycle.Guards.{
  assert_operator, assert_department_scope, apply_rule, find_status, find_asset, on_conflict,
}

-- `ReturnAssetDto`
pub record ReturnAsset : Type 0 where
  pub warehouse_id : Option ℕ
  pub location_id : Option ℕ
  pub condition_in : Text
  pub outcome : ReturnOutcome
  pub note : Option Text

abbrev pub outcome_is_ready : ReturnOutcome → Bool
outcome_is_ready ReturnOutcome.ready = true
outcome_is_ready _ = false

abbrev pub active_warehouse : Env → ℕ → Option Warehouse
active_warehouse env k = only_if (λ (w : Warehouse). w.active) (env.warehouse k)

abbrev pub active_location : Env → ℕ → Option Location
active_location env k = only_if (λ (l : Location). l.active) (env.location k)

-- `warehouse?.location || (await tx.location.findFirst(...))`. The row of a warehouse's location is
-- there by its foreign key; its status is not asked for.
abbrev pub place_of : Env → Option Warehouse → ℕ → Option Location
place_of env none k = active_location env k
place_of env (some w) k = or_else (env.location w.location_id) (active_location env k)

-- The destination of a return or a transfer: `warehouse?.locationId || body.locationId`, and its row.
unfoldable pub destination :
    Env → Option Warehouse → Option ℕ → Reason → Reason → Outcome (ℕ × Location)
destination env warehouse fallback required invalid = do
  location_id ←
      or_throw (or_else (option_map (λ (w : Warehouse). w.location_id) warehouse) fallback)
        (bad_request required)
  location ← or_throw (place_of env warehouse location_id) (bad_request invalid)
  ok (location_id, location)

-- `returnOutcomeLabel`
pub outcome_label : ReturnOutcome → Text
outcome_label ReturnOutcome.ready = text "Sẵn sàng"
outcome_label ReturnOutcome.maintenance = text "Cần bảo trì"
outcome_label ReturnOutcome.broken = text "Hỏng"

pub outcome_code : ReturnOutcome → Text
outcome_code ReturnOutcome.ready = text "READY"
outcome_code ReturnOutcome.maintenance = text "MAINTENANCE"
outcome_code ReturnOutcome.broken = text "BROKEN"

-- `body.note?.trim() || fallback`
pub note_or : Option Text → Text → Text
note_or none d = d
note_or (some n) d = elim (is_nonempty (trim n)) [ true ↦ trim n | false ↦ d ]

abbrev pub return_row :
    Env → Db → Assignment → ℕ → Option Warehouse → ℕ → ReturnAsset → Actor → AssetReturn
return_row env db assignment asset_id warehouse location_id body actor = record {
  id = db.next_id;
  return_no = reference env (text "PTH");
  assignment_id = assignment.id;
  asset_id = asset_id;
  warehouse_id = option_map (λ (w : Warehouse). w.id) warehouse;
  location_id = location_id;
  condition_in = trim body.condition_in;
  outcome = body.outcome;
  note = option_map trim body.note;
  returned_by = actor.id;
}

abbrev pub inspection_row :
    Env → Db → ℕ → Option Warehouse → ReturnAsset → Actor → MaintenanceRecord
inspection_row env db asset_id warehouse body actor = record {
  id = db.next_id;
  maintenance_no = reference env (text "PBT");
  asset_id = asset_id;
  warehouse_id = option_map (λ (w : Warehouse). w.id) warehouse;
  issue = note_or body.note (text "Kiểm tra sau thu hồi: " ++ trim body.condition_in);
  performed_by = actor.id;
  status = MaintenanceStatus.open_;
  completed_at = none;
  resolution = none;
  outcome = none;
  cost = none;
}

-- `if (body.outcome === 'MAINTENANCE') await tx.maintenanceRecord.create(...)`
abbrev pub inspect_if_needed :
    Env → ℕ → Option Warehouse → ReturnAsset → Actor → ReturnOutcome → Db → Outcome Db
inspect_if_needed env asset_id warehouse body actor ReturnOutcome.maintenance db =
    create_maintenance (inspection_row env db asset_id warehouse body actor) db
inspect_if_needed env asset_id warehouse body actor _ db = ok db

abbrev pub taken_back : StatusCode → ℕ → Option Warehouse → Asset → Asset
taken_back target location_id warehouse a = record a {
  status = target;
  current_custodian_id = none;
  assigned_user_id = none;
  department_id = none;
  location_id = some location_id;
  warehouse_id = option_map (λ (w : Warehouse). w.id) warehouse;
}

abbrev pub linked_user : Option Person → Option ℕ
linked_user p = option_bind p (λ (x : Person). x.linked_user_id)

abbrev pub name_of : Option Person → Text
name_of p = get_or (option_map (λ (x : Person). x.full_name) p) []

-- The writes of `returnAsset`, from `tx.assetReturn.create` on.
unfoldable pub write_return :
    Env
    → ℕ
    → Asset
    → Assignment
    → Option Warehouse
    → ℕ
    → StatusCode
    → ReturnAsset
    → Actor
    → Db
    → Outcome (AssetReturn × Db)
unfolding create_return create_maintenance close_assignment update_asset
write_return env asset_id asset assignment warehouse location_id target body actor db = do
  let row = return_row env db assignment asset_id warehouse location_id body actor
  db₁ ← create_return row db
  db₂ ← inspect_if_needed env asset_id warehouse body actor body.outcome db₁
  let db₃ = close_assignment assignment.id env.now db₂
  db₄ ← update_asset asset_id (taken_back target location_id warehouse) db₃
  let holder = env.person assignment.assigned_to_id
  let db₅ =
      add_history
        (record {
          asset_id = asset_id;
          action = HistoryAction.returned;
          from_user_id = linked_user holder;
          to_user_id = none;
          from_location_id = asset.location_id;
          to_location_id = some location_id;
          reference_type = some (text "AssetReturn");
          reference_id = some row.id;
          description =
              text "Thu hồi từ "
              ++ (name_of holder ++ (text "; kết quả " ++ outcome_label body.outcome));
          performed_by = actor.id;
        })
        db₄
  ok (
    row,
    add_audit
        (record {
          user_id = actor.id;
          action = text "ASSET_RETURNED";
          entity_type = text "Asset";
          entity_id = asset_id;
          old_values = [];
          new_values =
              (text "returnId", Json.id row.id)
              ∷ (text "outcome", Json.str (outcome_code body.outcome))
              ∷ (text "status", Json.status target)
              ∷ [];
        })
        db₅,
  )

unfoldable pub return_asset : Env → ℕ → ReturnAsset → Actor → Db → Outcome (AssetReturn × Db)
unfolding assert_operator assert_department_scope return_target
return_asset env asset_id body actor db = do
  assert_operator actor
  on_conflict do
    asset ← find_asset db asset_id
    assert_department_scope actor asset.department_id
    target ← apply_rule (return_target asset.status body.outcome)
    assignment ← or_throw (open_assignment db asset_id) (bad_request open_assignment_not_found)
    let warehouse = option_bind body.warehouse_id (active_warehouse env)
    throw_if (is_some body.warehouse_id && not (is_some warehouse))
        (bad_request receiving_warehouse_invalid)
    throw_if (outcome_is_ready body.outcome && not (is_some warehouse))
        (bad_request ready_needs_warehouse)
    (location_id, location) ←
        destination env warehouse body.location_id receiving_location_required
          receiving_location_invalid
    target_status ← find_status env target
    write_return env asset_id asset assignment warehouse location_id target_status body actor db
