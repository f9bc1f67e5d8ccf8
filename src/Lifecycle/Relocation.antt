-- ===== src/Lifecycle/Relocation.antt =====
-- `transfer` of `LifecycleService`.
use asset_it.Prelude.{
  ℕ, Bool, not, ◌&&◌, Option, none, some, [], ◌∷◌, ◌++◌, Text, text, trim, ok, throw_if, ◌>>=◌,
  ◌>>◌, option_map, option_bind, is_some, same_id,
}
use asset_it.Store.Enums.{HistoryAction}
use asset_it.Store.Rows.{Actor, Location, Warehouse, Asset, AssetTransfer, Json}
use asset_it.Store.Exceptions.{
  Outcome, bad_request, target_warehouse_invalid, target_required, target_location_invalid,
  target_unchanged,
}
use asset_it.Store.Tables.{
  Env, Db, reference, update_asset, create_transfer, add_history, add_audit,
}
use asset_it.Lifecycle.Rules.{assert_transfer_allowed}
use asset_it.Lifecycle.Guards.{assert_operator, assert_department_scope, apply_rule, find_asset}
use asset_it.Lifecycle.Recall.{active_warehouse, destination}

-- `TransferAssetDto`
pub record TransferAsset : Type 0 where
  pub to_warehouse_id : Option ℕ
  pub to_location_id : Option ℕ
  pub condition : Option Text
  pub reason : Text

abbrev pub nullable_id : Option ℕ → Json
nullable_id none = Json.null
nullable_id (some k) = Json.id k

abbrev pub moved : ℕ → Option Warehouse → Asset → Asset
moved location_id warehouse a = record a {
  location_id = some location_id;
  warehouse_id = option_map (λ (w : Warehouse). w.id) warehouse;
}

-- The writes of `transfer`, from `tx.assetTransfer.create` on.
unfoldable pub write_transfer :
    Env
    → ℕ
    → Asset
    → Option Warehouse
    → ℕ
    → Location
    → TransferAsset
    → Actor
    → Db
    → Outcome (AssetTransfer × Db)
unfolding create_transfer update_asset
write_transfer env asset_id asset warehouse location_id location body actor db = do
  let row : AssetTransfer = record {
    id = db.next_id;
    transfer_no = reference env (text "PDC");
    asset_id = asset_id;
    from_location_id = asset.location_id;
    to_location_id = location_id;
    from_warehouse_id = asset.warehouse_id;
    to_warehouse_id = option_map (λ (w : Warehouse). w.id) warehouse;
    condition = option_map trim body.condition;
    reason = trim body.reason;
    transferred_by = actor.id;
  }
  db₁ ← create_transfer row db
  db₂ ← update_asset asset_id (moved location_id warehouse) db₁
  let db₃ =
      add_history
        (record {
          asset_id = asset_id;
          action = HistoryAction.transferred;
          from_user_id = none;
          to_user_id = none;
          from_location_id = asset.location_id;
          to_location_id = some location_id;
          reference_type = some (text "AssetTransfer");
          reference_id = some row.id;
          description = text "Điều chuyển đến " ++ location.name;
          performed_by = actor.id;
        })
        db₂
  ok (
    row,
    add_audit
        (record {
          user_id = actor.id;
          action = text "ASSET_TRANSFERRED";
          entity_type = text "Asset";
          entity_id = asset_id;
          old_values = [];
          new_values =
              (text "transferId", Json.id row.id)
              ∷ (text "toLocationId", Json.id location_id)
              ∷ (text "toWarehouseId", nullable_id (option_map (λ (w : Warehouse). w.id) warehouse))
              ∷ [];
        })
        db₃,
  )

abbrev pub unchanged : Asset → ℕ → Option Warehouse → Bool
unchanged asset location_id warehouse =
    same_id asset.location_id (some location_id)
    && same_id asset.warehouse_id (option_map (λ (w : Warehouse). w.id) warehouse)

unfoldable pub transfer : Env → ℕ → TransferAsset → Actor → Db → Outcome (AssetTransfer × Db)
unfolding assert_operator assert_department_scope assert_transfer_allowed
transfer env asset_id body actor db = do
  assert_operator actor
  asset ← find_asset db asset_id
  assert_department_scope actor asset.department_id
  apply_rule (
      assert_transfer_allowed asset.status (is_some body.to_warehouse_id)
        (is_some asset.current_custodian_id))
  let warehouse = option_bind body.to_warehouse_id (active_warehouse env)
  throw_if (is_some body.to_warehouse_id && not (is_some warehouse))
      (bad_request target_warehouse_invalid)
  (location_id, location) ←
      destination env warehouse body.to_location_id target_required target_location_invalid
  throw_if (unchanged asset location_id warehouse) (bad_request target_unchanged)
  write_transfer env asset_id asset warehouse location_id location body actor db
