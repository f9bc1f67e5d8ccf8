-- ===== src/Inventory/Opening.antt =====
-- `create` of `InventoryService`.
use asset_it.Prelude.{
  ℕ, suc, Bool, true, false, not, ◌&&◌, ◌==◌, Option, none, some, List, [], ◌∷◌, Text, text,
  text_eq, trim, length, any_below, same_id, only_if, is_some, map, ok, throw_if, ◌>>=◌, ◌>>◌,
}
use asset_it.Store.Rows.{Actor, Asset, Location, Warehouse, Json}
use asset_it.Store.InventoryRows.{InventorySession, InventoryStatus, InventoryItem, InventoryResult}
use asset_it.Store.Exceptions.{
  Outcome, bad_request, unique_violation, inventory_location_invalid, inventory_warehouse_invalid,
  inventory_category_invalid, nothing_to_count,
}
use asset_it.Store.Tables.{Env, Db, reference, add_audit}
use asset_it.Inventory.Guards.{
  assert_operator, department_scope, put_session, assets_below, countable,
}

-- `CreateInventoryDto`. A condition that is left out is `none`; `null`, which the validation lets pass
-- too, is not modelled.
pub record CreateInventory : Type 0 where
  pub name : Text
  pub department_id : Option ℕ
  pub location_id : Option ℕ
  pub warehouse_id : Option ℕ
  pub category_id : Option ℕ

abbrev pub location_ok : Env → Option ℕ → Bool
location_ok env none = true
location_ok env (some l) = is_some (only_if (λ (row : Location). row.active) (env.location l))

abbrev pub warehouse_ok : Env → Option ℕ → Bool
warehouse_ok env none = true
warehouse_ok env (some w) = is_some (only_if (λ (row : Warehouse). row.active) (env.warehouse w))

abbrev pub category_ok : Env → Option ℕ → Bool
category_ok env none = true
category_ok env (some c) = env.category_active c

-- A condition that is `undefined` leaves the column out of the query.
abbrev pub is_if_given : Option ℕ → Option ℕ → Bool
is_if_given none column = true
is_if_given (some wanted) column = same_id (some wanted) column

abbrev pub in_scope : Env → CreateInventory → Option ℕ → Asset → Bool
in_scope env body department a =
    countable env a
    && is_if_given department a.department_id
    && is_if_given body.location_id a.location_id
    && is_if_given body.warehouse_id a.warehouse_id
    && is_if_given body.category_id (some a.category_id)

abbrev pub blank_item : ℕ → Option ℕ → Option ℕ → InventoryItem
blank_item asset_id location custodian = record {
  asset_id = asset_id;
  expected_location_id = location;
  expected_custodian_id = custodian;
  observed_location_id = none;
  observed_custodian_id = none;
  scanned_at = none;
  scanned_by = none;
  result = InventoryResult.pending;
  note = none;
}

abbrev pub expected_item : ℕ × Asset → InventoryItem
expected_item row = blank_item row.0 row.1.location_id row.1.current_custodian_id

abbrev pub new_session :
    Env → CreateInventory → Option ℕ → Actor → ℕ → List (ℕ × Asset) → InventorySession
new_session env body department actor k assets = record {
  id = k;
  inventory_no = reference env (text "KK");
  name = trim body.name;
  status = InventoryStatus.open_;
  scope_department_id = department;
  scope_location_id = body.location_id;
  scope_warehouse_id = body.warehouse_id;
  scope_category_id = body.category_id;
  started_at = env.now;
  closed_at = none;
  cancelled_at = none;
  created_by = actor.id;
  items = map expected_item assets;
}

-- The unique key `inventoryNo`.
abbrev pub has_number : Text → Option InventorySession → Bool
has_number number none = false
has_number number (some s) = text_eq s.inventory_no number

abbrev pub number_taken : Db → Text → Bool
number_taken db number = any_below db.next_id (λ k. has_number number (db.sessions k))

-- A key with `undefined` is left out of JSON.
abbrev pub option_entry : Text → Option ℕ → List (Text × Json)
option_entry key none = []
option_entry key (some k) = (key, Json.id k) ∷ []

-- The writes of `create`.
unfoldable pub write_session :
    Env → CreateInventory → Option ℕ → Actor → List (ℕ × Asset) → Db → InventorySession × Db
write_session env body department actor assets db =
    let session = new_session env body department actor db.next_id assets in
    (
      session,
      add_audit
          (record {
            user_id = actor.id;
            action = text "INVENTORY_CREATED";
            entity_type = text "InventorySession";
            entity_id = session.id;
            old_values = [];
            new_values =
                (text "inventoryNo", Json.str session.inventory_no)
                ∷ (text "assetCount", Json.number (length assets))
                ∷ option_entry (text "scopeDepartmentId") department;
          })
          (record db {
            sessions = put_session db.sessions db.next_id (some session);
            next_id = suc db.next_id;
          }),
    )

unfoldable pub create : Env → CreateInventory → Actor → Db → Outcome (InventorySession × Db)
unfolding assert_operator department_scope
create env body actor db = do
  assert_operator actor
  department ← department_scope actor body.department_id
  throw_if (not (location_ok env body.location_id)) (bad_request inventory_location_invalid)
  throw_if (not (warehouse_ok env body.warehouse_id)) (bad_request inventory_warehouse_invalid)
  throw_if (not (category_ok env body.category_id)) (bad_request inventory_category_invalid)
  let assets = assets_below db.next_id db.asset (in_scope env body department)
  throw_if (length assets == 0) (bad_request nothing_to_count)
  throw_if (number_taken db (reference env (text "KK"))) unique_violation
  ok (write_session env body department actor assets db)
