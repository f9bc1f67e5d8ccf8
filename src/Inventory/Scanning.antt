-- ===== src/Inventory/Scanning.antt =====
-- `scan` of `InventoryService`.
use asset_it.Prelude.{
  ℕ, Bool, true, false, not, ◌&&◌, ◌||◌, ◌==◌, Option, none, some, List, [], ◌∷◌, Text, text, trim,
  option_map, option_bind, or_else, same_id, only_if, is_some, map, find, ok, throw_if, or_throw,
  ◌>>=◌, ◌>>◌, if◌then◌else◌,
}
use asset_it.Store.Rows.{Actor, Asset, Person, Json}
use asset_it.Store.InventoryRows.{InventorySession, InventoryItem, InventoryResult}
use asset_it.Store.Exceptions.{
  Outcome, bad_request, forbidden, not_found, session_not_open, asset_code_not_found,
  asset_out_of_scope, observed_location_invalid, observed_custodian_invalid,
}
use asset_it.Store.Tables.{Env, Db, add_audit}
use asset_it.Inventory.Rules.{inventory_result, result_name}
use asset_it.Inventory.Guards.{
  assert_operator, assert_session_scope, is_hcns, is_open, find_session, put_session, assets_below,
  first_of, countable,
}
use asset_it.Inventory.Opening.{location_ok, blank_item}

-- `ScanInventoryDto`: `found` left out counts as found, and other values than `false` become `true`.
pub record ScanInventory : Type 0 where
  pub value : Text
  pub observed_location_id : Option ℕ
  pub observed_custodian_id : Option ℕ
  pub found : Bool
  pub note : Option Text

abbrev pub same_code_as : Env → Text → Option Text → Bool
same_code_as env value none = false
same_code_as env value (some code) = env.same_code code value

-- The `where` of the search by tag, barcode or serial number.
abbrev pub carries : Env → Text → Asset → Bool
carries env value a =
    countable env a
    && (env.same_code a.asset_tag value
        || same_code_as env value a.barcode
        || same_code_as env value a.serial_number)

abbrev pub custodian_ok : Env → Option ℕ → Bool
custodian_ok env none = true
custodian_ok env (some p) = is_some (only_if (λ (row : Person). row.active) (env.person p))

-- `findUnique({ where: { sessionId_assetId } })`
abbrev pub is_of : ℕ → InventoryItem → Bool
is_of a i = i.asset_id == a

abbrev pub item_of : ℕ → List InventoryItem → Option InventoryItem
item_of a items = find (is_of a) items

abbrev pub seen_location : ScanInventory → Asset → Option ℕ
seen_location body a = if body.found then or_else body.observed_location_id a.location_id else none

abbrev pub seen_custodian : ScanInventory → Asset → Option ℕ
seen_custodian body a =
    if body.found then or_else body.observed_custodian_id a.current_custodian_id else none

-- `result`
unfoldable pub scan_result : Option InventoryItem → ScanInventory → Asset → InventoryResult
scan_result current body a =
    let counted =
      inventory_result (option_bind current (λ (i : InventoryItem). i.expected_location_id))
        (option_bind current (λ (i : InventoryItem). i.expected_custodian_id))
        (seen_location body a) (seen_custodian body a) (is_some current) in
    if body.found then counted else InventoryResult.missing

-- `data`, written into an item; without a note the note stays.
abbrev pub observed :
    ScanInventory → Asset → InventoryResult → ℕ → Actor → InventoryItem → InventoryItem
observed body a result now actor i = record i {
  observed_location_id = seen_location body a;
  observed_custodian_id = seen_custodian body a;
  scanned_at = some now;
  scanned_by = some actor.id;
  result = result;
  note = or_else (option_map trim body.note) i.note;
}

abbrev pub change_item : ℕ → (InventoryItem → InventoryItem) → InventoryItem → InventoryItem
change_item a change i = if is_of a i then change i else i

-- The item that was found is changed; without one, a new one is made.
unfoldable pub write_item :
    Option InventoryItem
    → ℕ
    → (InventoryItem → InventoryItem)
    → List InventoryItem
    → List InventoryItem
write_item none a change items = change (blank_item a none none) ∷ items
write_item (some i) a change items = map (change_item a change) items

-- The writes of `scan`, for the asset `a` with the identifier `n`.
unfoldable pub write_scan :
    Env → ℕ → InventorySession → ScanInventory → Actor → ℕ → Asset → Db → InventoryResult × Db
write_scan env k session body actor n a db =
    let current = item_of n session.items in
    let result = scan_result current body a in
    (
      result,
      add_audit
          (record {
            user_id = actor.id;
            action = text "INVENTORY_ITEM_SCANNED";
            entity_type = text "InventorySession";
            entity_id = k;
            old_values = [];
            new_values =
                (text "assetId", Json.id n) ∷ (text "result", Json.str (result_name result)) ∷ [];
          })
          (record db {
            sessions = put_session db.sessions k (
                some (record session {
                  items = write_item current n (observed body a result env.now actor) session.items;
                }));
          }),
    )

-- What is returned is the result of the item.
unfoldable pub scan : Env → ℕ → ScanInventory → Actor → Db → Outcome (InventoryResult × Db)
unfolding assert_operator assert_session_scope
scan env k body actor db = do
  assert_operator actor
  session ← find_session db k
  assert_session_scope session actor
  throw_if (not (is_open session.status)) (bad_request session_not_open)
  row ←
      or_throw (first_of (assets_below db.next_id db.asset (carries env body.value)))
        (not_found asset_code_not_found)
  throw_if (is_hcns actor.role && not (same_id row.1.department_id actor.department_id))
      (forbidden asset_out_of_scope)
  throw_if (not (location_ok env body.observed_location_id)) (bad_request observed_location_invalid)
  throw_if (not (custodian_ok env body.observed_custodian_id))
      (bad_request observed_custodian_invalid)
  ok (write_scan env k session body actor row.0 row.1 db)
