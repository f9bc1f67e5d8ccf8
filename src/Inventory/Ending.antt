-- ===== src/Inventory/Ending.antt =====
-- `close`, `cancel` and `remove` of `InventoryService`. The last two read the session before the
-- transaction begins; here nothing runs in between.
use asset_it.Prelude.{
  ℕ, Bool, true, false, not, Option, none, some, List, [], ◌∷◌, ◌++◌, Text, text, option_map, map,
  ok, throw_if, ◌>>=◌, ◌>>◌, if◌then◌else◌,
}
use asset_it.Store.Enums.{Role, admin, HistoryAction}
use asset_it.Store.Rows.{Actor, Asset, AssetHistory, Json}
use asset_it.Store.InventoryRows.{InventorySession, InventoryStatus, InventoryItem, InventoryResult}
use asset_it.Store.Exceptions.{Outcome, bad_request, forbidden, session_not_open, admin_required}
use asset_it.Store.Tables.{Env, Db, add_audit}
use asset_it.Inventory.Rules.{same_result, result_name, summary}
use asset_it.Inventory.Guards.{
  assert_operator, assert_session_scope, is_open, find_session, put_session,
}

-- `updateMany({ where: { result: PENDING }, data: { result: MISSING } })`
abbrev pub given_up : InventoryItem → InventoryItem
given_up i =
    if same_result i.result InventoryResult.pending
    then record i { result = InventoryResult.missing }
    else i

abbrev pub inventoried : InventorySession → ℕ → Actor → InventoryItem → AssetHistory
inventoried session k actor i = record {
  asset_id = i.asset_id;
  action = HistoryAction.inventoried;
  from_user_id = none;
  to_user_id = none;
  from_location_id = none;
  to_location_id = none;
  reference_type = some (text "InventorySession");
  reference_id = some k;
  description = text "Kiểm kê " ++ session.inventory_no;
  performed_by = actor.id;
}

abbrev pub closed_session : ℕ → InventorySession → InventorySession
closed_session now s = record s {
  status = InventoryStatus.closed;
  closed_at = some now;
  items = map given_up s.items;
}

-- The writes of `close`.
unfoldable pub write_close : Env → ℕ → InventorySession → Actor → Db → InventorySession × Db
write_close env k session actor db =
    let closed = closed_session env.now session in
    (
      closed,
      add_audit
          (record {
            user_id = actor.id;
            action = text "INVENTORY_CLOSED";
            entity_type = text "InventorySession";
            entity_id = k;
            old_values = [];
            new_values = (text "inventoryNo", Json.str session.inventory_no) ∷ [];
          })
          (record db {
            sessions = put_session db.sessions k (some closed);
            history = map (inventoried session k actor) session.items ++ db.history;
          }),
    )

unfoldable pub close : Env → ℕ → Actor → Db → Outcome (InventorySession × Db)
unfolding assert_operator assert_session_scope
close env k actor db = do
  assert_operator actor
  session ← find_session db k
  assert_session_scope session actor
  throw_if (not (is_open session.status)) (bad_request session_not_open)
  ok (write_close env k session actor db)

abbrev pub cancelled_session : ℕ → InventorySession → InventorySession
cancelled_session now s = record s { status = InventoryStatus.cancelled; cancelled_at = some now }

-- The writes of `cancel`.
unfoldable pub write_cancel : Env → ℕ → InventorySession → Actor → Db → InventorySession × Db
write_cancel env k session actor db =
    let cancelled = cancelled_session env.now session in
    (
      cancelled,
      add_audit
          (record {
            user_id = actor.id;
            action = text "INVENTORY_CANCELLED";
            entity_type = text "InventorySession";
            entity_id = k;
            old_values = [];
            new_values = [];
          })
          (record db { sessions = put_session db.sessions k (some cancelled) }),
    )

unfoldable pub cancel : Env → ℕ → Actor → Db → Outcome (InventorySession × Db)
unfolding assert_operator assert_session_scope
cancel env k actor db = do
  assert_operator actor
  session ← find_session db k
  assert_session_scope session actor
  throw_if (not (is_open session.status)) (bad_request session_not_open)
  ok (write_cancel env k session actor db)

abbrev pub session_status_name : InventoryStatus → Text
session_status_name InventoryStatus.open_ = text "OPEN"
session_status_name InventoryStatus.closed = text "CLOSED"
session_status_name InventoryStatus.cancelled = text "CANCELLED"

abbrev pub text_entry : Text → Option Text → List (Text × Text)
text_entry key none = []
text_entry key (some t) = (key, t) ∷ []

-- What the audit entry keeps of an item, `null` being left out. The asset is there by the foreign key.
pub item_entry : Env → Db → InventoryItem → List (Text × Text)
item_entry env db i =
    text_entry (text "assetTag") (option_map (λ (a : Asset). a.asset_tag) (db.asset i.asset_id))
    ++ (text_entry (text "assetName") (option_map (λ (a : Asset). a.name) (db.asset i.asset_id))
        ++ ((text "result", result_name i.result)
            ∷ (text_entry (text "scannedAt") (option_map env.iso i.scanned_at)
                ++ text_entry (text "note") i.note)))

abbrev pub nullable_text : Option Text → Json
nullable_text none = Json.null
nullable_text (some t) = Json.str t

abbrev pub named_count : InventoryResult × ℕ → Text × ℕ
named_count entry = (result_name entry.0, entry.1)

abbrev pub is_admin : Role → Bool
is_admin admin = true
is_admin _ = false

-- The items go with the session, by the cascade.
unfoldable pub erase_session : ℕ → Db → Db
erase_session k db = record db { sessions = put_session db.sessions k none }

unfoldable pub remove : Env → ℕ → Actor → Db → Outcome Db
remove env k actor db = do
  throw_if (not (is_admin actor.role)) (forbidden admin_required)
  session ← find_session db k
  ok (
      erase_session k (
        add_audit
          (record {
            user_id = actor.id;
            action = text "INVENTORY_DELETED";
            entity_type = text "InventorySession";
            entity_id = k;
            old_values =
                (text "inventoryNo", Json.str session.inventory_no)
                ∷ (text "name", Json.str session.name)
                ∷ (text "status", Json.str (session_status_name session.status))
                ∷ (text "startedAt", Json.str (env.iso session.started_at))
                ∷ (text "closedAt", nullable_text (option_map env.iso session.closed_at))
                ∷ (text "createdBy", Json.str (env.user_name session.created_by))
                ∷ (text "summary", Json.counts (map named_count (summary session.items)))
                ∷ (text "items", Json.records (map (item_entry env db) session.items))
                ∷ [];
            new_values = [];
          })
          db))
