-- ===== src/Inventory/Guards.antt =====
-- The private helpers of `InventoryService` (apps/api/src/modules/inventory/inventory.service.ts).
use asset_it.Prelude.{
  ℕ, zero, suc, Bool, true, false, not, ◌&&◌, ◌==◌, Option, none, some, List, [], ◌∷◌, same_id, ok,
  err, throw_if, or_throw, if◌then◌else◌,
}
use asset_it.Store.Enums.{Role, admin, it, hcns}
use asset_it.Store.Rows.{Actor, Asset}
use asset_it.Store.InventoryRows.{InventorySession, InventoryStatus}
use asset_it.Store.Exceptions.{
  Outcome, forbidden, not_found, inventory_operator_required, hcns_without_department,
  hcns_department_only, session_out_of_scope, session_not_found,
}
use asset_it.Store.Tables.{Env, Db}

abbrev pub is_counter_role : Role → Bool
is_counter_role admin = true
is_counter_role it = true
is_counter_role hcns = true
is_counter_role _ = false

abbrev pub is_hcns : Role → Bool
is_hcns hcns = true
is_hcns _ = false

unfoldable pub assert_operator : Actor → Outcome (Unit {0})
assert_operator actor =
    throw_if (not (is_counter_role actor.role)) (forbidden inventory_operator_required)

-- `requested && requested !== actor.departmentId`
abbrev pub asks_other : Option ℕ → ℕ → Bool
asks_other none own = false
asks_other (some d) own = not (d == own)

-- `departmentScope` of an HCNS account
abbrev pub hcns_scope : Option ℕ → Option ℕ → Outcome (Option ℕ)
hcns_scope none requested = err (forbidden hcns_without_department)
hcns_scope (some own) requested =
    if asks_other requested own then err (forbidden hcns_department_only) else ok (some own)

unfoldable pub department_scope : Actor → Option ℕ → Outcome (Option ℕ)
department_scope actor requested =
    let own = hcns_scope actor.department_id requested in
    if is_hcns actor.role then own else ok requested

unfoldable pub assert_session_scope : InventorySession → Actor → Outcome (Unit {0})
assert_session_scope session actor =
    throw_if (is_hcns actor.role && not (same_id session.scope_department_id actor.department_id))
      (forbidden session_out_of_scope)

abbrev pub is_open : InventoryStatus → Bool
is_open InventoryStatus.open_ = true
is_open _ = false

-- `findUnique({ where: { id } })`, with its exception
abbrev pub find_session : Db → ℕ → Outcome InventorySession
find_session db k = or_throw (db.sessions k) (not_found session_not_found)

abbrev pub put_session :
    (ℕ → Option InventorySession) → ℕ → Option InventorySession → ℕ → Option InventorySession
put_session f k s j = if j == k then s else f j

-- `tx.asset.findMany({ where })`: every identifier that was given out is below `next_id`. The latest
-- row comes first; the source leaves the order to the database.
abbrev pub put_row : ℕ → (Asset → Bool) → Option Asset → List (ℕ × Asset) → List (ℕ × Asset)
put_row k p none rest = rest
put_row k p (some a) rest = if p a then (k, a) ∷ rest else rest

unfoldable pub assets_below : ℕ → (ℕ → Option Asset) → (Asset → Bool) → List (ℕ × Asset)
assets_below zero f p = []
assets_below (suc k) f p = put_row k p (f k) (assets_below k f p)

-- `findFirst({ where })`
abbrev pub first_of : {A : Type 0} → List A → Option A
first_of [] = none
first_of (x ∷ rest) = some x

-- `deletedAt: null, status: { isArchived: false }`
abbrev pub countable : Env → Asset → Bool
countable env a = not a.deleted && not (env.is_archived a.status)
