-- ===== src/Lifecycle/Guards.antt =====
-- The private helpers of `LifecycleService` (apps/api/src/modules/lifecycle/lifecycle.service.ts).
use asset_it.Prelude.{
  ℕ, Bool, true, false, not, ◌==◌, Option, none, some, Result, ok, err, throw_if, or_throw, only_if,
}
use asset_it.Store.Enums.{Role, admin, it, hcns, StatusCode}
use asset_it.Store.Rows.{Actor, Asset}
use asset_it.Store.Exceptions.{
  RuleError, Exception, Outcome, forbidden, bad_request, not_found, conflict, unique_violation,
  rule, operator_required, department_scope, status_missing, asset_not_found, operation_open,
}
use asset_it.Store.Tables.{Env, Db}

-- `['ADMIN', 'IT', 'HCNS'].includes(role)`
abbrev pub is_operator : Role → Bool
is_operator admin = true
is_operator it = true
is_operator hcns = true
is_operator _ = false

unfoldable pub assert_operator : Actor → Outcome (Unit {0})
assert_operator actor = throw_if (not (is_operator actor.role)) (forbidden operator_required)

-- `!actor.departmentId || departmentId !== actor.departmentId`
abbrev pub outside : Option ℕ → Option ℕ → Bool
outside none department = true
outside (some own) none = true
outside (some own) (some d) = not (d == own)

abbrev pub out_of_scope : Role → Option ℕ → Option ℕ → Bool
out_of_scope hcns own department = outside own department
out_of_scope _ own department = false

unfoldable pub assert_department_scope : Actor → Option ℕ → Outcome (Unit {0})
assert_department_scope actor department =
    throw_if (out_of_scope actor.role actor.department_id department) (forbidden department_scope)

-- `this.rule(action)`: the error of a rule becomes a 400.
abbrev pub apply_rule {ℓ} : {A : Type ℓ} → Result RuleError A → Result Exception A
apply_rule (ok a) = ok a
apply_rule (err e) = err (bad_request (rule e))

-- `this.status(tx, code)`
abbrev pub find_status : Env → StatusCode → Outcome StatusCode
find_status env code = elim (env.has_status code) [
  | true ↦ ok code
  | false ↦ err (bad_request (status_missing code))
]

-- `this.asset(tx, id)`
abbrev pub find_asset : Db → ℕ → Outcome Asset
find_asset db k =
    or_throw (only_if (λ (a : Asset). not a.deleted) (db.asset k)) (not_found asset_not_found)

-- `this.conflict(error)`: a unique key that is taken becomes a 409.
abbrev pub on_conflict {ℓ} : {A : Type ℓ} → Result Exception A → Result Exception A
on_conflict (err unique_violation) = err (conflict operation_open)
on_conflict (err e) = err e
on_conflict (ok a) = ok a
