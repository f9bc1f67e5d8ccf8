-- ===== src/Incidents/Desk.antt =====
-- The incident tables, what a request on them reads, and the private helpers of `IncidentsService`
-- (apps/api/src/modules/incidents/incidents.service.ts).
use asset_it.Prelude.{
  ℕ, Bool, true, false, not, ◌&&◌, ◌==◌, Option, none, some, List, ◌∷◌, map, Text, trim,
  is_nonempty, ok, err, throw_if, or_throw, ◌>>◌, option_bind, is_some, only_if, if◌then◌else◌,
}
use asset_it.Store.Enums.{Role, admin, it}
use asset_it.Store.Rows.{Actor, Asset, Location, AuditLog}
use asset_it.Store.Exceptions.{
  Outcome, forbidden, bad_request, not_found, incident_operator_required,
  affected_department_invalid, incident_location_invalid, related_asset_invalid, assignee_invalid,
  incident_not_found,
}
use asset_it.Store.Tables.{Env}
use asset_it.Incidents.Rows.{
  Incident, IncidentAssignment, IncidentAssignmentRole, IncidentActivity, Operator, Department,
}

-- What a request reads besides the incident tables.
pub record Sources : Type 0 where
  pub env : Env
  pub asset : ℕ → Option Asset
  pub user : ℕ → Option Operator
  pub department : ℕ → Option Department
  -- number and title of a risk
  pub risk : ℕ → Text × Text

-- `risk_links` lists a risk and the incident that it cites. Rows stand newest first.
pub record Desk : Type 0 where
  pub incident : ℕ → Option Incident
  pub assignments : List IncidentAssignment
  pub activities : List IncidentActivity
  pub risk_links : List (ℕ × ℕ)
  pub audit : List AuditLog
  pub next_id : ℕ

abbrev pub is_desk_role : Role → Bool
is_desk_role admin = true
is_desk_role it = true
is_desk_role _ = false

-- `this.assertOperator(actor)`
unfoldable pub assert_operator : Actor → Outcome (Unit {0})
assert_operator actor =
    throw_if (not (is_desk_role actor.role)) (forbidden incident_operator_required)

-- `this.clean(value)`
abbrev pub clean : Option Text → Option Text
clean none = none
clean (some t) = if is_nonempty (trim t) then some (trim t) else none

-- The `where` of `validateReferences` on users: an active administrator or IT user of an active
-- incident response team. The row comes with its department, which is there by the condition.
abbrev pub in_response_team : Sources → Option ℕ → Option ℕ
in_response_team src none = none
in_response_team src (some d) = elim (src.department d) [
  | none ↦ none
  | some row ↦ if row.active && row.is_incident_response_team then some d else none
]

abbrev pub responder : Sources → Operator → Option ℕ
responder src u =
    let team = in_response_team src u.department_id in
    if u.active && is_desk_role u.role then team else none

-- The department of the user, if the user may be responsible for an incident.
abbrev pub responder_department : Sources → ℕ → Option ℕ
responder_department src k = option_bind (src.user k) (responder src)

abbrev pub department_ok : Sources → Option ℕ → Bool
department_ok src none = true
department_ok src (some d) = is_some (only_if (λ (row : Department). row.active) (src.department d))

abbrev pub location_ok : Sources → Option ℕ → Bool
location_ok src none = true
location_ok src (some l) = is_some (only_if (λ (row : Location). row.active) (src.env.location l))

abbrev pub asset_ok : Sources → Option ℕ → Bool
asset_ok src none = true
asset_ok src (some a) = is_some (only_if (λ (row : Asset). not row.deleted) (src.asset a))

abbrev pub find_responder : Sources → Option ℕ → Outcome (Option ℕ)
find_responder src none = ok none
find_responder src (some u) = elim (responder_department src u) [
  | none ↦ err (bad_request assignee_invalid)
  | some d ↦ ok (some d)
]

-- `validateReferences`: gives the department of the new assignee, if the body names one.
unfoldable pub validate_references :
    Sources → Option ℕ → Option ℕ → Option ℕ → Option ℕ → Outcome (Option ℕ)
validate_references src department_id location_id asset_id assigned_to_id = do
  throw_if (not (department_ok src department_id)) (bad_request affected_department_invalid)
  throw_if (not (location_ok src location_id)) (bad_request incident_location_invalid)
  throw_if (not (asset_ok src asset_id)) (bad_request related_asset_invalid)
  find_responder src assigned_to_id

abbrev pub find_incident : Desk → ℕ → Outcome Incident
find_incident d k = or_throw (d.incident k) (not_found incident_not_found)

abbrev pub put_incident : (ℕ → Option Incident) → ℕ → Incident → ℕ → Option Incident
put_incident f k i j = if j == k then some i else f j

-- `tx.incident.update({ where: { id }, data })`
abbrev pub save_incident : ℕ → Incident → Desk → Desk
save_incident k i d = record d { incident = put_incident d.incident k i }

-- `tx.incidentAssignment.create({ data })`
abbrev pub assignment_row : ℕ → ℕ → ℕ → Actor → Text → IncidentAssignment
assignment_row incident_id user department actor note = record {
  incident_id = incident_id;
  assigned_to_id = user;
  department_id = department;
  assigned_by = actor.id;
  role = IncidentAssignmentRole.primary;
  note = note;
  accepted_at = none;
  accepted_by_id = none;
  released_at = none;
  released_by_id = none;
  release_reason = none;
}

-- `if (assignedToId && assignee?.departmentId) await tx.incidentAssignment.create(...)`
unfoldable pub assign_if :
    ℕ → Option ℕ → Option ℕ → Actor → Text → List IncidentAssignment → List IncidentAssignment
assign_if k none department actor note rows = rows
assign_if k (some u) none actor note rows = rows
assign_if k (some u) (some d) actor note rows = assignment_row k u d actor note ∷ rows

abbrev pub is_primary : IncidentAssignmentRole → Bool
is_primary IncidentAssignmentRole.primary = true
is_primary _ = false

-- `{ incidentId, role: 'PRIMARY', releasedAt: null }`
abbrev pub live_primary : ℕ → IncidentAssignment → Bool
live_primary k r = r.incident_id == k && is_primary r.role && not (is_some r.released_at)

-- `{ incidentId, releasedAt: null }`
abbrev pub live : ℕ → IncidentAssignment → Bool
live k r = r.incident_id == k && not (is_some r.released_at)

abbrev pub released : ℕ → Actor → Text → IncidentAssignment → IncidentAssignment
released now actor reason r = record r {
  released_at = some now;
  released_by_id = some actor.id;
  release_reason = some reason;
}

-- `tx.incidentAssignment.updateMany({ where, data })`
abbrev pub update_where :
    (IncidentAssignment → Bool)
    → (IncidentAssignment → IncidentAssignment)
    → IncidentAssignment
    → IncidentAssignment
update_where p change r = if p r then change r else r

unfoldable pub update_assignments :
    (IncidentAssignment → Bool)
    → (IncidentAssignment → IncidentAssignment)
    → List IncidentAssignment
    → List IncidentAssignment
update_assignments p change rows = map (update_where p change) rows

abbrev pub add_activity_row : IncidentActivity → Desk → Desk
add_activity_row row d = record d { activities = row ∷ d.activities }

abbrev pub add_desk_audit : AuditLog → Desk → Desk
add_desk_audit row d = record d { audit = row ∷ d.audit }
