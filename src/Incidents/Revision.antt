-- ===== src/Incidents/Revision.antt =====
-- `update` of `IncidentsService`.
use asset_it.Prelude.{
  ℕ, Bool, true, false, not, Option, none, some, List, [], ◌∷◌, Text, text, trim, ok, throw_if,
  ◌>>=◌, ◌>>◌, get_or, option_map, is_some, same_id, if◌then◌else◌,
}
use asset_it.Store.Rows.{Actor, Json}
use asset_it.Store.Exceptions.{Outcome, bad_request, incident_read_only}
use asset_it.Incidents.Rows.{
  IncidentCategory, IncidentStatus, IncidentImpact, IncidentUrgency, Incident, IncidentActivity,
  IncidentAssignment,
}
use asset_it.Incidents.Rules.{incident_priority}
use asset_it.Incidents.Names.{status_name, priority_name, nullable}
use asset_it.Incidents.Desk.{
  Sources, Desk, assert_operator, clean, validate_references, find_incident, save_incident,
  assign_if, live_primary, released, update_assignments, add_activity_row, add_desk_audit,
}
use asset_it.Incidents.Intake.{response_due, resolution_due}

-- A property of the body that may be left out, `null`, or a value. `IsOptional` lets `null` pass.
pub data Patch (A : Type 0) : Type 0 where
  kept cleared : Patch A
  put : A → Patch A

abbrev pub patched : {A : Type 0} → Patch A → Option A → Option A
patched kept old = old
patched cleared old = none
patched (put a) old = some a

-- `body.x ? ... : ...`
abbrev pub patch_value : {A : Type 0} → Patch A → Option A
patch_value (put a) = some a
patch_value _ = none

-- `body.x === undefined ? undefined : this.clean(body.x)`
abbrev pub cleaned : Patch Text → Option Text → Option Text
cleaned kept old = old
cleaned cleared old = none
cleaned (put t) old = clean (some t)

-- `UpdateIncidentDto`. A column that is not nullable refuses `null`, so it has `Option` here.
pub record UpdateIncident : Type 0 where
  pub title : Option Text
  pub category : Option IncidentCategory
  pub impact : Option IncidentImpact
  pub urgency : Option IncidentUrgency
  pub description : Option Text
  pub reporter_name : Option Text
  pub reporter_contact : Patch Text
  pub service_name : Patch Text
  pub business_impact : Patch Text
  pub initial_assessment : Patch Text
  pub containment_action : Patch Text
  pub resolution : Patch Text
  pub root_cause : Patch Text
  pub corrective_action : Patch Text
  pub preventive_action : Patch Text
  pub lessons_learned : Patch Text
  pub department_id : Patch ℕ
  pub location_id : Patch ℕ
  pub asset_id : Patch ℕ
  pub assigned_to_id : Patch ℕ
  pub affected_users : Option ℕ
  pub downtime_minutes : Option ℕ
  pub is_security_incident : Option Bool
  pub is_business_continuity_event : Option Bool

abbrev pub is_read_only : IncidentStatus → Bool
is_read_only IncidentStatus.closed = true
is_read_only IncidentStatus.cancelled = true
is_read_only _ = false

-- `body.assignedToId !== undefined && body.assignedToId !== current.assignedToId`
abbrev pub assignment_changed : Patch ℕ → Option ℕ → Bool
assignment_changed kept old = false
assignment_changed cleared old = is_some old
assignment_changed (put u) old = not (same_id (some u) old)

-- `body.assignedToId === undefined ? undefined : assignee?.departmentId`, and the trigger
-- `incidents_validate_assignee_trigger` of the table: it clears the department with the person, and
-- otherwise sets the department of the person, which `validateReferences` has found.
abbrev pub new_department : Patch ℕ → Option ℕ → Option ℕ → Option ℕ
new_department kept department old = old
new_department cleared department old = none
new_department (put u) department old = department

abbrev pub revised : UpdateIncident → Option ℕ → Incident → Incident
revised body department i =
    let impact = get_or body.impact i.impact in
    let urgency = get_or body.urgency i.urgency in
    record i {
      title = get_or (option_map trim body.title) i.title;
      category = get_or body.category i.category;
      impact = impact;
      urgency = urgency;
      priority = incident_priority impact urgency;
      description = get_or (option_map trim body.description) i.description;
      reporter_name = get_or (option_map trim body.reporter_name) i.reporter_name;
      reporter_contact = cleaned body.reporter_contact i.reporter_contact;
      service_name = cleaned body.service_name i.service_name;
      business_impact = cleaned body.business_impact i.business_impact;
      initial_assessment = cleaned body.initial_assessment i.initial_assessment;
      containment_action = cleaned body.containment_action i.containment_action;
      resolution = cleaned body.resolution i.resolution;
      root_cause = cleaned body.root_cause i.root_cause;
      corrective_action = cleaned body.corrective_action i.corrective_action;
      preventive_action = cleaned body.preventive_action i.preventive_action;
      lessons_learned = cleaned body.lessons_learned i.lessons_learned;
      department_id = patched body.department_id i.department_id;
      location_id = patched body.location_id i.location_id;
      asset_id = patched body.asset_id i.asset_id;
      assigned_to_id = patched body.assigned_to_id i.assigned_to_id;
      assigned_department_id =
          new_department body.assigned_to_id department i.assigned_department_id;
      affected_users = get_or body.affected_users i.affected_users;
      downtime_minutes = get_or body.downtime_minutes i.downtime_minutes;
      is_security_incident = get_or body.is_security_incident i.is_security_incident;
      is_business_continuity_event =
          get_or body.is_business_continuity_event i.is_business_continuity_event;
      sla_response_due_at = response_due i.reported_at (incident_priority impact urgency);
      sla_resolution_due_at = resolution_due i.reported_at (incident_priority impact urgency);
    }

abbrev pub revision_activity : Bool → ℕ → Actor → ℕ → IncidentActivity
revision_activity changed k actor now = record {
  incident_id = k;
  type = if changed then text "ASSIGNED" else text "UPDATED";
  note =
      if changed
      then text "Cập nhật người chịu trách nhiệm xử lý"
      else text "Cập nhật hồ sơ, đánh giá hoặc CAPA";
  from_status = none;
  to_status = none;
  performed_by = actor.id;
  created_at = now;
}

-- What happens to the assignment rows: the primary one is released, and a new one made.
unfoldable pub reassign :
    Bool → ℕ → ℕ → Option ℕ → Option ℕ → Actor → List IncidentAssignment → List IncidentAssignment
reassign false k now user department actor rows = rows
reassign true k now user department actor rows =
    assign_if k user department actor (text "Điều phối lại người chịu trách nhiệm xử lý") (
      update_assignments (live_primary k)
        (released now actor (text "Điều phối lại người chịu trách nhiệm")) rows)

-- The writes of `update`.
unfoldable pub write_update :
    Sources → ℕ → Incident → UpdateIncident → Option ℕ → Actor → Desk → Incident × Desk
write_update src k i body department actor d =
    let changed = assignment_changed body.assigned_to_id i.assigned_to_id in
    let new = revised body department i in
    (
      new,
      add_desk_audit
          (record {
            user_id = actor.id;
            action = text "INCIDENT_UPDATED";
            entity_type = text "Incident";
            entity_id = k;
            old_values =
                (text "status", Json.str (status_name i.status))
                ∷ (text "priority", Json.str (priority_name i.priority))
                ∷ (text "assignedToId", nullable i.assigned_to_id)
                ∷ (text "assignedDepartmentId", nullable i.assigned_department_id)
                ∷ [];
            new_values =
                (text "priority", Json.str (priority_name new.priority))
                ∷ (text "assignedToId", nullable new.assigned_to_id)
                ∷ (text "assignedDepartmentId", nullable new.assigned_department_id)
                ∷ [];
          })
          (add_activity_row (revision_activity changed k actor src.env.now) (
            save_incident k new (record d {
              assignments =
                  reassign changed k src.env.now (patch_value body.assigned_to_id) department actor
                    d.assignments;
            }))),
    )

unfoldable pub update : Sources → ℕ → UpdateIncident → Actor → Desk → Outcome (Incident × Desk)
unfolding assert_operator
update src k body actor d = do
  assert_operator actor
  department ←
      validate_references src (patch_value body.department_id) (patch_value body.location_id)
        (patch_value body.asset_id) (patch_value body.assigned_to_id)
  current ← find_incident d k
  throw_if (is_read_only current.status) (bad_request incident_read_only)
  ok (write_update src k current body department actor d)
