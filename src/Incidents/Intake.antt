-- ===== src/Incidents/Intake.antt =====
-- `create` of `IncidentsService`.
use asset_it.Prelude.{
  ℕ, suc, ◌+◌, ◌*◌, ltb, Bool, false, any_below, text_eq, Option, none, some, [], ◌∷◌, ◌++◌, Text,
  text, trim, ok, throw_if, ◌>>=◌, ◌>>◌,
}
use asset_it.Store.Rows.{Actor, Json}
use asset_it.Store.Exceptions.{Outcome, bad_request, unique_violation, detected_in_future}
use asset_it.Store.Tables.{reference}
use asset_it.Incidents.Rows.{
  IncidentCategory, IncidentStatus, IncidentPriority, IncidentImpact, IncidentUrgency, Incident,
  IncidentActivity,
}
use asset_it.Incidents.Rules.{incident_priority, incident_sla}
use asset_it.Incidents.Names.{category_name, priority_name, entry_if_defined}
use asset_it.Incidents.Desk.{
  Sources, Desk, assert_operator, clean, validate_references, put_incident, assign_if,
  add_activity_row, add_desk_audit,
}

-- `CreateIncidentDto`
pub record CreateIncident : Type 0 where
  pub title : Text
  pub category : IncidentCategory
  pub impact : IncidentImpact
  pub urgency : IncidentUrgency
  pub description : Text
  pub reporter_name : Text
  pub detected_at : ℕ
  pub reporter_contact : Option Text
  pub service_name : Option Text
  pub business_impact : Option Text
  pub initial_assessment : Option Text
  pub department_id : Option ℕ
  pub location_id : Option ℕ
  pub asset_id : Option ℕ
  pub assigned_to_id : Option ℕ
  pub affected_users : ℕ
  pub downtime_minutes : ℕ
  pub is_security_incident : Bool
  pub is_business_continuity_event : Bool

-- `reportedAt.getTime() + sla.responseMinutes * 60000`
abbrev pub response_due : ℕ → IncidentPriority → ℕ
response_due reported p = reported + (incident_sla p).response_minutes * 60000

abbrev pub resolution_due : ℕ → IncidentPriority → ℕ
resolution_due reported p = reported + (incident_sla p).resolution_minutes * 60000

abbrev pub new_incident : Sources → CreateIncident → Option ℕ → Actor → ℕ → Incident
new_incident src body department actor k = record {
  id = k;
  incident_no = reference src.env (text "SC");
  title = trim body.title;
  category = body.category;
  status = IncidentStatus.new;
  priority = incident_priority body.impact body.urgency;
  impact = body.impact;
  urgency = body.urgency;
  description = trim body.description;
  business_impact = clean body.business_impact;
  initial_assessment = clean body.initial_assessment;
  containment_action = none;
  resolution = none;
  root_cause = none;
  corrective_action = none;
  preventive_action = none;
  lessons_learned = none;
  service_name = clean body.service_name;
  reporter_name = trim body.reporter_name;
  reporter_contact = clean body.reporter_contact;
  reported_by_id = some actor.id;
  assigned_to_id = body.assigned_to_id;
  assigned_department_id = department;
  created_by = actor.id;
  department_id = body.department_id;
  location_id = body.location_id;
  asset_id = body.asset_id;
  affected_users = body.affected_users;
  downtime_minutes = body.downtime_minutes;
  is_security_incident = body.is_security_incident;
  is_business_continuity_event = body.is_business_continuity_event;
  detected_at = body.detected_at;
  reported_at = src.env.now;
  acknowledged_at = none;
  response_started_at = none;
  resolved_at = none;
  closed_at = none;
  sla_response_due_at = response_due src.env.now (incident_priority body.impact body.urgency);
  sla_resolution_due_at = resolution_due src.env.now (incident_priority body.impact body.urgency);
}

abbrev pub created_activity : ℕ → Incident → Actor → ℕ → IncidentActivity
created_activity k i actor now = record {
  incident_id = k;
  type = text "CREATED";
  note = text "Tiếp nhận sự cố mức " ++ priority_name i.priority;
  from_status = none;
  to_status = some IncidentStatus.new;
  performed_by = actor.id;
  created_at = now;
}

-- The unique key `incidents_incidentNo_key`
abbrev pub has_incident_no : Text → Option Incident → Bool
has_incident_no number none = false
has_incident_no number (some i) = text_eq i.incident_no number

unfoldable pub incident_no_taken : Desk → Text → Bool
incident_no_taken d number = any_below d.next_id (λ k. has_incident_no number (d.incident k))

-- The writes of `create`.
unfoldable pub file_incident : Sources → CreateIncident → Option ℕ → Actor → Desk → Incident × Desk
file_incident src body department actor d =
    let k = d.next_id in
    let i = new_incident src body department actor k in
    (
      i,
      add_desk_audit
          (record {
            user_id = actor.id;
            action = text "INCIDENT_CREATED";
            entity_type = text "Incident";
            entity_id = k;
            old_values = [];
            new_values =
                (text "incidentNo", Json.str i.incident_no)
                ∷ (text "priority", Json.str (priority_name i.priority))
                ∷ (text "category", Json.str (category_name i.category))
                ∷ (entry_if_defined (text "assignedToId") body.assigned_to_id
                    ++ entry_if_defined (text "assignedDepartmentId") department);
          })
          (add_activity_row (created_activity k i actor src.env.now) (record d {
            incident = put_incident d.incident k i;
            assignments =
                assign_if k body.assigned_to_id department actor
                  (text "Phân công người chịu trách nhiệm khi tiếp nhận sự cố") d.assignments;
            next_id = suc k;
          })),
    )

unfoldable pub create : Sources → CreateIncident → Actor → Desk → Outcome (Incident × Desk)
unfolding assert_operator
create src body actor d = do
  assert_operator actor
  department ←
      validate_references src body.department_id body.location_id body.asset_id body.assigned_to_id
  throw_if (ltb (src.env.now + 5 * 60 * 1000) body.detected_at) (bad_request detected_in_future)
  throw_if (incident_no_taken d (reference src.env (text "SC"))) unique_violation
  ok (file_incident src body department actor d)
