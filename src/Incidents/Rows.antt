-- ===== src/Incidents/Rows.antt =====
-- Rows of the incident tables (apps/api/prisma/schema.prisma). Times are milliseconds.
use asset_it.Prelude.{ℕ, Bool, Option, Text}
use asset_it.Store.Enums.{Role}

pub data IncidentCategory : Type 0 where
  power network malware hardware software security : IncidentCategory
  access cloud telephony other : IncidentCategory

pub data IncidentStatus : Type 0 where
  new acknowledged in_progress monitoring resolved closed cancelled : IncidentStatus

pub data IncidentPriority : Type 0 where
  p1 p2 p3 p4 : IncidentPriority

pub data IncidentImpact : Type 0 where
  critical high medium low : IncidentImpact

pub data IncidentUrgency : Type 0 where
  high medium low : IncidentUrgency

pub data IncidentAssignmentRole : Type 0 where
  primary support : IncidentAssignmentRole

pub record Incident : Type 0 where
  pub id : ℕ
  pub incident_no : Text
  pub title : Text
  pub category : IncidentCategory
  pub status : IncidentStatus
  pub priority : IncidentPriority
  pub impact : IncidentImpact
  pub urgency : IncidentUrgency
  pub description : Text
  pub business_impact : Option Text
  pub initial_assessment : Option Text
  pub containment_action : Option Text
  pub resolution : Option Text
  pub root_cause : Option Text
  pub corrective_action : Option Text
  pub preventive_action : Option Text
  pub lessons_learned : Option Text
  pub service_name : Option Text
  pub reporter_name : Text
  pub reporter_contact : Option Text
  pub reported_by_id : Option ℕ
  pub assigned_to_id : Option ℕ
  pub assigned_department_id : Option ℕ
  pub created_by : ℕ
  pub department_id : Option ℕ
  pub location_id : Option ℕ
  pub asset_id : Option ℕ
  pub affected_users : ℕ
  pub downtime_minutes : ℕ
  pub is_security_incident : Bool
  pub is_business_continuity_event : Bool
  pub detected_at : ℕ
  pub reported_at : ℕ
  pub acknowledged_at : Option ℕ
  pub response_started_at : Option ℕ
  pub resolved_at : Option ℕ
  pub closed_at : Option ℕ
  pub sla_response_due_at : ℕ
  pub sla_resolution_due_at : ℕ

pub record IncidentAssignment : Type 0 where
  pub incident_id : ℕ
  pub assigned_to_id : ℕ
  pub department_id : ℕ
  pub assigned_by : ℕ
  pub role : IncidentAssignmentRole
  pub note : Text
  pub accepted_at : Option ℕ
  pub accepted_by_id : Option ℕ
  pub released_at : Option ℕ
  pub released_by_id : Option ℕ
  pub release_reason : Option Text

pub record IncidentActivity : Type 0 where
  pub incident_id : ℕ
  pub type : Text
  pub note : Text
  pub from_status : Option IncidentStatus
  pub to_status : Option IncidentStatus
  pub performed_by : ℕ
  pub created_at : ℕ

-- What the service reads of a user and of a department.
pub record Operator : Type 0 where
  pub id : ℕ
  pub role : Role
  pub active : Bool
  pub department_id : Option ℕ

pub record Department : Type 0 where
  pub active : Bool
  pub is_incident_response_team : Bool
