-- ===== src/Tests/Incidents.antt =====
-- The theorems on incidents at a small desk: one person in one response team, one new incident.
use asset_it.Prelude.{
  ℕ, ◌≡◌, refl, true, false, none, some, List, [], ◌∷◌, ◌==◌, text, trim, any_below, if◌then◌else◌,
  arith,
}
use asset_it.Store.Enums.{it}
use asset_it.Tests.Samples.{env, boss}
use asset_it.Incidents.Rows.{
  IncidentCategory, IncidentStatus, IncidentImpact, IncidentUrgency, Incident,
}
use asset_it.Incidents.Desk.{
  Sources, Desk, put_incident, validate_references, assert_operator, assign_if, update_assignments,
}
use asset_it.Incidents.Rules.{incident_missing_fields, assert_incident_transition, transitions}
use asset_it.Incidents.Intake.{
  CreateIncident, new_incident, create, file_incident, incident_no_taken,
}
use asset_it.Incidents.Revision.{
  UpdateIncident, Patch, kept, cleared, put, update, write_update, reassign,
}
use asset_it.Incidents.Progress.{change_status, write_status, follow_status}
use asset_it.Incidents.Removal.{remove, erase_incident}
use asset_it.Incidents.Calls.{Call, Request, step, creates, updates, removes, run}
use asset_it.Incidents.Records.{SoundDesk, run-SoundDesk}
use asset_it.Incidents.Ownership.{owners}
use asset_it.Incidents.Owned.{Owned, run-Owned}
use asset_it.Incidents.Staffing.{StaffedDesk, run-StaffedDesk}
use asset_it.Incidents.Closing.{request, MayMove, run-closes, changes_status-closed_again}

abbrev sources : Sources
sources = record {
  env = env;
  asset = λ k. none;
  user = λ k.
      if k == 6
      then some (record { id = 6; role = it; active = true; department_id = some 4 })
      else none;
  department = λ k.
      if k == 4 then some (record { active = true; is_incident_response_team = true }) else none;
  risk = λ k. (text "R", text "Risk");
}

abbrev empty_desk : Desk
empty_desk = record {
  incident = λ k. none;
  assignments = [];
  activities = [];
  risk_links = [];
  audit = [];
  next_id = 20;
}

abbrev report : CreateIncident
report = record {
  title = text "No network";
  category = IncidentCategory.network;
  impact = IncidentImpact.high;
  urgency = IncidentUrgency.high;
  description = text "down";
  reporter_name = text "Anna";
  detected_at = 900;
  reporter_contact = none;
  service_name = none;
  business_impact = none;
  initial_assessment = some (text "switch");
  department_id = none;
  location_id = none;
  asset_id = none;
  assigned_to_id = some 6;
  affected_users = 3;
  downtime_minutes = 0;
  is_security_incident = false;
  is_business_continuity_event = false;
}

abbrev revision : Patch ℕ → UpdateIncident
revision person = record {
  title = none;
  category = none;
  impact = none;
  urgency = some IncidentUrgency.low;
  description = none;
  reporter_name = none;
  reporter_contact = kept;
  service_name = kept;
  business_impact = kept;
  initial_assessment = kept;
  containment_action = put (text "isolated");
  resolution = put (text "replaced");
  root_cause = put (text "power");
  corrective_action = put (text "new switch");
  preventive_action = put (text "spare part");
  lessons_learned = put (text "monitor");
  department_id = kept;
  location_id = kept;
  asset_id = kept;
  assigned_to_id = person;
  affected_users = none;
  downtime_minutes = none;
  is_security_incident = none;
  is_business_continuity_event = none;
}

abbrev ask : Call → Request
ask call = record { src = sources; actor = boss; call = call }

abbrev story : List Request
story =
    ask (creates report)
    ∷ request sources boss 20 IncidentStatus.acknowledged (text "seen")
    ∷ ask (updates 20 (revision cleared))
    ∷ ask (removes 20)
    ∷ ask (creates report)
    ∷ []

empty_desk-SoundDesk : SoundDesk empty_desk
empty_desk-SoundDesk = record { records = λ k i e. absurd (ground arith) }

empty_desk-Owned : Owned empty_desk
unfolding owners
empty_desk-Owned = record { fresh = λ k above. refl; agrees = λ k. refl }

run-SoundDesk_example : SoundDesk (run story empty_desk)
run-SoundDesk_example = run-SoundDesk story empty_desk empty_desk-SoundDesk

empty_desk-StaffedDesk : StaffedDesk empty_desk
empty_desk-StaffedDesk = record { records = λ k i e. absurd (ground arith) }

run-StaffedDesk_example : StaffedDesk (run story empty_desk)
run-StaffedDesk_example = run-StaffedDesk story empty_desk empty_desk-StaffedDesk

run-Owned_example : Owned (run story empty_desk)
run-Owned_example = run-Owned story empty_desk empty_desk-Owned

abbrev ready : Incident
ready = record (new_incident sources report (some 4) boss 20) {
  containment_action = some (text "isolated");
  resolution = some (text "replaced");
  root_cause = some (text "power");
  corrective_action = some (text "new switch");
  preventive_action = some (text "spare part");
  lessons_learned = some (text "monitor");
}

abbrev ready_desk : Desk
ready_desk = record empty_desk {
  incident = put_incident empty_desk.incident 20 ready;
  next_id = 21;
}

ready-MayMove : MayMove boss ready
ready-MayMove = record { works = refl; own = refl }

run-closes_example :
    (run
        (request sources boss 20 IncidentStatus.acknowledged (text "a")
          ∷ request sources boss 20 IncidentStatus.in_progress (text "b")
          ∷ request sources boss 20 IncidentStatus.resolved (text "c")
          ∷ request sources boss 20 IncidentStatus.closed (text "d")
          ∷ [])
        ready_desk).incident
      20
    ≡ some (record ready {
      status = IncidentStatus.closed;
      acknowledged_at = some 1000;
      response_started_at = some 1000;
      resolved_at = some 1000;
      closed_at = some 1000;
    })
unfolding incident_missing_fields text trim
run-closes_example =
    run-closes sources sources sources sources (text "a") (text "b") (text "c") (text "d")
      ready_desk 20 boss ready refl refl ready-MayMove refl

abbrev closed_desk : Desk
closed_desk = record ready_desk {
  incident = put_incident empty_desk.incident 20 (record ready { status = IncidentStatus.closed });
}

changes_status-closed_again_example :
    (step (ask (updates 20 (revision kept))) closed_desk ≡ closed_desk)
    × ((step (request sources boss 20 IncidentStatus.closed (text "again")) closed_desk).incident 20
        ≡ some (record ready { status = IncidentStatus.closed; closed_at = some 1000 }))
unfolding incident_missing_fields text trim
changes_status-closed_again_example =
    changes_status-closed_again sources boss 20 (text "again") (revision kept) closed_desk
      (record ready { status = IncidentStatus.closed }) refl refl
      (record { works = refl; own = refl }) refl

-- The story is told to its end: the first incident is gone, the second has an open assignment.
story_test : owners 21 (run story empty_desk).assignments ≡ 6 ∷ []
unfolding owners run create update change_status remove validate_references assert_operator
    assign_if update_assignments file_incident write_update write_status erase_incident
    assert_incident_transition transitions incident_missing_fields text trim reassign follow_status
    incident_no_taken any_below
story_test = refl
