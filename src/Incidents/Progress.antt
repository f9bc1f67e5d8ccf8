-- ===== src/Incidents/Progress.antt =====
-- `changeStatus` and `addActivity` of `IncidentsService`.
use asset_it.Prelude.{
  ℕ, Bool, true, false, not, ◌&&◌, ◌==◌, Option, none, some, List, [], ◌∷◌, map, Text, text, trim,
  upper, Result, ok, err, throw_if, ◌>>=◌, ◌>>◌, is_some, or_else,
}
use asset_it.Store.Enums.{Role, admin}
use asset_it.Store.Rows.{Actor, Json}
use asset_it.Store.Exceptions.{
  Outcome, IncidentField, forbidden, bad_request, transition_not_allowed, fields_missing,
  not_assignee,
}
use asset_it.Incidents.Rows.{IncidentStatus, Incident, IncidentActivity, IncidentAssignment}
use asset_it.Incidents.Rules.{TransitionError, assert_incident_transition, incident_missing_fields}
use asset_it.Incidents.Names.{status_name}
use asset_it.Incidents.Desk.{
  Sources, Desk, assert_operator, find_incident, save_incident, live_primary, live, released,
  update_assignments, add_activity_row, add_desk_audit,
}

-- `ChangeIncidentStatusDto`
pub record ChangeIncidentStatus : Type 0 where
  pub status : IncidentStatus
  pub note : Text

-- `try { assertIncidentTransition(...) } catch { throw new BadRequestException(...) }`
abbrev pub allowed_transition : Result TransitionError (Unit {0}) → Outcome (Unit {0})
allowed_transition (ok u) = ok u
allowed_transition (err e) = err (bad_request transition_not_allowed)

abbrev pub is_admin : Role → Bool
is_admin admin = true
is_admin _ = false

-- `current.assignedToId && actor.role !== 'ADMIN' && current.assignedToId !== actor.id`
abbrev pub is_stranger : Option ℕ → Actor → Bool
is_stranger none actor = false
is_stranger (some u) actor = not (is_admin actor.role) && not (u == actor.id)

-- `timestamps`
abbrev pub stamped : IncidentStatus → ℕ → Incident → Incident
stamped IncidentStatus.acknowledged now i = record i { acknowledged_at = some now }
stamped IncidentStatus.in_progress now i = record i {
  response_started_at = or_else i.response_started_at (some now);
}
stamped IncidentStatus.resolved now i = record i { resolved_at = some now }
stamped IncidentStatus.closed now i = record i { closed_at = some now }
stamped IncidentStatus.cancelled now i = record i { closed_at = some now }
stamped _ now i = i

abbrev pub advanced : IncidentStatus → ℕ → Incident → Incident
advanced s now i = record (stamped s now i) { status = s }

-- `{ incidentId: id, role: 'PRIMARY', releasedAt: null, acceptedAt: null }`
abbrev pub awaiting : ℕ → IncidentAssignment → Bool
awaiting k r = live_primary k r && not (is_some r.accepted_at)

abbrev pub accepted : ℕ → Actor → IncidentAssignment → IncidentAssignment
accepted now actor r = record r { accepted_at = some now; accepted_by_id = some actor.id }

-- What a new status does to the assignment rows. The time at which a row was made, which the database
-- sets, is not in the model: the CHECK `incident_assignments_time_check` is taken to hold, as it does
-- unless the clock runs backwards between the handing out of an incident and its release.
unfoldable pub follow_status :
    IncidentStatus → ℕ → ℕ → Actor → Text → List IncidentAssignment → List IncidentAssignment
follow_status IncidentStatus.acknowledged k now actor note rows =
    update_assignments (awaiting k) (accepted now actor) rows
follow_status IncidentStatus.closed k now actor note rows =
    update_assignments (live k) (released now actor note) rows
follow_status IncidentStatus.cancelled k now actor note rows =
    update_assignments (live k) (released now actor note) rows
follow_status _ k now actor note rows = rows

abbrev pub status_activity :
    ℕ → IncidentStatus → ChangeIncidentStatus → Actor → ℕ → IncidentActivity
status_activity k from body actor now = record {
  incident_id = k;
  type = text "STATUS_CHANGED";
  note = trim body.note;
  from_status = some from;
  to_status = some body.status;
  performed_by = actor.id;
  created_at = now;
}

-- The writes of `changeStatus`.
unfoldable pub write_status :
    Sources → ℕ → Incident → ChangeIncidentStatus → Actor → Desk → Incident × Desk
write_status src k i body actor d =
    let new = advanced body.status src.env.now i in
    (
      new,
      add_desk_audit
          (record {
            user_id = actor.id;
            action = text "INCIDENT_STATUS_CHANGED";
            entity_type = text "Incident";
            entity_id = k;
            old_values = (text "status", Json.str (status_name i.status)) ∷ [];
            new_values =
                (text "status", Json.str (status_name body.status))
                ∷ (text "note", Json.str body.note)
                ∷ [];
          })
          (add_activity_row (status_activity k i.status body actor src.env.now) (
            save_incident k new (record d {
              assignments =
                  follow_status body.status k src.env.now actor (trim body.note) d.assignments;
            }))),
    )

abbrev pub throw_missing : List IncidentField → Outcome (Unit {0})
throw_missing [] = ok tt
throw_missing (f ∷ fs) = err (bad_request (fields_missing (f ∷ fs)))

unfoldable pub change_status :
    Sources → ℕ → ChangeIncidentStatus → Actor → Desk → Outcome (Incident × Desk)
unfolding assert_operator
change_status src k body actor d = do
  assert_operator actor
  current ← find_incident d k
  allowed_transition (assert_incident_transition current.status body.status)
  throw_missing (incident_missing_fields body.status current)
  throw_if (is_stranger current.assigned_to_id actor) (forbidden not_assignee)
  ok (write_status src k current body actor d)

-- `AddIncidentActivityDto`
pub record AddIncidentActivity : Type 0 where
  pub note : Text
  pub type : Text

abbrev pub activity_row : ℕ → AddIncidentActivity → Actor → ℕ → IncidentActivity
activity_row k body actor now = record {
  incident_id = k;
  type = map upper (trim body.type);
  note = trim body.note;
  from_status = none;
  to_status = none;
  performed_by = actor.id;
  created_at = now;
}

unfoldable pub add_activity :
    Sources → ℕ → AddIncidentActivity → Actor → Desk → Outcome (IncidentActivity × Desk)
unfolding assert_operator
add_activity src k body actor d = do
  assert_operator actor
  incident ← find_incident d k
  let row = activity_row k body actor src.env.now
  ok (
    row,
    add_desk_audit
        (record {
          user_id = actor.id;
          action = text "INCIDENT_ACTIVITY_ADDED";
          entity_type = text "Incident";
          entity_id = k;
          old_values = [];
          new_values = (text "type", Json.str row.type) ∷ [];
        })
        (add_activity_row row d),
  )
