-- ===== src/Incidents/Rules.antt =====
-- apps/api/src/modules/incidents/incidents.rules.ts
use asset_it.Prelude.{
  ℕ, ◌*◌, Bool, true, false, not, ◌&&◌, Option, none, some, List, [], ◌∷◌, ◌++◌, Text, trim,
  is_nonempty, is_some, Result, ok, throw_if, any, if◌then◌else◌, ◌==◌,
}
use asset_it.Store.Exceptions.{
  IncidentField, assigned_to, initial_assessment, containment_action, resolution, root_cause,
  corrective_action, preventive_action, lessons_learned,
}
use asset_it.Incidents.Rows.{
  IncidentStatus, IncidentPriority, IncidentImpact, IncidentUrgency, Incident,
}

-- `priorityMatrix`
unfoldable pub incident_priority : IncidentImpact → IncidentUrgency → IncidentPriority
incident_priority IncidentImpact.critical IncidentUrgency.high = IncidentPriority.p1
incident_priority IncidentImpact.critical IncidentUrgency.medium = IncidentPriority.p1
incident_priority IncidentImpact.critical IncidentUrgency.low = IncidentPriority.p2
incident_priority IncidentImpact.high IncidentUrgency.high = IncidentPriority.p1
incident_priority IncidentImpact.high IncidentUrgency.medium = IncidentPriority.p2
incident_priority IncidentImpact.high IncidentUrgency.low = IncidentPriority.p3
incident_priority IncidentImpact.medium IncidentUrgency.high = IncidentPriority.p2
incident_priority IncidentImpact.medium IncidentUrgency.medium = IncidentPriority.p3
incident_priority IncidentImpact.medium IncidentUrgency.low = IncidentPriority.p4
incident_priority IncidentImpact.low IncidentUrgency.high = IncidentPriority.p3
incident_priority IncidentImpact.low IncidentUrgency.medium = IncidentPriority.p4
incident_priority IncidentImpact.low IncidentUrgency.low = IncidentPriority.p4

pub record IncidentSla : Type 0 where
  pub response_minutes : ℕ
  pub resolution_minutes : ℕ

unfoldable pub incident_sla : IncidentPriority → IncidentSla
incident_sla IncidentPriority.p1 = record { response_minutes = 15; resolution_minutes = 4 * 60 }
incident_sla IncidentPriority.p2 = record { response_minutes = 30; resolution_minutes = 8 * 60 }
incident_sla IncidentPriority.p3 = record {
  response_minutes = 4 * 60;
  resolution_minutes = 3 * 24 * 60;
}
incident_sla IncidentPriority.p4 = record {
  response_minutes = 8 * 60;
  resolution_minutes = 5 * 24 * 60;
}

abbrev pub status_index : IncidentStatus → ℕ
status_index IncidentStatus.new = 0
status_index IncidentStatus.acknowledged = 1
status_index IncidentStatus.in_progress = 2
status_index IncidentStatus.monitoring = 3
status_index IncidentStatus.resolved = 4
status_index IncidentStatus.closed = 5
status_index IncidentStatus.cancelled = 6

abbrev pub same_status : IncidentStatus → IncidentStatus → Bool
same_status a b = status_index a == status_index b

-- `transitions`
unfoldable pub transitions : IncidentStatus → List IncidentStatus
transitions IncidentStatus.new = IncidentStatus.acknowledged ∷ IncidentStatus.cancelled ∷ []
transitions IncidentStatus.acknowledged = IncidentStatus.in_progress ∷ IncidentStatus.cancelled ∷ []
transitions IncidentStatus.in_progress = IncidentStatus.monitoring ∷ IncidentStatus.resolved ∷ []
transitions IncidentStatus.monitoring = IncidentStatus.in_progress ∷ IncidentStatus.resolved ∷ []
transitions IncidentStatus.resolved = IncidentStatus.in_progress ∷ IncidentStatus.closed ∷ []
transitions IncidentStatus.closed = []
transitions IncidentStatus.cancelled = []

-- `assertIncidentTransition` has one error.
pub data TransitionError : Type 0 where
  incident_transition_not_allowed : TransitionError

unfoldable pub assert_incident_transition :
    IncidentStatus → IncidentStatus → Result TransitionError (Unit {0})
unfolding transitions
assert_incident_transition from to =
    if same_status from to
    then ok tt
    else throw_if (not (any (same_status to) (transitions from))) incident_transition_not_allowed

-- `incidentStatusRequiresAssignee`, and the lists of statuses that `incidentMissingFields` tests
abbrev pub requires_assignee : IncidentStatus → Bool
requires_assignee IncidentStatus.new = false
requires_assignee IncidentStatus.cancelled = false
requires_assignee _ = true

abbrev pub requires_assessment : IncidentStatus → Bool
requires_assessment IncidentStatus.in_progress = true
requires_assessment IncidentStatus.monitoring = true
requires_assessment IncidentStatus.resolved = true
requires_assessment IncidentStatus.closed = true
requires_assessment _ = false

abbrev pub requires_containment : IncidentStatus → Bool
requires_containment IncidentStatus.monitoring = true
requires_containment IncidentStatus.resolved = true
requires_containment IncidentStatus.closed = true
requires_containment _ = false

abbrev pub requires_resolution : IncidentStatus → Bool
requires_resolution IncidentStatus.resolved = true
requires_resolution IncidentStatus.closed = true
requires_resolution _ = false

abbrev pub requires_lessons : IncidentStatus → Bool
requires_lessons IncidentStatus.closed = true
requires_lessons _ = false

-- `Boolean(value?.trim())`
abbrev pub has_text : Option Text → Bool
has_text none = false
has_text (some t) = is_nonempty (trim t)

abbrev pub missing_if : Bool → IncidentField → List IncidentField
missing_if true field = field ∷ []
missing_if false field = []

unfoldable pub incident_missing_fields : IncidentStatus → Incident → List IncidentField
incident_missing_fields s i =
    missing_if (requires_assignee s && not (is_some i.assigned_to_id)) assigned_to
    ++ (missing_if (requires_assessment s && not (has_text i.initial_assessment)) initial_assessment
        ++ (missing_if (requires_containment s && not (has_text i.containment_action))
              containment_action
            ++ (missing_if (requires_resolution s && not (has_text i.resolution)) resolution
                ++ (missing_if (requires_resolution s && not (has_text i.root_cause)) root_cause
                    ++ (missing_if (requires_resolution s && not (has_text i.corrective_action))
                          corrective_action
                        ++ (missing_if (requires_lessons s && not (has_text i.preventive_action))
                              preventive_action
                            ++ missing_if (requires_lessons s && not (has_text i.lessons_learned))
                                lessons_learned))))))
