-- ===== src/Incidents/Removal.antt =====
-- `remove` of `IncidentsService`. The incident is read before the transaction begins; here nothing
-- runs in between.
use asset_it.Prelude.{
  ℕ, not, ◌==◌, none, List, [], ◌∷◌, ◌++◌, keep, Text, text, ok, throw_if, ◌>>=◌, ◌>>◌, option_map,
  option_bind, if◌then◌else◌,
}
use asset_it.Store.Rows.{Actor, Asset, Json}
use asset_it.Store.Exceptions.{Outcome, forbidden, admin_required}
use asset_it.Incidents.Rows.{IncidentActivity, IncidentAssignment}
use asset_it.Incidents.Names.{category_name, status_name, priority_name, nullable_text}
use asset_it.Incidents.Desk.{Sources, Desk, find_incident, add_desk_audit}
use asset_it.Incidents.Progress.{is_admin}

-- `activities: { orderBy: { createdAt: 'asc' } }`: rows stand newest first.
pub timeline : Sources → ℕ → List IncidentActivity → List (List (Text × Text))
timeline src k [] = []
timeline src k (a ∷ rest) =
    let before = timeline src k rest in
    if a.incident_id == k
    then before
      ++ (((text "type", a.type)
            ∷ (text "note", a.note)
            ∷ (text "at", src.env.iso a.created_at)
            ∷ [])
          ∷ [])
    else before

pub cited_by : Sources → ℕ → List (ℕ × ℕ) → List (List (Text × Text))
cited_by src k [] = []
cited_by src k (link ∷ rest) =
    let others = cited_by src k rest in
    if link.1 == k
    then ((text "riskNo", (src.risk link.0).0) ∷ (text "title", (src.risk link.0).1) ∷ []) ∷ others
    else others

-- The incident goes with its activities and assignments, by the cascade, and its risk links.
unfoldable pub erase_incident : ℕ → Desk → Desk
erase_incident k d = record d {
  incident = λ j. if j == k then none else d.incident j;
  assignments = keep (λ (r : IncidentAssignment). not (r.incident_id == k)) d.assignments;
  activities = keep (λ (a : IncidentActivity). not (a.incident_id == k)) d.activities;
  risk_links = keep (λ (l : ℕ × ℕ). not (l.1 == k)) d.risk_links;
}

unfoldable pub remove : Sources → ℕ → Actor → Desk → Outcome Desk
remove src k actor d = do
  throw_if (not (is_admin actor.role)) (forbidden admin_required)
  i ← find_incident d k
  ok (
      erase_incident k (
        add_desk_audit
          (record {
            user_id = actor.id;
            action = text "INCIDENT_DELETED";
            entity_type = text "Incident";
            entity_id = k;
            old_values =
                (text "incidentNo", Json.str i.incident_no)
                ∷ (text "title", Json.str i.title)
                ∷ (text "category", Json.str (category_name i.category))
                ∷ (text "status", Json.str (status_name i.status))
                ∷ (text "priority", Json.str (priority_name i.priority))
                ∷ (
                  text "assetTag",
                  nullable_text
                      (option_map (λ (a : Asset). a.asset_tag) (option_bind i.asset_id src.asset)),
                )
                ∷ (text "detectedAt", Json.str (src.env.iso i.detected_at))
                ∷ (text "resolvedAt", nullable_text (option_map src.env.iso i.resolved_at))
                ∷ (text "resolution", nullable_text i.resolution)
                ∷ (text "rootCause", nullable_text i.root_cause)
                ∷ (text "activities", Json.records (timeline src k d.activities))
                ∷ (text "riskLinks", Json.records (cited_by src k d.risk_links))
                ∷ [];
            new_values = [];
          })
          d))
