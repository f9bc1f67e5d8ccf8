-- ===== src/Incidents/Responsible.antt =====
-- An incident record and its assignment rows name the same person, whatever `update` and
-- `changeStatus` do, and no row of a closed incident stays open.
use asset_it.Prelude.{
  ℕ, Bool, true, false, ◌==◌, ◌≡◌, refl, ap, sym, ◌∙◌, List, [], ◌∷◌, Option, some, none, Text,
  if◌then◌else◌, Bool-cases, Option-cases, inl, inr, ok, arith,
}
use asset_it.Store.Rows.{Actor}
use asset_it.Incidents.Rows.{Incident, IncidentAssignment, IncidentStatus}
use asset_it.Incidents.Rules.{assert_incident_transition}
use asset_it.Incidents.Desk.{Sources, find_responder, responder_department, assign_if}
use asset_it.Incidents.Revision.{
  Patch, kept, cleared, put, patch_value, patched, assignment_changed, reassign, is_read_only,
}
use asset_it.Incidents.Progress.{follow_status, advanced}
use asset_it.Incidents.Moves.{Move, revises, advances}
use asset_it.Incidents.Ownership.{
  owners, owners-release_primary, owners-release, owners-accept, owners-release_primary_away,
  owners-release_away, owners-assign, owners-assign_away,
}

abbrev pub at_most_one : Option ℕ → List ℕ
at_most_one none = []
at_most_one (some u) = u ∷ []

-- Nobody, once the incident is closed or cancelled.
abbrev pub responsible : IncidentStatus → Option ℕ → List ℕ
responsible s user = if is_read_only s then [] else at_most_one user

reassigned-owners :
    (src : Sources) (k now : ℕ) (actor : Actor) (user department : Option ℕ)
    (rows : List IncidentAssignment)
    → find_responder src user ≡ ok department
    → owners k (reassign true k now user department actor rows) ≡ at_most_one user
unfolding reassign assign_if
reassigned-owners src k now actor none department rows found =
    owners-release_primary k now actor _ rows
reassigned-owners src k now actor (some u) none rows found =
    elim (Option-cases (responder_department src u)) [
      | inl nobody ↦ absurd (ground arith)
      | inr (d, is) ↦ absurd (ground arith)
    ]
reassigned-owners src k now actor (some u) (some d) rows found =
    owners-assign k u d actor _ _
    ∙ ap (λ (l : List ℕ). u ∷ l) (owners-release_primary k now actor _ rows)

reassign-owners :
    (src : Sources) (k now : ℕ) (actor : Actor) (wanted : Patch ℕ) (old department : Option ℕ)
    (rows : List IncidentAssignment)
    → find_responder src (patch_value wanted) ≡ ok department
    → owners k rows ≡ at_most_one old
    → owners k
        (reassign (assignment_changed wanted old) k now (patch_value wanted) department actor rows)
      ≡ at_most_one (patched wanted old)
unfolding reassign
reassign-owners src k now actor kept old department rows found h = h
reassign-owners src k now actor cleared none department rows found h = h
reassign-owners src k now actor cleared (some o) department rows found h =
    reassigned-owners src k now actor none department rows found
reassign-owners src k now actor (put u) none department rows found h =
    reassigned-owners src k now actor (some u) department rows found
reassign-owners src k now actor (put u) (some o) department rows found h =
    let new = reassigned-owners src k now actor (some u) department rows found in
    elim (Bool-cases (u == o)) [ inl same ↦ ground arith | inr other ↦ ground arith ]

reassign-owners_away :
    (changed : Bool) (j k now : ℕ) (user department : Option ℕ) (actor : Actor)
    (rows : List IncidentAssignment)
    → (j == k) ≡ false
    → owners j (reassign changed k now user department actor rows) ≡ owners j rows
unfolding reassign
reassign-owners_away false j k now user department actor rows away = refl
reassign-owners_away true j k now user department actor rows away =
    owners-assign_away j k user department actor _ _ away
    ∙ owners-release_primary_away k now actor _ rows j away

follow_status-owners :
    (s t : IncidentStatus) (k now : ℕ) (actor : Actor) (note : Text) (user : Option ℕ)
    (rows : List IncidentAssignment)
    → assert_incident_transition s t ≡ ok tt
    → owners k rows ≡ responsible s user
    → owners k (follow_status t k now actor note rows) ≡ responsible t user
unfolding follow_status assert_incident_transition
follow_status-owners s IncidentStatus.new k now actor note user rows allowed h = ground arith
follow_status-owners s IncidentStatus.acknowledged k now actor note user rows allowed h =
    let same = owners-accept k now actor note rows k in ground arith
follow_status-owners s IncidentStatus.in_progress k now actor note user rows allowed h =
    ground arith
follow_status-owners s IncidentStatus.monitoring k now actor note user rows allowed h = ground arith
follow_status-owners s IncidentStatus.resolved k now actor note user rows allowed h = ground arith
follow_status-owners s IncidentStatus.closed k now actor note user rows allowed h =
    owners-release k now actor note rows
follow_status-owners s IncidentStatus.cancelled k now actor note user rows allowed h =
    owners-release k now actor note rows

follow_status-owners_away :
    (t : IncidentStatus) (j k now : ℕ) (actor : Actor) (note : Text)
    (rows : List IncidentAssignment)
    → (j == k) ≡ false
    → owners j (follow_status t k now actor note rows) ≡ owners j rows
unfolding follow_status
follow_status-owners_away IncidentStatus.acknowledged j k now actor note rows away =
    owners-accept k now actor note rows j
follow_status-owners_away IncidentStatus.closed j k now actor note rows away =
    owners-release_away k now actor note rows j away
follow_status-owners_away IncidentStatus.cancelled j k now actor note rows away =
    owners-release_away k now actor note rows j away
follow_status-owners_away IncidentStatus.new j k now actor note rows away = refl
follow_status-owners_away IncidentStatus.in_progress j k now actor note rows away = refl
follow_status-owners_away IncidentStatus.monitoring j k now actor note rows away = refl
follow_status-owners_away IncidentStatus.resolved j k now actor note rows away = refl

pub advanced-assignee :
    (s : IncidentStatus) (now : ℕ) (i : Incident)
    → (advanced s now i).assigned_to_id ≡ i.assigned_to_id
advanced-assignee IncidentStatus.new now i = refl
advanced-assignee IncidentStatus.acknowledged now i = refl
advanced-assignee IncidentStatus.in_progress now i = refl
advanced-assignee IncidentStatus.monitoring now i = refl
advanced-assignee IncidentStatus.resolved now i = refl
advanced-assignee IncidentStatus.closed now i = refl
advanced-assignee IncidentStatus.cancelled now i = refl

pub Move-owners :
    {k : ℕ} {i i' : Incident} {rows rows' : List IncidentAssignment}
    → Move k i rows i' rows'
    → owners k rows ≡ responsible i.status i.assigned_to_id
    → owners k rows' ≡ responsible i'.status i'.assigned_to_id
Move-owners {k} (revises src actor body department i rows going found) h =
    let new =
      reassign-owners src k src.env.now actor body.assigned_to_id i.assigned_to_id department rows
        found (ground arith) in
    ground arith
Move-owners {k} (advances src actor body i rows allowed full own) h =
    follow_status-owners i.status body.status k src.env.now actor _ i.assigned_to_id rows allowed h
    ∙ ap (responsible body.status) (sym (advanced-assignee body.status src.env.now i))

pub Move-owners_away :
    {k : ℕ} {i i' : Incident} {rows rows' : List IncidentAssignment} (j : ℕ)
    → Move k i rows i' rows'
    → (j == k) ≡ false
    → owners j rows' ≡ owners j rows
Move-owners_away {k} j (revises src actor body department i rows going found) away =
    reassign-owners_away (assignment_changed body.assigned_to_id i.assigned_to_id) j k src.env.now
      (patch_value body.assigned_to_id) department actor rows away
Move-owners_away {k} j (advances src actor body i rows allowed full own) away =
    follow_status-owners_away body.status j k src.env.now actor _ rows away
