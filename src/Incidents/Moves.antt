-- ===== src/Incidents/Moves.antt =====
-- What `update` and `changeStatus` do to one incident and its assignment rows, and when.
use asset_it.Prelude.{
  ℕ, false, ◌≡◌, refl, some, List, [], ok, trim, inl, inr, Option, Option-cases, Result-cases,
  List-cases, subst, arith,
}
use asset_it.Store.Rows.{Actor}
use asset_it.Incidents.Rows.{Incident, IncidentAssignment}
use asset_it.Incidents.Rules.{assert_incident_transition, incident_missing_fields}
use asset_it.Incidents.Desk.{Sources, Desk, find_responder, validate_references, put_incident}
use asset_it.Incidents.Intake.{CreateIncident, create, file_incident}
use asset_it.Incidents.Revision.{
  UpdateIncident, patch_value, assignment_changed, revised, reassign, is_read_only, update,
  write_update,
}
use asset_it.Incidents.Progress.{
  ChangeIncidentStatus, advanced, follow_status, change_status, write_status, is_stranger,
}

pub data Move (k : ℕ)
    : Incident → List IncidentAssignment → Incident → List IncidentAssignment → Type 0 where
  revises :
      (src : Sources) (actor : Actor) (body : UpdateIncident) (department : Option ℕ) (i : Incident)
      (rows : List IncidentAssignment)
      → is_read_only i.status ≡ false
      → find_responder src (patch_value body.assigned_to_id) ≡ ok department
      → Move k i rows (revised body department i) (
          reassign
            (assignment_changed body.assigned_to_id i.assigned_to_id)
            k
            src.env.now
            (patch_value body.assigned_to_id)
            department
            actor
            rows)
  advances :
      (src : Sources) (actor : Actor) (body : ChangeIncidentStatus) (i : Incident)
      (rows : List IncidentAssignment)
      → assert_incident_transition i.status body.status ≡ ok tt
      → incident_missing_fields body.status i ≡ []
      → is_stranger i.assigned_to_id actor ≡ false
      → Move k i rows
          (advanced body.status src.env.now i)
          (follow_status body.status k src.env.now actor (trim body.note) rows)

-- The incident `k` has made a move, and nothing else has changed but the logs.
pub record Moved (d d' : Desk) (k : ℕ) (i i' : Incident) : Type 0 where
  pub here : d.incident k ≡ some i
  pub move : Move k i d.assignments i' d'.assignments
  pub there : d'.incident ≡ put_incident d.incident k i'
  pub next : d'.next_id ≡ d.next_id

pub update-writes :
    (src : Sources) (k : ℕ) (body : UpdateIncident) (actor : Actor) (d d' : Desk) (i' : Incident)
    → update src k body actor d ≡ ok (i', d')
    → (i : Incident) × (department : Option ℕ) × (d.incident k ≡ some i)
      × (is_read_only i.status ≡ false)
      × (find_responder src (patch_value body.assigned_to_id) ≡ ok department)
      × (write_update src k i body department actor d ≡ (i', d'))
unfolding update validate_references
update-writes src k body actor d d' i' e = elim (Option-cases (d.incident k)) [
  | inl absent ↦ absurd (ground arith)
  | inr (i, here) ↦ elim (Result-cases (find_responder src (patch_value body.assigned_to_id))) [
    | inl (department, found) ↦ (i, department, here, ground arith, found, ground arith)
    | inr (x, refused) ↦ absurd (ground arith)
  ]
]

write_update-Moved :
    (src : Sources) (k : ℕ) (i : Incident) (body : UpdateIncident) (department : Option ℕ)
    (actor : Actor) (d : Desk)
    → d.incident k ≡ some i
    → is_read_only i.status ≡ false
    → find_responder src (patch_value body.assigned_to_id) ≡ ok department
    → Moved d
        (write_update src k i body department actor d).1
        k
        i
        (write_update src k i body department actor d).0
unfolding write_update
write_update-Moved src k i body department actor d here going found = record {
  here = here;
  move = revises src actor body department i d.assignments going found;
  there = refl;
  next = refl;
}

pub update-Moved :
    (src : Sources) (k : ℕ) (body : UpdateIncident) (actor : Actor) (d d' : Desk) (i' : Incident)
    → update src k body actor d ≡ ok (i', d')
    → (i : Incident) × Moved d d' k i i'
update-Moved src k body actor d d' i' e =
    let (i, department, here, going, found, wrote) = update-writes src k body actor d d' i' e in
    (
      i,
      subst (λ (x : Incident × Desk). Moved d x.1 k i x.0) wrote
          (write_update-Moved src k i body department actor d here going found),
    )

change_status-writes :
    (src : Sources) (k : ℕ) (body : ChangeIncidentStatus) (actor : Actor) (d d' : Desk)
    (i' : Incident)
    → change_status src k body actor d ≡ ok (i', d')
    → (i : Incident) × (d.incident k ≡ some i)
      × (assert_incident_transition i.status body.status ≡ ok tt)
      × (incident_missing_fields body.status i ≡ [])
      × (is_stranger i.assigned_to_id actor ≡ false)
      × (write_status src k i body actor d ≡ (i', d'))
unfolding change_status
change_status-writes src k body actor d d' i' e = elim (Option-cases (d.incident k)) [
  | inl absent ↦ absurd (ground arith)
  | inr (i, here) ↦ elim (Result-cases (assert_incident_transition i.status body.status)) [
    | inr (x, refused) ↦ absurd (ground arith)
    | inl (u, allowed) ↦ elim (List-cases (incident_missing_fields body.status i)) [
      | inr (f, fs, lacking) ↦ absurd (ground arith)
      | inl complete ↦ (i, here, allowed, complete, ground arith, ground arith)
    ]
  ]
]

write_status-Moved :
    (src : Sources) (k : ℕ) (i : Incident) (body : ChangeIncidentStatus) (actor : Actor) (d : Desk)
    → d.incident k ≡ some i
    → assert_incident_transition i.status body.status ≡ ok tt
    → incident_missing_fields body.status i ≡ []
    → is_stranger i.assigned_to_id actor ≡ false
    → Moved d (write_status src k i body actor d).1 k i (write_status src k i body actor d).0
unfolding write_status
write_status-Moved src k i body actor d here allowed complete own = record {
  here = here;
  move = advances src actor body i d.assignments allowed complete own;
  there = refl;
  next = refl;
}

pub change_status-Moved :
    (src : Sources) (k : ℕ) (body : ChangeIncidentStatus) (actor : Actor) (d d' : Desk)
    (i' : Incident)
    → change_status src k body actor d ≡ ok (i', d')
    → (i : Incident) × Moved d d' k i i'
change_status-Moved src k body actor d d' i' e =
    let (i, here, allowed, complete, own, wrote) =
      change_status-writes src k body actor d d' i' e in
    (
      i,
      subst (λ (x : Incident × Desk). Moved d x.1 k i x.0) wrote
          (write_status-Moved src k i body actor d here allowed complete own),
    )

-- A new incident `i`, in the status NEW, with an assignment row if it has somebody responsible.
pub record Filed (d d' : Desk) (i : Incident) : Type 0 where
  pub src : Sources
  pub actor : Actor
  pub body : CreateIncident
  pub department : Option ℕ
  pub found : find_responder src body.assigned_to_id ≡ ok department
  pub is : file_incident src body department actor d ≡ (i, d')

pub create-Filed :
    (src : Sources) (body : CreateIncident) (actor : Actor) (d d' : Desk) (i : Incident)
    → create src body actor d ≡ ok (i, d')
    → Filed d d' i
unfolding create validate_references
create-Filed src body actor d d' i e =
    elim (Result-cases (find_responder src body.assigned_to_id)) [
      | inr (x, refused) ↦ absurd (ground arith)
      | inl (department, found) ↦ record {
        src = src;
        actor = actor;
        body = body;
        department = department;
        found = found;
        is = ground arith;
      }
    ]
