-- ===== src/Incidents/Staffing.antt =====
-- Who is responsible for an incident and the department responsible stand in the record together,
-- whatever `create`, `update` and `changeStatus` do to it.
use asset_it.Prelude.{
  ℕ, ◌≡◌, refl, ap, sym, ◌∙◌, inl, inr, Option, some, none, is_some, List, [], ◌∷◌, subst,
  Option-cases, ok, arith,
}
use asset_it.Incidents.Rows.{Incident, IncidentStatus, IncidentAssignment}
use asset_it.Incidents.Desk.{Sources, Desk, put_incident, find_responder, responder_department}
use asset_it.Incidents.Intake.{file_incident}
use asset_it.Incidents.Revision.{Patch, kept, cleared, put, patch_value, patched, new_department}
use asset_it.Incidents.Progress.{advanced}
use asset_it.Incidents.Moves.{Move, revises, advances, Filed}
use asset_it.Incidents.Calls.{Request, step, run, step-keeps}
use asset_it.Incidents.Records.{put_incident-cases, Erased-incident}

-- A department is responsible exactly if a person is.
abbrev pub Staffed : Incident → Type 0
Staffed i = is_some i.assigned_to_id ≡ is_some i.assigned_department_id

find_responder-is_some :
    (src : Sources) (user department : Option ℕ)
    → find_responder src user ≡ ok department
    → is_some user ≡ is_some department
find_responder-is_some src none department found = ground arith
find_responder-is_some src (some u) department found =
    elim (Option-cases (responder_department src u)) [
      | inl nobody ↦ absurd (ground arith)
      | inr (d, is) ↦ ground arith
    ]

new_department-is_some :
    (src : Sources) (wanted : Patch ℕ) (user old department : Option ℕ)
    → find_responder src (patch_value wanted) ≡ ok department
    → is_some user ≡ is_some old
    → is_some (patched wanted user) ≡ is_some (new_department wanted department old)
new_department-is_some src kept user old department found h = h
new_department-is_some src cleared user old department found h = refl
new_department-is_some src (put u) user old department found h =
    find_responder-is_some src (some u) department found

advanced-Staffed :
    (s : IncidentStatus) (now : ℕ) (i : Incident) → Staffed i → Staffed (advanced s now i)
advanced-Staffed IncidentStatus.new now i h = h
advanced-Staffed IncidentStatus.acknowledged now i h = h
advanced-Staffed IncidentStatus.in_progress now i h = h
advanced-Staffed IncidentStatus.monitoring now i h = h
advanced-Staffed IncidentStatus.resolved now i h = h
advanced-Staffed IncidentStatus.closed now i h = h
advanced-Staffed IncidentStatus.cancelled now i h = h

Move-Staffed :
    {k : ℕ} {i i' : Incident} {rows rows' : List IncidentAssignment}
    → Move k i rows i' rows'
    → Staffed i
    → Staffed i'
Move-Staffed (revises src actor body department i rows going found) h =
    new_department-is_some src body.assigned_to_id i.assigned_to_id i.assigned_department_id
      department found h
Move-Staffed (advances src actor body i rows allowed full own) h =
    advanced-Staffed body.status src.env.now i h

pub record StaffedDesk (d : Desk) : Type 0 where
  pub records : (k : ℕ) (i : Incident) → d.incident k ≡ some i → Staffed i

StaffedDesk-put :
    (d d' : Desk) (k : ℕ) (i : Incident)
    → StaffedDesk d
    → d'.incident ≡ put_incident d.incident k i
    → Staffed i
    → StaffedDesk d'
StaffedDesk-put d d' k i s there new = record {
  records = λ j x found. elim (put_incident-cases d d' k j i x there found) [
    | inl here ↦ subst Staffed here.1 new
    | inr old ↦ s.records j x old.1
  ];
}

Filed-StaffedDesk : (d d' : Desk) (i : Incident) → Filed d d' i → StaffedDesk d → StaffedDesk d'
unfolding file_incident
Filed-StaffedDesk d d' i f s =
    let new = ap (λ (x : Incident × Desk). x.0) f.is in
    StaffedDesk-put d d' d.next_id i s
      (sym (ap (λ (x : Incident × Desk). x.1.incident) f.is)
        ∙ ap (put_incident d.incident d.next_id) new)
      (subst Staffed new (find_responder-is_some f.src f.body.assigned_to_id f.department f.found))

step-StaffedDesk : (r : Request) (d : Desk) → StaffedDesk d → StaffedDesk (step r d)
step-StaffedDesk r d s =
    step-keeps StaffedDesk d s
      (λ d' k i i' m.
        StaffedDesk-put d d' k i' s m.there (Move-Staffed m.move (s.records k i m.here)))
      (λ d' i f. Filed-StaffedDesk d d' i f s)
      (λ d' l. record {
        records = λ j x found.
            s.records j x (sym (ap (λ (f : ℕ → Option Incident). f j) l.incident) ∙ found);
      })
      r
      (λ k d' is e. record {
        records = λ j x found. s.records j x (Erased-incident d d' k j x e found);
      })

-- If it is so before, then after any history of requests on incidents, the ones that hand an
-- incident to another person or to nobody included, every record has a department responsible
-- exactly if it has a person responsible.
pub run-StaffedDesk : (rs : List Request) (d : Desk) → StaffedDesk d → StaffedDesk (run rs d)
unfolding run
run-StaffedDesk [] d s = s
run-StaffedDesk (r ∷ rs) d s = run-StaffedDesk rs (step r d) (step-StaffedDesk r d s)
