-- ===== src/Incidents/Records.antt =====
-- What holds of every incident record: its deadlines follow from its priority, and its priority from
-- impact and urgency; a closed record is complete.
use asset_it.Prelude.{
  ℕ, ◌==◌, ==_iff, ◌≡◌, ◌≢◌, refl, ap, sym, ◌∙◌, ◌⊎◌, inl, inr, Option, some, List, [], ◌∷◌, subst,
  Bool-cases, arith,
}
use asset_it.Incidents.Rows.{Incident, IncidentStatus, IncidentAssignment}
use asset_it.Incidents.Rules.{incident_priority, incident_missing_fields}
use asset_it.Incidents.Desk.{Desk, put_incident}
use asset_it.Incidents.Intake.{response_due, resolution_due, file_incident}
use asset_it.Incidents.Removal.{erase_incident}
use asset_it.Incidents.Progress.{advanced}
use asset_it.Incidents.Moves.{Move, revises, advances, Filed}
use asset_it.Incidents.Calls.{Request, step, run, Erased, step-keeps}

pub record SoundIncident (i : Incident) : Type 0 where
  pub rated : i.priority ≡ incident_priority i.impact i.urgency
  pub response : i.sla_response_due_at ≡ response_due i.reported_at i.priority
  pub resolution : i.sla_resolution_due_at ≡ resolution_due i.reported_at i.priority
  pub complete :
      i.status ≡ IncidentStatus.closed → incident_missing_fields IncidentStatus.closed i ≡ []

-- A change of status leaves what `incidentMissingFields` reads.
pub advanced-missing :
    (s t : IncidentStatus) (now : ℕ) (i : Incident)
    → incident_missing_fields t (advanced s now i) ≡ incident_missing_fields t i
unfolding incident_missing_fields
advanced-missing IncidentStatus.new t now i = refl
advanced-missing IncidentStatus.acknowledged t now i = refl
advanced-missing IncidentStatus.in_progress t now i = refl
advanced-missing IncidentStatus.monitoring t now i = refl
advanced-missing IncidentStatus.resolved t now i = refl
advanced-missing IncidentStatus.closed t now i = refl
advanced-missing IncidentStatus.cancelled t now i = refl

advanced-SoundIncident :
    (s : IncidentStatus) (now : ℕ) (i : Incident)
    → incident_missing_fields s i ≡ []
    → SoundIncident i
    → SoundIncident (advanced s now i)
advanced-SoundIncident IncidentStatus.new now i full h = record {
  rated = h.rated;
  response = h.response;
  resolution = h.resolution;
  complete = λ e. absurd (ground arith);
}
advanced-SoundIncident IncidentStatus.acknowledged now i full h = record {
  rated = h.rated;
  response = h.response;
  resolution = h.resolution;
  complete = λ e. absurd (ground arith);
}
advanced-SoundIncident IncidentStatus.in_progress now i full h = record {
  rated = h.rated;
  response = h.response;
  resolution = h.resolution;
  complete = λ e. absurd (ground arith);
}
advanced-SoundIncident IncidentStatus.monitoring now i full h = record {
  rated = h.rated;
  response = h.response;
  resolution = h.resolution;
  complete = λ e. absurd (ground arith);
}
advanced-SoundIncident IncidentStatus.resolved now i full h = record {
  rated = h.rated;
  response = h.response;
  resolution = h.resolution;
  complete = λ e. absurd (ground arith);
}
advanced-SoundIncident IncidentStatus.closed now i full h = record {
  rated = h.rated;
  response = h.response;
  resolution = h.resolution;
  complete = λ e. advanced-missing IncidentStatus.closed IncidentStatus.closed now i ∙ full;
}
advanced-SoundIncident IncidentStatus.cancelled now i full h = record {
  rated = h.rated;
  response = h.response;
  resolution = h.resolution;
  complete = λ e. absurd (ground arith);
}

Move-SoundIncident :
    {k : ℕ} {i i' : Incident} {rows rows' : List IncidentAssignment}
    → Move k i rows i' rows'
    → SoundIncident i
    → SoundIncident i'
Move-SoundIncident (revises src actor body department i rows going found) h = record {
  rated = refl;
  response = refl;
  resolution = refl;
  complete = λ e. absurd (ground arith);
}
Move-SoundIncident (advances src actor body i rows allowed full own) h =
    advanced-SoundIncident body.status src.env.now i full h

pub put_incident-cases :
    (d d' : Desk) (k j : ℕ) (i x : Incident)
    → d'.incident ≡ put_incident d.incident k i
    → d'.incident j ≡ some x
    → ((j ≡ k) × (i ≡ x)) ⊎ ((j ≢ k) × (d.incident j ≡ some x))
put_incident-cases d d' k j i x there found =
    let at = ap (λ (f : ℕ → Option Incident). f j) there in
    elim (Bool-cases (j == k)) [
      | inl here ↦ inl ((==_iff j k).0 here, ground arith)
      | inr away ↦ inr (ground arith, ground arith)
    ]

pub record SoundDesk (d : Desk) : Type 0 where
  pub records : (k : ℕ) (i : Incident) → d.incident k ≡ some i → SoundIncident i

SoundDesk-put :
    (d d' : Desk) (k : ℕ) (i : Incident)
    → SoundDesk d
    → d'.incident ≡ put_incident d.incident k i
    → SoundIncident i
    → SoundDesk d'
SoundDesk-put d d' k i s there new = record {
  records = λ j x found. elim (put_incident-cases d d' k j i x there found) [
    | inl here ↦ subst SoundIncident here.1 new
    | inr old ↦ s.records j x old.1
  ];
}

Filed-SoundDesk : (d d' : Desk) (i : Incident) → Filed d d' i → SoundDesk d → SoundDesk d'
unfolding file_incident
Filed-SoundDesk d d' i f s =
    let new = ap (λ (x : Incident × Desk). x.0) f.is in
    SoundDesk-put d d' d.next_id i s
      (sym (ap (λ (x : Incident × Desk). x.1.incident) f.is)
        ∙ ap (put_incident d.incident d.next_id) new)
      (subst SoundIncident new (record {
        rated = refl;
        response = refl;
        resolution = refl;
        complete = λ e. absurd (ground arith);
      }))

pub Erased-incident :
    (d d' : Desk) (k j : ℕ) (x : Incident)
    → Erased d d' k
    → d'.incident j ≡ some x
    → d.incident j ≡ some x
unfolding erase_incident
Erased-incident d d' k j x e found =
    let at = ap (λ (f : ℕ → Option Incident). f j) e.incident in ground arith

step-SoundDesk : (r : Request) (d : Desk) → SoundDesk d → SoundDesk (step r d)
step-SoundDesk r d s =
    step-keeps SoundDesk d s
      (λ d' k i i' m.
        SoundDesk-put d d' k i' s m.there (Move-SoundIncident m.move (s.records k i m.here)))
      (λ d' i f. Filed-SoundDesk d d' i f s)
      (λ d' l. record {
        records = λ j x found.
            s.records j x (sym (ap (λ (f : ℕ → Option Incident). f j) l.incident) ∙ found);
      })
      r
      (λ k d' is e. record {
        records = λ j x found. s.records j x (Erased-incident d d' k j x e found);
      })

-- If it is so before, then after any history of requests on incidents the priority of every incident
-- is that of its impact and urgency, its deadlines are those of its priority counted from the report,
-- and a closed incident has somebody responsible and all seven texts of its workflow.
pub run-SoundDesk : (rs : List Request) (d : Desk) → SoundDesk d → SoundDesk (run rs d)
unfolding run
run-SoundDesk [] d s = s
run-SoundDesk (r ∷ rs) d s = run-SoundDesk rs (step r d) (step-SoundDesk r d s)
