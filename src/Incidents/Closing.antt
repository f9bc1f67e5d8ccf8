-- ===== src/Incidents/Closing.antt =====
-- The way of an incident from NEW to CLOSED by `changeStatus`, and what `changeStatus` still does
-- to a closed one.
use asset_it.Prelude.{
  ℕ, Bool, true, false, not, ◌≡◌, refl, ap, ◌∙◌, List, [], ◌∷◌, ◌++◌, some, Text, ok, or_else,
  Result-cases, Bool-cases, ◌&&◌, inl, inr, arith,
}
use asset_it.Store.Exceptions.{
  IncidentField, assigned_to, initial_assessment, containment_action, resolution, root_cause,
  corrective_action, preventive_action, lessons_learned,
}
use asset_it.Store.Rows.{Actor}
use asset_it.Store.Exceptions.{Outcome}
use asset_it.Incidents.Rows.{Incident, IncidentStatus}
use asset_it.Incidents.Rules.{
  assert_incident_transition, transitions, incident_missing_fields, missing_if, requires_assignee,
  requires_assessment, requires_containment, requires_resolution, requires_lessons, has_text,
}
use asset_it.Incidents.Desk.{Sources, Desk, is_desk_role}
use asset_it.Incidents.Revision.{UpdateIncident, update}
use asset_it.Incidents.Progress.{
  ChangeIncidentStatus, advanced, is_stranger, change_status, write_status,
}
use asset_it.Incidents.Moves.{update-writes}
use asset_it.Incidents.Records.{advanced-missing}
use asset_it.Incidents.Responsible.{advanced-assignee}
use asset_it.Incidents.Owned.{put_incident-same}
use asset_it.Incidents.Calls.{Request, changes_status, updates, settled_with, step, run}

missing_if-none :
    (b : Bool) (field : IncidentField) (rest : List IncidentField)
    → missing_if b field ++ rest ≡ []
    → (b ≡ false) × (rest ≡ [])
missing_if-none false field rest none_missing = (refl, none_missing)
missing_if-none true field rest none_missing = absurd (ground arith)

-- A field that no longer stands in the way of a later status does not of an earlier one.
missing_if-weaken :
    (earlier later here : Bool) (field : IncidentField) (rest : List IncidentField)
    → (earlier ≡ true → later ≡ true)
    → (later && not here) ≡ false
    → rest ≡ []
    → missing_if (earlier && not here) field ++ rest ≡ []
missing_if-weaken false later here field rest sooner gone empty = empty
missing_if-weaken true later here field rest sooner gone empty = let t = sooner refl in ground arith

only_lessons :
    (s : IncidentStatus) (here : Bool)
    → missing_if (not here) lessons_learned ≡ []
    → missing_if (requires_lessons s && not here) lessons_learned ≡ []
only_lessons s here gone = elim (Bool-cases (requires_lessons s)) [
  | inl needed ↦ ground arith
  | inr spared ↦ ground arith
]

-- A record that may be closed may take each status on the way.
missing-closed :
    (s : IncidentStatus) (i : Incident)
    → incident_missing_fields IncidentStatus.closed i ≡ []
    → incident_missing_fields s i ≡ []
unfolding incident_missing_fields
missing-closed s i full =
    let (b1, full) = missing_if-none _ assigned_to _ full in
    let (b2, full) = missing_if-none _ initial_assessment _ full in
    let (b3, full) = missing_if-none _ containment_action _ full in
    let (b4, full) = missing_if-none _ resolution _ full in
    let (b5, full) = missing_if-none _ root_cause _ full in
    let (b6, full) = missing_if-none _ corrective_action _ full in
    let (b7, full) = missing_if-none _ preventive_action _ full in
    missing_if-weaken (requires_assignee s) true _ assigned_to _ (λ e. refl) b1
      (missing_if-weaken (requires_assessment s) true _ initial_assessment _ (λ e. refl) b2
        (missing_if-weaken (requires_containment s) true _ containment_action _ (λ e. refl) b3
          (missing_if-weaken (requires_resolution s) true _ resolution _ (λ e. refl) b4
            (missing_if-weaken (requires_resolution s) true _ root_cause _ (λ e. refl) b5
              (missing_if-weaken (requires_resolution s) true _ corrective_action _ (λ e. refl) b6
                (missing_if-weaken (requires_lessons s) true _ preventive_action _ (λ e. refl) b7
                  (only_lessons s (has_text i.lessons_learned) full)))))))

-- Whoever may move the incident `i`.
pub record MayMove (actor : Actor) (i : Incident) : Type 0 where
  pub works : is_desk_role actor.role ≡ true
  pub own : is_stranger i.assigned_to_id actor ≡ false

change_status-proceeds :
    (src : Sources) (k : ℕ) (body : ChangeIncidentStatus) (actor : Actor) (d : Desk) (i : Incident)
    → d.incident k ≡ some i
    → MayMove actor i
    → assert_incident_transition i.status body.status ≡ ok tt
    → incident_missing_fields body.status i ≡ []
    → change_status src k body actor d ≡ ok (write_status src k i body actor d)
unfolding change_status
change_status-proceeds src k body actor d i here may allowed full =
    let works = may.works in let own = may.own in ground arith

abbrev pub request : Sources → Actor → ℕ → IncidentStatus → Text → Request
request src actor k s note = record {
  src = src;
  actor = actor;
  call = changes_status k (record { status = s; note = note });
}

step-proceeds :
    (src : Sources) (actor : Actor) (k : ℕ) (s : IncidentStatus) (note : Text) (d : Desk)
    (i : Incident)
    → d.incident k ≡ some i
    → MayMove actor i
    → assert_incident_transition i.status s ≡ ok tt
    → incident_missing_fields s i ≡ []
    → (step (request src actor k s note) d).incident k ≡ some (advanced s src.env.now i)
unfolding step write_status
step-proceeds src actor k s note d i here may allowed full =
    let went =
      change_status-proceeds src k (record { status = s; note = note }) actor d i here may allowed
        full in
    ap (λ (m : Outcome (Incident × Desk)). (settled_with d m).incident k) went
    ∙ put_incident-same d.incident k (advanced s src.env.now i)

step-proceeds-May :
    (s : IncidentStatus) (now : ℕ) (actor : Actor) (i : Incident)
    → MayMove actor i
    → MayMove actor (advanced s now i)
step-proceeds-May s now actor i may = record {
  works = may.works;
  own = ap (λ u. is_stranger u actor) (advanced-assignee s now i) ∙ may.own;
}

-- An incident on its way: it is `i` but for the status and the times.
pub record OnTheWay (d : Desk) (k : ℕ) (actor : Actor) (s : IncidentStatus) (i : Incident)
    : Type 0 where
  pub here : d.incident k ≡ some i
  pub at : i.status ≡ s
  pub may : MayMove actor i
  pub full : incident_missing_fields IncidentStatus.closed i ≡ []

moves_on :
    {d : Desk} {k : ℕ} {actor : Actor} {s : IncidentStatus} {i : Incident} (src : Sources)
    (t : IncidentStatus) (note : Text)
    → assert_incident_transition s t ≡ ok tt
    → OnTheWay d k actor s i
    → OnTheWay (step (request src actor k t note) d) k actor t (advanced t src.env.now i)
moves_on {d} {k} {actor} {s} {i} src t note allowed w = record {
  here =
      step-proceeds src actor k t note d i w.here w.may
        (ap (λ x. assert_incident_transition x t) w.at ∙ allowed) (missing-closed t i w.full);
  at = refl;
  may = step-proceeds-May t src.env.now actor i w.may;
  full = advanced-missing t IncidentStatus.closed src.env.now i ∙ w.full;
}

module _ (src1 src2 src3 src4 : Sources) (note1 note2 note3 note4 : Text) where
  abbrev pub closing_requests : Actor → ℕ → List Request
  closing_requests actor k =
      request src1 actor k IncidentStatus.acknowledged note1
      ∷ request src2 actor k IncidentStatus.in_progress note2
      ∷ request src3 actor k IncidentStatus.resolved note3
      ∷ request src4 actor k IncidentStatus.closed note4
      ∷ []

  -- A new incident whose record is complete for closing is closed by four requests of an
  -- administrator, or of the person responsible in a role of the desk, to acknowledge it, to take it
  -- up, to resolve it and to close it, whatever the notes: none of them is refused, and the record is
  -- the one before with the status and the four times set.
  pub run-closes :
      (d : Desk) (k : ℕ) (actor : Actor) (i : Incident)
      → d.incident k ≡ some i
      → i.status ≡ IncidentStatus.new
      → MayMove actor i
      → incident_missing_fields IncidentStatus.closed i ≡ []
      → (run (closing_requests actor k) d).incident k
        ≡ some (record i {
          status = IncidentStatus.closed;
          acknowledged_at = some src1.env.now;
          response_started_at = or_else i.response_started_at (some src2.env.now);
          resolved_at = some src3.env.now;
          closed_at = some src4.env.now;
        })
  unfolding run assert_incident_transition transitions
  run-closes d k actor i here at may full =
      (moves_on src4 IncidentStatus.closed note4 refl (
        moves_on src3 IncidentStatus.resolved note3 refl (
          moves_on src2 IncidentStatus.in_progress note2 refl (
            moves_on src1 IncidentStatus.acknowledged note1 refl
              (record { here = here; at = at; may = may; full = full }))))).here

updates-closed :
    (src : Sources) (actor : Actor) (k : ℕ) (body : UpdateIncident) (d : Desk) (i : Incident)
    → d.incident k ≡ some i
    → i.status ≡ IncidentStatus.closed
    → step (record { src = src; actor = actor; call = updates k body }) d ≡ d
unfolding step
updates-closed src actor k body d i here at = elim (Result-cases (update src k body actor d)) [
  | inl (r, granted) ↦
      let (j, department, found, going, responder, wrote) =
        update-writes src k body actor d r.1 r.0 granted in
      absurd (ground arith)
  | inr (x, refused) ↦ ap (settled_with d) refused
]

-- `update` refuses a closed incident, but `changeStatus` with the status CLOSED again is granted to
-- an administrator, or to the person responsible in a role of the desk, and sets the closing time
-- anew, if the record is still complete.
pub changes_status-closed_again :
    (src : Sources) (actor : Actor) (k : ℕ) (note : Text) (body : UpdateIncident) (d : Desk)
    (i : Incident)
    → d.incident k ≡ some i
    → i.status ≡ IncidentStatus.closed
    → MayMove actor i
    → incident_missing_fields IncidentStatus.closed i ≡ []
    → (step (record { src = src; actor = actor; call = updates k body }) d ≡ d)
      × ((step (request src actor k IncidentStatus.closed note) d).incident k
          ≡ some (record i { status = IncidentStatus.closed; closed_at = some src.env.now }))
unfolding assert_incident_transition transitions
changes_status-closed_again src actor k note body d i here at may full = (
  updates-closed src actor k body d i here at,
  (moves_on src IncidentStatus.closed note refl
      (record { here = here; at = at; may = may; full = full })).here,
)
