-- ===== src/Incidents/Calls.antt =====
-- The requests of apps/api/src/modules/incidents/incidents.controller.ts that write, and histories
-- of them: a request that throws leaves the tables as they were.
use asset_it.Prelude.{ℕ, ◌≡◌, refl, List, [], ◌∷◌, ok, err, Bool, true, false, arith}
use asset_it.Store.Rows.{Actor}
use asset_it.Store.Exceptions.{Outcome}
use asset_it.Incidents.Desk.{Sources, Desk}
use asset_it.Incidents.Rows.{Incident, IncidentActivity}
use asset_it.Incidents.Intake.{CreateIncident, create}
use asset_it.Incidents.Revision.{UpdateIncident, update}
use asset_it.Incidents.Progress.{
  ChangeIncidentStatus, change_status, AddIncidentActivity, add_activity,
}
use asset_it.Incidents.Removal.{remove, erase_incident}
use asset_it.Incidents.Moves.{Moved, Filed, update-Moved, change_status-Moved, create-Filed}

pub data Call : Type 0 where
  creates : CreateIncident → Call
  updates : ℕ → UpdateIncident → Call
  changes_status : ℕ → ChangeIncidentStatus → Call
  adds_activity : ℕ → AddIncidentActivity → Call
  removes : ℕ → Call

pub record Request : Type 0 where
  pub src : Sources
  pub actor : Actor
  pub call : Call

abbrev pub settled : Desk → Outcome Desk → Desk
settled d (ok d') = d'
settled d (err x) = d

abbrev pub settled_with : {A : Type 0} → Desk → Outcome (A × Desk) → Desk
settled_with d (ok (a, d')) = d'
settled_with d (err x) = d

unfoldable pub step : Request → Desk → Desk
step r d = elim r.call [
  | creates body ↦ settled_with d (create r.src body r.actor d)
  | updates k body ↦ settled_with d (update r.src k body r.actor d)
  | changes_status k body ↦ settled_with d (change_status r.src k body r.actor d)
  | adds_activity k body ↦ settled_with d (add_activity r.src k body r.actor d)
  | removes k ↦ settled d (remove r.src k r.actor d)
]

unfoldable pub run : List Request → Desk → Desk
unfolding step
run [] d = d
run (r ∷ rs) d = run rs (step r d)

abbrev pub is_removal : Request → Bool
is_removal r = elim r.call [ removes k ↦ true | _ ↦ false ]

settled_with_lem :
    {A : Type 0} (P : Desk → Type 0) (d : Desk) (m : Outcome (A × Desk))
    → P d
    → ((a : A) (d' : Desk) → m ≡ ok (a, d') → P d')
    → P (settled_with d m)
settled_with_lem P d (ok (a, d')) p f = f a d' refl
settled_with_lem P d (err x) p f = p

settled_lem :
    (P : Desk → Type 0) (d : Desk) (m : Outcome Desk)
    → P d
    → ((d' : Desk) → m ≡ ok d' → P d')
    → P (settled d m)
settled_lem P d (ok d') p f = f d' refl
settled_lem P d (err x) p f = p

-- A note in the logs changes nothing else.
pub record Logged (d d' : Desk) : Type 0 where
  pub incident : d'.incident ≡ d.incident
  pub assignments : d'.assignments ≡ d.assignments
  pub next : d'.next_id ≡ d.next_id

add_activity-Logged :
    (src : Sources) (k : ℕ) (body : AddIncidentActivity) (actor : Actor) (d d' : Desk)
    (row : IncidentActivity)
    → add_activity src k body actor d ≡ ok (row, d')
    → Logged d d'
unfolding add_activity
add_activity-Logged src k body actor d d' row e = record {
  incident = ground arith;
  assignments = ground arith;
  next = ground arith;
}

-- A deletion: what is left is the tables without the incident, but for the audit log.
pub record Erased (d d' : Desk) (k : ℕ) : Type 0 where
  pub incident : d'.incident ≡ (erase_incident k d).incident
  pub assignments : d'.assignments ≡ (erase_incident k d).assignments
  pub next : d'.next_id ≡ d.next_id

remove-Erased :
    (src : Sources) (k : ℕ) (actor : Actor) (d d' : Desk)
    → remove src k actor d ≡ ok d'
    → Erased d d' k
unfolding remove erase_incident
remove-Erased src k actor d d' e = record {
  incident = ground arith;
  assignments = ground arith;
  next = ground arith;
}

-- A property that a move, a new incident, a note and a deletion keep is kept by each request.
module _ (P : Desk → Type 0) (d : Desk) (p : P d)
    (moves : (d' : Desk) (k : ℕ) (i i' : Incident) → Moved d d' k i i' → P d')
    (files : (d' : Desk) (i : Incident) → Filed d d' i → P d')
    (logs : (d' : Desk) → Logged d d' → P d') where
  keeps :
      (src : Sources) (actor : Actor) (call : Call)
      → ((k : ℕ) (d' : Desk) → call ≡ removes k → Erased d d' k → P d')
      → P (step (record { src = src; actor = actor; call = call }) d)
  unfolding step
  keeps src actor (creates body) erases =
      settled_with_lem P d (create src body actor d) p
        (λ i d' e. files d' i (create-Filed src body actor d d' i e))
  keeps src actor (updates k body) erases =
      settled_with_lem P d (update src k body actor d) p
        (λ i' d' e. let (i, m) = update-Moved src k body actor d d' i' e in moves d' k i i' m)
  keeps src actor (changes_status k body) erases =
      settled_with_lem P d (change_status src k body actor d) p (λ i' d' e.
        let (i, m) = change_status-Moved src k body actor d d' i' e in moves d' k i i' m)
  keeps src actor (adds_activity k body) erases =
      settled_with_lem P d (add_activity src k body actor d) p
        (λ row d' e. logs d' (add_activity-Logged src k body actor d d' row e))
  keeps src actor (removes k) erases =
      settled_lem P d (remove src k actor d) p
        (λ d' e. erases k d' refl (remove-Erased src k actor d d' e))

  pub step-keeps :
      (r : Request)
      → ((k : ℕ) (d' : Desk) → r.call ≡ removes k → Erased d d' k → P d')
      → P (step r d)
  step-keeps r = keeps r.src r.actor r.call
