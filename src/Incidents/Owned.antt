-- ===== src/Incidents/Owned.antt =====
-- The agreement of incident records and assignment rows over whole histories of requests.
use asset_it.Prelude.{
  ℕ, false, ◌==◌, ==_iff, ==_refl, ◌≡◌, ap, sym, ◌∙◌, List, [], ◌∷◌, Option, some, none, Text,
  Bool-cases, Option-cases, inl, inr, ok, subst, ◌≤◌, arith,
}
use asset_it.Store.Rows.{Actor}
use asset_it.Incidents.Rows.{Incident, IncidentAssignment}
use asset_it.Incidents.Desk.{
  Sources, Desk, find_responder, responder_department, put_incident, assign_if,
}
use asset_it.Incidents.Intake.{CreateIncident, new_incident, file_incident}
use asset_it.Incidents.Removal.{erase_incident}
use asset_it.Incidents.Moves.{Moved, Filed}
use asset_it.Incidents.Calls.{Request, step, run, step-keeps}
use asset_it.Incidents.Ownership.{
  owners, owners-assign, owners-assign_away, owners-erase, owners-erase_away,
}
use asset_it.Incidents.Responsible.{at_most_one, responsible, Move-owners, Move-owners_away}

abbrev pub responsible_for : Option Incident → List ℕ
responsible_for none = []
responsible_for (some i) = responsible i.status i.assigned_to_id

-- The primary rows that are not released name the person of the record, and nobody where there is no
-- record or it is closed or cancelled.
pub record Owned (d : Desk) : Type 0 where
  pub fresh : (k : ℕ) → d.next_id ≤ k → d.incident k ≡ none
  pub agrees : (k : ℕ) → owners k d.assignments ≡ responsible_for (d.incident k)

pub put_incident-same :
    (f : ℕ → Option Incident) (k : ℕ) (i : Incident) → put_incident f k i k ≡ some i
put_incident-same f k i = let same = ==_refl k in ground arith

put_incident-away :
    (f : ℕ → Option Incident) (k j : ℕ) (i : Incident)
    → (j == k) ≡ false
    → f j ≡ put_incident f k i j
put_incident-away f k j i away = ground arith

erase_incident-same : (k : ℕ) (d : Desk) → (erase_incident k d).incident k ≡ none
unfolding erase_incident
erase_incident-same k d = let same = ==_refl k in ground arith

erase_incident-away :
    (k j : ℕ) (d : Desk) → (j == k) ≡ false → d.incident j ≡ (erase_incident k d).incident j
unfolding erase_incident
erase_incident-away k j d away = ground arith

Moved-owners :
    (d d' : Desk) (k : ℕ) (i i' : Incident)
    → Moved d d' k i i'
    → owners k d.assignments ≡ responsible_for (d.incident k)
    → owners k d'.assignments ≡ responsible_for (d'.incident k)
Moved-owners d d' k i i' m h =
    let at = ap (λ (f : ℕ → Option Incident). f k) m.there ∙ put_incident-same d.incident k i' in
    Move-owners m.move (h ∙ ap responsible_for m.here) ∙ sym (ap responsible_for at)

Moved-Owned : (d d' : Desk) (k : ℕ) (i i' : Incident) → Moved d d' k i i' → Owned d → Owned d'
Moved-Owned d d' k i i' m o = record {
  fresh = λ j above.
      let at = ap (λ (f : ℕ → Option Incident). f j) m.there in
      let old = o.fresh j (subst (λ n. n ≤ j) m.next above) in
      elim (Bool-cases (j == k)) [
        | inl here ↦ let same = (==_iff j k).0 here in absurd (ground arith)
        | inr away ↦ ground arith
      ];
  agrees = λ j.
      let at = ap (λ (f : ℕ → Option Incident). f j) m.there in
      let old = o.agrees j in
      elim (Bool-cases (j == k)) [
        | inl here ↦
            subst (λ n. owners n d'.assignments ≡ responsible_for (d'.incident n))
              (sym ((==_iff j k).0 here)) (Moved-owners d d' k i i' m (o.agrees k))
        | inr away ↦ let same = Move-owners_away j m.move away in ground arith
      ];
}

filed-owners :
    (src : Sources) (k : ℕ) (user department : Option ℕ) (actor : Actor) (note : Text)
    (rows : List IncidentAssignment)
    → find_responder src user ≡ ok department
    → owners k rows ≡ []
    → owners k (assign_if k user department actor note rows) ≡ at_most_one user
unfolding assign_if
filed-owners src k none department actor note rows found h = h
filed-owners src k (some u) none actor note rows found h =
    elim (Option-cases (responder_department src u)) [
      | inl nobody ↦ absurd (ground arith)
      | inr (d, is) ↦ absurd (ground arith)
    ]
filed-owners src k (some u) (some d) actor note rows found h =
    owners-assign k u d actor note rows ∙ ap (λ (l : List ℕ). u ∷ l) h

file_incident-Owned :
    (src : Sources) (body : CreateIncident) (department : Option ℕ) (actor : Actor) (d : Desk)
    → find_responder src body.assigned_to_id ≡ ok department
    → Owned d
    → Owned (file_incident src body department actor d).1
unfolding file_incident
file_incident-Owned src body department actor d found o = record {
  fresh = λ j above. let old = o.fresh j (ground arith) in ground arith;
  agrees = λ j. elim (Bool-cases (j == d.next_id)) [
    | inl here ↦
        subst
          (λ n.
            owners n (file_incident src body department actor d).1.assignments
            ≡ responsible_for ((file_incident src body department actor d).1.incident n))
          (sym ((==_iff j d.next_id).0 here))
          (filed-owners src d.next_id body.assigned_to_id department actor _ d.assignments found
              (o.agrees d.next_id ∙ ap responsible_for (o.fresh d.next_id (ground arith)))
            ∙ sym (
                ap responsible_for (
                  put_incident-same d.incident d.next_id
                    (new_incident src body department actor d.next_id))))
    | inr away ↦
        owners-assign_away j d.next_id body.assigned_to_id department actor _ d.assignments away
        ∙ o.agrees j
        ∙ ap responsible_for (
            put_incident-away d.incident d.next_id j
              (new_incident src body department actor d.next_id) away)
  ];
}

Filed-Owned : (d d' : Desk) (i : Incident) → Filed d d' i → Owned d → Owned d'
Filed-Owned d d' i f o =
    subst Owned (ap (λ (x : Incident × Desk). x.1) f.is)
      (file_incident-Owned f.src f.body f.department f.actor d f.found o)

erase_incident-Owned : (k : ℕ) (d : Desk) → Owned d → Owned (erase_incident k d)
unfolding erase_incident
erase_incident-Owned k d o = record {
  fresh = λ j above. let old = o.fresh j above in ground arith;
  agrees = λ j. elim (Bool-cases (j == k)) [
    | inl here ↦
        subst
          (λ n.
            owners n (erase_incident k d).assignments
            ≡ responsible_for ((erase_incident k d).incident n))
          (sym ((==_iff j k).0 here))
          (owners-erase k d.assignments ∙ sym (ap responsible_for (erase_incident-same k d)))
    | inr away ↦
        owners-erase_away j k d.assignments away
        ∙ o.agrees j
        ∙ ap responsible_for (erase_incident-away k j d away)
  ];
}

-- Two states that agree on the incidents and their assignments.
Owned-transfer :
    (d d' : Desk)
    → d'.incident ≡ d.incident
    → d'.assignments ≡ d.assignments
    → d'.next_id ≡ d.next_id
    → Owned d
    → Owned d'
Owned-transfer d d' i a n o = record {
  fresh =
      λ k above. ap (λ (f : ℕ → Option Incident). f k) i ∙ o.fresh k (subst (λ m. m ≤ k) n above);
  agrees = λ k.
      ap (owners k) a
      ∙ o.agrees k
      ∙ ap (λ (f : ℕ → Option Incident). responsible_for (f k)) (sym i);
}

step-Owned : (r : Request) (d : Desk) → Owned d → Owned (step r d)
unfolding erase_incident
step-Owned r d o =
    step-keeps Owned d o (λ d' k i i' m. Moved-Owned d d' k i i' m o)
      (λ d' i f. Filed-Owned d d' i f o)
      (λ d' l. Owned-transfer d d' l.incident l.assignments l.next o) r
      (λ k d' is e.
        Owned-transfer (erase_incident k d) d' e.incident e.assignments e.next
          (erase_incident-Owned k d o))

-- If it is so before, then after any history of requests on incidents, deletions included, the
-- primary assignment rows of an incident that are not released are none if the incident is closed,
-- cancelled or absent, and otherwise one row, of the person in the record, or none if it has none;
-- and no incident has an id that is still to be given.
pub run-Owned : (rs : List Request) (d : Desk) → Owned d → Owned (run rs d)
unfolding run
run-Owned [] d o = o
run-Owned (r ∷ rs) d o = run-Owned rs (step r d) (step-Owned r d o)
