-- ===== src/Incidents/Ownership.antt =====
-- Who is responsible for an incident according to the assignment rows: the people of the primary
-- rows that are not released, newest first.
use asset_it.Prelude.{
  ℕ, Bool, false, not, ◌==◌, ◌≡◌, refl, ap, ◌∙◌, List, [], ◌∷◌, keep, Option, some, none, Text,
  if◌then◌else◌, Bool-cases, inl, inr, arith,
}
use asset_it.Store.Rows.{Actor}
use asset_it.Incidents.Rows.{IncidentAssignment}
use asset_it.Incidents.Desk.{
  live_primary, live, released, update_where, update_assignments, assign_if,
}
use asset_it.Incidents.Progress.{awaiting, accepted}

abbrev pub add_owner : ℕ → IncidentAssignment → List ℕ → List ℕ
add_owner k r rest = if live_primary k r then r.assigned_to_id ∷ rest else rest

unfoldable pub owners : ℕ → List IncidentAssignment → List ℕ
owners k [] = []
owners k (r ∷ rows) = add_owner k r (owners k rows)

-- An update of rows that leaves every row's part in `owners j` leaves `owners j`.
owners-update :
    (j : ℕ) (p : IncidentAssignment → Bool) (change : IncidentAssignment → IncidentAssignment)
    (rows : List IncidentAssignment)
    → ((r : IncidentAssignment) (rest : List ℕ)
        → add_owner j (update_where p change r) rest ≡ add_owner j r rest)
    → owners j (update_assignments p change rows) ≡ owners j rows
unfolding owners update_assignments
owners-update j p change [] same = refl
owners-update j p change (r ∷ rows) same =
    same r (owners j (update_assignments p change rows))
    ∙ ap (add_owner j r) (owners-update j p change rows same)

-- One that releases every row of the incident leaves nobody.
owners-none :
    (k : ℕ) (p : IncidentAssignment → Bool) (change : IncidentAssignment → IncidentAssignment)
    (rows : List IncidentAssignment)
    → ((r : IncidentAssignment) (rest : List ℕ) → add_owner k (update_where p change r) rest ≡ rest)
    → owners k (update_assignments p change rows) ≡ []
unfolding owners update_assignments
owners-none k p change [] gone = refl
owners-none k p change (r ∷ rows) gone =
    gone r (owners k (update_assignments p change rows)) ∙ owners-none k p change rows gone

module _ (k now : ℕ) (actor : Actor) (reason : Text) (rows : List IncidentAssignment) where
  pub owners-release_primary :
      owners k (update_assignments (live_primary k) (released now actor reason) rows) ≡ []
  owners-release_primary =
      owners-none k (live_primary k) (released now actor reason) rows (λ r rest. ground arith)

  pub owners-release : owners k (update_assignments (live k) (released now actor reason) rows) ≡ []
  owners-release = owners-none k (live k) (released now actor reason) rows (λ r rest. ground arith)

  pub owners-accept :
      (j : ℕ) → owners j (update_assignments (awaiting k) (accepted now actor) rows) ≡ owners j rows
  owners-accept j = owners-update j (awaiting k) (accepted now actor) rows (λ r rest. ground arith)

  pub owners-release_primary_away :
      (j : ℕ)
      → (j == k) ≡ false
      → owners j (update_assignments (live_primary k) (released now actor reason) rows)
        ≡ owners j rows
  owners-release_primary_away j away =
      owners-update j (live_primary k) (released now actor reason) rows (λ r rest. ground arith)

  pub owners-release_away :
      (j : ℕ)
      → (j == k) ≡ false
      → owners j (update_assignments (live k) (released now actor reason) rows) ≡ owners j rows
  owners-release_away j away =
      owners-update j (live k) (released now actor reason) rows (λ r rest. ground arith)

pub owners-assign :
    (k u department : ℕ) (actor : Actor) (note : Text) (rows : List IncidentAssignment)
    → owners k (assign_if k (some u) (some department) actor note rows) ≡ u ∷ owners k rows
unfolding owners assign_if
owners-assign k u department actor note rows = ground arith

pub owners-assign_away :
    (j k : ℕ) (u department : Option ℕ) (actor : Actor) (note : Text)
    (rows : List IncidentAssignment)
    → (j == k) ≡ false
    → owners j (assign_if k u department actor note rows) ≡ owners j rows
unfolding owners assign_if
owners-assign_away j k none department actor note rows away = refl
owners-assign_away j k (some u) none actor note rows away = refl
owners-assign_away j k (some u) (some department) actor note rows away = ground arith

abbrev pub not_of : ℕ → IncidentAssignment → Bool
not_of k r = not (r.incident_id == k)

pub owners-erase : (k : ℕ) (rows : List IncidentAssignment) → owners k (keep (not_of k) rows) ≡ []
unfolding owners
owners-erase k [] = refl
owners-erase k (r ∷ rows) =
    let rest = owners-erase k rows in
    elim (Bool-cases (r.incident_id == k)) [ inl mine ↦ ground arith | inr other ↦ ground arith ]

pub owners-erase_away :
    (j k : ℕ) (rows : List IncidentAssignment)
    → (j == k) ≡ false
    → owners j (keep (not_of k) rows) ≡ owners j rows
unfolding owners
owners-erase_away j k [] away = refl
owners-erase_away j k (r ∷ rows) away =
    let rest = owners-erase_away j k rows away in
    elim (Bool-cases (r.incident_id == k)) [ inl mine ↦ ground arith | inr other ↦ ground arith ]
