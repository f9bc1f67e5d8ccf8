-- ===== src/Tests/Renewals.antt =====
-- The theorems on seats at a licence of three seats, two of them in use.
use asset_it.Prelude.{
  ℕ, ◌≡◌, refl, none, some, List, [], ◌∷◌, ◌==◌, ◌||◌, false, err, text, if◌then◌else◌, arith,
}
use asset_it.Store.Exceptions.{unique_violation, foreign_key_violation}
use asset_it.Tests.Samples.{env, boss}
use asset_it.Renewals.Rows.{
  DigitalEntitlementType, DigitalEntitlementStatus, DigitalEntitlement, Licences,
}
use asset_it.Renewals.Seats.{AssignEntitlement, used, new_assignment, has_seats, manage, assign}
use asset_it.Renewals.Histories.{assigns, revokes, Request, run, WithinSeats, run-WithinSeats}

abbrev wish : ℕ → ℕ → AssignEntitlement
wish person n = record {
  person_id = some person;
  asset_id = none;
  department_id = none;
  quantity = n;
  expected_end_at = none;
  note = none;
}

abbrev office : DigitalEntitlement
office = record {
  type = DigitalEntitlementType.license;
  status = DigitalEntitlementStatus.expiring;
  total_quantity = 3;
  external_provider = none;
}

abbrev licences : Licences
licences = record {
  has_person = λ k. k == 5 || k == 6;
  has_asset = λ k. false;
  has_department = λ k. false;
  entitlement = λ k. if k == 30 then some office else none;
  assignments = new_assignment 31 30 (wish 5 2) boss ∷ [];
  audit = [];
  next_id = 32;
}

licences-WithinSeats : WithinSeats licences
unfolding used
licences-WithinSeats = record { fits = λ k e here. ground arith }

abbrev story : List Request
story =
    record { env = env; actor = boss; call = assigns 30 (wish 6 1) }
    ∷ record { env = env; actor = boss; call = revokes 31 (text "left") }
    ∷ record { env = env; actor = boss; call = assigns 30 (wish 5 2) }
    ∷ []

run-WithinSeats_example : WithinSeats (run story licences)
run-WithinSeats_example = run-WithinSeats story licences licences-WithinSeats

-- The person who holds the two seats is refused a third, by the index of the table.
refusal_test : assign 30 (wish 5 1) boss licences ≡ err unique_violation
unfolding assign used has_seats manage
refusal_test = refl

-- So is one who does not exist.
stranger_test : assign 30 (wish 7 1) boss licences ≡ err foreign_key_violation
unfolding assign used has_seats manage
stranger_test = refl
