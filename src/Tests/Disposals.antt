-- ===== src/Tests/Disposals.antt =====
-- The theorems on disposal cases at a case that is drafted, approved, carried out and completed.
use asset_it.Prelude.{
  ℕ, ◌≡◌, refl, some, none, true, false, List, [], ◌∷◌, text, arith, ltb, length, any_below, ◌==◌,
  if◌then◌else◌,
}
use asset_it.Store.Enums.{StatusCode}
use asset_it.Store.DisposalRows.{DisposalCase, DisposalStatus, EvidenceType}
use asset_it.Store.Tables.{Db}
use asset_it.Disposals.Calls.{
  Request, creates, submits, approves, rejects, starts, adds_evidence, sanitizes, completes, step,
  run,
}
use asset_it.Disposals.Booking.{Booking}
use asset_it.Disposals.Histories.{Sound, run-Sound, run-Booking, run_final}
use asset_it.Disposals.Rules.{assert_asset_eligible}
use asset_it.Disposals.Guards.{has_asset, held_elsewhere, assert_required_evidence}
use asset_it.Disposals.Drafting.{make_items, draft_case, hold_items, submit, restore_assets}
use asset_it.Disposals.Approval.{reject, cancelled_case}
use asset_it.Disposals.Execution.{evidence_row, retire_items, complete}
use asset_it.Disposals.Loops.{Held, Restored, Retired}
use asset_it.Disposals.Outcomes.{Treats, submit-reserves, reject-restores, complete-retires}
use asset_it.Tests.Samples.{boss, clerk, env, start, scrap, kept, certificate, wiped, finished}

start-Sound : Sound start
start-Sound = record { case_sound = λ k c e. absurd (ground arith) }

start-Booking : Booking start
start-Booking = record {
  fresh = λ k c e. absurd (ground arith);
  held = λ k j c e h. absurd (ground arith);
  exclusive = λ k l j c d e f h g. absurd (ground arith);
}

abbrev approved : List Request
approved =
    record { env = env; actor = clerk; call = creates scrap }
    ∷ record { env = env; actor = clerk; call = submits 100 }
    ∷ record { env = env; actor = boss; call = approves 100 (text "ok") }
    ∷ []

abbrev carried_out : List Request
carried_out =
    record { env = env; actor = clerk; call = starts 100 (text "go") }
    ∷ record { env = env; actor = clerk; call = sanitizes 100 101 wiped }
    ∷ record {
      env = env;
      actor = clerk;
      call = adds_evidence 100 (certificate EvidenceType.data_erasure_certificate);
    }
    ∷ record {
      env = env;
      actor = clerk;
      call = adds_evidence 100 (certificate EvidenceType.destruction_certificate);
    }
    ∷ record { env = env; actor = clerk; call = completes 100 finished }
    ∷ []

run-Sound_example : Sound (run carried_out (run approved start))
run-Sound_example =
    run-Sound carried_out (run approved start) (run-Sound approved start start-Sound)

run-Booking_example : Booking (run carried_out (run approved start))
run-Booking_example =
    run-Booking carried_out (run approved start) refl
      (run-Booking approved start refl start-Booking)

abbrev draft : DisposalCase
draft = draft_case env start scrap clerk

abbrev given_up : DisposalCase
given_up = cancelled_case env boss (text "no") draft

abbrev with_case : DisposalCase → Db → Db
with_case c db = record db { cases = λ k. if k == 50 then some c else none }

run_final_example : (run approved (with_case given_up start)).cases 50 ≡ some given_up
run_final_example =
    run_final approved 50 given_up (with_case given_up start) refl refl (omega arith) refl

abbrev drafted : Db
drafted = with_case draft start

-- The tables after the case was submitted.
abbrev held : Db
held = step env clerk (submits 50) drafted

-- A case in execution that holds asset 9 and has its certificate.
abbrev running : DisposalCase
running = record (draft_case env start kept clerk) {
  status = DisposalStatus.in_execution;
  evidence = evidence_row start (certificate EvidenceType.destruction_certificate) clerk ∷ [];
}

abbrev in_execution : Db
in_execution = with_case running start

submit-reserves_example :
    (c : DisposalCase) × (drafted.cases 50 ≡ some c)
    × (c.status ≡ DisposalStatus.draft)
    × (ltb (length c.items) 1 ≡ false)
    × ((j : ℕ) → has_asset j c.items ≡ true → held_elsewhere drafted 50 j ≡ false)
    × Treats (Held StatusCode.reserved) c drafted held
unfolding submit hold_items make_items step held_elsewhere assert_asset_eligible any_below text
submit-reserves_example = submit-reserves env 50 clerk drafted held refl

reject-restores_example :
    (c : DisposalCase) × (held.cases 50 ≡ some c)
    × (c.status ≡ DisposalStatus.submitted)
    × Treats Restored c held (step env boss (rejects 50 (text "no")) held)
unfolding reject restore_assets submit hold_items make_items step held_elsewhere
    assert_asset_eligible any_below text
reject-restores_example =
    reject-restores env 50 (text "no") boss held (step env boss (rejects 50 (text "no")) held) refl

complete-retires_example :
    (c : DisposalCase) × (in_execution.cases 50 ≡ some c)
    × (c.status ≡ DisposalStatus.in_execution)
    × Treats
        (Retired StatusCode.disposed)
        c
        in_execution
        (step env clerk (completes 50 finished) in_execution)
unfolding complete retire_items make_items step assert_required_evidence text
complete-retires_example =
    complete-retires env 50 finished clerk in_execution
      (step env clerk (completes 50 finished) in_execution) refl
