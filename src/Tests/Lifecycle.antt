-- ===== src/Tests/Lifecycle.antt =====
-- The lifecycle theorems at concrete requests, and runs of the handlers.
use asset_it.Prelude.{◌≡◌, refl, some, inl, List, [], ◌∷◌}
use asset_it.Store.Enums.{StatusCode}
use asset_it.Store.Rows.{Asset}
use asset_it.Lifecycle.Calls.{Request, assigns_many, returns, transfers, opens_maintenance, run}
use asset_it.Lifecycle.Custody.{Custody}
use asset_it.Lifecycle.Custody.Histories.{run-Custody}
use asset_it.Lifecycle.Diagram.Histories.{run_frozen}
use asset_it.Prelude.{none, text, Text, ok, err}
use asset_it.Store.Rows.{Assignment}
use asset_it.Store.Tables.{Db, create_assignment, update_asset}
use asset_it.Store.Exceptions.{Outcome}
use asset_it.Lifecycle.Rules.{bulk_assignment_blockers}
use asset_it.Lifecycle.Guards.{assert_operator}
use asset_it.Lifecycle.Issue.{issue, issue_terms}
use asset_it.Lifecycle.Batch.{assign_many, issue_all, gather, candidates}
use asset_it.Lifecycle.Calls.{step}
use asset_it.Lifecycle.Outcomes.Lots.{HandedOut, assign_many-hands-over}
use asset_it.Store.Enums.{AssignmentType}
use asset_it.Store.Rows.{Asset}
use asset_it.Store.Tables.{reference}
use asset_it.Lifecycle.Calls.{assigns}
use asset_it.Lifecycle.Issue.{Terms, assign, assignment_row, number_prefix}
use asset_it.Lifecycle.Outcomes.{HandedOver, assign-hands-over}
use asset_it.Store.Rows.{AssetReturn}
use asset_it.Store.Tables.{close_assignment, create_return, create_maintenance}
use asset_it.Lifecycle.Rules.{return_target}
use asset_it.Lifecycle.Recall.{return_row, write_return, destination, return_asset}
use asset_it.Lifecycle.Outcomes.{TakenBack, return_asset-takes-back}
use asset_it.Lifecycle.Custody.Histories.{step-Custody}
use asset_it.Tests.Samples.{store_room}
use asset_it.Tests.Samples.{anna, room}
use asset_it.Tests.Samples.{
  boss, env, start, start-Custody, stocked, handover, recall, relocation, checkup,
}

abbrev busy_week : List Request
busy_week =
    record { env = env; actor = boss; call = assigns_many (7 ∷ []) handover }
    ∷ record { env = env; actor = boss; call = opens_maintenance 8 checkup }
    ∷ record { env = env; actor = boss; call = returns 7 recall }
    ∷ record { env = env; actor = boss; call = transfers 9 relocation }
    ∷ []

run-Custody_example : Custody (run busy_week start)
run-Custody_example = run-Custody busy_week start start-Custody

run_frozen_example :
    (b : Asset) × ((run busy_week start).asset 9 ≡ some b) × (StatusCode.reserved ≡ b.status)
run_frozen_example =
    run_frozen busy_week start 9 (stocked 9 StatusCode.reserved) start-Custody refl (inl refl)

abbrev rows_of : Outcome (Text × List Assignment × Db) → List Assignment
rows_of (ok (number, rows, db)) = rows
rows_of (err x) = []

abbrev number_of : Outcome (Text × List Assignment × Db) → Text
number_of (ok (number, rows, db)) = number
number_of (err x) = []

assign_many-hands-over_example :
    Custody (step env boss (assigns_many (7 ∷ []) handover) start)
    × (terms : Terms) × (issue_terms env handover boss ≡ ok terms)
    × HandedOut terms handover.type start
        (step env boss (assigns_many (7 ∷ []) handover) start)
        (7 ∷ [])
        (rows_of (assign_many env (7 ∷ []) handover boss start))
unfolding step assign_many issue_all issue issue_terms gather candidates bulk_assignment_blockers
    create_assignment update_asset assert_operator text
assign_many-hands-over_example =
    assign_many-hands-over env (7 ∷ []) handover boss start
      (step env boss (assigns_many (7 ∷ []) handover) start)
      (number_of (assign_many env (7 ∷ []) handover boss start))
      (rows_of (assign_many env (7 ∷ []) handover boss start)) start-Custody refl refl

abbrev agreed : Terms
agreed = record { person = anna; location = room; expected = none }

abbrev slip : Assignment
slip =
    assignment_row start (stocked 7 StatusCode.ready) agreed handover boss
      (reference env (number_prefix AssignmentType.assignment))

assign-hands-over_example :
    (assert_operator boss ≡ ok tt)
    × (terms : Terms) × (issue_terms env handover boss ≡ ok terms)
    × (a : Asset) × (b : Asset) × HandedOver 7 slip terms start
        (step env boss (assigns 7 handover) start)
        a
        b
unfolding step assign issue issue_terms create_assignment update_asset assert_operator text
assign-hands-over_example =
    assign-hands-over env 7 handover boss start (step env boss (assigns 7 handover) start) slip
      start-Custody refl

abbrev handed_out : Db
handed_out = step env boss (assigns 7 handover) start

handed_out-Custody : Custody handed_out
handed_out-Custody = step-Custody env boss (assigns 7 handover) start start-Custody

abbrev receipt : AssetReturn
receipt = return_row env handed_out slip 7 (some store_room) 2 recall boss

return_asset-takes-back_example :
    (a : Asset) × (b : Asset) × (o : Assignment) × TakenBack 7 StatusCode.maintenance handed_out
      (step env boss (returns 7 recall) handed_out)
      a
      b
      o
unfolding step return_asset write_return destination return_target close_assignment create_return
    create_maintenance assign issue issue_terms create_assignment update_asset assert_operator text
return_asset-takes-back_example =
    return_asset-takes-back env 7 recall boss handed_out
      (step env boss (returns 7 recall) handed_out) receipt handed_out-Custody refl
