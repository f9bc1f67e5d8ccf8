-- ===== src/Lifecycle/Issue.antt =====
-- `issueTerms`, `issue`, `assign` and `assignMany` of `LifecycleService`.
use asset_it.Prelude.{
  ℕ, Bool, false, true, Option, none, some, List, [], ◌∷◌, ◌++◌, Text, text, trim, decimal, ok,
  throw_if, or_throw, ◌>>=◌, ◌>>◌, only_if, option_map, is_some, leb,
}
use asset_it.Store.Enums.{StatusCode, AssignmentType, AssignmentStatus, HistoryAction}
use asset_it.Store.Rows.{Actor, Person, Location, Asset, Assignment, Json}
use asset_it.Store.Exceptions.{
  Outcome, bad_request, recipient_invalid, handover_location_invalid, loan_needs_future_date,
  asset_in_custody,
}
use asset_it.Store.Tables.{
  Env, Db, reference, update_asset, create_assignment, add_history, add_audit,
}
use asset_it.Lifecycle.Rules.{assignment_target}
use asset_it.Lifecycle.Guards.{
  assert_operator, assert_department_scope, apply_rule, find_status, find_asset, on_conflict,
}

-- `AssignAssetDto`; `expected_return_date` is the parsed date.
pub record AssignAsset : Type 0 where
  pub type : AssignmentType
  pub assigned_to_id : ℕ
  pub location_id : ℕ
  pub expected_return_date : Option ℕ
  pub condition_out : Text
  pub note : Option Text

pub record Terms : Type 0 where
  pub person : Person
  pub location : Location
  pub expected : Option ℕ

pub record Batch : Type 0 where
  pub batch_no : Text
  pub size : ℕ

-- `body.type === 'LOAN' && (!expected || expected <= new Date())`
abbrev pub loan_without_future : AssignmentType → Option ℕ → ℕ → Bool
loan_without_future AssignmentType.assignment expected now = false
loan_without_future AssignmentType.loan none now = true
loan_without_future AssignmentType.loan (some date) now = leb date now

unfoldable pub issue_terms : Env → AssignAsset → Actor → Outcome Terms
unfolding assert_department_scope
issue_terms env body actor = do
  person ←
      or_throw (only_if (λ (p : Person). p.active) (env.person body.assigned_to_id))
        (bad_request recipient_invalid)
  assert_department_scope actor (some person.department_id)
  location ←
      or_throw (only_if (λ (l : Location). l.active) (env.location body.location_id))
        (bad_request handover_location_invalid)
  throw_if (loan_without_future body.type body.expected_return_date env.now)
      (bad_request loan_needs_future_date)
  ok (record { person = person; location = location; expected = body.expected_return_date })

-- The text `Cho mượn` or `Cấp phát`, the receiver and the batch.
pub issue_description : AssignmentType → Text → Option Batch → Text
issue_description type full_name batch = verb type ++ (text " cho " ++ (full_name ++ lot batch))
  where
    verb : AssignmentType → Text
    verb AssignmentType.loan = text "Cho mượn"
    verb AssignmentType.assignment = text "Cấp phát"

    lot : Option Batch → Text
    lot none = []
    lot (some b) =
        text " (lô " ++ (b.batch_no ++ (text ", " ++ (decimal b.size ++ text " tài sản)")))

pub assigned_action : AssignmentType → Text
assigned_action AssignmentType.loan = text "ASSET_LOANED"
assigned_action AssignmentType.assignment = text "ASSET_ASSIGNED"

pub batch_value : Option Batch → List (Text × Json)
batch_value none = []
batch_value (some b) = (text "batchNo", Json.str b.batch_no) ∷ []

abbrev pub assignment_row : Db → Asset → Terms → AssignAsset → Actor → Text → Assignment
assignment_row db asset terms body actor assignment_no = record {
  id = db.next_id;
  assignment_no = assignment_no;
  asset_id = asset.id;
  type = body.type;
  assigned_to_id = terms.person.id;
  department_id = terms.person.department_id;
  location_id = terms.location.id;
  expected_return_date = terms.expected;
  condition_out = trim body.condition_out;
  note = option_map trim body.note;
  assigned_by = actor.id;
  status = AssignmentStatus.open_;
  closed_at = none;
}

abbrev pub handed_over : StatusCode → Terms → Asset → Asset
handed_over target terms a = record a {
  status = target;
  current_custodian_id = some terms.person.id;
  assigned_user_id = terms.person.linked_user_id;
  department_id = some terms.person.department_id;
  location_id = some terms.location.id;
  warehouse_id = none;
}

unfoldable pub issue :
    Env → Asset → Terms → AssignAsset → Actor → Text → Option Batch → Db → Outcome (Assignment × Db)
unfolding assignment_target create_assignment update_asset
issue env asset terms body actor assignment_no batch db = do
  target ← apply_rule (assignment_target asset.status body.type)
  throw_if (is_some asset.current_custodian_id) (bad_request asset_in_custody)
  target_status ← find_status env target
  let row = assignment_row db asset terms body actor assignment_no
  db₁ ← create_assignment row db
  db₂ ← update_asset asset.id (handed_over target_status terms) db₁
  let db₃ =
      add_history
        (record {
          asset_id = asset.id;
          action = HistoryAction.assigned;
          from_user_id = none;
          to_user_id = terms.person.linked_user_id;
          from_location_id = none;
          to_location_id = some terms.location.id;
          reference_type = some (text "AssetAssignment");
          reference_id = some row.id;
          description = issue_description body.type terms.person.full_name batch;
          performed_by = actor.id;
        })
        db₂
  ok (
    row,
    add_audit
        (record {
          user_id = actor.id;
          action = assigned_action body.type;
          entity_type = text "Asset";
          entity_id = asset.id;
          old_values = [];
          new_values =
              (text "assignmentId", Json.id row.id)
              ∷ (text "assignedToId", Json.id terms.person.id)
              ∷ (text "status", Json.status target)
              ∷ batch_value batch;
        })
        db₃,
  )

pub number_prefix : AssignmentType → Text
number_prefix AssignmentType.loan = text "PM"
number_prefix AssignmentType.assignment = text "PCP"

unfoldable pub assign : Env → ℕ → AssignAsset → Actor → Db → Outcome (Assignment × Db)
assign env asset_id body actor db = do
  assert_operator actor
  on_conflict do
    asset ← find_asset db asset_id
    terms ← issue_terms env body actor
    issue env asset terms body actor (reference env (number_prefix body.type)) none db
