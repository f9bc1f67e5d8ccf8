-- ===== src/Disposals/Approval.antt =====
-- `approve`, `reject`, `start` and `cancel` of `DisposalsService`.
use asset_it.Prelude.{ℕ, Bool, true, false, some, ◌∷◌, Text, text, trim, ok, ◌>>=◌, ◌>>◌}
use asset_it.Store.Rows.{Actor}
use asset_it.Store.DisposalRows.{DisposalStatus, DisposalCase}
use asset_it.Store.Exceptions.{Outcome}
use asset_it.Store.Tables.{Env, Db}
use asset_it.Disposals.Rules.{
  is_draft, assert_can_approve, assert_can_reject, assert_can_start, assert_can_cancel,
}
use asset_it.Disposals.Guards.{authorize, apply_rule, find_case, save_case, activity}
use asset_it.Disposals.Drafting.{restore_assets}

-- `note` is the text of `WorkflowNoteDto`.
abbrev pub approved_case : Env → Actor → Text → DisposalCase → DisposalCase
approved_case env actor note c = record c {
  status = DisposalStatus.approved;
  approved_by = some actor.id;
  approved_at = some env.now;
  approval_note = some (trim note);
  activities = activity actor (text "APPROVED") (trim note) ∷ c.activities;
}

unfoldable pub approve : Env → ℕ → Text → Actor → Db → Outcome Db
unfolding authorize assert_can_approve
approve env id note actor db = do
  authorize actor true
  disposal ← find_case db id
  apply_rule (assert_can_approve disposal.status disposal.requested_by actor.id)
  ok (save_case id (approved_case env actor note disposal) db)

abbrev pub rejected_case : Env → Actor → Text → DisposalCase → DisposalCase
rejected_case env actor note c = record c {
  status = DisposalStatus.rejected;
  approved_by = some actor.id;
  approved_at = some env.now;
  rejection_reason = some (trim note);
  activities = activity actor (text "REJECTED") (trim note) ∷ c.activities;
}

unfoldable pub reject : Env → ℕ → Text → Actor → Db → Outcome Db
unfolding authorize assert_can_reject
reject env id note actor db = do
  authorize actor true
  disposal ← find_case db id
  apply_rule (assert_can_reject disposal.status disposal.requested_by actor.id)
  db₁ ← restore_assets env db disposal.items db
  ok (save_case id (rejected_case env actor note disposal) db₁)

abbrev pub started_case : Env → Actor → Text → DisposalCase → DisposalCase
started_case env actor note c = record c {
  status = DisposalStatus.in_execution;
  executed_by = some actor.id;
  execution_started_at = some env.now;
  activities = activity actor (text "EXECUTION_STARTED") (trim note) ∷ c.activities;
}

unfoldable pub start : Env → ℕ → Text → Actor → Db → Outcome Db
unfolding authorize assert_can_start
start env id note actor db = do
  authorize actor false
  disposal ← find_case db id
  apply_rule (assert_can_start disposal.status)
  ok (save_case id (started_case env actor note disposal) db)

abbrev pub cancelled_case : Env → Actor → Text → DisposalCase → DisposalCase
cancelled_case env actor note c = record c {
  status = DisposalStatus.cancelled;
  cancelled_at = some env.now;
  cancellation_reason = some (trim note);
  activities = activity actor (text "CANCELLED") (trim note) ∷ c.activities;
}

-- `if (disposal.status !== DRAFT) await this.restoreAssets(...)`
abbrev pub release_unless : Bool → Env → DisposalCase → Db → Outcome Db
release_unless true env c db = ok db
release_unless false env c db = restore_assets env db c.items db

unfoldable pub cancel : Env → ℕ → Text → Actor → Db → Outcome Db
unfolding authorize assert_can_cancel
cancel env id note actor db = do
  authorize actor false
  disposal ← find_case db id
  apply_rule (assert_can_cancel disposal.status)
  db₁ ← release_unless (is_draft disposal.status) env disposal db
  ok (save_case id (cancelled_case env actor note disposal) db₁)
