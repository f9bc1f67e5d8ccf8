-- ===== src/Disposals/Rules.antt =====
-- apps/api/src/modules/disposals/disposals.rules.ts: what each status of a disposal case allows.
use asset_it.Prelude.{
  ℕ, Bool, true, false, not, ◌&&◌, ◌==◌, List, Result, err, throw_if, ◌>>◌, any, ltb,
}
use asset_it.Store.Enums.{StatusCode}
use asset_it.Store.DisposalRows.{DisposalStatus, DisposalItem, SanitizationStatus}
use asset_it.Store.Exceptions.{
  DisposalRuleError, asset_already_disposed, asset_not_eligible, disposal_not_draft,
  disposal_requires_assets, disposal_not_submitted, segregation_of_duties, disposal_not_approved,
  disposal_not_executable, disposal_not_in_execution, disposal_evidence_required,
  data_sanitization_required, disposal_cannot_cancel,
}
use asset_it.Lifecycle.Rules.{is_idle}

abbrev pub Verdict : Type 0
Verdict = Result DisposalRuleError (Unit {0})

unfoldable pub assert_asset_eligible : StatusCode → Verdict
assert_asset_eligible StatusCode.disposed = err asset_already_disposed
assert_asset_eligible s = throw_if (not (is_idle s)) asset_not_eligible

abbrev pub is_draft : DisposalStatus → Bool
is_draft DisposalStatus.draft = true
is_draft _ = false

abbrev pub is_submitted : DisposalStatus → Bool
is_submitted DisposalStatus.submitted = true
is_submitted _ = false

abbrev pub is_approved : DisposalStatus → Bool
is_approved DisposalStatus.approved = true
is_approved _ = false

abbrev pub is_in_execution : DisposalStatus → Bool
is_in_execution DisposalStatus.in_execution = true
is_in_execution _ = false

-- `['COMPLETED', 'CANCELLED', 'REJECTED'].includes(status)`
abbrev pub is_final : DisposalStatus → Bool
is_final DisposalStatus.completed = true
is_final DisposalStatus.cancelled = true
is_final DisposalStatus.rejected = true
is_final _ = false

abbrev pub is_verified : SanitizationStatus → Bool
is_verified SanitizationStatus.verified = true
is_verified _ = false

unfoldable pub assert_can_submit : DisposalStatus → ℕ → Verdict
assert_can_submit s item_count = do
  throw_if (not (is_draft s)) disposal_not_draft
  throw_if (ltb item_count 1) disposal_requires_assets

unfoldable pub assert_can_approve : DisposalStatus → ℕ → ℕ → Verdict
assert_can_approve s requester_id approver_id = do
  throw_if (not (is_submitted s)) disposal_not_submitted
  throw_if (requester_id == approver_id) segregation_of_duties

unfoldable pub assert_can_reject : DisposalStatus → ℕ → ℕ → Verdict
unfolding assert_can_approve
assert_can_reject s requester_id approver_id = assert_can_approve s requester_id approver_id

unfoldable pub assert_can_start : DisposalStatus → Verdict
assert_can_start s = throw_if (not (is_approved s)) disposal_not_approved

abbrev pub is_executable : DisposalStatus → Bool
is_executable DisposalStatus.approved = true
is_executable DisposalStatus.in_execution = true
is_executable _ = false

unfoldable pub assert_can_record_execution : DisposalStatus → Verdict
assert_can_record_execution s = throw_if (not (is_executable s)) disposal_not_executable

abbrev pub is_unsanitized : DisposalItem → Bool
is_unsanitized i = i.requires_data_sanitization && not (is_verified i.sanitization_status)

unfoldable pub assert_can_complete : DisposalStatus → ℕ → List DisposalItem → Verdict
assert_can_complete s evidence_count items = do
  throw_if (not (is_in_execution s)) disposal_not_in_execution
  throw_if (ltb evidence_count 1) disposal_evidence_required
  throw_if (any is_unsanitized items) data_sanitization_required

unfoldable pub assert_can_cancel : DisposalStatus → Verdict
assert_can_cancel s = throw_if (is_final s) disposal_cannot_cancel
