-- ===== src/Store/Exceptions.antt =====
-- What a service call throws: the HTTP exception with its message, or an error of the database.
-- Each constructor of `Reason` stands for one message of the source.
use asset_it.Prelude.{ℕ, List, Text, Result}
use asset_it.Store.Enums.{StatusCode}

-- The messages of the errors that lifecycle.rules.ts throws.
pub data RuleError : Type 0 where
  asset_not_ready asset_not_assigned asset_disposed return_required_before_warehouse : RuleError
  maintenance_not_allowed asset_not_in_maintenance disposal_workflow_required : RuleError

-- The messages of the errors that disposals.rules.ts throws.
pub data DisposalRuleError : Type 0 where
  asset_already_disposed asset_not_eligible disposal_not_draft : DisposalRuleError
  disposal_requires_assets disposal_not_submitted segregation_of_duties : DisposalRuleError
  disposal_not_approved disposal_not_executable disposal_not_in_execution : DisposalRuleError
  disposal_evidence_required data_sanitization_required disposal_cannot_cancel : DisposalRuleError

pub data BlockerReason : Type 0 where
  not_ready held : BlockerReason

pub record BulkAssignmentBlocker : Type 0 where
  pub asset_tag : Text
  pub reason : BlockerReason

-- What `incidentMissingFields` lists.
pub data IncidentField : Type 0 where
  assigned_to initial_assessment containment_action resolution : IncidentField
  root_cause corrective_action preventive_action lessons_learned : IncidentField

pub data Reason : Type 0 where
  rule : RuleError → Reason
  disposal_rule : DisposalRuleError → Reason
  operator_required department_scope : Reason
  status_missing : StatusCode → Reason
  asset_not_found : Reason
  assets_not_found : ℕ → Reason
  batch_blocked : List BulkAssignmentBlocker → Reason
  recipient_invalid handover_location_invalid loan_needs_future_date asset_in_custody : Reason
  open_assignment_not_found receiving_warehouse_invalid ready_needs_warehouse : Reason
  receiving_location_required receiving_location_invalid : Reason
  target_warehouse_invalid target_required target_location_invalid target_unchanged : Reason
  return_before_maintenance maintenance_warehouse_invalid maintenance_not_found : Reason
  ready_must_choose_warehouse operation_open : Reason
  disposal_manager_required approver_required admin_required case_not_found item_not_found : Reason
  case_needs_assets duplicate_asset asset_missing_or_deleted asset_in_case : Reason
  asset_held_by_case not_reserved assignment_still_open maintenance_still_open : Reason
  cannot_waive_sanitization method_required erasure_certificate_required : Reason
  destruction_certificate_required sale_document_required handover_minutes_required : Reason
  incident_operator_required affected_department_invalid incident_location_invalid : Reason
  related_asset_invalid assignee_invalid detected_in_future incident_not_found : Reason
  incident_read_only transition_not_allowed not_assignee : Reason
  fields_missing : List IncidentField → Reason
  inventory_operator_required hcns_without_department hcns_department_only : Reason
  session_out_of_scope inventory_location_invalid inventory_warehouse_invalid : Reason
  inventory_category_invalid nothing_to_count session_not_found session_not_open : Reason
  asset_code_not_found asset_out_of_scope observed_location_invalid : Reason
  observed_custodian_invalid : Reason
  licence_manager_required one_recipient_required licence_not_found licence_external : Reason
  licence_not_valid seat_assignment_not_found seat_already_revoked : Reason
  seats_left : ℕ → Reason

pub data Exception : Type 0 where
  forbidden bad_request not_found conflict : Reason → Exception
  -- `P2002`, a failed CHECK, `P2003`, and `P2025`
  unique_violation check_violation foreign_key_violation record_missing : Exception

abbrev pub Outcome : Type 0 → Type 0
Outcome A = Result Exception A
