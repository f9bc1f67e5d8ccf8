-- ===== src/Lifecycle/Rules.antt =====
-- apps/api/src/modules/lifecycle/lifecycle.rules.ts: which operation each asset status allows.
use asset_it.Prelude.{Bool, true, false, ◌&&◌, ◌++◌, List, [], ◌∷◌, Text, Result, ok, err}
use asset_it.Store.Enums.{StatusCode, AssignmentType, ReturnOutcome, MaintenanceOutcome}
use asset_it.Store.Exceptions.{
  RuleError, BulkAssignmentBlocker, not_ready, held, asset_not_ready, asset_not_assigned,
  asset_disposed, return_required_before_warehouse, maintenance_not_allowed,
  asset_not_in_maintenance, disposal_workflow_required,
}

abbrev pub is_ready : StatusCode → Bool
is_ready StatusCode.ready = true
is_ready _ = false

-- `['IN_USE', 'ON_LOAN'].includes(currentStatus)`
abbrev pub is_assigned : StatusCode → Bool
is_assigned StatusCode.in_use = true
is_assigned StatusCode.on_loan = true
is_assigned _ = false

-- `['READY', 'RETURNED', 'BROKEN'].includes(currentStatus)`, also `ELIGIBLE_ASSET_STATUSES` of
-- disposals.rules.ts
abbrev pub is_idle : StatusCode → Bool
is_idle StatusCode.ready = true
is_idle StatusCode.returned = true
is_idle StatusCode.broken = true
is_idle _ = false

unfoldable pub assignment_target : StatusCode → AssignmentType → Result RuleError StatusCode
assignment_target StatusCode.ready AssignmentType.loan = ok StatusCode.on_loan
assignment_target StatusCode.ready AssignmentType.assignment = ok StatusCode.in_use
assignment_target _ type = err asset_not_ready

pub record BulkAssignmentCandidate : Type 0 where
  pub asset_tag : Text
  pub status_code : StatusCode
  pub has_custodian : Bool

abbrev pub blocker : BulkAssignmentCandidate → List BulkAssignmentBlocker
blocker c = elim (is_ready c.status_code) [
  | false ↦ record { asset_tag = c.asset_tag; reason = not_ready } ∷ []
  | true ↦ elim c.has_custodian [
    | true ↦ record { asset_tag = c.asset_tag; reason = held } ∷ []
    | false ↦ []
  ]
]

unfoldable pub bulk_assignment_blockers : List BulkAssignmentCandidate → List BulkAssignmentBlocker
bulk_assignment_blockers [] = []
bulk_assignment_blockers (c ∷ cs) = blocker c ++ bulk_assignment_blockers cs

abbrev pub outcome_status : ReturnOutcome → StatusCode
outcome_status ReturnOutcome.ready = StatusCode.ready
outcome_status ReturnOutcome.maintenance = StatusCode.maintenance
outcome_status ReturnOutcome.broken = StatusCode.broken

unfoldable pub return_target : StatusCode → ReturnOutcome → Result RuleError StatusCode
return_target current outcome = elim (is_assigned current) [
  | true ↦ ok (outcome_status outcome)
  | false ↦ err asset_not_assigned
]

unfoldable pub assert_transfer_allowed : StatusCode → Bool → Bool → Result RuleError (Unit {0})
assert_transfer_allowed StatusCode.disposed into_warehouse has_custodian = err asset_disposed
assert_transfer_allowed _ into_warehouse has_custodian = elim (into_warehouse && has_custodian) [
  | true ↦ err return_required_before_warehouse
  | false ↦ ok tt
]

unfoldable pub assert_maintenance_open_allowed : StatusCode → Result RuleError (Unit {0})
assert_maintenance_open_allowed current = elim (is_idle current) [
  | true ↦ ok tt
  | false ↦ err maintenance_not_allowed
]

unfoldable pub maintenance_target : StatusCode → MaintenanceOutcome → Result RuleError StatusCode
maintenance_target StatusCode.maintenance MaintenanceOutcome.ready = ok StatusCode.ready
maintenance_target StatusCode.maintenance MaintenanceOutcome.broken = ok StatusCode.broken
maintenance_target StatusCode.maintenance MaintenanceOutcome.disposed =
    err disposal_workflow_required
maintenance_target _ outcome = err asset_not_in_maintenance
