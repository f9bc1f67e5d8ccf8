-- ===== src/Store/Enums.antt =====
-- The enumerations of apps/api/prisma/schema.prisma that the services branch on, and the system
-- status codes that the migrations insert into `asset_statuses`.
use asset_it.Prelude.{Bool, true, false, ℕ, ◌==◌}

-- `UserRole`
pub data Role : Type 0 where
  admin it hcns user : Role

-- `asset_statuses.code`
pub data StatusCode : Type 0 where
  ready in_use on_loan returned reserved maintenance lost broken disposed : StatusCode

pub data AssignmentType : Type 0 where
  assignment loan : AssignmentType

pub data AssignmentStatus : Type 0 where
  open_ closed cancelled : AssignmentStatus

pub data ReturnOutcome : Type 0 where
  ready maintenance broken : ReturnOutcome

pub data MaintenanceStatus : Type 0 where
  open_ completed cancelled : MaintenanceStatus

pub data MaintenanceOutcome : Type 0 where
  ready broken disposed : MaintenanceOutcome

-- `AssetHistoryAction`
pub data HistoryAction : Type 0 where
  created updated assigned returned transferred maintenance inventoried disposed : HistoryAction

abbrev pub is_open : AssignmentStatus → Bool
is_open AssignmentStatus.open_ = true
is_open _ = false

abbrev pub is_open_maintenance : MaintenanceStatus → Bool
is_open_maintenance MaintenanceStatus.open_ = true
is_open_maintenance _ = false

abbrev pub status_index : StatusCode → ℕ
status_index StatusCode.ready = 0
status_index StatusCode.in_use = 1
status_index StatusCode.on_loan = 2
status_index StatusCode.returned = 3
status_index StatusCode.reserved = 4
status_index StatusCode.maintenance = 5
status_index StatusCode.lost = 6
status_index StatusCode.broken = 7
status_index StatusCode.disposed = 8

-- `a === b` on status codes
abbrev pub same_status : StatusCode → StatusCode → Bool
same_status a b = status_index a == status_index b
