-- ===== src/Tests/Samples.antt =====
-- A small company: one person, one room, one store room, three assets.
use asset_it.Prelude.{
  ℕ, true, false, Option, none, some, [], ◌∷◌, ◌==◌, text, text_eq, decimal, if◌then◌else◌, arith,
}
use asset_it.Store.DisposalRows.{DisposalType, SanitizationStatus, EvidenceType}
use asset_it.Disposals.Drafting.{CreateDisposal}
use asset_it.Disposals.Execution.{AddEvidence, UpdateSanitization, CompleteDisposal}
use asset_it.Store.Enums.{admin, it, StatusCode, AssignmentType, ReturnOutcome, MaintenanceOutcome}
use asset_it.Store.Rows.{Actor, Person, Location, Warehouse, Asset}
use asset_it.Store.Tables.{Env, Db}
use asset_it.Lifecycle.Custody.{Custody}
use asset_it.Lifecycle.Issue.{AssignAsset}
use asset_it.Lifecycle.Recall.{ReturnAsset}
use asset_it.Lifecycle.Relocation.{TransferAsset}
use asset_it.Lifecycle.Repair.{OpenMaintenance, CompleteMaintenance}

abbrev pub boss : Actor
boss = record { id = 1; role = admin; department_id = none }

abbrev pub anna : Person
anna = record {
  id = 5;
  full_name = text "Anna";
  department_id = 4;
  linked_user_id = none;
  active = true;
}

abbrev pub room : Location
room = record { id = 2; name = text "Room"; active = true }

abbrev pub store_room : Warehouse
store_room = record { id = 3; name = text "Store"; location_id = 2; active = true }

abbrev pub env : Env
env = record {
  now = 1000;
  day = text "20260911";
  stamp = text "20260911080000";
  short_id = λ prefix. text "ABCD1234";
  has_status = λ s. true;
  person = λ k. if k == 5 then some anna else none;
  location = λ k. if k == 2 then some room else none;
  warehouse = λ k. if k == 3 then some store_room else none;
  department_name = λ k. none;
  category_name = λ k. text "Laptop";
  category_active = λ k. true;
  is_archived = λ s. elim s [ StatusCode.disposed ↦ true | _ ↦ false ];
  user_name = λ k. text "Boss";
  same_code = text_eq;
  iso = decimal;
}

abbrev pub stocked : ℕ → StatusCode → Asset
stocked k s = record {
  id = k;
  asset_tag = text "LT";
  name = text "Laptop";
  serial_number = none;
  barcode = none;
  category_id = 9;
  purchase_cost = none;
  status = s;
  assigned_user_id = none;
  current_custodian_id = none;
  department_id = none;
  location_id = some 2;
  warehouse_id = some 3;
  deleted = false;
}

abbrev pub shelf : ℕ → Option Asset
shelf k =
    if k == 7
    then some (stocked 7 StatusCode.ready)
    else if k == 8
    then some (stocked 8 StatusCode.broken)
    else if k == 9
    then some (stocked 9 StatusCode.reserved)
    else none

abbrev pub start : Db
start = record {
  asset = shelf;
  assignments = [];
  returns = [];
  transfers = [];
  maintenance = [];
  history = [];
  audit = [];
  cases = λ k. none;
  sessions = λ k. none;
  next_id = 100;
}

pub start-Custody : Custody start
start-Custody = record {
  assignments_fresh = tt;
  maintenance_fresh = tt;
  one_assignment = tt;
  one_record = tt;
  agrees = λ k a e. ground arith;
}

abbrev pub handover : AssignAsset
handover = record {
  type = AssignmentType.assignment;
  assigned_to_id = 5;
  location_id = 2;
  expected_return_date = none;
  condition_out = text "ok";
  note = none;
}

abbrev pub recall : ReturnAsset
recall = record {
  warehouse_id = some 3;
  location_id = none;
  condition_in = text "ok";
  outcome = ReturnOutcome.maintenance;
  note = none;
}

abbrev pub relocation : TransferAsset
relocation = record {
  to_warehouse_id = none;
  to_location_id = some 2;
  condition = none;
  reason = text "desk";
}

abbrev pub checkup : OpenMaintenance
checkup = record { warehouse_id = some 3; issue = text "fan" }

abbrev pub repair_done : CompleteMaintenance
repair_done = record {
  outcome = MaintenanceOutcome.ready;
  resolution = text "new fan";
  cost = some 5000;
  warehouse_id = some 3;
}

-- The requester of the sample case, who is not its approver.
abbrev pub clerk : Actor
clerk = record { id = 2; role = it; department_id = none }

abbrev pub scrap : CreateDisposal
scrap = record {
  title = text "Old";
  type = DisposalType.destruction;
  reason = text "broken";
  policy_reference = text "P";
  recipient = none;
  vendor_reference = none;
  estimated_proceeds = none;
  currency = text "vnd";
  items =
      record { asset_id = 8; condition_assessment = text "dead"; requires_data_sanitization = true }
      ∷ [];
}

-- The same for asset 9, which is RESERVED and holds no data.
abbrev pub kept : CreateDisposal
kept = record scrap {
  items =
      record { asset_id = 9; condition_assessment = text "old"; requires_data_sanitization = false }
      ∷ [];
}

abbrev pub certificate : EvidenceType → AddEvidence
certificate t = record {
  type = t;
  title = text "Certificate";
  document_no = none;
  document_date = none;
  storage_path = text "path";
  checksum_sha256 = none;
  note = none;
}

abbrev pub wiped : UpdateSanitization
wiped = record { status = SanitizationStatus.verified; method = some (text "shred") }

abbrev pub finished : CompleteDisposal
finished = record { note = text "done"; actual_proceeds = none }
