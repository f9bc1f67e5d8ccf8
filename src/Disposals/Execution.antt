-- ===== src/Disposals/Execution.antt =====
-- `addEvidence`, `updateSanitization` and `complete` of `DisposalsService`.
use asset_it.Prelude.{
  ℕ, suc, Bool, true, false, not, ◌&&◌, ◌==◌, Option, none, some, List, [], ◌∷◌, ◌++◌, map, Text,
  text, trim, lower, ok, throw_if, or_throw, ◌>>=◌, ◌>>◌, length, any, find, is_some, is_nonempty,
  option_map, or_else, if◌then◌else◌,
}
use asset_it.Store.Enums.{StatusCode, HistoryAction}
use asset_it.Store.Rows.{Actor, Asset, Json}
use asset_it.Store.DisposalRows.{
  DisposalStatus, DisposalType, SanitizationStatus, EvidenceType, DisposalItem, DisposalEvidence,
  DisposalCase,
}
use asset_it.Store.Exceptions.{
  Outcome, bad_request, not_found, conflict, item_not_found, cannot_waive_sanitization,
  method_required, not_reserved, assignment_still_open, maintenance_still_open,
}
use asset_it.Store.Tables.{
  Env, Db, update_asset, open_assignment, open_record, add_history, add_audit,
}
use asset_it.Disposals.Rules.{is_verified, assert_can_record_execution, assert_can_complete}
use asset_it.Disposals.Guards.{
  authorize, apply_rule, find_case, item_asset, case_status, save_case, activity,
  assert_required_evidence,
}
use asset_it.Disposals.Drafting.{is_reserved}

-- `AddDisposalEvidenceDto`
pub record AddEvidence : Type 0 where
  pub type : EvidenceType
  pub title : Text
  pub document_no : Option Text
  pub document_date : Option ℕ
  pub storage_path : Text
  pub checksum_sha256 : Option Text
  pub note : Option Text

pub evidence_name : EvidenceType → Text
evidence_name EvidenceType.approval_document = text "APPROVAL_DOCUMENT"
evidence_name EvidenceType.data_erasure_certificate = text "DATA_ERASURE_CERTIFICATE"
evidence_name EvidenceType.destruction_certificate = text "DESTRUCTION_CERTIFICATE"
evidence_name EvidenceType.sale_contract = text "SALE_CONTRACT"
evidence_name EvidenceType.handover_minutes = text "HANDOVER_MINUTES"
evidence_name EvidenceType.photo = text "PHOTO"
evidence_name EvidenceType.other = text "OTHER"

abbrev pub evidence_row : Db → AddEvidence → Actor → DisposalEvidence
evidence_row db body actor = record {
  id = db.next_id;
  type = body.type;
  title = trim body.title;
  document_no = option_map trim body.document_no;
  document_date = body.document_date;
  storage_path = trim body.storage_path;
  checksum_sha256 = option_map (map lower) body.checksum_sha256;
  note = option_map trim body.note;
  uploaded_by = actor.id;
}

abbrev pub evidenced_case : Actor → AddEvidence → DisposalEvidence → DisposalCase → DisposalCase
evidenced_case actor body row c = record c {
  evidence = row ∷ c.evidence;
  activities =
      activity actor (text "EVIDENCE_ADDED")
        (evidence_name body.type ++ (text ": " ++ trim body.title))
      ∷ c.activities;
}

unfoldable pub add_evidence : ℕ → AddEvidence → Actor → Db → Outcome (DisposalEvidence × Db)
unfolding authorize assert_can_record_execution
add_evidence id body actor db = do
  authorize actor false
  disposal ← find_case db id
  apply_rule (assert_can_record_execution disposal.status)
  let row = evidence_row db body actor
  ok (
    row,
    save_case id (evidenced_case actor body row disposal) (record db { next_id = suc db.next_id }),
  )

-- `UpdateSanitizationDto`
pub record UpdateSanitization : Type 0 where
  pub status : SanitizationStatus
  pub method : Option Text

abbrev pub is_not_required : SanitizationStatus → Bool
is_not_required SanitizationStatus.not_required = true
is_not_required _ = false

pub sanitization_name : SanitizationStatus → Text
sanitization_name SanitizationStatus.not_required = text "NOT_REQUIRED"
sanitization_name SanitizationStatus.pending = text "PENDING"
sanitization_name SanitizationStatus.verified = text "VERIFIED"
sanitization_name SanitizationStatus.failed = text "FAILED"

-- `body.method?.trim()` is a text that is not empty.
abbrev pub has_method : Option Text → Bool
has_method none = false
has_method (some m) = is_nonempty (trim m)

-- A method that is left out leaves the column as it was.
abbrev pub sanitized : Env → Actor → UpdateSanitization → DisposalItem → DisposalItem
sanitized env actor body i = record i {
  sanitization_status = body.status;
  sanitization_method = or_else (option_map trim body.method) i.sanitization_method;
  sanitized_by = if is_verified body.status then some actor.id else none;
  sanitized_at = if is_verified body.status then some env.now else none;
}

abbrev pub sanitize_item : Env → Actor → UpdateSanitization → ℕ → DisposalItem → DisposalItem
sanitize_item env actor body item_id i = if i.id == item_id then sanitized env actor body i else i

pub method_note : Option Text → Text
method_note none = []
method_note (some m) = if is_nonempty m then text " - " ++ trim m else []

abbrev pub sanitized_case :
    Env → Actor → UpdateSanitization → ℕ → Text → DisposalCase → DisposalCase
sanitized_case env actor body item_id tag c = record c {
  items = map (sanitize_item env actor body item_id) c.items;
  activities =
      activity actor (text "SANITIZATION_UPDATED")
        (tag ++ (text ": " ++ (sanitization_name body.status ++ method_note body.method)))
      ∷ c.activities;
}

unfoldable pub update_sanitization : Env → ℕ → ℕ → UpdateSanitization → Actor → Db → Outcome Db
unfolding authorize assert_can_record_execution
update_sanitization env id item_id body actor db = do
  authorize actor false
  disposal ← find_case db id
  apply_rule (assert_can_record_execution disposal.status)
  item ←
      or_throw (find (λ (i : DisposalItem). i.id == item_id) disposal.items)
        (not_found item_not_found)
  throw_if (item.requires_data_sanitization && is_not_required body.status)
      (bad_request cannot_waive_sanitization)
  throw_if (is_verified body.status && not (has_method body.method)) (bad_request method_required)
  asset ← item_asset db item
  ok (save_case id (sanitized_case env actor body item_id asset.asset_tag disposal) db)

-- `CompleteDisposalDto`
pub record CompleteDisposal : Type 0 where
  pub note : Text
  pub actual_proceeds : Option ℕ

pub type_name : DisposalType → Text
type_name DisposalType.sale = text "SALE"
type_name DisposalType.donation = text "DONATION"
type_name DisposalType.return_to_vendor = text "RETURN_TO_VENDOR"
type_name DisposalType.recycle = text "RECYCLE"
type_name DisposalType.destruction = text "DESTRUCTION"
type_name DisposalType.other = text "OTHER"

abbrev pub retired : StatusCode → Asset → Asset
retired target a = record a {
  status = target;
  assigned_user_id = none;
  current_custodian_id = none;
  department_id = none;
  warehouse_id = none;
  location_id = none;
}

-- The loop of `complete`.
unfoldable pub retire_items :
    Db → DisposalCase → Text → Actor → StatusCode → List DisposalItem → Db → Outcome Db
unfolding update_asset
retire_items begin c note actor target [] db = ok db
retire_items begin c note actor target (i ∷ rest) db = do
  asset ← item_asset begin i
  throw_if (not (is_reserved asset.status)) (conflict not_reserved)
  throw_if (is_some (open_assignment db i.asset_id)) (conflict assignment_still_open)
  throw_if (is_some (open_record db i.asset_id)) (conflict maintenance_still_open)
  db₁ ← update_asset i.asset_id (retired target) db
  retire_items begin c note actor target rest (
      add_history
        (record {
          asset_id = i.asset_id;
          action = HistoryAction.disposed;
          from_user_id = none;
          to_user_id = none;
          from_location_id = none;
          to_location_id = none;
          reference_type = some (text "DisposalCase");
          reference_id = some c.id;
          description =
              type_name c.type ++ (text ": " ++ (c.disposal_no ++ (text " - " ++ trim note)));
          performed_by = actor.id;
        })
        db₁)

abbrev pub completed_case : Env → Actor → CompleteDisposal → DisposalCase → DisposalCase
completed_case env actor body c = record c {
  status = DisposalStatus.completed;
  completed_at = some env.now;
  completion_note = some (trim body.note);
  actual_proceeds = or_else body.actual_proceeds c.actual_proceeds;
  executed_by = or_else c.executed_by (some actor.id);
  activities = activity actor (text "COMPLETED") (trim body.note) ∷ c.activities;
}

abbrev pub asset_ids : List DisposalItem → List ℕ
asset_ids [] = []
asset_ids (i ∷ rest) = i.asset_id ∷ asset_ids rest

unfoldable pub complete : Env → ℕ → CompleteDisposal → Actor → Db → Outcome Db
unfolding authorize assert_can_complete
complete env id body actor db = do
  authorize actor false
  disposal ← find_case db id
  apply_rule (assert_can_complete disposal.status (length disposal.evidence) disposal.items)
  assert_required_evidence disposal.type disposal.evidence
      (any (λ (i : DisposalItem). i.requires_data_sanitization) disposal.items)
  target ← case_status env StatusCode.disposed
  db₁ ← retire_items db disposal body.note actor target disposal.items db
  ok (
      add_audit
        (record {
          user_id = actor.id;
          action = text "DISPOSAL_COMPLETED";
          entity_type = text "DisposalCase";
          entity_id = id;
          old_values = [];
          new_values =
              (text "disposalNo", Json.str disposal.disposal_no)
              ∷ (text "type", Json.str (type_name disposal.type))
              ∷ (text "assetIds", Json.ids (asset_ids disposal.items))
              ∷ [];
        })
        (save_case id (completed_case env actor body disposal) db₁))
