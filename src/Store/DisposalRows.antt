-- ===== src/Store/DisposalRows.antt =====
-- Rows of a disposal case. The items, evidence and activities of a case are listed in it.
use asset_it.Prelude.{ℕ, Bool, Option, List, Text}
use asset_it.Store.Enums.{StatusCode}

pub data DisposalStatus : Type 0 where
  draft submitted approved rejected in_execution completed cancelled : DisposalStatus

pub data DisposalType : Type 0 where
  sale donation return_to_vendor recycle destruction other : DisposalType

pub data SanitizationStatus : Type 0 where
  not_required pending verified failed : SanitizationStatus

pub data EvidenceType : Type 0 where
  approval_document data_erasure_certificate destruction_certificate : EvidenceType
  sale_contract handover_minutes photo other : EvidenceType

-- The JSON of `assetSnapshot`.
pub record AssetSnapshot : Type 0 where
  pub asset_tag : Text
  pub name : Text
  pub serial_number : Option Text
  pub status_code : StatusCode
  pub category : Text
  pub department : Option Text
  pub location : Option Text
  pub warehouse : Option Text
  pub purchase_cost : Option ℕ

pub record DisposalItem : Type 0 where
  pub id : ℕ
  pub asset_id : ℕ
  pub condition_assessment : Text
  pub requires_data_sanitization : Bool
  pub sanitization_status : SanitizationStatus
  pub sanitization_method : Option Text
  pub sanitized_by : Option ℕ
  pub sanitized_at : Option ℕ
  pub asset_snapshot : AssetSnapshot

pub record DisposalEvidence : Type 0 where
  pub id : ℕ
  pub type : EvidenceType
  pub title : Text
  pub document_no : Option Text
  pub document_date : Option ℕ
  pub storage_path : Text
  pub checksum_sha256 : Option Text
  pub note : Option Text
  pub uploaded_by : ℕ

pub record DisposalActivity : Type 0 where
  pub actor_id : ℕ
  pub action : Text
  pub note : Option Text

pub record DisposalCase : Type 0 where
  pub id : ℕ
  pub disposal_no : Text
  pub title : Text
  pub type : DisposalType
  pub status : DisposalStatus
  pub reason : Text
  pub policy_reference : Text
  pub recipient : Option Text
  pub vendor_reference : Option Text
  pub estimated_proceeds : Option ℕ
  pub actual_proceeds : Option ℕ
  pub currency : Text
  pub requested_by : ℕ
  pub submitted_at : Option ℕ
  pub approved_by : Option ℕ
  pub approved_at : Option ℕ
  pub approval_note : Option Text
  pub rejection_reason : Option Text
  pub executed_by : Option ℕ
  pub execution_started_at : Option ℕ
  pub completed_at : Option ℕ
  pub completion_note : Option Text
  pub cancelled_at : Option ℕ
  pub cancellation_reason : Option Text
  pub items : List DisposalItem
  pub evidence : List DisposalEvidence
  pub activities : List DisposalActivity
