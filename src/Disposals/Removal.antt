-- ===== src/Disposals/Removal.antt =====
-- `remove` of `DisposalsService`. The case is read before the transaction begins; here nothing runs
-- in between.
use asset_it.Prelude.{
  ℕ, true, false, not, ◌==◌, Option, none, some, List, [], ◌∷◌, ◌++◌, Text, text, ok, throw_if,
  ◌>>=◌, ◌>>◌, if◌then◌else◌,
}
use asset_it.Store.Enums.{StatusCode, HistoryAction, same_status}
use asset_it.Store.Rows.{Actor, Asset, Json}
use asset_it.Store.DisposalRows.{DisposalStatus, DisposalItem, DisposalEvidence, DisposalCase}
use asset_it.Store.Exceptions.{Outcome, forbidden, admin_required}
use asset_it.Store.Tables.{Env, Db, update_asset, add_history, add_audit}
use asset_it.Disposals.Guards.{is_admin, find_case, item_asset, case_status}
use asset_it.Disposals.Execution.{sanitization_name, evidence_name, type_name}

pub status_name : StatusCode → Text
status_name StatusCode.ready = text "READY"
status_name StatusCode.in_use = text "IN_USE"
status_name StatusCode.on_loan = text "ON_LOAN"
status_name StatusCode.returned = text "RETURNED"
status_name StatusCode.reserved = text "RESERVED"
status_name StatusCode.maintenance = text "MAINTENANCE"
status_name StatusCode.lost = text "LOST"
status_name StatusCode.broken = text "BROKEN"
status_name StatusCode.disposed = text "DISPOSED"

pub case_status_name : DisposalStatus → Text
case_status_name DisposalStatus.draft = text "DRAFT"
case_status_name DisposalStatus.submitted = text "SUBMITTED"
case_status_name DisposalStatus.approved = text "APPROVED"
case_status_name DisposalStatus.rejected = text "REJECTED"
case_status_name DisposalStatus.in_execution = text "IN_EXECUTION"
case_status_name DisposalStatus.completed = text "COMPLETED"
case_status_name DisposalStatus.cancelled = text "CANCELLED"

abbrev pub Released : Type 0
Released = List (List (Text × Text))

abbrev pub released_entry : Asset → StatusCode → List (Text × Text)
released_entry a previous =
    (text "assetTag", a.asset_tag)
    ∷ (text "from", status_name a.status)
    ∷ (text "to", status_name previous)
    ∷ []

abbrev pub release_history : DisposalCase → Actor → DisposalItem → Asset → StatusCode → Db → Db
release_history c actor i a previous db =
    add_history
      (record {
        asset_id = i.asset_id;
        action = HistoryAction.updated;
        from_user_id = none;
        to_user_id = none;
        from_location_id = none;
        to_location_id = none;
        reference_type = none;
        reference_id = none;
        description =
            text "Xóa hồ sơ "
            ++ (c.disposal_no
                ++ (text ": trả trạng thái "
                    ++ (status_name a.status ++ (text " → " ++ status_name previous))));
        performed_by = actor.id;
      })
      db

-- One round of the loop: an asset whose status is that of its snapshot is passed over.
unfoldable pub release_item :
    Env → DisposalCase → Actor → DisposalItem → Asset → Db → Outcome (Released × Db)
unfolding update_asset
release_item env c actor i a db = elim (same_status a.status i.asset_snapshot.status_code) [
  | true ↦ ok ([], db)
  | false ↦ do
    previous ← case_status env i.asset_snapshot.status_code
    db₁ ← update_asset i.asset_id (λ x. record x { status = previous }) db
    ok (released_entry a previous ∷ [], release_history c actor i a previous db₁)
]

unfoldable pub release_items :
    Env → Db → DisposalCase → Actor → List DisposalItem → Db → Outcome (Released × Db)
unfolding release_item
release_items env begin c actor [] db = ok ([], db)
release_items env begin c actor (i ∷ rest) db = do
  asset ← item_asset begin i
  (entry, db₁) ← release_item env c actor i asset db
  (entries, db₂) ← release_items env begin c actor rest db₁
  ok (entry ++ entries, db₂)

pub asset_entries : Db → List DisposalItem → Released
asset_entries db [] = []
asset_entries db (i ∷ rest) =
    ((text "assetTag", tag (db.asset i.asset_id))
      ∷ (text "conditionAssessment", i.condition_assessment)
      ∷ (text "sanitizationStatus", sanitization_name i.sanitization_status)
      ∷ [])
    ∷ asset_entries db rest
  where
    tag : Option Asset → Text
    tag none = []
    tag (some a) = a.asset_tag

pub evidence_entries : List DisposalEvidence → Released
evidence_entries [] = []
evidence_entries (e ∷ rest) =
    ((text "type", evidence_name e.type) ∷ (text "title", e.title) ∷ []) ∷ evidence_entries rest

abbrev pub nullable_text : Option Text → Json
nullable_text none = Json.null
nullable_text (some t) = Json.str t

-- The case goes with its items, evidence and activities.
abbrev pub delete_case : ℕ → Db → Db
delete_case k db = record db { cases = λ j. if j == k then none else db.cases j }

unfoldable pub remove : Env → ℕ → Actor → Db → Outcome Db
remove env id actor db = do
  throw_if (not (is_admin actor.role)) (forbidden admin_required)
  disposal ← find_case db id
  (released, db₁) ← release_items env db disposal actor disposal.items db
  ok (
      delete_case id (
        add_audit
          (record {
            user_id = actor.id;
            action = text "DISPOSAL_DELETED";
            entity_type = text "DisposalCase";
            entity_id = id;
            old_values =
                (text "disposalNo", Json.str disposal.disposal_no)
                ∷ (text "title", Json.str disposal.title)
                ∷ (text "type", Json.str (type_name disposal.type))
                ∷ (text "status", Json.str (case_status_name disposal.status))
                ∷ (text "reason", Json.str disposal.reason)
                ∷ (text "policyReference", Json.str disposal.policy_reference)
                ∷ (text "cancellationReason", nullable_text disposal.cancellation_reason)
                ∷ (text "rejectionReason", nullable_text disposal.rejection_reason)
                ∷ (text "assets", Json.records (asset_entries db disposal.items))
                ∷ (text "evidence", Json.records (evidence_entries disposal.evidence))
                ∷ (text "releasedAssets", Json.records released)
                ∷ [];
            new_values = [];
          })
          db₁))
