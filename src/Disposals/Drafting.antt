-- ===== src/Disposals/Drafting.antt =====
-- `create` and `submit` of `DisposalsService`, and the release of held assets.
use asset_it.Prelude.{
  ℕ, ◌+◌, Bool, true, false, not, ◌==◌, Option, none, some, List, [], ◌∷◌, ◌++◌, map, Text, text,
  trim, upper, ok, throw_if, ◌>>=◌, ◌>>◌, length, any, distinct, ltb, option_map, option_bind,
  if◌then◌else◌,
}
use asset_it.Store.Enums.{StatusCode}
use asset_it.Store.Rows.{Actor, Location, Warehouse, Asset}
use asset_it.Store.DisposalRows.{
  DisposalStatus, DisposalType, SanitizationStatus, AssetSnapshot, DisposalItem, DisposalCase,
}
use asset_it.Store.Exceptions.{
  Outcome, bad_request, conflict, unique_violation, case_needs_assets, duplicate_asset,
  asset_missing_or_deleted, asset_in_case, asset_held_by_case, not_reserved,
}
use asset_it.Store.Tables.{Env, Db, update_asset}
use asset_it.Lifecycle.Batch.{present, gather}
use asset_it.Disposals.Rules.{assert_asset_eligible, assert_can_submit}
use asset_it.Disposals.Guards.{
  authorize, apply_rule, find_case, item_asset, case_status, save_case, activity, held_elsewhere,
  held_anywhere, number_taken,
}

-- `CreateDisposalItemDto` and `CreateDisposalDto`
pub record CreateItem : Type 0 where
  pub asset_id : ℕ
  pub condition_assessment : Text
  pub requires_data_sanitization : Bool

pub record CreateDisposal : Type 0 where
  pub title : Text
  pub type : DisposalType
  pub reason : Text
  pub policy_reference : Text
  pub recipient : Option Text
  pub vendor_reference : Option Text
  pub estimated_proceeds : Option ℕ
  pub currency : Text
  pub items : List CreateItem

abbrev pub item_ids : List CreateItem → List ℕ
item_ids [] = []
item_ids (i ∷ rest) = i.asset_id ∷ item_ids rest

-- `for (const asset of assets) this.rule(() => assertAssetEligibleForDisposal(...))`
unfoldable pub all_eligible : List Asset → Outcome (Unit {0})
all_eligible [] = ok tt
all_eligible (a ∷ rest) = apply_rule (assert_asset_eligible a.status) >> all_eligible rest

-- `TL-${stamp}-${random}`
pub disposal_number : Env → Text
disposal_number env = text "TL-" ++ (env.stamp ++ (text "-" ++ env.short_id (text "TL")))

abbrev pub snapshot : Env → Asset → AssetSnapshot
snapshot env a = record {
  asset_tag = a.asset_tag;
  name = a.name;
  serial_number = a.serial_number;
  status_code = a.status;
  category = env.category_name a.category_id;
  department = option_bind a.department_id env.department_name;
  location =
      option_bind a.location_id (λ k. option_map (λ (l : Location). l.name) (env.location k));
  warehouse =
      option_bind a.warehouse_id (λ k. option_map (λ (w : Warehouse). w.name) (env.warehouse k));
  purchase_cost = a.purchase_cost;
}

abbrev pub first_sanitization : Bool → SanitizationStatus
first_sanitization true = SanitizationStatus.pending
first_sanitization false = SanitizationStatus.not_required

-- The items take the identifiers from `n` on. `byId.get(item.assetId)!` is there for each of them.
unfoldable pub make_items : Env → Db → ℕ → List CreateItem → List DisposalItem
make_items env db n [] = []
make_items env db n (i ∷ rest) = elim (present db i.asset_id) [
  | none ↦ make_items env db n rest
  | some a ↦
      record {
        id = n;
        asset_id = i.asset_id;
        condition_assessment = trim i.condition_assessment;
        requires_data_sanitization = i.requires_data_sanitization;
        sanitization_status = first_sanitization i.requires_data_sanitization;
        sanitization_method = none;
        sanitized_by = none;
        sanitized_at = none;
        asset_snapshot = snapshot env a;
      }
      ∷ make_items env db (n + 1) rest
]

abbrev pub draft_case : Env → Db → CreateDisposal → Actor → DisposalCase
draft_case env db body actor = record {
  id = db.next_id;
  disposal_no = disposal_number env;
  title = trim body.title;
  type = body.type;
  status = DisposalStatus.draft;
  reason = trim body.reason;
  policy_reference = trim body.policy_reference;
  recipient = option_map trim body.recipient;
  vendor_reference = option_map trim body.vendor_reference;
  estimated_proceeds = body.estimated_proceeds;
  actual_proceeds = none;
  currency = map upper body.currency;
  requested_by = actor.id;
  submitted_at = none;
  approved_by = none;
  approved_at = none;
  approval_note = none;
  rejection_reason = none;
  executed_by = none;
  execution_started_at = none;
  completed_at = none;
  completion_note = none;
  cancelled_at = none;
  cancellation_reason = none;
  items = make_items env db (db.next_id + 1) body.items;
  evidence = [];
  activities = activity actor (text "CREATED") (text "Tạo hồ sơ nháp") ∷ [];
}

abbrev pub any_held : Db → List ℕ → Bool
any_held db ks = any (held_anywhere db) ks

unfoldable pub create : Env → CreateDisposal → Actor → Db → Outcome (DisposalCase × Db)
unfolding authorize
create env body actor db = do
  authorize actor false
  throw_if (ltb (length body.items) 1) (bad_request case_needs_assets)
  let ids = item_ids body.items
  throw_if (not (distinct ids)) (bad_request duplicate_asset)
  let assets = gather db ids
  throw_if (not (length assets == length ids)) (bad_request asset_missing_or_deleted)
  all_eligible assets
  throw_if (any_held db ids) (conflict asset_in_case)
  let row = draft_case env db body actor
  throw_if (number_taken db row.disposal_no) unique_violation
  ok (
    row,
    record db {
      cases = λ j. if j == db.next_id then some row else db.cases j;
      next_id = db.next_id + 1 + length body.items;
    },
  )

-- The loop of `submit`: `start` is what `this.record` read, `db` the tables so far.
unfoldable pub hold_items : Db → ℕ → StatusCode → List DisposalItem → Db → Outcome Db
unfolding update_asset
hold_items start id code [] db = ok db
hold_items start id code (i ∷ rest) db = do
  asset ← item_asset start i
  apply_rule (assert_asset_eligible asset.status)
  throw_if (held_elsewhere db id i.asset_id) (conflict asset_held_by_case)
  db₁ ← update_asset i.asset_id (λ a. record a { status = code }) db
  hold_items start id code rest db₁

abbrev pub submitted_case : Env → Actor → DisposalCase → DisposalCase
submitted_case env actor c = record c {
  status = DisposalStatus.submitted;
  submitted_at = some env.now;
  activities =
      activity actor (text "SUBMITTED") (text "Trình phê duyệt và giữ tài sản") ∷ c.activities;
}

unfoldable pub submit : Env → ℕ → Actor → Db → Outcome Db
unfolding authorize assert_can_submit
submit env id actor db = do
  authorize actor false
  disposal ← find_case db id
  apply_rule (assert_can_submit disposal.status (length disposal.items))
  reserved ← case_status env StatusCode.reserved
  db₁ ← hold_items db id reserved disposal.items db
  ok (save_case id (submitted_case env actor disposal) db₁)

abbrev pub is_reserved : StatusCode → Bool
is_reserved StatusCode.reserved = true
is_reserved _ = false

-- `restoreAssets`: each asset goes back to the status of its snapshot.
unfoldable pub restore_assets : Env → Db → List DisposalItem → Db → Outcome Db
unfolding update_asset
restore_assets env start [] db = ok db
restore_assets env start (i ∷ rest) db = do
  asset ← item_asset start i
  throw_if (not (is_reserved asset.status)) (conflict not_reserved)
  previous ← case_status env i.asset_snapshot.status_code
  db₁ ← update_asset i.asset_id (λ a. record a { status = previous }) db
  restore_assets env start rest db₁
