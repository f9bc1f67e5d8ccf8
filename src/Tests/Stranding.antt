-- ===== src/Tests/Stranding.antt =====
-- The deletion of a draft whose asset was handed out after the draft was made.
use asset_it.Prelude.{
  ◌≡◌, refl, some, none, true, false, trim, [], ◌∷◌, text, ok, ◌==◌, if◌then◌else◌, get_or, is_some,
}
use asset_it.Store.Enums.{StatusCode}
use asset_it.Store.Rows.{Asset, AssetReturn}
use asset_it.Store.DisposalRows.{SanitizationStatus, DisposalItem, DisposalCase}
use asset_it.Store.Tables.{Env, Db, open_assignment, update_asset, create_assignment}
use asset_it.Lifecycle.Calls.{assigns, run, step}
use asset_it.Lifecycle.Issue.{issue, issue_terms, assign}
use asset_it.Lifecycle.Guards.{assert_operator}
use asset_it.Lifecycle.Recall.{ReturnAsset, return_asset}
use asset_it.Lifecycle.Custody.{Custody}
use asset_it.Lifecycle.Custody.Histories.{run-Custody}
use asset_it.Disposals.Drafting.{CreateDisposal, snapshot, make_items, draft_case}
use asset_it.Disposals.Calls.{removes}
use asset_it.Disposals.Calls
use asset_it.Disposals.Removal.{remove, release_items}
use asset_it.Disposals.Stranding.{remove-strands}
use asset_it.Store.Rows.{Actor}
use asset_it.Tests.Samples.{boss, clerk, env, start, start-Custody, stocked, handover, scrap}

abbrev surplus : CreateDisposal
surplus = record scrap {
  items =
      record {
        asset_id = 7;
        condition_assessment = text "spare";
        requires_data_sanitization = false;
      }
      ∷ [];
}

abbrev handed_out : Db
handed_out = run (record { env = env; actor = boss; call = assigns 7 handover } ∷ []) start

abbrev draft : DisposalCase
draft = draft_case env start surplus clerk

abbrev with_draft : Db → Db
with_draft db = record db { cases = λ k. if k == 50 then some draft else none }

with_draft-Custody : (db : Db) → Custody db → Custody (with_draft db)
with_draft-Custody db c = record {
  assignments_fresh = c.assignments_fresh;
  maintenance_fresh = c.maintenance_fresh;
  one_assignment = c.one_assignment;
  one_record = c.one_record;
  agrees = λ k a e. c.agrees k a e;
}

abbrev before : Db
before = with_draft handed_out

abbrev after : Db
after = Calls.step env boss (removes 50) before

abbrev item : DisposalItem
item = record {
  id = 101;
  asset_id = 7;
  condition_assessment = trim (text "spare");
  requires_data_sanitization = false;
  sanitization_status = SanitizationStatus.not_required;
  sanitization_method = none;
  sanitized_by = none;
  sanitized_at = none;
  asset_snapshot = snapshot env (stocked 7 StatusCode.ready);
}

abbrev laptop : Asset
laptop = get_or (handed_out.asset 7) (stocked 7 StatusCode.ready)

remove-strands_example :
    (b : Asset) × (after.asset 7 ≡ some b)
    × (b.status ≡ StatusCode.ready)
    × (b.current_custodian_id ≡ some 5)
    × (open_assignment after 7 ≡ open_assignment before 7)
    × (is_some (open_assignment before 7) ≡ true)
    × (¬ Custody after)
    × ((env' : Env) (body : ReturnAsset) (actor' : Actor) (db'' : Db) (row : AssetReturn)
        → ¬ (return_asset env' 7 body actor' after ≡ ok (row, db'')))
unfolding remove release_items update_asset make_items run Calls.step issue issue_terms assign
    create_assignment text step assert_operator
remove-strands_example =
    remove-strands env 50 boss before after draft item laptop
      (with_draft-Custody handed_out (
        run-Custody (record { env = env; actor = boss; call = assigns 7 handover } ∷ []) start
          start-Custody))
      refl refl refl refl refl refl
