-- ===== src/Lifecycle/Custody.antt =====
-- The custody invariant of the asset tables: the status of an asset, its holder, its open
-- assignment and its open maintenance record tell the same story.
pub mod Reading
pub mod Closing
pub mod Issuing
pub mod Returning
pub mod Moving
pub mod Repairing
pub mod Batches
pub mod Histories
use asset_it.Prelude.{
  ap, ℕ, ◌≡◌, ◌≢◌, Bool, true, false, not, Option, none, some, is_some, option_map, ◌==◌, ==_iff,
  Bool-cases, inl, inr, arith,
}
use asset_it.Store.Enums.{StatusCode, is_open, is_open_maintenance}
use asset_it.Store.Rows.{Asset, Assignment, MaintenanceRecord}
use asset_it.Store.Tables.{Db, put_asset, in_two_places, open_assignment, open_record}
use asset_it.Store.Ledger.{Below, OneOpen}
use asset_it.Lifecycle.Rules.{is_assigned}
use Reading.{assignment_id, assignment_asset, assignment_open, record_id, record_asset, record_open}

abbrev pub in_maintenance : StatusCode → Bool
in_maintenance StatusCode.maintenance = true
in_maintenance _ = false

-- What the row of asset `k` says agrees with its open assignment and its open maintenance record.
pub record Agrees (k : ℕ) (assignment : Option Assignment) (repair : Option MaintenanceRecord)
    (a : Asset) : Type 0 where
  pub keyed : a.id ≡ k
  pub holder : a.current_custodian_id ≡ option_map (λ (r : Assignment). r.assigned_to_id) assignment
  pub assigned : is_assigned a.status ≡ is_some assignment
  pub repaired : in_maintenance a.status ≡ is_some repair
  pub one_place : in_two_places a ≡ false

pub record Custody (db : Db) : Type 0 where
  pub assignments_fresh :
      Below assignment_id assignment_asset assignment_open db.next_id db.assignments
  pub maintenance_fresh : Below record_id record_asset record_open db.next_id db.maintenance
  pub one_assignment : OneOpen assignment_id assignment_asset assignment_open db.assignments
  pub one_record : OneOpen record_id record_asset record_open db.maintenance
  pub agrees :
      (k : ℕ) (a : Asset)
      → db.asset k ≡ some a
      → Agrees k (open_assignment db k) (open_record db k) a

-- The row of one asset changes, and with it at most the open rows of that asset.
pub Custody-put :
    (db db' : Db) (k : ℕ) (a : Asset)
    → Custody db
    → db'.asset ≡ put_asset db.asset k a
    → Below assignment_id assignment_asset assignment_open db'.next_id db'.assignments
    → Below record_id record_asset record_open db'.next_id db'.maintenance
    → OneOpen assignment_id assignment_asset assignment_open db'.assignments
    → OneOpen record_id record_asset record_open db'.maintenance
    → ((j : ℕ) → j ≢ k → open_assignment db' j ≡ open_assignment db j)
    → ((j : ℕ) → j ≢ k → open_record db' j ≡ open_record db j)
    → Agrees k (open_assignment db' k) (open_record db' k) a
    → Custody db'
Custody-put db db' k a c changed fa fm oa om same_a same_m new = record {
  assignments_fresh = fa;
  maintenance_fresh = fm;
  one_assignment = oa;
  one_record = om;
  agrees = λ j b e. elim (Bool-cases (j == k)) [
    | inl here ↦
        let at : j ≡ k = (==_iff j k).0 here in
        let found : a ≡ b = ground (arith, ap (λ (f : ℕ → Option Asset). f j) changed) in
        rw at (rw (← found) new)
    | inr there ↦
        let away : j ≢ k = ground arith in
        let found : db.asset j ≡ some b =
          ground (arith, ap (λ (f : ℕ → Option Asset). f j) changed) in
        rw (same_a j away, same_m j away) (c.agrees j b found)
  ];
}
