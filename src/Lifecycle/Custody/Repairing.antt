-- ===== src/Lifecycle/Custody/Repairing.antt =====
-- What a successful `openMaintenance` or `completeMaintenance` has done to the tables, and that
-- both keep the custody invariant.
use asset_it.Prelude.{
  ℕ, suc, ◌≡◌, ◌⊎◌, false, true, Option, none, some, ◌∷◌, map, ok, option_bind, Option-cases,
  Result-cases, inl, inr, arith,
}
use asset_it.Store.Enums.{StatusCode, MaintenanceOutcome}
use asset_it.Store.Rows.{Actor, Warehouse, Asset, MaintenanceRecord}
use asset_it.Store.Tables.{Env, Db, put_asset, open_assignment, open_record, replace_record}
use asset_it.Store.Ledger.{Below-mono, open_with_id-open_at}
use asset_it.Lifecycle.Rules.{is_idle, maintenance_target}
use asset_it.Lifecycle.Recall.{active_warehouse}
use asset_it.Lifecycle.Repair.{
  OpenMaintenance, open_maintenance, maintenance_row, in_repair, CompleteMaintenance,
  complete_maintenance, open_record_by_id, receiving_warehouse, repaired,
}
use asset_it.Lifecycle.Custody.Reading.{
  assignment_id, assignment_asset, assignment_open, record_id, record_asset, record_open,
}
use asset_it.Lifecycle.Custody.Closing.{
  completed_self, completed_ne, completed-Below, completed-OneOpen,
}
use asset_it.Lifecycle.Custody.{Custody, Custody-put}

pub record Opened (db db' : Db) (k : ℕ) (a : Asset) (row : MaintenanceRecord) : Type 0 where
  pub was_idle : is_idle a.status ≡ true
  pub not_held : open_assignment db k ≡ none
  pub no_repair : open_record db k ≡ none
  pub asset : db'.asset ≡ put_asset db.asset k (in_repair StatusCode.maintenance a)
  pub assignments : db'.assignments ≡ db.assignments
  pub maintenance : db'.maintenance ≡ row ∷ db.maintenance
  pub cases : db'.cases ≡ db.cases
  pub next_id : db'.next_id ≡ suc db.next_id

pub open_maintenance-Opened :
    (env : Env) (k : ℕ) (body : OpenMaintenance) (actor : Actor) (db db' : Db)
    (row : MaintenanceRecord)
    → open_maintenance env k body actor db ≡ ok (row, db')
    → (a : Asset) × (db.asset k ≡ some a)
      × (row
          ≡ maintenance_row env db k
              (option_bind body.warehouse_id (active_warehouse env))
              body
              actor)
      × Opened db db' k a row
unfolding open_maintenance
open_maintenance-Opened env k body actor db db' row e = elim (Option-cases (db.asset k)) [
  | inl absent ↦ absurd (ground arith)
  | inr (a, found) ↦ (a, found, ground arith, ground arith)
]

-- Opening a repair keeps the custody invariant.
pub open_maintenance-Custody :
    (env : Env) (k : ℕ) (body : OpenMaintenance) (actor : Actor) (db db' : Db)
    (row : MaintenanceRecord)
    → Custody db
    → open_maintenance env k body actor db ≡ ok (row, db')
    → Custody db'
open_maintenance-Custody env k body actor db db' row c e =
    let (a, here, is_row, t) = open_maintenance-Opened env k body actor db db' row e in
    Custody-put db db' k (in_repair StatusCode.maintenance a) c t.asset
      (rw (t.assignments, t.next_id)
        (Below-mono assignment_id assignment_asset assignment_open db.next_id (suc db.next_id)
          db.assignments (omega arith) c.assignments_fresh))
      (rw (t.maintenance, t.next_id, is_row) (omega arith, c.maintenance_fresh))
      (rw t.assignments c.one_assignment)
      (rw (t.maintenance, is_row) ((λ _. t.no_repair), c.one_record)) (λ j away. rw t.assignments)
      (λ j away. ground (arith, t.maintenance, is_row))
      (ground (arith, t.assignments, t.maintenance, is_row, c.agrees k a here))

pub record Completed (db db' : Db) (body : CompleteMaintenance) (row done : MaintenanceRecord)
    (a : Asset) (target : StatusCode) (warehouse : Option Warehouse) : Type 0 where
  pub same : done.id ≡ row.id
  pub key : done.asset_id ≡ row.asset_id
  pub over : record_open done ≡ false
  pub asset : db'.asset ≡ put_asset db.asset row.asset_id (repaired target warehouse body.outcome a)
  pub assignments : db'.assignments ≡ db.assignments
  pub maintenance : db'.maintenance ≡ map (replace_record done) db.maintenance
  pub cases : db'.cases ≡ db.cases
  pub next_id : db'.next_id ≡ db.next_id

pub complete_maintenance-Completed :
    (env : Env) (k : ℕ) (body : CompleteMaintenance) (actor : Actor) (db db' : Db)
    (done : MaintenanceRecord)
    → complete_maintenance env k body actor db ≡ ok (done, db')
    → (row : MaintenanceRecord) × (a : Asset) × (target : StatusCode) × (warehouse : Option
        Warehouse)
      × (open_record_by_id db k ≡ some row)
      × (db.asset row.asset_id ≡ some a)
      × (maintenance_target a.status body.outcome ≡ ok target)
      × (receiving_warehouse env body.outcome body.warehouse_id ≡ ok warehouse)
      × Completed db db' body row done a target warehouse
unfolding complete_maintenance
complete_maintenance-Completed env k body actor db db' done e =
    elim (Option-cases (open_record_by_id db k)) [
      | inl absent ↦ absurd (ground arith)
      | inr (row, found) ↦ elim (Option-cases (db.asset row.asset_id)) [
        | inl absent ↦ absurd (ground arith)
        | inr (a, here) ↦ elim (Result-cases (maintenance_target a.status body.outcome)) [
          | inr (x, bad) ↦ absurd (ground arith)
          | inl (target, t) ↦
              elim (Result-cases (receiving_warehouse env body.outcome body.warehouse_id)) [
                | inr (x, bad) ↦ absurd (ground arith)
                | inl (w, r) ↦ (row, a, target, w, found, here, t, r, ground arith)
              ]
        ]
      ]
    ]

pub maintenance_target-leaves :
    (current : StatusCode) (outcome : MaintenanceOutcome) (target : StatusCode)
    → maintenance_target current outcome ≡ ok target
    → (current ≡ StatusCode.maintenance)
      × ((target ≡ StatusCode.ready) ⊎ (target ≡ StatusCode.broken))
unfolding maintenance_target
maintenance_target-leaves current outcome target e = ground arith

module _ (db db' : Db) (body : CompleteMaintenance) (row done : MaintenanceRecord) (a : Asset)
    (target : StatusCode) (warehouse : Option Warehouse) (c : Custody db)
    (here : db.asset row.asset_id ≡ some a) (found : open_record db row.asset_id ≡ some row)
    (idle : (target ≡ StatusCode.ready) ⊎ (target ≡ StatusCode.broken))
    (was : a.status ≡ StatusCode.maintenance)
    (t : Completed db db' body row done a target warehouse) where
  not_held : open_assignment db row.asset_id ≡ none
  not_held = ground (arith, c.agrees row.asset_id a here)

  Completed-Custody : Custody db'
  Completed-Custody =
      Custody-put db db' row.asset_id (repaired target warehouse body.outcome a) c t.asset
        (rw (t.assignments, t.next_id) c.assignments_fresh)
        (rw (t.maintenance, t.next_id)
          (completed-Below row done row.asset_id db.next_id db.maintenance c.maintenance_fresh
            c.one_record found t.same t.key t.over))
        (rw t.assignments c.one_assignment)
        (rw t.maintenance (
          completed-OneOpen row done row.asset_id db.next_id db.maintenance c.maintenance_fresh
            c.one_record found t.same t.key t.over))
        (λ j away. rw t.assignments)
        (λ j away. rw t.maintenance (
          completed_ne row done row.asset_id db.next_id db.maintenance c.maintenance_fresh
            c.one_record found t.same t.key t.over j away))
        (ground (
          arith,
          not_held,
          t.assignments,
          t.maintenance,
          c.agrees row.asset_id a here,
          completed_self row done row.asset_id db.next_id db.maintenance c.maintenance_fresh
              c.one_record found t.same t.key t.over,
        ))

-- Completing a repair keeps the custody invariant.
pub complete_maintenance-Custody :
    (env : Env) (k : ℕ) (body : CompleteMaintenance) (actor : Actor) (db db' : Db)
    (done : MaintenanceRecord)
    → Custody db
    → complete_maintenance env k body actor db ≡ ok (done, db')
    → Custody db'
complete_maintenance-Custody env k body actor db db' done c e =
    let (row, a, target, w, found, here, goes, _, t) =
      complete_maintenance-Completed env k body actor db db' done e in
    let (was, idle) = maintenance_target-leaves a.status body.outcome target goes in
    Completed-Custody db db' body row done a target w c here
      (open_with_id-open_at record_id record_asset record_open k db.maintenance row c.one_record
        found)
      idle was t
