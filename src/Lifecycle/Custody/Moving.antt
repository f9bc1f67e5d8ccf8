-- ===== src/Lifecycle/Custody/Moving.antt =====
-- What a successful `transfer` has done to the tables, and that it keeps the custody invariant.
use asset_it.Prelude.{
  ℕ, suc, ◌≡◌, ◌≢◌, false, Option, some, ok, option_bind, Option-cases, Result-cases, inl, inr,
  arith,
}
use asset_it.Store.Enums.{StatusCode}
use asset_it.Store.Rows.{Actor, Location, Warehouse, Asset, AssetTransfer}
use asset_it.Store.Exceptions.{target_required, target_location_invalid}
use asset_it.Store.Tables.{Env, Db, put_asset, in_two_places}
use asset_it.Store.Ledger.{Below-mono}
use asset_it.Lifecycle.Recall.{destination, active_warehouse}
use asset_it.Lifecycle.Relocation.{TransferAsset, write_transfer, transfer, moved}
use asset_it.Lifecycle.Custody.Reading.{
  assignment_id, assignment_asset, assignment_open, record_id, record_asset, record_open,
}
use asset_it.Lifecycle.Custody.{Custody, Custody-put}

abbrev pub chosen_target : Env → TransferAsset → Option Warehouse
chosen_target env body = option_bind body.to_warehouse_id (active_warehouse env)

pub record Transferred (db db' : Db) (k : ℕ) (a a' : Asset) : Type 0 where
  pub asset : db'.asset ≡ put_asset db.asset k a'
  pub one_place : in_two_places a' ≡ false
  pub assignments : db'.assignments ≡ db.assignments
  pub maintenance : db'.maintenance ≡ db.maintenance
  pub cases : db'.cases ≡ db.cases
  pub next_id : db'.next_id ≡ suc db.next_id

pub write_transfer-Transferred :
    (env : Env) (k : ℕ) (a : Asset) (warehouse : Option Warehouse) (l : ℕ) (x : Location)
    (body : TransferAsset) (actor : Actor) (db db' : Db) (row : AssetTransfer)
    → db.asset k ≡ some a
    → write_transfer env k a warehouse l x body actor db ≡ ok (row, db')
    → Transferred db db' k a (moved l warehouse a)
unfolding write_transfer
write_transfer-Transferred env k a warehouse l x body actor db db' row here e = ground arith

pub transfer-writes :
    (env : Env) (k : ℕ) (body : TransferAsset) (actor : Actor) (db db' : Db) (row : AssetTransfer)
    → transfer env k body actor db ≡ ok (row, db')
    → (a : Asset) × (l : ℕ) × (x : Location) × (db.asset k ≡ some a)
      × (destination env
            (chosen_target env body)
            body.to_location_id
            target_required
            target_location_invalid
          ≡ ok (l, x))
      × (a.status ≢ StatusCode.disposed)
      × (write_transfer env k a (chosen_target env body) l x body actor db ≡ ok (row, db'))
unfolding transfer
transfer-writes env k body actor db db' row e = elim (Option-cases (db.asset k)) [
  | inl absent ↦ absurd (ground arith)
  | inr (a, found) ↦
      elim (Result-cases (
        destination env (chosen_target env body) body.to_location_id target_required
          target_location_invalid)) [
            | inl ((l, x), there) ↦ (a, l, x, found, there, ground arith, ground arith)
            | inr (x, nowhere) ↦ absurd (ground arith)
          ]
]

Transferred-Custody :
    (db db' : Db) (k l : ℕ) (warehouse : Option Warehouse) (a : Asset)
    → Custody db
    → db.asset k ≡ some a
    → Transferred db db' k a (moved l warehouse a)
    → Custody db'
Transferred-Custody db db' k l warehouse a c here t =
    Custody-put db db' k (moved l warehouse a) c t.asset
      (rw (t.assignments, t.next_id)
        (Below-mono assignment_id assignment_asset assignment_open db.next_id (suc db.next_id)
          db.assignments (omega arith) c.assignments_fresh))
      (rw (t.maintenance, t.next_id)
        (Below-mono record_id record_asset record_open db.next_id (suc db.next_id) db.maintenance
          (omega arith) c.maintenance_fresh))
      (rw t.assignments c.one_assignment) (rw t.maintenance c.one_record)
      (λ j away. rw t.assignments) (λ j away. rw t.maintenance)
      (ground (arith, t.assignments, t.maintenance, c.agrees k a here))

-- A transfer keeps the custody invariant.
pub transfer-Custody :
    (env : Env) (k : ℕ) (body : TransferAsset) (actor : Actor) (db db' : Db) (row : AssetTransfer)
    → Custody db
    → transfer env k body actor db ≡ ok (row, db')
    → Custody db'
transfer-Custody env k body actor db db' row c e =
    let (a, l, x, here, _, _, run) = transfer-writes env k body actor db db' row e in
    Transferred-Custody db db' k l (chosen_target env body) a c here (
      write_transfer-Transferred env k a (chosen_target env body) l x body actor db db' row here
        run)
