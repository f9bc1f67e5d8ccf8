-- ===== src/Lifecycle/Custody/Returning.antt =====
-- What a successful `returnAsset` has done to the tables, and that it keeps the custody invariant.
use asset_it.Prelude.{
  ℕ, suc, ◌≡◌, ◌≤◌, ◌<◌, refl, find, true, Option, none, some, List, [], ◌∷◌, ◌++◌, map, ok,
  option_bind, Option-cases, Result-cases, inl, inr, arith,
}
use asset_it.Store.Enums.{StatusCode, ReturnOutcome}
use asset_it.Store.Rows.{
  Actor, Location, Warehouse, Asset, Assignment, AssetReturn, MaintenanceRecord,
}
use asset_it.Store.Exceptions.{receiving_location_required, receiving_location_invalid}
use asset_it.Store.Tables.{
  Env, Db, put_asset, open_assignment, open_record, open_maintenance_for, close_row,
}
use asset_it.Store.Ledger.{Below, OneOpen, Below-mono}
use asset_it.Lifecycle.Rules.{is_assigned, outcome_status}
use asset_it.Lifecycle.Recall.{
  ReturnAsset, write_return, return_asset, taken_back, inspection_row, destination,
  active_warehouse,
}
use asset_it.Lifecycle.Custody.Reading.{
  assignment_id, assignment_asset, assignment_open, record_id, record_asset, record_open,
}
use asset_it.Lifecycle.Custody.Closing.{closed_self, closed_ne, closed-Below, closed-OneOpen}
use asset_it.Lifecycle.Custody.{Custody, Custody-put}

-- The maintenance record that a return opens, if any.
abbrev pub inspections : ReturnOutcome → MaintenanceRecord → List MaintenanceRecord
inspections ReturnOutcome.maintenance r = r ∷ []
inspections _ r = []

abbrev pub chosen : Env → ReturnAsset → Option Warehouse
chosen env body = option_bind body.warehouse_id (active_warehouse env)

-- It takes the identifier after that of the return.
abbrev pub inspection : Env → ℕ → ReturnAsset → Actor → Db → Option Warehouse → MaintenanceRecord
inspection env k body actor db warehouse =
    inspection_row env (record db { next_id = suc db.next_id }) k warehouse body actor

pub record Returned (env : Env) (k : ℕ) (body : ReturnAsset) (actor : Actor) (db db' : Db)
    (a : Asset) (o : Assignment) (warehouse : Option Warehouse) (location_id : ℕ)
    (target : StatusCode) : Type 0 where
  pub assignments : db'.assignments ≡ map (close_row o.id env.now) db.assignments
  pub asset : db'.asset ≡ put_asset db.asset k (taken_back target location_id warehouse a)
  pub maintenance :
      db'.maintenance
      ≡ inspections body.outcome (inspection env k body actor db warehouse) ++ db.maintenance
  pub no_repair : body.outcome ≡ ReturnOutcome.maintenance → open_record db k ≡ none
  pub fresh : body.outcome ≡ ReturnOutcome.maintenance → db'.next_id ≡ suc (suc db.next_id)
  pub grown : db.next_id ≤ db'.next_id
  pub cases : db'.cases ≡ db.cases

pub write_return-Returned :
    (env : Env) (k : ℕ) (a : Asset) (o : Assignment) (warehouse : Option Warehouse)
    (location_id : ℕ) (target : StatusCode) (body : ReturnAsset) (actor : Actor) (db db' : Db)
    (row : AssetReturn)
    → db.asset k ≡ some a
    → write_return env k a o warehouse location_id target body actor db ≡ ok (row, db')
    → Returned env k body actor db db' a o warehouse location_id target
unfolding write_return
write_return-Returned env k a o warehouse location_id target body actor db db' row found e =
    ground arith

pub return_asset-writes :
    (env : Env) (k : ℕ) (body : ReturnAsset) (actor : Actor) (db db' : Db) (row : AssetReturn)
    → return_asset env k body actor db ≡ ok (row, db')
    → (a : Asset) × (o : Assignment) × (location_id : ℕ) × (location : Location) × (db.asset k
        ≡ some a)
      × (open_assignment db k ≡ some o)
      × (destination env
            (chosen env body)
            body.location_id
            receiving_location_required
            receiving_location_invalid
          ≡ ok (location_id, location))
      × (is_assigned a.status ≡ true)
      × (write_return env k a o
            (chosen env body)
            location_id
            (outcome_status body.outcome)
            body
            actor
            db
          ≡ ok (row, db'))
unfolding return_asset
return_asset-writes env k body actor db db' row e = elim (Option-cases (db.asset k)) [
  | inl absent ↦ absurd (ground arith)
  | inr (a, found) ↦ elim (Option-cases (open_assignment db k)) [
    | inl absent ↦ absurd (ground arith)
    | inr (o, held) ↦
        elim (Result-cases (
          destination env (chosen env body) body.location_id receiving_location_required
            receiving_location_invalid)) [
              | inl ((l, x), there) ↦ (a, o, l, x, found, held, there, ground arith, ground arith)
              | inr (x, nowhere) ↦ absurd (ground arith)
            ]
  ]
]

module _ (env : Env) (k : ℕ) (body : ReturnAsset) (actor : Actor) (db db' : Db) (a : Asset)
    (o : Assignment) (warehouse : Option Warehouse) (location_id : ℕ) (c : Custody db)
    (here : db.asset k ≡ some a) (held : open_assignment db k ≡ some o)
    (was : is_assigned a.status ≡ true)
    (t : Returned env k body actor db db' a o warehouse location_id
      (outcome_status body.outcome)) where
  no_repair_before : open_record db k ≡ none
  no_repair_before = ground (arith, c.agrees k a here)

  inspections-Below :
      (outcome : ReturnOutcome) (r : MaintenanceRecord) (n n' : ℕ) (rows : List MaintenanceRecord)
      → (outcome ≡ ReturnOutcome.maintenance → (n ≤ r.id) × (r.id < n'))
      → n ≤ n'
      → Below record_id record_asset record_open n rows
      → Below record_id record_asset record_open n' (inspections outcome r ++ rows)
  inspections-Below ReturnOutcome.ready r n n' rows fresh le b =
      Below-mono record_id record_asset record_open n n' rows le b
  inspections-Below ReturnOutcome.broken r n n' rows fresh le b =
      Below-mono record_id record_asset record_open n n' rows le b
  inspections-Below ReturnOutcome.maintenance r n n' rows fresh le b =
      ((fresh refl).1, Below-mono record_id record_asset record_open n r.id rows (fresh refl).0 b)

  inspections-OneOpen :
      (outcome : ReturnOutcome) (r : MaintenanceRecord) (rows : List MaintenanceRecord)
      → find (open_maintenance_for r.asset_id) rows ≡ none
      → OneOpen record_id record_asset record_open rows
      → OneOpen record_id record_asset record_open (inspections outcome r ++ rows)
  inspections-OneOpen ReturnOutcome.ready r rows none_open u = u
  inspections-OneOpen ReturnOutcome.broken r rows none_open u = u
  inspections-OneOpen ReturnOutcome.maintenance r rows none_open u = ((λ _. none_open), u)

  Returned-Custody : Custody db'
  Returned-Custody =
      Custody-put db db' k (taken_back (outcome_status body.outcome) location_id warehouse a) c
        t.asset
        (rw t.assignments (
          closed-Below o env.now k db'.next_id db.assignments
            (Below-mono assignment_id assignment_asset assignment_open db.next_id db'.next_id
              db.assignments t.grown c.assignments_fresh)
            c.one_assignment held))
        (rw t.maintenance (
          inspections-Below body.outcome (inspection env k body actor db warehouse) db.next_id
            db'.next_id db.maintenance (λ e. omega (arith, t.fresh e)) t.grown c.maintenance_fresh))
        (rw t.assignments (
          closed-OneOpen o env.now k db.next_id db.assignments c.assignments_fresh c.one_assignment
            held))
        (rw t.maintenance (
          inspections-OneOpen body.outcome (inspection env k body actor db warehouse) db.maintenance
            no_repair_before c.one_record))
        (λ j away. rw t.assignments (
          closed_ne o env.now k db.next_id db.assignments c.assignments_fresh c.one_assignment held
            j away))
        (λ j away. ground (arith, t.maintenance))
        (ground (
          arith,
          t.assignments,
          t.maintenance,
          no_repair_before,
          c.agrees k a here,
          closed_self o env.now k db.next_id db.assignments c.assignments_fresh c.one_assignment
              held,
        ))

-- Taking an asset back keeps the custody invariant, whatever the outcome.
pub return_asset-Custody :
    (env : Env) (k : ℕ) (body : ReturnAsset) (actor : Actor) (db db' : Db) (row : AssetReturn)
    → Custody db
    → return_asset env k body actor db ≡ ok (row, db')
    → Custody db'
return_asset-Custody env k body actor db db' row c e =
    let (a, o, l, x, here, held, _, was, run) = return_asset-writes env k body actor db db' row e in
    Returned-Custody env k body actor db db' a o (chosen env body) l c here held was
      (write_return-Returned env k a o (chosen env body) l _ body actor db db' row here run)
