-- ===== src/Lifecycle/Diagram/Requests.antt =====
-- Which request moves the status of an asset, and between which statuses.
use asset_it.Prelude.{
  ℕ, ◌≡◌, ◌⊎◌, refl, sym, ap, ◌∙◌, subst, true, ◌==◌, ==_iff, includes, distinct, Option, some,
  List, ok, Text, Bool-cases, inl, inr, arith,
}
use asset_it.Store.Enums.{StatusCode, ReturnOutcome, MaintenanceOutcome}
use asset_it.Store.Rows.{Actor, Asset, Assignment, AssetReturn, AssetTransfer, MaintenanceRecord}
use asset_it.Store.Tables.{Env, Db, put_asset}
use asset_it.Lifecycle.Rules.{is_assigned, is_idle, outcome_status, maintenance_target}
use asset_it.Lifecycle.Calls.{
  Call, assigns, assigns_many, returns, transfers, opens_maintenance, completes_maintenance,
}
use asset_it.Lifecycle.Issue.{AssignAsset, assign}
use asset_it.Lifecycle.Batch.{assign_many}
use asset_it.Lifecycle.Recall.{ReturnAsset, return_asset}
use asset_it.Lifecycle.Relocation.{TransferAsset, transfer}
use asset_it.Lifecycle.Repair.{
  OpenMaintenance, open_maintenance, CompleteMaintenance, complete_maintenance, open_record_by_id,
}
use asset_it.Lifecycle.Custody.{Custody}
use asset_it.Lifecycle.Custody.Issuing.{assign-issue}
use asset_it.Lifecycle.Custody.Returning.{write_return-Returned, return_asset-writes, chosen}
use asset_it.Lifecycle.Custody.Moving.{write_transfer-Transferred, transfer-writes, chosen_target}
use asset_it.Lifecycle.Custody.Repairing.{open_maintenance-Opened, complete_maintenance-Completed}
use asset_it.Lifecycle.Outcomes.Lots.{
  handed_status, InHand, Matched-at, issue-InHand, assign_many-hands-over,
}

-- What the outcome of a return says of the asset.
abbrev pub returned_status : ReturnOutcome → StatusCode
returned_status ReturnOutcome.ready = StatusCode.ready
returned_status ReturnOutcome.maintenance = StatusCode.maintenance
returned_status ReturnOutcome.broken = StatusCode.broken

-- What the request may do to the status of the asset `j`, from the tables `db`.
pub data Arrow (db : Db) (j : ℕ) : Call → StatusCode → StatusCode → Type 0 where
  rests : (c : Call) (s : StatusCode) → Arrow db j c s s
  hands_over :
      (body : AssignAsset) (s t : StatusCode)
      → s ≡ StatusCode.ready
      → t ≡ handed_status body.type
      → Arrow db j (assigns j body) s t
  hands_over_many :
      (ks : List ℕ) (body : AssignAsset) (s t : StatusCode)
      → includes j ks ≡ true
      → s ≡ StatusCode.ready
      → t ≡ handed_status body.type
      → Arrow db j (assigns_many ks body) s t
  takes_back :
      (body : ReturnAsset) (s t : StatusCode)
      → (s ≡ StatusCode.in_use) ⊎ (s ≡ StatusCode.on_loan)
      → t ≡ returned_status body.outcome
      → Arrow db j (returns j body) s t
  repairs :
      (body : OpenMaintenance) (s t : StatusCode)
      → (s ≡ StatusCode.ready) ⊎ ((s ≡ StatusCode.returned) ⊎ (s ≡ StatusCode.broken))
      → t ≡ StatusCode.maintenance
      → Arrow db j (opens_maintenance j body) s t
  mends :
      (k : ℕ) (body : CompleteMaintenance) (row : MaintenanceRecord) (s t : StatusCode)
      → open_record_by_id db k ≡ some row
      → row.asset_id ≡ j
      → s ≡ StatusCode.maintenance
      → ((body.outcome ≡ MaintenanceOutcome.ready) × (t ≡ StatusCode.ready))
        ⊎ ((body.outcome ≡ MaintenanceOutcome.broken) × (t ≡ StatusCode.broken))
      → Arrow db j (completes_maintenance k body) s t

-- No asset is lost, and the status of each has moved along an arrow of the request, or not at all.
abbrev pub Turns : Db → Call → Db → Type 0
Turns db call db' =
    (j : ℕ) (a : Asset)
    → db.asset j ≡ some a
    → (b : Asset) × (db'.asset j ≡ some b) × Arrow db j call a.status b.status

pub Turns-rest : (db : Db) (call : Call) → Turns db call db
Turns-rest db call j a here = (a, here, rests call a.status)

Turns-put :
    (db db' : Db) (call : Call) (k : ℕ) (a a' : Asset)
    → db'.asset ≡ put_asset db.asset k a'
    → db.asset k ≡ some a
    → Arrow db k call a.status a'.status
    → Turns db call db'
Turns-put db db' call k a a' changed here p j b e = elim (Bool-cases (j == k)) [
  | inl same ↦
      let at : k ≡ j = ground (arith, ==_iff j k) in
      let whole : a ≡ b = ground (arith, ap db.asset at) in
      (
        a',
        ground (arith, ap (λ (f : ℕ → Option Asset). f j) changed),
        subst (λ n. Arrow db n call b.status a'.status) at
            (subst (λ (x : Asset). Arrow db k call x.status a'.status) whole p),
      )
  | inr away ↦ (b, ground (arith, ap (λ (f : ℕ → Option Asset). f j) changed), rests call b.status)
]

pub assign-Turns :
    (env : Env) (k : ℕ) (body : AssignAsset) (actor : Actor) (db db' : Db) (row : Assignment)
    → Custody db
    → assign env k body actor db ≡ ok (row, db')
    → Turns db (assigns k body) db'
assign-Turns env k body actor db db' row c e j b here =
    let (a, terms, found, _, _, _, run) = assign-issue env k body actor db db' row e in
    let keyed : a.id ≡ k = (c.agrees k a found).keyed in
    let (h, _, same) =
      issue-InHand env a terms body actor _ _ db db' row (ap db.asset keyed ∙ found) run in
    elim (Bool-cases (j == a.id)) [
      | inr away ↦ (b, (same j away).0 ∙ here, rests _ b.status)
      | inl hit ↦
          let at : k ≡ j = ground (arith, keyed, ==_iff j a.id) in
          let old : h.old ≡ b = ground (arith, h.before, ==_iff j a.id) in
          (
            h.new,
            ground (arith, h.after, ==_iff j a.id),
            subst (λ n. Arrow db j (assigns n body) b.status h.new.status) (sym at)
                (hands_over body b.status h.new.status
                  (ap (λ (x : Asset). x.status) (sym old) ∙ h.was_ready) h.status),
          )
    ]

pub assign_many-Turns :
    (env : Env) (ks : List ℕ) (body : AssignAsset) (actor : Actor) (db db' : Db) (number : Text)
    (rows : List Assignment)
    → Custody db
    → distinct ks ≡ true
    → assign_many env ks body actor db ≡ ok (number, rows, db')
    → Turns db (assigns_many ks body) db'
assign_many-Turns env ks body actor db db' number rows c apart e j b here =
    let (_, terms, _, out) =
      assign_many-hands-over env ks body actor db db' number rows c apart e in
    elim (Bool-cases (includes j ks)) [
      | inr away ↦ (b, out.others j away ∙ here, rests _ b.status)
      | inl listed ↦
          let (row, h) = Matched-at (InHand terms body.type db db') j ks rows listed out.each in
          let old : h.old ≡ b = ground (arith, h.before) in
          (
            h.new,
            h.after,
            hands_over_many ks body b.status h.new.status listed
                (ap (λ (x : Asset). x.status) (sym old) ∙ h.was_ready) h.status,
          )
    ]

assigned_statuses :
    (s : StatusCode) → is_assigned s ≡ true → (s ≡ StatusCode.in_use) ⊎ (s ≡ StatusCode.on_loan)
assigned_statuses s e = ground arith

idle_statuses :
    (s : StatusCode)
    → is_idle s ≡ true
    → (s ≡ StatusCode.ready) ⊎ ((s ≡ StatusCode.returned) ⊎ (s ≡ StatusCode.broken))
idle_statuses s e = ground arith

outcome_status-returned : (o : ReturnOutcome) → outcome_status o ≡ returned_status o
outcome_status-returned o = ground arith

maintenance_target-outcome :
    (s t : StatusCode) (o : MaintenanceOutcome)
    → maintenance_target s o ≡ ok t
    → (s ≡ StatusCode.maintenance)
      × (((o ≡ MaintenanceOutcome.ready) × (t ≡ StatusCode.ready))
          ⊎ ((o ≡ MaintenanceOutcome.broken) × (t ≡ StatusCode.broken)))
unfolding maintenance_target
maintenance_target-outcome s t o e = ground arith

pub return_asset-Turns :
    (env : Env) (k : ℕ) (body : ReturnAsset) (actor : Actor) (db db' : Db) (row : AssetReturn)
    → return_asset env k body actor db ≡ ok (row, db')
    → Turns db (returns k body) db'
return_asset-Turns env k body actor db db' row e =
    let (a, o, l, x, here, held, _, was, run) = return_asset-writes env k body actor db db' row e in
    Turns-put db db' (returns k body) k a _
      (write_return-Returned env k a o (chosen env body) l _ body actor db db' row here run).asset
      here
      (takes_back body a.status _ (assigned_statuses a.status was)
        (outcome_status-returned body.outcome))

pub transfer-Turns :
    (env : Env) (k : ℕ) (body : TransferAsset) (actor : Actor) (db db' : Db) (row : AssetTransfer)
    → transfer env k body actor db ≡ ok (row, db')
    → Turns db (transfers k body) db'
transfer-Turns env k body actor db db' row e =
    let (a, l, x, here, _, _, run) = transfer-writes env k body actor db db' row e in
    Turns-put db db' (transfers k body) k a _
      (write_transfer-Transferred env k a (chosen_target env body) l x body actor db db' row here
        run).asset
      here (rests (transfers k body) a.status)

pub open_maintenance-Turns :
    (env : Env) (k : ℕ) (body : OpenMaintenance) (actor : Actor) (db db' : Db)
    (row : MaintenanceRecord)
    → open_maintenance env k body actor db ≡ ok (row, db')
    → Turns db (opens_maintenance k body) db'
open_maintenance-Turns env k body actor db db' row e =
    let (a, here, _, t) = open_maintenance-Opened env k body actor db db' row e in
    Turns-put db db' (opens_maintenance k body) k a _ t.asset here
      (repairs body a.status _ (idle_statuses a.status t.was_idle) refl)

pub complete_maintenance-Turns :
    (env : Env) (k : ℕ) (body : CompleteMaintenance) (actor : Actor) (db db' : Db)
    (done : MaintenanceRecord)
    → complete_maintenance env k body actor db ≡ ok (done, db')
    → Turns db (completes_maintenance k body) db'
complete_maintenance-Turns env k body actor db db' done e =
    let (row, a, target, w, found, here, goes, _, t) =
      complete_maintenance-Completed env k body actor db db' done e in
    let (was, ends) = maintenance_target-outcome a.status target body.outcome goes in
    Turns-put db db' (completes_maintenance k body) row.asset_id a _ t.asset here
      (mends k body row a.status target found refl was ends)
