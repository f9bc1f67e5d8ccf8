-- ===== src/Lifecycle/Diagram.antt =====
-- The diagram of asset statuses under the lifecycle requests, and that requests follow it.
pub mod Histories
pub mod Requests
pub mod Stories
use asset_it.Prelude.{
  ℕ, ◌+◌, ◌≡◌, ◌⊎◌, ap, subst, true, Option, some, List, [], ◌∷◌, Text, ok, distinct, Bool-cases,
  inl, inr, >>=-eq-ok, ◌==◌, ==_iff, arith,
}
use asset_it.Store.Enums.{StatusCode, AssignmentType, ReturnOutcome}
use asset_it.Store.Rows.{Actor, Asset, Assignment, AssetReturn, AssetTransfer, MaintenanceRecord}
use asset_it.Store.Tables.{Env, Db, put_asset}
use asset_it.Lifecycle.Rules.{assignment_target, is_assigned, is_idle, outcome_status}
use asset_it.Lifecycle.Issue.{AssignAsset, Terms, Batch, issue}
use asset_it.Lifecycle.Batch.{issue_all}
use asset_it.Lifecycle.Recall.{ReturnAsset, return_asset}
use asset_it.Lifecycle.Relocation.{TransferAsset, transfer}
use asset_it.Lifecycle.Repair.{
  OpenMaintenance, open_maintenance, CompleteMaintenance, complete_maintenance,
}
use asset_it.Lifecycle.Custody.Issuing.{issue-Issued}
use asset_it.Lifecycle.Custody.Batches.{Standing, Standing-put, ids}
use asset_it.Lifecycle.Custody.Returning.{write_return-Returned, return_asset-writes, chosen}
use asset_it.Lifecycle.Custody.Moving.{write_transfer-Transferred, transfer-writes, chosen_target}
use asset_it.Lifecycle.Custody.Repairing.{
  open_maintenance-Opened, complete_maintenance-Completed, maintenance_target-leaves,
}

infix 40 ◌⟶◌ ◌⟶*◌
pub data ◌⟶◌ : StatusCode → StatusCode → Type 0 where
  hand_over : StatusCode.ready ⟶ StatusCode.in_use
  lend : StatusCode.ready ⟶ StatusCode.on_loan
  take_back : (s : StatusCode) (o : ReturnOutcome) → is_assigned s ≡ true → s ⟶ outcome_status o
  repair : (s : StatusCode) → is_idle s ≡ true → s ⟶ StatusCode.maintenance
  mend : StatusCode.maintenance ⟶ StatusCode.ready
  give_up : StatusCode.maintenance ⟶ StatusCode.broken

pub data ◌⟶*◌ : StatusCode → StatusCode → Type 0 where
  stay : {s : StatusCode} → s ⟶* s
  then : {s t u : StatusCode} → s ⟶ t → t ⟶* u → s ⟶* u

one : {s t : StatusCode} → s ⟶ t → s ⟶* t
one e = then e stay

⟶*_trans : {s t u : StatusCode} → s ⟶* t → t ⟶* u → s ⟶* u
⟶*_trans stay q = q
⟶*_trans (then e p) q = then e (⟶*_trans p q)

-- No asset is lost, and each status has moved along the diagram.
abbrev pub Follows : Db → Db → Type 0
Follows db db' =
    (j : ℕ) (b : Asset)
    → db.asset j ≡ some b
    → (b' : Asset) × (db'.asset j ≡ some b') × (b.status ⟶* b'.status)

pub Follows-refl : (db : Db) → Follows db db
Follows-refl db j b e = (b, e, stay)

pub Follows-trans : (a b c : Db) → Follows a b → Follows b c → Follows a c
Follows-trans a b c f g j x e =
    let (y, ey, p) = f j x e in let (z, ez, q) = g j y ey in (z, ez, ⟶*_trans p q)

pub Follows-put :
    (db db' : Db) (k : ℕ) (a a' : Asset)
    → db'.asset ≡ put_asset db.asset k a'
    → db.asset k ≡ some a
    → a.status ⟶* a'.status
    → Follows db db'
Follows-put db db' k a a' changed here p j b e = elim (Bool-cases (j == k)) [
  | inl same ↦
      let at : j ≡ k = (==_iff j k).0 same in
      let whole : a ≡ b = ground (arith, ap db.asset at) in
      (
        a',
        ground (arith, ap (λ (f : ℕ → Option Asset). f j) changed),
        subst (λ (x : Asset). x.status ⟶* a'.status) whole p,
      )
  | inr away ↦ (b, ground (arith, ap (λ (f : ℕ → Option Asset). f j) changed), stay)
]

assignment_target-edge :
    (s t : StatusCode) (type : AssignmentType) → assignment_target s type ≡ ok t → s ⟶ t
unfolding assignment_target
assignment_target-edge s t type e = grind (arith, hand_over, lend)

pub issue-Follows :
    (env : Env) (a : Asset) (terms : Terms) (body : AssignAsset) (actor : Actor) (number : Text)
    (batch : Option Batch) (db db' : Db) (row : Assignment)
    → db.asset a.id ≡ some a
    → issue env a terms body actor number batch db ≡ ok (row, db')
    → Follows db db'
issue-Follows env a terms body actor number batch db db' row here e =
    let (target, i, _, goes) = issue-Issued env a terms body actor number batch db db' row here e in
    Follows-put db db' a.id a _ i.asset here
      (one (assignment_target-edge a.status target body.type goes))

pub return_asset-Follows :
    (env : Env) (k : ℕ) (body : ReturnAsset) (actor : Actor) (db db' : Db) (row : AssetReturn)
    → return_asset env k body actor db ≡ ok (row, db')
    → Follows db db'
return_asset-Follows env k body actor db db' row e =
    let (a, o, l, x, here, held, _, was, run) = return_asset-writes env k body actor db db' row e in
    Follows-put db db' k a _
      (write_return-Returned env k a o (chosen env body) l _ body actor db db' row here run).asset
      here (one (take_back a.status body.outcome was))

pub transfer-Follows :
    (env : Env) (k : ℕ) (body : TransferAsset) (actor : Actor) (db db' : Db) (row : AssetTransfer)
    → transfer env k body actor db ≡ ok (row, db')
    → Follows db db'
transfer-Follows env k body actor db db' row e =
    let (a, l, x, here, _, _, run) = transfer-writes env k body actor db db' row e in
    Follows-put db db' k a _
      (write_transfer-Transferred env k a (chosen_target env body) l x body actor db db' row here
        run).asset
      here stay

pub open_maintenance-Follows :
    (env : Env) (k : ℕ) (body : OpenMaintenance) (actor : Actor) (db db' : Db)
    (row : MaintenanceRecord)
    → open_maintenance env k body actor db ≡ ok (row, db')
    → Follows db db'
open_maintenance-Follows env k body actor db db' row e =
    let (a, here, _, t) = open_maintenance-Opened env k body actor db db' row e in
    Follows-put db db' k a _ t.asset here (one (repair a.status t.was_idle))

-- A repair ends in one of the two statuses that the diagram allows.
mended :
    (s t : StatusCode)
    → s ≡ StatusCode.maintenance
    → (t ≡ StatusCode.ready) ⊎ (t ≡ StatusCode.broken)
    → s ⟶ t
mended s t from (inl to) = rw (from, to) mend
mended s t from (inr to) = rw (from, to) give_up

pub complete_maintenance-Follows :
    (env : Env) (k : ℕ) (body : CompleteMaintenance) (actor : Actor) (db db' : Db)
    (done : MaintenanceRecord)
    → complete_maintenance env k body actor db ≡ ok (done, db')
    → Follows db db'
complete_maintenance-Follows env k body actor db db' done e =
    let (row, a, target, w, found, here, goes, _, t) =
      complete_maintenance-Completed env k body actor db db' done e in
    let (was, ends) = maintenance_target-leaves a.status body.outcome target goes in
    Follows-put db db' row.asset_id a _ t.asset here (one (mended a.status target was ends))

pub issue_all-Follows :
    (env : Env) (terms : Terms) (body : AssignAsset) (actor : Actor) (batch : Batch) (n : ℕ)
    (assets : List Asset) (db db' : Db) (rows : List Assignment)
    → distinct (ids assets) ≡ true
    → Standing db assets
    → issue_all env terms body actor batch n assets db ≡ ok (rows, db')
    → Follows db db'
unfolding issue_all
issue_all-Follows env terms body actor batch n [] db db' rows apart s e =
    let same : db ≡ db' = ground arith in subst (Follows db) same (Follows-refl db)
issue_all-Follows env terms body actor batch n (a ∷ rest) db db' rows apart s e =
    let (p, run, more) = >>=-eq-ok (issue env a terms body actor _ (some batch) db) _ e in
    let (q, others, last) =
      >>=-eq-ok (issue_all env terms body actor batch (n + 1) rest p.1) _ more in
    let (target, i, is_row, is_target) =
      issue-Issued env a terms body actor _ (some batch) db p.1 p.0 s.0 run in
    let after : Follows p.1 q.1 =
      issue_all-Follows env terms body actor batch (n + 1) rest p.1 q.1 q.0 (ground arith)
        (Standing-put db p.1 a _ rest i.asset (ground arith) s.1) others in
    let same : q.1 ≡ db' = ground arith in
    subst (Follows db) same (
      Follows-trans db p.1 q.1
        (issue-Follows env a terms body actor _ (some batch) db p.1 p.0 s.0 run) after)
