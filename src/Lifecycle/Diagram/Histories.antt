-- ===== src/Lifecycle/Diagram/Histories.antt =====
-- The status diagram over whole histories of requests, and what it never touches.
use asset_it.Prelude.{
  ℕ, ◌≡◌, refl, ap, ◌∙◌, ◌⊎◌, inl, inr, distinct, true, some, List, [], ◌∷◌, ok, Text, Bool-cases,
  arith,
}
use asset_it.Store.Enums.{StatusCode}
use asset_it.Store.Rows.{Actor, Asset, Assignment}
use asset_it.Store.Tables.{Env, Db}
use asset_it.Lifecycle.Calls.{
  Call, assigns, assigns_many, returns, transfers, opens_maintenance, completes_maintenance,
  Request, valid_batch, step, run,
}
use asset_it.Lifecycle.Issue.{AssignAsset, assign}
use asset_it.Lifecycle.Batch.{gather, assign_many}
use asset_it.Lifecycle.Recall.{return_asset}
use asset_it.Lifecycle.Relocation.{transfer}
use asset_it.Lifecycle.Repair.{open_maintenance, complete_maintenance}
use asset_it.Lifecycle.Custody.{Custody}
use asset_it.Lifecycle.Custody.Issuing.{assign-issue}
use asset_it.Lifecycle.Custody.Batches.{assign_many-loop, ids-gather, Standing-gather, ids}
use asset_it.Lifecycle.Custody.Histories.{step-Custody, committed_lem, committed_batch_lem}
use asset_it.Lifecycle.Diagram.{
  ◌⟶◌, ◌⟶*◌, stay, then, hand_over, lend, take_back, repair, mend, give_up, Follows, Follows-refl,
  Follows-trans, issue-Follows, issue_all-Follows, return_asset-Follows, transfer-Follows,
  open_maintenance-Follows, complete_maintenance-Follows,
}

assign-Follows :
    (env : Env) (k : ℕ) (body : AssignAsset) (actor : Actor) (db db' : Db) (row : Assignment)
    → Custody db
    → assign env k body actor db ≡ ok (row, db')
    → Follows db db'
assign-Follows env k body actor db db' row c e =
    let (a, terms, found, _, _, _, run) = assign-issue env k body actor db db' row e in
    issue-Follows env a terms body actor _ _ db db' row
      (ap db.asset (c.agrees k a found).keyed ∙ found) run

assign_many-Follows :
    (env : Env) (ks : List ℕ) (body : AssignAsset) (actor : Actor) (db db' : Db) (number : Text)
    (rows : List Assignment)
    → Custody db
    → distinct ks ≡ true
    → assign_many env ks body actor db ≡ ok (number, rows, db')
    → Follows db db'
assign_many-Follows env ks body actor db db' number rows c apart e =
    let (terms, _, all_there, _, run) = assign_many-loop env ks body actor db db' number rows e in
    let keyed = λ (k : ℕ) (a : Asset) (found : db.asset k ≡ some a). (c.agrees k a found).keyed in
    let same : ids (gather db ks) ≡ ks = ids-gather db ks keyed all_there in
    issue_all-Follows env terms body actor _ 1 (gather db ks) db db' rows (ap distinct same ∙ apart)
      (Standing-gather db ks keyed) run

pub step-Follows :
    (env : Env) (actor : Actor) (call : Call) (db : Db)
    → Custody db
    → Follows db (step env actor call db)
unfolding step
step-Follows env actor (assigns k body) db c =
    committed_lem (Follows db) db (assign env k body actor db) (Follows-refl db)
      (λ row db' e. assign-Follows env k body actor db db' row c e)
step-Follows env actor (assigns_many ks body) db c = elim (Bool-cases (valid_batch ks)) [
  | inr invalid ↦ rw (invalid, step) (Follows-refl db)
  | inl valid ↦
      rw (valid, step)
        (committed_batch_lem (Follows db) db (assign_many env ks body actor db) (Follows-refl db)
          (λ number rows db' e.
            assign_many-Follows env ks body actor db db' number rows c (ground arith) e))
]
step-Follows env actor (returns k body) db c =
    committed_lem (Follows db) db (return_asset env k body actor db) (Follows-refl db)
      (λ row db' e. return_asset-Follows env k body actor db db' row e)
step-Follows env actor (transfers k body) db c =
    committed_lem (Follows db) db (transfer env k body actor db) (Follows-refl db)
      (λ row db' e. transfer-Follows env k body actor db db' row e)
step-Follows env actor (opens_maintenance k body) db c =
    committed_lem (Follows db) db (open_maintenance env k body actor db) (Follows-refl db)
      (λ row db' e. open_maintenance-Follows env k body actor db db' row e)
step-Follows env actor (completes_maintenance k body) db c =
    committed_lem (Follows db) db (complete_maintenance env k body actor db) (Follows-refl db)
      (λ row db' e. complete_maintenance-Follows env k body actor db db' row e)

-- From tables that satisfy the custody invariant, through any history of lifecycle requests, no
-- asset is lost, and the status of each has moved
-- along the diagram only.
pub run-Follows : (rs : List Request) (db : Db) → Custody db → Follows db (run rs db)
unfolding run
run-Follows [] db c = Follows-refl db
run-Follows (r ∷ rs) db c =
    Follows-trans db (step r.env r.actor r.call db) (run rs (step r.env r.actor r.call db))
      (step-Follows r.env r.actor r.call db c)
      (run-Follows rs (step r.env r.actor r.call db) (step-Custody r.env r.actor r.call db c))

-- The statuses that no arrow of the diagram leaves.
abbrev pub IsFrozen : StatusCode → Type 0
IsFrozen s = (s ≡ StatusCode.reserved) ⊎ (s ≡ StatusCode.lost) ⊎ (s ≡ StatusCode.disposed)

IsFrozen-edge : {s t : StatusCode} → s ⟶ t → ¬ IsFrozen s
IsFrozen-edge hand_over f = ground arith
IsFrozen-edge lend f = ground arith
IsFrozen-edge (take_back s o h) f = ground arith
IsFrozen-edge (repair s h) f = ground arith
IsFrozen-edge mend f = ground arith
IsFrozen-edge give_up f = ground arith

IsFrozen-path : {s t : StatusCode} → s ⟶* t → IsFrozen s → s ≡ t
IsFrozen-path stay f = refl
IsFrozen-path (then e p) f = absurd (IsFrozen-edge e f)

-- An asset that a disposal case holds in RESERVED, one that is LOST and one that is DISPOSED keep
-- that status through any history of lifecycle requests from tables that satisfy the custody
-- invariant.
pub run_frozen :
    (rs : List Request) (db : Db) (k : ℕ) (a : Asset)
    → Custody db
    → db.asset k ≡ some a
    → IsFrozen a.status
    → (b : Asset) × ((run rs db).asset k ≡ some b) × (a.status ≡ b.status)
run_frozen rs db k a c here f =
    let (b, there, p) = run-Follows rs db c k a here in (b, there, IsFrozen-path p f)
