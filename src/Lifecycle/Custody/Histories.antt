-- ===== src/Lifecycle/Custody/Histories.antt =====
-- The custody invariant over whole histories of requests.
use asset_it.Prelude.{◌≡◌, refl, List, [], ◌∷◌, ok, err, Bool-cases, inl, inr, arith}
use asset_it.Store.Rows.{Actor}
use asset_it.Store.Exceptions.{Outcome}
use asset_it.Store.Tables.{Env, Db}
use asset_it.Lifecycle.Calls.{
  Call, assigns, assigns_many, returns, transfers, opens_maintenance, completes_maintenance,
  Request, valid_batch, committed, committed_batch, step, run,
}
use asset_it.Lifecycle.Issue.{assign}
use asset_it.Lifecycle.Batch.{assign_many}
use asset_it.Lifecycle.Recall.{return_asset}
use asset_it.Lifecycle.Relocation.{transfer}
use asset_it.Lifecycle.Repair.{open_maintenance, complete_maintenance}
use asset_it.Lifecycle.Custody.{Custody}
use asset_it.Lifecycle.Custody.Issuing.{assign-Custody}
use asset_it.Lifecycle.Custody.Batches.{assign_many-Custody}
use asset_it.Lifecycle.Custody.Returning.{return_asset-Custody}
use asset_it.Lifecycle.Custody.Moving.{transfer-Custody}
use asset_it.Lifecycle.Custody.Repairing.{open_maintenance-Custody, complete_maintenance-Custody}

pub committed_lem :
    {A : Type 0} (P : Db → Type 0) (db : Db) (m : Outcome (A × Db))
    → P db
    → ((a : A) (db' : Db) → m ≡ ok (a, db') → P db')
    → P (committed db m)
committed_lem P db (ok (a, db')) old new = new a db' refl
committed_lem P db (err e) old new = old

pub committed_batch_lem :
    {A B : Type 0} (P : Db → Type 0) (db : Db) (m : Outcome (A × B × Db))
    → P db
    → ((a : A) (b : B) (db' : Db) → m ≡ ok (a, b, db') → P db')
    → P (committed_batch db m)
committed_batch_lem P db (ok (a, b, db')) old new = new a b db' refl
committed_batch_lem P db (err e) old new = old

-- Every request keeps the custody invariant.
pub step-Custody :
    (env : Env) (actor : Actor) (call : Call) (db : Db)
    → Custody db
    → Custody (step env actor call db)
unfolding step
step-Custody env actor (assigns k body) db c =
    committed_lem Custody db (assign env k body actor db) c
      (λ row db' e. assign-Custody env k body actor db db' row c e)
step-Custody env actor (assigns_many ks body) db c = elim (Bool-cases (valid_batch ks)) [
  | inr invalid ↦ rw (invalid, step) c
  | inl valid ↦
      rw (valid, step)
        (committed_batch_lem Custody db (assign_many env ks body actor db) c (λ number rows db' e.
          (assign_many-Custody env ks body actor db db' number rows c (ground arith) e).0))
]
step-Custody env actor (returns k body) db c =
    committed_lem Custody db (return_asset env k body actor db) c
      (λ row db' e. return_asset-Custody env k body actor db db' row c e)
step-Custody env actor (transfers k body) db c =
    committed_lem Custody db (transfer env k body actor db) c
      (λ row db' e. transfer-Custody env k body actor db db' row c e)
step-Custody env actor (opens_maintenance k body) db c =
    committed_lem Custody db (open_maintenance env k body actor db) c
      (λ row db' e. open_maintenance-Custody env k body actor db db' row c e)
step-Custody env actor (completes_maintenance k body) db c =
    committed_lem Custody db (complete_maintenance env k body actor db) c
      (λ row db' e. complete_maintenance-Custody env k body actor db db' row c e)

-- After any history of lifecycle requests, from tables that satisfy the custody invariant, every
-- asset's status, holder, open assignment and open maintenance record agree.
pub run-Custody : (rs : List Request) (db : Db) → Custody db → Custody (run rs db)
unfolding run
run-Custody [] db c = c
run-Custody (r ∷ rs) db c =
    run-Custody rs (step r.env r.actor r.call db) (step-Custody r.env r.actor r.call db c)
