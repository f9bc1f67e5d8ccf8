-- ===== src/Lifecycle/Calls.antt =====
-- A history of requests to the lifecycle endpoints. Each request has its own clock, reference
-- tables and actor, so these may change between requests in any way; a request that throws leaves
-- the tables as they were.
use asset_it.Prelude.{ℕ, Bool, ◌&&◌, leb, List, [], ◌∷◌, ok, err, length, distinct, if◌then◌else◌}
use asset_it.Store.Rows.{Actor}
use asset_it.Store.Exceptions.{Outcome}
use asset_it.Store.Tables.{Env, Db}
use asset_it.Lifecycle.Issue.{AssignAsset, assign}
use asset_it.Lifecycle.Batch.{assign_many}
use asset_it.Lifecycle.Recall.{ReturnAsset, return_asset}
use asset_it.Lifecycle.Relocation.{TransferAsset, transfer}
use asset_it.Lifecycle.Repair.{
  OpenMaintenance, open_maintenance, CompleteMaintenance, complete_maintenance,
}

pub data Call : Type 0 where
  assigns : ℕ → AssignAsset → Call
  assigns_many : List ℕ → AssignAsset → Call
  returns : ℕ → ReturnAsset → Call
  transfers : ℕ → TransferAsset → Call
  opens_maintenance : ℕ → OpenMaintenance → Call
  completes_maintenance : ℕ → CompleteMaintenance → Call

pub record Request : Type 0 where
  pub env : Env
  pub actor : Actor
  pub call : Call

-- `@ArrayMinSize(1) @ArrayMaxSize(50) @ArrayUnique()` on `assetIds`
abbrev pub valid_batch : List ℕ → Bool
valid_batch ks = leb 1 (length ks) && leb (length ks) 50 && distinct ks

-- `$transaction`: the new tables, or the old ones after an exception
abbrev pub committed : {A : Type 0} → Db → Outcome (A × Db) → Db
committed db (ok (a, db')) = db'
committed db (err e) = db

abbrev pub committed_batch : {A B : Type 0} → Db → Outcome (A × B × Db) → Db
committed_batch db (ok (a, b, db')) = db'
committed_batch db (err e) = db

unfoldable pub step : Env → Actor → Call → Db → Db
step env actor (assigns k body) db = committed db (assign env k body actor db)
step env actor (assigns_many ks body) db =
    if valid_batch ks then committed_batch db (assign_many env ks body actor db) else db
step env actor (returns k body) db = committed db (return_asset env k body actor db)
step env actor (transfers k body) db = committed db (transfer env k body actor db)
step env actor (opens_maintenance k body) db = committed db (open_maintenance env k body actor db)
step env actor (completes_maintenance k body) db =
    committed db (complete_maintenance env k body actor db)

unfoldable pub run : List Request → Db → Db
run [] db = db
run (r ∷ rs) db = run rs (step r.env r.actor r.call db)
