-- ===== src/Inventory/Calls.antt =====
-- The requests of apps/api/src/modules/inventory/inventory.controller.ts that write, what each does
-- to one session, and histories of requests: one that throws leaves the tables as they were.
use asset_it.Prelude.{ℕ, List, [], ◌∷◌, ok, err}
use asset_it.Store.Rows.{Actor}
use asset_it.Store.Exceptions.{Outcome}
use asset_it.Store.Tables.{Env, Db}
use asset_it.Inventory.Opening.{CreateInventory, create}
use asset_it.Inventory.Scanning.{ScanInventory, scan}
use asset_it.Inventory.Ending.{close, cancel, remove}

pub data Call : Type 0 where
  creates : CreateInventory → Call
  scans : ℕ → ScanInventory → Call
  closes : ℕ → Call
  cancels : ℕ → Call
  removes : ℕ → Call

pub record Request : Type 0 where
  pub env : Env
  pub actor : Actor
  pub call : Call

abbrev pub settled : Db → Outcome Db → Db
settled db (ok db') = db'
settled db (err x) = db

abbrev pub settled_with : {A : Type 0} → Db → Outcome (A × Db) → Db
settled_with db (ok (a, db')) = db'
settled_with db (err x) = db

unfoldable pub step : Request → Db → Db
step r db = elim r.call [
  | creates body ↦ settled_with db (create r.env body r.actor db)
  | scans k body ↦ settled_with db (scan r.env k body r.actor db)
  | closes k ↦ settled_with db (close r.env k r.actor db)
  | cancels k ↦ settled_with db (cancel r.env k r.actor db)
  | removes k ↦ settled db (remove r.env k r.actor db)
]

unfoldable pub run : List Request → Db → Db
unfolding step
run [] db = db
run (r ∷ rs) db = run rs (step r db)
