-- ===== src/Lifecycle/Diagram/Stories.antt =====
-- The story of an asset: the requests of a history and what each did to its status.
use asset_it.Prelude.{ℕ, ◌≡◌, some, List, [], ◌∷◌}
use asset_it.Store.Rows.{Asset}
use asset_it.Store.Tables.{Db}
use asset_it.Lifecycle.Calls.{Request, step}
use asset_it.Lifecycle.Custody.{Custody}
use asset_it.Lifecycle.Diagram.Requests.{Arrow}

-- The tables before and after each request of a history, with the arrow of the asset `j` between.
pub data Story (j : ℕ) : List Request → Db → Type 0 where
  over : (db : Db) → Story j [] db
  goes :
      (r : Request) (rs : List Request) (db : Db) (a b : Asset)
      → db.asset j ≡ some a
      → (step r.env r.actor r.call db).asset j ≡ some b
      → Arrow db j r.call a.status b.status
      → Story j rs (step r.env r.actor r.call db)
      → Story j (r ∷ rs) db
