-- ===== src/Disposals/Calls.antt =====
-- The requests of apps/api/src/modules/disposals/disposals.controller.ts that write, and what a
-- history of them does: a request that throws leaves the tables as they were.
use asset_it.Prelude.{ℕ, ◌≡◌, refl, List, [], ◌∷◌, Text, ok, err, Bool, true, false}
use asset_it.Store.Rows.{Actor}
use asset_it.Store.Exceptions.{Outcome}
use asset_it.Store.Tables.{Env, Db}
use asset_it.Disposals.Drafting.{CreateDisposal, create, submit}
use asset_it.Disposals.Approval.{approve, reject, start, cancel}
use asset_it.Disposals.Execution.{
  AddEvidence, add_evidence, UpdateSanitization, update_sanitization, CompleteDisposal, complete,
}
use asset_it.Disposals.Removal.{remove}

pub data Call : Type 0 where
  creates : CreateDisposal → Call
  submits : ℕ → Call
  approves rejects starts cancels : ℕ → Text → Call
  adds_evidence : ℕ → AddEvidence → Call
  sanitizes : ℕ → ℕ → UpdateSanitization → Call
  completes : ℕ → CompleteDisposal → Call
  removes : ℕ → Call

pub record Request : Type 0 where
  pub env : Env
  pub actor : Actor
  pub call : Call

abbrev pub settled : Db → Outcome Db → Db
settled db (ok db') = db'
settled db (err x) = db

abbrev pub settled_with : {A : Type 0} → Db → Outcome (A × Db) → Db
settled_with db (ok (a, db')) = db'
settled_with db (err x) = db

unfoldable pub step : Env → Actor → Call → Db → Db
step env actor (creates body) db = settled_with db (create env body actor db)
step env actor (submits k) db = settled db (submit env k actor db)
step env actor (approves k note) db = settled db (approve env k note actor db)
step env actor (rejects k note) db = settled db (reject env k note actor db)
step env actor (starts k note) db = settled db (start env k note actor db)
step env actor (cancels k note) db = settled db (cancel env k note actor db)
step env actor (adds_evidence k body) db = settled_with db (add_evidence k body actor db)
step env actor (sanitizes k i body) db = settled db (update_sanitization env k i body actor db)
step env actor (completes k body) db = settled db (complete env k body actor db)
step env actor (removes k) db = settled db (remove env k actor db)

unfoldable pub run : List Request → Db → Db
unfolding step
run [] db = db
run (r ∷ rs) db = run rs (step r.env r.actor r.call db)

abbrev pub is_removal : Request → Bool
is_removal r = elim r.call [ removes k ↦ true | _ ↦ false ]

pub settled_lem :
    (P : Db → Type 0) (db : Db) (m : Outcome Db)
    → P db
    → ((db' : Db) → m ≡ ok db' → P db')
    → P (settled db m)
settled_lem P db (ok db') p f = f db' refl
settled_lem P db (err x) p f = p

pub settled_with_lem :
    {A : Type 0} (P : Db → Type 0) (db : Db) (m : Outcome (A × Db))
    → P db
    → ((a : A) (db' : Db) → m ≡ ok (a, db') → P db')
    → P (settled_with db m)
settled_with_lem P db (ok (a, db')) p f = f a db' refl
settled_with_lem P db (err x) p f = p
