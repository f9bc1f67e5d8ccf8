-- ===== src/Disposals/Steps.antt =====
-- A request on the disposal cases leaves the tables as they were, makes one move of one case, adds a
-- draft, or deletes a case: a property that these four keep is kept by each request.
use asset_it.Prelude.{ℕ, ◌≡◌, refl}
use asset_it.Store.Rows.{Actor}
use asset_it.Store.DisposalRows.{DisposalCase}
use asset_it.Store.Tables.{Env, Db}
use asset_it.Disposals.Drafting.{create, submit}
use asset_it.Disposals.Approval.{approve, reject, start, cancel}
use asset_it.Disposals.Execution.{add_evidence, update_sanitization, complete}
use asset_it.Disposals.Removal.{remove}
use asset_it.Disposals.Effects.{
  Moved, Moves, submit-Moves, approve-Moves, reject-Moves, start-Moves,
}
use asset_it.Disposals.Settling.{
  add_evidence-Moves, update_sanitization-Moves, complete-Moves, cancel-Moves,
}
use asset_it.Disposals.Drafts.{Drafted, create-Drafted, Erased, remove-Erased}
use asset_it.Disposals.Calls.{
  Call, creates, submits, approves, rejects, starts, cancels, adds_evidence, sanitizes, completes,
  removes, step, settled_lem, settled_with_lem,
}

module _ (P : Db → Type 0) (db : Db) (p : P db)
    (moves : (db' : Db) (id : ℕ) (c c' : DisposalCase) → Moved db db' id c c' → P db')
    (drafts : (db' : Db) (row : DisposalCase) → Drafted db db' row → P db') (env : Env)
    (actor : Actor) where
  made : (db' : Db) (id : ℕ) → Moves db db' id → P db'
  made db' id m = let (c, c', moved) = m in moves db' id c c' moved

  pub step-keeps :
      (call : Call)
      → ((id : ℕ) → call ≡ removes id → (db' : Db) (c : DisposalCase) → Erased db db' id c → P db')
      → P (step env actor call db)
  unfolding step
  step-keeps (creates body) erases =
      settled_with_lem P db (create env body actor db) p
        (λ row db' e. drafts db' row (create-Drafted env body actor db db' row e))
  step-keeps (submits k) erases =
      settled_lem P db (submit env k actor db) p
        (λ db' e. made db' k (submit-Moves env k actor db db' e))
  step-keeps (approves k note) erases =
      settled_lem P db (approve env k note actor db) p
        (λ db' e. made db' k (approve-Moves env k note actor db db' e))
  step-keeps (rejects k note) erases =
      settled_lem P db (reject env k note actor db) p
        (λ db' e. made db' k (reject-Moves env k note actor db db' e))
  step-keeps (starts k note) erases =
      settled_lem P db (start env k note actor db) p
        (λ db' e. made db' k (start-Moves env k note actor db db' e))
  step-keeps (cancels k note) erases =
      settled_lem P db (cancel env k note actor db) p
        (λ db' e. made db' k (cancel-Moves env k note actor db db' e))
  step-keeps (adds_evidence k body) erases =
      settled_with_lem P db (add_evidence k body actor db) p
        (λ row db' e. made db' k (add_evidence-Moves k body actor db db' row e))
  step-keeps (sanitizes k i body) erases =
      settled_lem P db (update_sanitization env k i body actor db) p
        (λ db' e. made db' k (update_sanitization-Moves env k i body actor db db' e))
  step-keeps (completes k body) erases =
      settled_lem P db (complete env k body actor db) p
        (λ db' e. made db' k (complete-Moves env k body actor db db' e))
  step-keeps (removes k) erases =
      settled_lem P db (remove env k actor db) p
        (λ db' e. let (c, x) = remove-Erased env k actor db db' e in erases k refl db' c x)
