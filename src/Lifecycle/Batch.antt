-- ===== src/Lifecycle/Batch.antt =====
-- `assignMany` of `LifecycleService`: one batch to one person, all assets or none.
use asset_it.Prelude.{
  ℕ, ◌+◌, Bool, true, false, not, Option, none, some, List, [], ◌∷◌, ◌++◌, Text, text, decimal, ok,
  throw_if, ◌>>=◌, ◌>>◌, only_if, is_some, length, keep, ltb, if◌then◌else◌,
}
use asset_it.Store.Rows.{Actor, Asset, Assignment}
use asset_it.Store.Exceptions.{
  Outcome, bad_request, not_found, BulkAssignmentBlocker, assets_not_found, batch_blocked,
}
use asset_it.Store.Tables.{Env, Db, reference}
use asset_it.Lifecycle.Rules.{bulk_assignment_blockers, BulkAssignmentCandidate}
use asset_it.Lifecycle.Guards.{assert_operator, on_conflict}
use asset_it.Lifecycle.Issue.{AssignAsset, Terms, Batch, issue_terms, issue, number_prefix}

-- `{ id, deletedAt: null }`
abbrev pub present : Db → ℕ → Option Asset
present db k = only_if (λ (a : Asset). not a.deleted) (db.asset k)

abbrev pub missing : Db → List ℕ → List ℕ
missing db ids = keep (λ k. not (is_some (present db k))) ids

-- The rows of the listed identifiers, in the order of the request.
unfoldable pub gather : Db → List ℕ → List Asset
gather db [] = []
gather db (k ∷ ks) = elim (present db k) [ none ↦ gather db ks | some a ↦ a ∷ gather db ks ]

unfoldable pub candidates : List Asset → List BulkAssignmentCandidate
candidates [] = []
candidates (a ∷ rest) =
    record {
      asset_tag = a.asset_tag;
      status_code = a.status;
      has_custodian = is_some a.current_custodian_id;
    }
    ∷ candidates rest

abbrev pub is_blocked : List BulkAssignmentBlocker → Bool
is_blocked [] = false
is_blocked (b ∷ bs) = true

-- `String(n).padStart(2, '0')`
pub pad_two : ℕ → Text
pad_two n = if ltb n 10 then text "0" ++ decimal n else decimal n

-- The loop over `assets.entries()`; `n` is `index + 1`.
unfoldable pub issue_all :
    Env → Terms → AssignAsset → Actor → Batch → ℕ → List Asset → Db → Outcome (List Assignment × Db)
issue_all env terms body actor batch n [] db = ok ([], db)
issue_all env terms body actor batch n (a ∷ rest) db = do
  (row, db₁) ←
      issue env a terms body actor (batch.batch_no ++ (text "-" ++ pad_two n)) (some batch) db
  (rows, db₂) ← issue_all env terms body actor batch (n + 1) rest db₁
  ok (row ∷ rows, db₂)

unfoldable pub assign_many :
    Env → List ℕ → AssignAsset → Actor → Db → Outcome (Text × List Assignment × Db)
assign_many env asset_ids body actor db = do
  assert_operator actor
  on_conflict do
    throw_if (ltb 0 (length (missing db asset_ids)))
        (not_found (assets_not_found (length (missing db asset_ids))))
    let assets = gather db asset_ids
    terms ← issue_terms env body actor
    let blockers = bulk_assignment_blockers (candidates assets)
    throw_if (is_blocked blockers) (bad_request (batch_blocked blockers))
    let batch_no = reference env (number_prefix body.type)
    (rows, db') ←
        issue_all env terms body actor (record { batch_no = batch_no; size = length assets }) 1
          assets db
    ok (batch_no, rows, db')
