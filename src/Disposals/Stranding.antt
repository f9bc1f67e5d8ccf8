-- ===== src/Disposals/Stranding.antt =====
-- The deletion of a case that holds nothing, a draft say, writes the status of its assets all the
-- same.
use asset_it.Prelude.{
  ℕ, ◌≡◌, refl, ◌∙◌, ap, sym, find, some, [], ◌∷◌, ok, true, false, is_some, arith,
}
use asset_it.Store.Enums.{StatusCode, same_status}
use asset_it.Store.Rows.{Actor, Asset, AssetReturn}
use asset_it.Store.DisposalRows.{DisposalItem, DisposalCase}
use asset_it.Store.Tables.{Env, Db, update_asset, open_assignment, open_for}
use asset_it.Lifecycle.Rules.{is_assigned, is_idle}
use asset_it.Lifecycle.Recall.{ReturnAsset, return_asset}
use asset_it.Lifecycle.Custody.{Custody}
use asset_it.Lifecycle.Custody.Returning.{return_asset-writes}
use asset_it.Disposals.Removal.{release_item, release_items, remove}

assigned_idle :
    (s t : StatusCode) → is_assigned s ≡ true → is_idle t ≡ true → same_status s t ≡ false
assigned_idle s t held stock = ground arith

idle_unassigned : (s : StatusCode) → is_idle s ≡ true → is_assigned s ≡ false
idle_unassigned s stock = ground arith

-- What the deletion writes: the status alone.
remove-writes :
    (env : Env) (id : ℕ) (actor : Actor) (db db' : Db) (c : DisposalCase) (i : DisposalItem)
    (a : Asset)
    → db.cases id ≡ some c
    → c.items ≡ i ∷ []
    → db.asset i.asset_id ≡ some a
    → same_status a.status i.asset_snapshot.status_code ≡ false
    → remove env id actor db ≡ ok db'
    → (db'.asset i.asset_id ≡ some (record a { status = i.asset_snapshot.status_code }))
      × (db'.assignments ≡ db.assignments)
unfolding remove release_items release_item update_asset
remove-writes env id actor db db' c i a here only there apart e = (ground arith, ground arith)

-- An asset that is handed out, of a case with this one item whose snapshot has a status of
-- stock: after the deletion of the case the asset has that status with its holder and its open
-- assignment kept, so the custody invariant is broken and no return of the asset succeeds.
pub remove-strands :
    (env : Env) (id : ℕ) (actor : Actor) (db db' : Db) (c : DisposalCase) (i : DisposalItem)
    (a : Asset)
    → Custody db
    → db.cases id ≡ some c
    → c.items ≡ i ∷ []
    → db.asset i.asset_id ≡ some a
    → is_assigned a.status ≡ true
    → is_idle i.asset_snapshot.status_code ≡ true
    → remove env id actor db ≡ ok db'
    → (b : Asset) × (db'.asset i.asset_id ≡ some b)
      × (b.status ≡ i.asset_snapshot.status_code)
      × (b.current_custodian_id ≡ a.current_custodian_id)
      × (open_assignment db' i.asset_id ≡ open_assignment db i.asset_id)
      × (is_some (open_assignment db i.asset_id) ≡ true)
      × (¬ Custody db')
      × ((env' : Env) (body : ReturnAsset) (actor' : Actor) (db'' : Db) (row : AssetReturn)
          → ¬ (return_asset env' i.asset_id body actor' db' ≡ ok (row, db'')))
remove-strands env id actor db db' c i a custody here only there held stock e =
    let (put, ledger) =
      remove-writes env id actor db db' c i a here only there
        (assigned_idle a.status i.asset_snapshot.status_code held stock) e in
    let open_row : open_assignment db' i.asset_id ≡ open_assignment db i.asset_id =
      ap (find (open_for i.asset_id)) ledger in
    let still : is_some (open_assignment db i.asset_id) ≡ true =
      sym (custody.agrees i.asset_id a there).assigned ∙ held in
    let loose : is_assigned i.asset_snapshot.status_code ≡ false =
      idle_unassigned i.asset_snapshot.status_code stock in
    (
      record a { status = i.asset_snapshot.status_code },
      put,
      refl,
      refl,
      open_row,
      still,
      (λ c'.
          let story = (c'.agrees i.asset_id _ put).assigned in
          let open_still = ap is_some open_row ∙ still in ground arith),
      (λ env' body actor' db'' row e'.
          let (b, o, l, x, found, open_, goes, was, run) =
            return_asset-writes env' i.asset_id body actor' db' db'' row e' in
          let same : some b ≡ some (record a { status = i.asset_snapshot.status_code }) =
            sym found ∙ put in
          ground arith),
    )
