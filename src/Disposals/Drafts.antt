-- ===== src/Disposals/Drafts.antt =====
-- What `create` puts into the table of cases, and what `remove` takes out of it.
use asset_it.Prelude.{
  ℕ, suc, ◌+◌, ◌≤◌, ◌<◌, false, ◌==◌, ◌≡◌, refl, ◌∙◌, subst, none, some, List, [], ◌∷◌, ok, any,
  inl, inr, if◌then◌else◌, Result-cases, Option-cases, >>=-eq-ok, arith,
}
use asset_it.Store.Rows.{Actor, Asset}
use asset_it.Store.DisposalRows.{DisposalStatus, DisposalItem, DisposalCase}
use asset_it.Store.Tables.{Env, Db, update_asset}
use asset_it.Lifecycle.Batch.{present}
use asset_it.Disposals.Guards.{put_case, has_asset, item_asset}
use asset_it.Disposals.Drafting.{CreateItem, CreateDisposal, make_items, draft_case, create}
use asset_it.Disposals.Removal.{Released, release_item, release_items, remove}
use asset_it.Disposals.Soundness.{SoundCase, Ascends, is_waived}

module _ (env : Env) (db : Db) where
  make_items-Ascends :
      (m n : ℕ) (items : List CreateItem) → m ≤ n → Ascends m (make_items env db n items)
  unfolding make_items
  make_items-Ascends m n [] le = tt
  make_items-Ascends m n (i ∷ rest) le = elim (Option-cases (present db i.asset_id)) [
    | inl gone ↦ rw (gone, make_items) (make_items-Ascends m n rest le)
    | inr (a, here) ↦
        rw (here, make_items) (le, make_items-Ascends (suc n) (n + 1) rest (omega arith))
  ]

  make_items-unwaived :
      (n : ℕ) (items : List CreateItem) → any is_waived (make_items env db n items) ≡ false
  unfolding make_items
  make_items-unwaived n [] = refl
  make_items-unwaived n (i ∷ rest) =
      ground (arith, make_items-unwaived n rest, make_items-unwaived (n + 1) rest)

  draft-SoundCase :
      (body : CreateDisposal) (actor : Actor) → SoundCase (draft_case env db body actor)
  draft-SoundCase body actor = record {
    separated = λ h. absurd (ground arith);
    documented = λ h. absurd (ground arith);
    unwaived = make_items-unwaived (db.next_id + 1) body.items;
    numbered = make_items-Ascends 0 (db.next_id + 1) body.items (omega arith);
  }

pub record Drafted (db db' : Db) (row : DisposalCase) : Type 0 where
  pub draft : row.status ≡ DisposalStatus.draft
  pub sound : SoundCase row
  pub there : db'.cases ≡ put_case db.cases db.next_id row
  pub grows : db.next_id < db'.next_id
  pub same : db'.asset ≡ db.asset

pub create-Drafted :
    (env : Env) (body : CreateDisposal) (actor : Actor) (db db' : Db) (row : DisposalCase)
    → create env body actor db ≡ ok (row, db')
    → Drafted db db' row
unfolding create
create-Drafted env body actor db db' row e =
    let is : draft_case env db body actor ≡ row = ground arith in
    record {
      draft = ground arith;
      sound = subst SoundCase is (draft-SoundCase env db body actor);
      there = ground arith;
      grows = ground arith;
      same = ground arith;
    }

-- What the deletion of a case does: the case is gone, and only assets of its items are written.
pub record Erased (db db' : Db) (id : ℕ) (c : DisposalCase) : Type 0 where
  pub here : db.cases id ≡ some c
  pub gone : db'.cases ≡ (λ j. if j == id then none else db.cases j)
  pub next : db'.next_id ≡ db.next_id
  pub outside : (j : ℕ) → has_asset j c.items ≡ false → db'.asset j ≡ db.asset j

record Leaves (items : List DisposalItem) (db db' : Db) : Type 0 where
  same_cases : db'.cases ≡ db.cases
  same_next : db'.next_id ≡ db.next_id
  outside : (j : ℕ) → has_asset j items ≡ false → db'.asset j ≡ db.asset j

release_item-Leaves :
    (env : Env) (c : DisposalCase) (actor : Actor) (i : DisposalItem) (a : Asset) (db db' : Db)
    (entry : Released)
    → release_item env c actor i a db ≡ ok (entry, db')
    → Leaves (i ∷ []) db db'
unfolding release_item update_asset
release_item-Leaves env c actor i a db db' entry e = record {
  same_cases = ground arith;
  same_next = ground arith;
  outside = λ j out. ground arith;
}

release_items-Leaves :
    (env : Env) (begin : Db) (c : DisposalCase) (actor : Actor) (items : List DisposalItem)
    (db db' : Db) (entries : Released)
    → release_items env begin c actor items db ≡ ok (entries, db')
    → Leaves items db db'
unfolding release_items
release_items-Leaves env begin c actor [] db db' entries e = record {
  same_cases = ground arith;
  same_next = ground arith;
  outside = λ j out. ground arith;
}
release_items-Leaves env begin c actor (i ∷ rest) db db' entries e =
    let (a, found, e₁) = >>=-eq-ok (item_asset begin i) _ e in
    let (p, one, e₂) = >>=-eq-ok (release_item env c actor i a db) _ e₁ in
    let (q, others, last) = >>=-eq-ok (release_items env begin c actor rest p.1) _ e₂ in
    let first = release_item-Leaves env c actor i a db p.1 p.0 one in
    let after = release_items-Leaves env begin c actor rest p.1 q.1 q.0 others in
    let is : q.1 ≡ db' = ground arith in
    subst (Leaves (i ∷ rest) db) is (record {
      same_cases = after.same_cases ∙ first.same_cases;
      same_next = after.same_next ∙ first.same_next;
      outside = λ j out. after.outside j (ground arith) ∙ first.outside j (ground arith);
    })

pub remove-Erased :
    (env : Env) (id : ℕ) (actor : Actor) (db db' : Db)
    → remove env id actor db ≡ ok db'
    → (c : DisposalCase) × Erased db db' id c
unfolding remove
remove-Erased env id actor db db' e = elim (Option-cases (db.cases id)) [
  | inl none_there ↦ absurd (ground arith)
  | inr (c, here) ↦ elim (Result-cases (release_items env db c actor c.items db)) [
    | inl ((entries, db₁), looped) ↦
        let l = release_items-Leaves env db c actor c.items db db₁ entries looped in
        let cases = l.same_cases in
        (
          c,
          record {
            here = here;
            gone = ground arith;
            next = ground (arith, l.same_next);
            outside = λ j out. let same = l.outside j out in ground arith;
          },
        )
    | inr (x, failed) ↦ absurd (ground arith)
  ]
]
