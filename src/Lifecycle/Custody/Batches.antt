-- ===== src/Lifecycle/Custody/Batches.antt =====
-- `assignMany`: what the loop does to the tables, and that it keeps the custody invariant.
use asset_it.Prelude.{
  ℕ, suc, ◌+◌, ◌≡◌, refl, true, false, Option, some, none, List, [], ◌∷◌, Text, ok, All, length,
  distinct, includes, Option-cases, Result-cases, subst, >>=-eq-ok, inl, inr, ◌∙◌, ap, arith,
}
use asset_it.Store.Rows.{Actor, Asset, Assignment}
use asset_it.Store.Tables.{Env, Db, reference, put_asset}
use asset_it.Lifecycle.Rules.{bulk_assignment_blockers}
use asset_it.Lifecycle.Issue.{AssignAsset, Terms, Batch, issue, issue_terms, number_prefix}
use asset_it.Lifecycle.Batch.{
  gather, candidates, present, missing, is_blocked, issue_all, assign_many,
}
use asset_it.Lifecycle.Custody.Issuing.{issue-Issued, issue-Custody}
use asset_it.Lifecycle.Custody.{Custody}

-- The rows that were read still stand in the table.
abbrev pub Standing : Db → List Asset → Type 0
Standing db = All (λ (a : Asset). db.asset a.id ≡ some a)

abbrev pub ids : List Asset → List ℕ
ids [] = []
ids (a ∷ rest) = a.id ∷ ids rest

length-ids : (assets : List Asset) → length assets ≡ length (ids assets)
length-ids [] = refl
length-ids (a ∷ rest) = ap suc (length-ids rest)

pub Standing-put :
    (db db' : Db) (a a' : Asset) (rest : List Asset)
    → db'.asset ≡ put_asset db.asset a.id a'
    → includes a.id (ids rest) ≡ false
    → Standing db rest
    → Standing db' rest
Standing-put db db' a a' [] changed apart s = tt
Standing-put db db' a a' (b ∷ rest) changed apart s = (
  ground (arith, ap (λ (f : ℕ → Option Asset). f b.id) changed),
  Standing-put db db' a a' rest changed (ground arith) s.1,
)

-- The loop keeps the custody invariant.
pub issue_all-Custody :
    (env : Env) (terms : Terms) (body : AssignAsset) (actor : Actor) (batch : Batch) (n : ℕ)
    (assets : List Asset) (db db' : Db) (rows : List Assignment)
    → distinct (ids assets) ≡ true
    → Standing db assets
    → Custody db
    → issue_all env terms body actor batch n assets db ≡ ok (rows, db')
    → Custody db' × (length rows ≡ length assets)
unfolding issue_all
issue_all-Custody env terms body actor batch n [] db db' rows apart s c e =
    let same : db ≡ db' = ground arith in (subst Custody same c, ground arith)
issue_all-Custody env terms body actor batch n (a ∷ rest) db db' rows apart s c e =
    let (p, run, more) = >>=-eq-ok (issue env a terms body actor _ (some batch) db) _ e in
    let (q, others, last) =
      >>=-eq-ok (issue_all env terms body actor batch (n + 1) rest p.1) _ more in
    let (target, i, is_row, is_target) =
      issue-Issued env a terms body actor _ (some batch) db p.1 p.0 s.0 run in
    let (kept, count) =
      issue_all-Custody env terms body actor batch (n + 1) rest p.1 q.1 q.0 (ground arith)
        (Standing-put db p.1 a _ rest i.asset (ground arith) s.1)
        (issue-Custody env a terms body actor _ (some batch) db p.1 p.0 s.0 c run) others in
    let same : q.1 ≡ db' = ground arith in (subst Custody same kept, ground (arith, count))

pub ids-gather :
    (db : Db) (ks : List ℕ)
    → ((k : ℕ) (a : Asset) → db.asset k ≡ some a → a.id ≡ k)
    → length (missing db ks) ≡ 0
    → ids (gather db ks) ≡ ks
unfolding gather
ids-gather db [] keyed none_missing = refl
ids-gather db (k ∷ ks) keyed none_missing = elim (Option-cases (db.asset k)) [
  | inl absent ↦ absurd (ground arith)
  | inr (a, found) ↦ ground (arith, keyed k a found, ids-gather db ks keyed)
]

gather_absent :
    (db : Db) (k : ℕ) (ks : List ℕ) → present db k ≡ none → gather db (k ∷ ks) ≡ gather db ks
unfolding gather
gather_absent db k ks e = rw (e, gather)

gather-present :
    (db : Db) (k : ℕ) (ks : List ℕ) (a : Asset)
    → present db k ≡ some a
    → gather db (k ∷ ks) ≡ a ∷ gather db ks
unfolding gather
gather-present db k ks a e = rw (e, gather)

pub present-asset : (db : Db) (k : ℕ) (a : Asset) → present db k ≡ some a → db.asset k ≡ some a
present-asset db k a e = ground arith

pub Standing-gather :
    (db : Db) (ks : List ℕ)
    → ((k : ℕ) (a : Asset) → db.asset k ≡ some a → a.id ≡ k)
    → Standing db (gather db ks)
unfolding gather
Standing-gather db [] keyed = tt
Standing-gather db (k ∷ ks) keyed = elim (Option-cases (present db k)) [
  | inl absent ↦ rw (gather_absent db k ks absent) (Standing-gather db ks keyed)
  | inr (a, there) ↦
      let found : db.asset k ≡ some a = present-asset db k a there in
      rw (gather-present db k ks a there)
        (ap db.asset (keyed k a found) ∙ found, Standing-gather db ks keyed)
]

pub assign_many-loop :
    (env : Env) (ks : List ℕ) (body : AssignAsset) (actor : Actor) (db db' : Db) (number : Text)
    (rows : List Assignment)
    → assign_many env ks body actor db ≡ ok (number, rows, db')
    → (terms : Terms) × (issue_terms env body actor ≡ ok terms)
      × (length (missing db ks) ≡ 0)
      × (is_blocked (bulk_assignment_blockers (candidates (gather db ks))) ≡ false)
      × (issue_all env terms body actor
            (record {
              batch_no = reference env (number_prefix body.type);
              size = length (gather db ks);
            })
            1
            (gather db ks)
            db
          ≡ ok (rows, db'))
unfolding assign_many
assign_many-loop env ks body actor db db' number rows e =
    elim (Result-cases (issue_terms env body actor)) [
      | inr (x, bad) ↦ absurd (ground arith)
      | inl (terms, t) ↦ (terms, t, ground arith, ground arith, ground arith)
    ]

-- A batch handover of distinct assets that succeeds keeps the custody invariant, and issues as many
-- assignments as assets are listed.
pub assign_many-Custody :
    (env : Env) (ks : List ℕ) (body : AssignAsset) (actor : Actor) (db db' : Db) (number : Text)
    (rows : List Assignment)
    → Custody db
    → distinct ks ≡ true
    → assign_many env ks body actor db ≡ ok (number, rows, db')
    → Custody db' × (length rows ≡ length ks)
assign_many-Custody env ks body actor db db' number rows c apart e =
    let (terms, _, all_there, _, run) = assign_many-loop env ks body actor db db' number rows e in
    let keyed = λ (k : ℕ) (a : Asset) (found : db.asset k ≡ some a). (c.agrees k a found).keyed in
    let same : ids (gather db ks) ≡ ks = ids-gather db ks keyed all_there in
    let (kept, count) =
      issue_all-Custody env terms body actor _ 1 (gather db ks) db db' rows (rw same apart)
        (Standing-gather db ks keyed) c run in
    (kept, count ∙ (length-ids (gather db ks) ∙ ap length same))
