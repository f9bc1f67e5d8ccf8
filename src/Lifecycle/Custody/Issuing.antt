-- ===== src/Lifecycle/Custody/Issuing.antt =====
-- What a successful `issue` has done to the tables, and that it keeps the custody invariant.
use asset_it.Prelude.{ℕ, suc, ◌≡◌, false, Option, none, some, ◌∷◌, Text, ok, arith}
use asset_it.Store.Enums.{StatusCode}
use asset_it.Store.Rows.{Actor, Asset, Assignment}
use asset_it.Store.Tables.{
  Env, Db, reference, put_asset, open_assignment, create_assignment, update_asset,
}
use asset_it.Lifecycle.Rules.{assignment_target}
use asset_it.Lifecycle.Guards.{assert_operator}
use asset_it.Lifecycle.Issue.{
  AssignAsset, Terms, Batch, issue_terms, issue, assign, number_prefix, handed_over, assignment_row,
}
use asset_it.Store.Ledger.{Below-mono}
use asset_it.Lifecycle.Custody.Reading.{record_id, record_asset, record_open}
use asset_it.Lifecycle.Custody.{Custody, Custody-put}

-- The tables after `issue` on asset `a`, which read `db`.
pub record Issued (db db' : Db) (a : Asset) (target : StatusCode) (terms : Terms) (row : Assignment)
    : Type 0 where
  pub was_ready : a.status ≡ StatusCode.ready
  pub was_free : a.current_custodian_id ≡ none
  pub was_closed : open_assignment db a.id ≡ none
  pub assignments : db'.assignments ≡ row ∷ db.assignments
  pub maintenance : db'.maintenance ≡ db.maintenance
  pub asset : db'.asset ≡ put_asset db.asset a.id (handed_over target terms a)
  pub cases : db'.cases ≡ db.cases
  pub next_id : db'.next_id ≡ suc db.next_id

pub issue-Issued :
    (env : Env) (a : Asset) (terms : Terms) (body : AssignAsset) (actor : Actor) (number : Text)
    (batch : Option Batch) (db db' : Db) (row : Assignment)
    → db.asset a.id ≡ some a
    → issue env a terms body actor number batch db ≡ ok (row, db')
    → (target : StatusCode) × Issued db db' a target terms row
      × (row ≡ assignment_row db a terms body actor number)
      × (assignment_target a.status body.type ≡ ok target)
unfolding issue assignment_target create_assignment update_asset
issue-Issued env a terms body actor number batch db db' row here e = ground arith

module _ (env : Env) (a : Asset) (terms : Terms) (body : AssignAsset) (actor : Actor)
    (number : Text) (batch : Option Batch) (db db' : Db) (row : Assignment) where
  Issued-Custody :
      (target : StatusCode)
      → db.asset a.id ≡ some a
      → Custody db
      → Issued db db' a target terms row
      → row ≡ assignment_row db a terms body actor number
      → assignment_target a.status body.type ≡ ok target
      → Custody db'
  unfolding assignment_target
  Issued-Custody target here c i is_row is_target =
      Custody-put db db' a.id (handed_over target terms a) c i.asset
        (rw (i.assignments, i.next_id, is_row) (omega arith, c.assignments_fresh))
        (rw (i.maintenance, i.next_id)
          (Below-mono record_id record_asset record_open db.next_id (suc db.next_id) db.maintenance
            (omega arith) c.maintenance_fresh))
        (rw (i.assignments, is_row) ((λ _. i.was_closed), c.one_assignment))
        (rw i.maintenance c.one_record) (λ j away. ground (arith, i.assignments, is_row))
        (λ j away. rw i.maintenance)
        (ground (arith, i.assignments, i.maintenance, is_row, is_target, c.agrees a.id a here))

  pub issue-Custody :
      db.asset a.id ≡ some a
      → Custody db
      → issue env a terms body actor number batch db ≡ ok (row, db')
      → Custody db'
  issue-Custody here c e =
      let (target, i, is_row, is_target) =
        issue-Issued env a terms body actor number batch db db' row here e in
      Issued-Custody target here c i is_row is_target

pub assign-issue :
    (env : Env) (k : ℕ) (body : AssignAsset) (actor : Actor) (db db' : Db) (row : Assignment)
    → assign env k body actor db ≡ ok (row, db')
    → (a : Asset) × (terms : Terms) × (db.asset k ≡ some a)
      × (a.deleted ≡ false)
      × (assert_operator actor ≡ ok tt)
      × (issue_terms env body actor ≡ ok terms)
      × (issue env a terms body actor (reference env (number_prefix body.type)) none db
          ≡ ok (row, db'))
unfolding assign
assign-issue env k body actor db db' row e = ground arith

-- Handing one asset over keeps the custody invariant.
pub assign-Custody :
    (env : Env) (k : ℕ) (body : AssignAsset) (actor : Actor) (db db' : Db) (row : Assignment)
    → Custody db
    → assign env k body actor db ≡ ok (row, db')
    → Custody db'
assign-Custody env k body actor db db' row c e =
    let (a, terms, found, _, _, _, run) = assign-issue env k body actor db db' row e in
    issue-Custody env a terms body actor _ none db db' row (rw (c.agrees k a found).keyed found) c
      run
