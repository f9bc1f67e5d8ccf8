-- ===== src/Lifecycle/Outcomes.antt =====
-- What a handover and a return do to the asset, and to nothing else.
pub mod Lots
use asset_it.Prelude.{ℕ, ◌≡◌, ◌≢◌, refl, sym, ap, ◌∙◌, Option, none, some, ok, arith}
use asset_it.Store.Enums.{StatusCode}
use asset_it.Store.Rows.{Actor, Asset, Assignment}
use asset_it.Store.Tables.{Env, Db, open_assignment, reference}
use asset_it.Lifecycle.Guards.{assert_operator}
use asset_it.Lifecycle.Issue.{AssignAsset, Terms, assign, issue_terms, handed_over, number_prefix}
use asset_it.Lifecycle.Custody.{Custody}
use asset_it.Lifecycle.Custody.Issuing.{issue-Issued, assign-issue}
use asset_it.Prelude.{find, true}
use asset_it.Store.Rows.{AssetReturn}
use asset_it.Store.Tables.{open_for}
use asset_it.Lifecycle.Rules.{is_assigned, outcome_status}
use asset_it.Lifecycle.Recall.{ReturnAsset, return_asset, taken_back}
use asset_it.Lifecycle.Custody.Closing.{closed_self}
use asset_it.Lifecycle.Custody.Returning.{chosen, return_asset-writes, write_return-Returned}

-- The asset was ready and free, and is in the hands of the recipient under a new open assignment.
pub record HandedOver (k : ℕ) (row : Assignment) (terms : Terms) (db db' : Db) (a b : Asset)
    : Type 0 where
  pub before : db.asset k ≡ some a
  pub was_ready : a.status ≡ StatusCode.ready
  pub was_free : a.current_custodian_id ≡ none
  pub was_closed : open_assignment db k ≡ none
  pub after : db'.asset k ≡ some b
  pub holder : b.current_custodian_id ≡ some terms.person.id
  pub place : b.location_id ≡ some terms.location.id
  pub unstocked : b.warehouse_id ≡ none
  pub opened : open_assignment db' k ≡ some row
  pub others : (j : ℕ) → j ≢ k → db'.asset j ≡ db.asset j

-- From tables that satisfy the custody invariant, a handover that succeeds was made by an operator
-- on valid terms; the asset was READY with neither holder nor open assignment; now its holder is the
-- recipient, its place the chosen location, it is in no warehouse, the new assignment is its open
-- one, and no other asset has changed.
pub assign-hands-over :
    (env : Env) (k : ℕ) (body : AssignAsset) (actor : Actor) (db db' : Db) (row : Assignment)
    → Custody db
    → assign env k body actor db ≡ ok (row, db')
    → (assert_operator actor ≡ ok tt)
      × (terms : Terms) × (issue_terms env body actor ≡ ok terms)
      × (a : Asset) × (b : Asset) × HandedOver k row terms db db' a b
assign-hands-over env k body actor db db' row c e =
    let (a, terms, found, kept, operator, agreed, run) =
      assign-issue env k body actor db db' row e in
    let keyed : a.id ≡ k = (c.agrees k a found).keyed in
    let (target, i, is_row, goes) =
      issue-Issued env a terms body actor (reference env (number_prefix body.type)) none db db' row
        (ap db.asset keyed ∙ found) run in
    (
      operator,
      terms,
      agreed,
      a,
      handed_over target terms a,
      record {
        before = found;
        was_ready = i.was_ready;
        was_free = i.was_free;
        was_closed = sym (ap (open_assignment db) keyed) ∙ i.was_closed;
        after = ap (λ (f : ℕ → Option Asset). f k) i.asset ∙ ground (arith, keyed);
        holder = refl;
        place = refl;
        unstocked = refl;
        opened = ground (arith, i.assignments, is_row, keyed);
        others = λ j away. ap (λ (f : ℕ → Option Asset). f j) i.asset ∙ ground (arith, keyed);
      },
    )

-- The asset was handed out, and is back with no holder and no open assignment.
pub record TakenBack (k : ℕ) (target : StatusCode) (db db' : Db) (a b : Asset) (o : Assignment)
    : Type 0 where
  pub before : db.asset k ≡ some a
  pub was_assigned : is_assigned a.status ≡ true
  pub was_open : open_assignment db k ≡ some o
  pub after : db'.asset k ≡ some b
  pub status : b.status ≡ target
  pub holder : b.current_custodian_id ≡ none
  pub user : b.assigned_user_id ≡ none
  pub closed : open_assignment db' k ≡ none
  pub others : (j : ℕ) → j ≢ k → db'.asset j ≡ db.asset j

-- From tables that satisfy the custody invariant, a return that succeeds closes the open assignment
-- of the asset, which was handed out; the asset has the status of the outcome, no holder and no
-- user, and no other asset has changed.
pub return_asset-takes-back :
    (env : Env) (k : ℕ) (body : ReturnAsset) (actor : Actor) (db db' : Db) (row : AssetReturn)
    → Custody db
    → return_asset env k body actor db ≡ ok (row, db')
    → (a : Asset) × (b : Asset) × (o : Assignment) × TakenBack k
        (outcome_status body.outcome)
        db
        db'
        a
        b
        o
return_asset-takes-back env k body actor db db' row c e =
    let (a, o, l, x, here, held, _, was, run) = return_asset-writes env k body actor db db' row e in
    let w = chosen env body in
    let r =
      write_return-Returned env k a o w l (outcome_status body.outcome) body actor db db' row here
        run in
    (
      a,
      taken_back (outcome_status body.outcome) l w a,
      o,
      record {
        before = here;
        was_assigned = was;
        was_open = held;
        after = ap (λ (f : ℕ → Option Asset). f k) r.asset ∙ ground arith;
        status = refl;
        holder = refl;
        user = refl;
        closed =
            ap (find (open_for k)) r.assignments
            ∙ closed_self o env.now k db.next_id db.assignments c.assignments_fresh c.one_assignment
                held;
        others = λ j away. ap (λ (f : ℕ → Option Asset). f j) r.asset ∙ ground arith;
      },
    )
