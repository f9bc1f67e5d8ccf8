-- ===== src/Disposals/Outcomes.antt =====
-- What the requests that take, give back and retire assets do to each asset of the case.
use asset_it.Prelude.{ℕ, ◌≡◌, ◌∙◌, ap, Option, some, ok, In, true, false, length, ltb, Text}
use asset_it.Store.Enums.{StatusCode}
use asset_it.Store.Rows.{Actor, Asset}
use asset_it.Store.DisposalRows.{DisposalItem, DisposalCase, DisposalStatus}
use asset_it.Store.Tables.{Env, Db}
use asset_it.Disposals.Guards.{has_asset, held_elsewhere}
use asset_it.Disposals.Drafting.{submit}
use asset_it.Disposals.Approval.{reject}
use asset_it.Disposals.Execution.{CompleteDisposal, complete}
use asset_it.Disposals.Loops.{
  Held, hold_items-Rewrites, hold_items-free, Restored, restore_assets-Rewrites, Retired,
  retire_items-Rewrites, Rewrites,
}
use asset_it.Disposals.Effects.{submit-writes, reject-writes}
use asset_it.Disposals.Settling.{complete-writes}

-- Each asset of the case stands in `P` to an item of it, and no other asset is written.
pub record Treats (P : DisposalItem → Asset → Type 0) (c : DisposalCase) (db db' : Db)
    : Type 0 where
  pub listed :
      (j : ℕ)
      → has_asset j c.items ≡ true
      → (i : DisposalItem) × In i c.items
        × (i.asset_id ≡ j)
        × (b : Asset) × (db'.asset j ≡ some b)
        × P i b
  pub others : (j : ℕ) → has_asset j c.items ≡ false → db'.asset j ≡ db.asset j

Treats-loop :
    (P : DisposalItem → Asset → Type 0) (c : DisposalCase) (db db₁ db' : Db)
    → Rewrites P c.items db db₁
    → db'.asset ≡ db₁.asset
    → Treats P c db db'
Treats-loop P c db db₁ db' r same =
    let at = λ (j : ℕ). ap (λ (f : ℕ → Option Asset). f j) same in
    record {
      listed = λ j h. let (i, m, of, b, there, p) = r.inside j h in (i, m, of, b, at j ∙ there, p);
      others = λ j out. at j ∙ r.outside j out;
    }

-- A case that is submitted was a draft with items, none of which another active case held, and
-- afterwards each asset of it is RESERVED and no other asset is touched.
pub submit-reserves :
    (env : Env) (id : ℕ) (actor : Actor) (db db' : Db)
    → submit env id actor db ≡ ok db'
    → (c : DisposalCase) × (db.cases id ≡ some c)
      × (c.status ≡ DisposalStatus.draft)
      × (ltb (length c.items) 1 ≡ false)
      × ((j : ℕ) → has_asset j c.items ≡ true → held_elsewhere db id j ≡ false)
      × Treats (Held StatusCode.reserved) c db db'
submit-reserves env id actor db db' e =
    let (c, db₁, here, was, some_items, looped, is) = submit-writes env id actor db db' e in
    (
      c,
      here,
      was,
      some_items,
      hold_items-free db id StatusCode.reserved c.items db db₁ looped,
      Treats-loop (Held StatusCode.reserved) c db db₁ db'
          (hold_items-Rewrites db id StatusCode.reserved c.items db db₁ looped)
          (ap (λ (d : Db). d.asset) is),
    )

-- A rejection by an administrator other than the requester gives each asset of the case the status
-- that an item's snapshot recorded, and touches no other asset.
pub reject-restores :
    (env : Env) (id : ℕ) (note : Text) (actor : Actor) (db db' : Db)
    → reject env id note actor db ≡ ok db'
    → (c : DisposalCase) × (db.cases id ≡ some c)
      × (c.status ≡ DisposalStatus.submitted)
      × Treats Restored c db db'
reject-restores env id note actor db db' e =
    let (c, db₁, here, boss, was, other, looped, is) = reject-writes env id note actor db db' e in
    (
      c,
      here,
      was,
      Treats-loop Restored c db db₁ db' (restore_assets-Rewrites env db c.items db db₁ looped)
          (ap (λ (d : Db). d.asset) is),
    )

-- A completion leaves each asset of the case DISPOSED, with no holder, no user, no warehouse and no
-- location, and touches no other asset.
pub complete-retires :
    (env : Env) (id : ℕ) (body : CompleteDisposal) (actor : Actor) (db db' : Db)
    → complete env id body actor db ≡ ok db'
    → (c : DisposalCase) × (db.cases id ≡ some c)
      × (c.status ≡ DisposalStatus.in_execution)
      × Treats (Retired StatusCode.disposed) c db db'
complete-retires env id body actor db db' e =
    let (c, db₁, here, was, some_evidence, clean, documented, looped, cases, next, assets) =
      complete-writes env id body actor db db' e in
    (
      c,
      here,
      was,
      Treats-loop (Retired StatusCode.disposed) c db db₁ db'
          (retire_items-Rewrites db c body.note actor StatusCode.disposed c.items db db₁ looped)
          assets,
    )
