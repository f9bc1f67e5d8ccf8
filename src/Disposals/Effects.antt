-- ===== src/Disposals/Effects.antt =====
-- What each handler of `DisposalsService` does to a case that is there: the case makes a move, and
-- what happens to the assets of its items.
use asset_it.Prelude.{
  ℕ, true, false, ◌==◌, ◌≤◌, ◌≡◌, refl, ◌∙◌, ap, ◌⊎◌, inl, inr, Option, some, Text, ok, length,
  Result-cases, Option-cases, ltb, arith,
}
use asset_it.Store.Enums.{StatusCode}
use asset_it.Store.Rows.{Actor, Asset}
use asset_it.Store.DisposalRows.{DisposalStatus, DisposalItem, DisposalCase}
use asset_it.Store.Tables.{Env, Db}
use asset_it.Disposals.Guards.{is_admin, save_case, put_case, is_active, has_asset, held_elsewhere}
use asset_it.Disposals.Drafting.{hold_items, restore_assets, submitted_case, submit}
use asset_it.Disposals.Approval.{approved_case, approve, rejected_case, reject, started_case, start}
use asset_it.Disposals.Moves.{◌⇒◌, submits, approves, rejects, starts}
use asset_it.Disposals.Loops.{
  Rewrites, hold_items-Rewrites, hold_items-free, Restored, restore_assets-Rewrites,
}

-- The assets of an active case are as they were, the case having been active already, or they have
-- just been taken, from no other active case.
abbrev pub Keeps : Db → Db → DisposalCase → Type 0
Keeps db db' c = (is_active c.status ≡ true) × (db'.asset ≡ db.asset)

abbrev pub Takes : Db → Db → ℕ → DisposalCase → Type 0
Takes db db' id c =
    (j : ℕ)
    → has_asset j c.items ≡ true
    → (held_elsewhere db id j ≡ false)
      × (b : Asset) × (db'.asset j ≡ some b)
      × (b.status ≡ StatusCode.reserved)

pub record Moved (db db' : Db) (id : ℕ) (c c' : DisposalCase) : Type 0 where
  pub here : db.cases id ≡ some c
  pub move : c ⇒ c'
  pub there : db'.cases ≡ put_case db.cases id c'
  pub grows : db.next_id ≤ db'.next_id
  pub outside : (j : ℕ) → has_asset j c.items ≡ false → db'.asset j ≡ db.asset j
  pub holding : is_active c'.status ≡ true → Keeps db db' c ⊎ Takes db db' id c
  pub idle : is_active c.status ≡ false → is_active c'.status ≡ false → db'.asset ≡ db.asset

abbrev pub Moves : Db → Db → ℕ → Type 0
Moves db db' id = (c : DisposalCase) × (c' : DisposalCase) × Moved db db' id c c'

-- A move of a case that holds its assets already, and touches none of them.
pub Moves-quiet :
    (db db' : Db) (id : ℕ) (c c' : DisposalCase)
    → db.cases id ≡ some c
    → c ⇒ c'
    → db'.cases ≡ put_case db.cases id c'
    → db.next_id ≤ db'.next_id
    → db'.asset ≡ db.asset
    → (is_active c'.status ≡ true → is_active c.status ≡ true)
    → Moves db db' id
Moves-quiet db db' id c c' here m there more same active = (
  c,
  c',
  record {
    here = here;
    move = m;
    there = there;
    grows = more;
    outside = λ j out. ap (λ (f : ℕ → Option Asset). f j) same;
    holding = λ now. inl (active now, same);
    idle = λ before now. same;
  },
)

-- A move that ends the hold of a case on its assets.
pub Moves-release :
    (P : DisposalItem → Asset → Type 0) (db db₁ db' : Db) (id : ℕ) (c c' : DisposalCase)
    → db.cases id ≡ some c
    → c ⇒ c'
    → Rewrites P c.items db db₁
    → db'.cases ≡ put_case db₁.cases id c'
    → db'.next_id ≡ db₁.next_id
    → db'.asset ≡ db₁.asset
    → is_active c.status ≡ true
    → is_active c'.status ≡ false
    → Moves db db' id
Moves-release P db db₁ db' id c c' here m r there more same busy idle = (
  c,
  c',
  record {
    here = here;
    move = m;
    there = there ∙ ap (λ f. put_case f id c') r.same_cases;
    grows = omega (arith, more, r.same_next);
    outside = λ j out. ap (λ (f : ℕ → Option Asset). f j) same ∙ r.outside j out;
    holding = λ now. absurd (ground arith);
    idle = λ before now. absurd (ground arith);
  },
)

pub submit-writes :
    (env : Env) (id : ℕ) (actor : Actor) (db db' : Db)
    → submit env id actor db ≡ ok db'
    → (c : DisposalCase) × (db₁ : Db) × (db.cases id ≡ some c)
      × (c.status ≡ DisposalStatus.draft)
      × (ltb (length c.items) 1 ≡ false)
      × (hold_items db id StatusCode.reserved c.items db ≡ ok db₁)
      × (db' ≡ save_case id (submitted_case env actor c) db₁)
unfolding submit
submit-writes env id actor db db' e = elim (Option-cases (db.cases id)) [
  | inl none_there ↦ absurd (ground arith)
  | inr (c, here) ↦ elim (Result-cases (hold_items db id StatusCode.reserved c.items db)) [
    | inl (db₁, looped) ↦ (c, db₁, here, ground arith, ground arith, looped, ground arith)
    | inr (x, failed) ↦ absurd (ground arith)
  ]
]

pub submit-Moves :
    (env : Env) (id : ℕ) (actor : Actor) (db db' : Db)
    → submit env id actor db ≡ ok db'
    → Moves db db' id
submit-Moves env id actor db db' e =
    let (c, db₁, here, was, some_items, looped, is) = submit-writes env id actor db db' e in
    let r = hold_items-Rewrites db id StatusCode.reserved c.items db db₁ looped in
    let same : db'.asset ≡ db₁.asset = ap (λ (d : Db). d.asset) is in
    let at = λ (j : ℕ). ap (λ (f : ℕ → Option Asset). f j) same in
    (
      c,
      submitted_case env actor c,
      record {
        here = here;
        move = submits env actor c was some_items;
        there =
            ap (λ (d : Db). d.cases) is
            ∙ ap (λ f. put_case f id (submitted_case env actor c)) r.same_cases;
        grows = omega (arith, ap (λ (d : Db). d.next_id) is, r.same_next);
        outside = λ j out. at j ∙ r.outside j out;
        holding = λ active. inr (λ j h.
            let (i, m, of, b, there, held) = r.inside j h in
            (
              hold_items-free db id StatusCode.reserved c.items db db₁ looped j h,
              b,
              at j ∙ there,
              held,
            ));
        idle = λ before now. absurd (ground arith);
      },
    )

approve-writes :
    (env : Env) (id : ℕ) (note : Text) (actor : Actor) (db db' : Db)
    → approve env id note actor db ≡ ok db'
    → (c : DisposalCase) × (db.cases id ≡ some c)
      × (is_admin actor.role ≡ true)
      × (c.status ≡ DisposalStatus.submitted)
      × ((c.requested_by == actor.id) ≡ false)
      × (db' ≡ save_case id (approved_case env actor note c) db)
unfolding approve
approve-writes env id note actor db db' e = elim (Option-cases (db.cases id)) [
  | inl none_there ↦ absurd (ground arith)
  | inr (c, here) ↦ (c, here, ground arith, ground arith, ground arith, ground arith)
]

pub approve-Moves :
    (env : Env) (id : ℕ) (note : Text) (actor : Actor) (db db' : Db)
    → approve env id note actor db ≡ ok db'
    → Moves db db' id
approve-Moves env id note actor db db' e =
    let (c, here, boss, was, other, is) = approve-writes env id note actor db db' e in
    Moves-quiet db db' id c (approved_case env actor note c) here
      (approves env actor note c boss was other) (ap (λ (d : Db). d.cases) is)
      (omega (arith, ap (λ (d : Db). d.next_id) is)) (ap (λ (d : Db). d.asset) is)
      (λ now. ap is_active was)

pub reject-writes :
    (env : Env) (id : ℕ) (note : Text) (actor : Actor) (db db' : Db)
    → reject env id note actor db ≡ ok db'
    → (c : DisposalCase) × (db₁ : Db) × (db.cases id ≡ some c)
      × (is_admin actor.role ≡ true)
      × (c.status ≡ DisposalStatus.submitted)
      × ((c.requested_by == actor.id) ≡ false)
      × (restore_assets env db c.items db ≡ ok db₁)
      × (db' ≡ save_case id (rejected_case env actor note c) db₁)
unfolding reject
reject-writes env id note actor db db' e = elim (Option-cases (db.cases id)) [
  | inl none_there ↦ absurd (ground arith)
  | inr (c, here) ↦ elim (Result-cases (restore_assets env db c.items db)) [
    | inl (db₁, looped) ↦
        (c, db₁, here, ground arith, ground arith, ground arith, looped, ground arith)
    | inr (x, failed) ↦ absurd (ground arith)
  ]
]

pub reject-Moves :
    (env : Env) (id : ℕ) (note : Text) (actor : Actor) (db db' : Db)
    → reject env id note actor db ≡ ok db'
    → Moves db db' id
reject-Moves env id note actor db db' e =
    let (c, db₁, here, boss, was, other, looped, is) = reject-writes env id note actor db db' e in
    Moves-release Restored db db₁ db' id c (rejected_case env actor note c) here
      (rejects env actor note c boss was other)
      (restore_assets-Rewrites env db c.items db db₁ looped) (ap (λ (d : Db). d.cases) is)
      (ap (λ (d : Db). d.next_id) is) (ap (λ (d : Db). d.asset) is) (ap is_active was) refl

start-writes :
    (env : Env) (id : ℕ) (note : Text) (actor : Actor) (db db' : Db)
    → start env id note actor db ≡ ok db'
    → (c : DisposalCase) × (db.cases id ≡ some c)
      × (c.status ≡ DisposalStatus.approved)
      × (db' ≡ save_case id (started_case env actor note c) db)
unfolding start
start-writes env id note actor db db' e = elim (Option-cases (db.cases id)) [
  | inl none_there ↦ absurd (ground arith)
  | inr (c, here) ↦ (c, here, ground arith, ground arith)
]

pub start-Moves :
    (env : Env) (id : ℕ) (note : Text) (actor : Actor) (db db' : Db)
    → start env id note actor db ≡ ok db'
    → Moves db db' id
start-Moves env id note actor db db' e =
    let (c, here, was, is) = start-writes env id note actor db db' e in
    Moves-quiet db db' id c (started_case env actor note c) here (starts env actor note c was)
      (ap (λ (d : Db). d.cases) is) (omega (arith, ap (λ (d : Db). d.next_id) is))
      (ap (λ (d : Db). d.asset) is) (λ now. ap is_active was)
