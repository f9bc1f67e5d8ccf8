-- ===== src/Disposals/Loops.antt =====
-- The loops over the items of a case: each writes the assets of the items, and nothing else that
-- the cases depend on.
use asset_it.Prelude.{
  ℕ, true, false, not, ◌≡◌, refl, ◌∙◌, ap, sym, subst, inl, inr, Option, none, some, List, [], ◌∷◌,
  In, is_some, Text, ok, throw_if, >>=-eq-ok, Bool-cases, Option-cases, arith,
}
use asset_it.Store.Enums.{StatusCode}
use asset_it.Store.Rows.{Asset, Actor}
use asset_it.Store.DisposalRows.{DisposalItem, DisposalCase}
use asset_it.Store.Tables.{Env, Db, update_asset, put_asset, open_assignment, open_record}
use asset_it.Store.Exceptions.{
  conflict, not_reserved, assignment_still_open, maintenance_still_open,
}
use asset_it.Disposals.Rules.{assert_asset_eligible}
use asset_it.Disposals.Guards.{has_asset, item_asset, apply_rule, case_status, held_elsewhere}
use asset_it.Disposals.Drafting.{is_reserved, hold_items, restore_assets}
use asset_it.Disposals.Execution.{retired, retire_items}

-- The asset of each item becomes one that stands in `P` to the item.
pub record Rewrites (P : DisposalItem → Asset → Type 0) (items : List DisposalItem) (db db' : Db)
    : Type 0 where
  pub same_cases : db'.cases ≡ db.cases
  pub same_next : db'.next_id ≡ db.next_id
  pub outside : (j : ℕ) → has_asset j items ≡ false → db'.asset j ≡ db.asset j
  pub inside :
      (j : ℕ)
      → has_asset j items ≡ true
      → (i : DisposalItem) × In i items
        × (i.asset_id ≡ j)
        × (b : Asset) × (db'.asset j ≡ some b)
        × P i b

pub update_asset-wrote :
    (k : ℕ) (change : Asset → Asset) (db db' : Db)
    → update_asset k change db ≡ ok db'
    → (a : Asset) × (db.asset k ≡ some a)
      × (db' ≡ record db { asset = put_asset db.asset k (change a) })
unfolding update_asset
update_asset-wrote k change db db' e = elim (Option-cases (db.asset k)) [
  | inl none_there ↦ absurd (ground arith)
  | inr (a, here) ↦ (a, here, ground arith)
]

module _ (P : DisposalItem → Asset → Type 0) where
  pub Rewrites-nil : (db : Db) → Rewrites P [] db db
  Rewrites-nil db = record {
    same_cases = refl;
    same_next = refl;
    outside = λ j out. refl;
    inside = λ j h. absurd (ground arith);
  }

  -- One round writes `a'` as the asset of the item, the others follow.
  pub Rewrites-cons :
      (i : DisposalItem) (rest : List DisposalItem) (a' : Asset) (db db₁ db' : Db)
      → db₁.asset ≡ put_asset db.asset i.asset_id a'
      → db₁.cases ≡ db.cases
      → db₁.next_id ≡ db.next_id
      → P i a'
      → Rewrites P rest db₁ db'
      → Rewrites P (i ∷ rest) db db'
  Rewrites-cons i rest a' db db₁ db' wrote cases next p r = record {
    same_cases = r.same_cases ∙ cases;
    same_next = r.same_next ∙ next;
    outside = λ j out.
        let later : has_asset j rest ≡ false = ground arith in
        let away : put_asset db.asset i.asset_id a' j ≡ db.asset j = ground arith in
        r.outside j later ∙ ap (λ (f : ℕ → Option Asset). f j) wrote ∙ away;
    inside = λ j h. elim (Bool-cases (has_asset j rest)) [
      | inl later ↦ let (x, m, at, b, there, q) = r.inside j later in (x, inr m, at, b, there, q)
      | inr last ↦
          let at : i.asset_id ≡ j = ground arith in
          let put : put_asset db.asset i.asset_id a' j ≡ some a' = ground arith in
          (
            i,
            inl refl,
            at,
            a',
            r.outside j last ∙ ap (λ (f : ℕ → Option Asset). f j) wrote ∙ put,
            p,
          )
    ];
  }

-- `submit`: every item's asset has the status `code`.
abbrev pub Held : StatusCode → DisposalItem → Asset → Type 0
Held code i a = a.status ≡ code

pub hold_items-Rewrites :
    (begin : Db) (id : ℕ) (code : StatusCode) (items : List DisposalItem) (db db' : Db)
    → hold_items begin id code items db ≡ ok db'
    → Rewrites (Held code) items db db'
unfolding hold_items
hold_items-Rewrites begin id code [] db db' e =
    let same : db ≡ db' = ground arith in
    subst (Rewrites (Held code) [] db) same (Rewrites-nil _ db)
hold_items-Rewrites begin id code (i ∷ rest) db db' e =
    let (asset, found, e₁) = >>=-eq-ok (item_asset begin i) _ e in
    let (u, fits, e₂) = >>=-eq-ok (apply_rule (assert_asset_eligible asset.status)) _ e₁ in
    let (v, free, e₃) = >>=-eq-ok (throw_if (held_elsewhere db id i.asset_id) _) _ e₂ in
    let (db₁, wrote, more) = >>=-eq-ok (update_asset i.asset_id _ db) _ e₃ in
    let (a, here, is) = update_asset-wrote i.asset_id _ db db₁ wrote in
    Rewrites-cons _ i rest _ db db₁ db' (ap (λ d. d.asset) is) (ap (λ d. d.cases) is)
      (ap (λ d. d.next_id) is) refl (hold_items-Rewrites begin id code rest db₁ db' more)

held_elsewhere-same :
    (db db' : Db) (id j : ℕ)
    → db'.cases ≡ db.cases
    → db'.next_id ≡ db.next_id
    → held_elsewhere db' id j ≡ held_elsewhere db id j
unfolding held_elsewhere
held_elsewhere-same db db' id j cases next = rw (cases, next) refl

-- No other active case holds what `submit` takes.
pub hold_items-free :
    (begin : Db) (id : ℕ) (code : StatusCode) (items : List DisposalItem) (db db' : Db)
    → hold_items begin id code items db ≡ ok db'
    → (j : ℕ) → has_asset j items ≡ true
    → held_elsewhere db id j ≡ false
unfolding hold_items
hold_items-free begin id code [] db db' e j h = absurd (ground arith)
hold_items-free begin id code (i ∷ rest) db db' e j h =
    let (asset, found, e₁) = >>=-eq-ok (item_asset begin i) _ e in
    let (u, fits, e₂) = >>=-eq-ok (apply_rule (assert_asset_eligible asset.status)) _ e₁ in
    let (v, free, e₃) = >>=-eq-ok (throw_if (held_elsewhere db id i.asset_id) _) _ e₂ in
    let (db₁, wrote, more) = >>=-eq-ok (update_asset i.asset_id _ db) _ e₃ in
    let (a, here, is) = update_asset-wrote i.asset_id _ db db₁ wrote in
    elim (Bool-cases (has_asset j rest)) [
      | inl later ↦
          sym (held_elsewhere-same db db₁ id j (ap (λ d. d.cases) is) (ap (λ d. d.next_id) is))
          ∙ hold_items-free begin id code rest db₁ db' more j later
      | inr last ↦
          let at : i.asset_id ≡ j = ground arith in
          let clear : held_elsewhere db id i.asset_id ≡ false = ground arith in
          sym (ap (held_elsewhere db id) at) ∙ clear
    ]

-- `reject` and `cancel`: every item's asset has the status of a snapshot of it.
abbrev pub Restored : DisposalItem → Asset → Type 0
Restored i a = a.status ≡ i.asset_snapshot.status_code

case_status-code : (env : Env) (code s : StatusCode) → case_status env code ≡ ok s → code ≡ s
case_status-code env code s e = ground arith

pub restore_assets-Rewrites :
    (env : Env) (begin : Db) (items : List DisposalItem) (db db' : Db)
    → restore_assets env begin items db ≡ ok db'
    → Rewrites Restored items db db'
unfolding restore_assets
restore_assets-Rewrites env begin [] db db' e =
    let same : db ≡ db' = ground arith in subst (Rewrites Restored [] db) same (Rewrites-nil _ db)
restore_assets-Rewrites env begin (i ∷ rest) db db' e =
    let (asset, found, e₁) = >>=-eq-ok (item_asset begin i) _ e in
    let (u, held, e₂) =
      >>=-eq-ok (throw_if (not (is_reserved asset.status)) (conflict not_reserved)) _ e₁ in
    let (code, known, e₃) = >>=-eq-ok (case_status env i.asset_snapshot.status_code) _ e₂ in
    let (db₁, wrote, more) =
      >>=-eq-ok (update_asset i.asset_id (λ a. record a { status = code }) db) _ e₃ in
    let (a, here, is) =
      update_asset-wrote i.asset_id (λ x. record x { status = code }) db db₁ wrote in
    Rewrites-cons _ i rest (record a { status = code }) db db₁ db' (ap (λ d. d.asset) is)
      (ap (λ d. d.cases) is) (ap (λ d. d.next_id) is)
      (sym (case_status-code env i.asset_snapshot.status_code code known))
      (restore_assets-Rewrites env begin rest db₁ db' more)

-- `complete`: every item's asset has the final status, no holder and no place.
pub record Retired (target : StatusCode) (i : DisposalItem) (a : Asset) : Type 0 where
  pub final : a.status ≡ target
  pub no_user : a.assigned_user_id ≡ none
  pub no_holder : a.current_custodian_id ≡ none
  pub no_warehouse : a.warehouse_id ≡ none
  pub no_location : a.location_id ≡ none

pub retire_items-Rewrites :
    (begin : Db) (c : DisposalCase) (note : Text) (actor : Actor) (target : StatusCode)
    (items : List DisposalItem) (db db' : Db)
    → retire_items begin c note actor target items db ≡ ok db'
    → Rewrites (Retired target) items db db'
unfolding retire_items
retire_items-Rewrites begin c note actor target [] db db' e =
    let same : db ≡ db' = ground arith in
    subst (Rewrites (Retired target) [] db) same (Rewrites-nil _ db)
retire_items-Rewrites begin c note actor target (i ∷ rest) db db' e =
    let (asset, found, e₁) = >>=-eq-ok (item_asset begin i) _ e in
    let (u, held, e₂) =
      >>=-eq-ok (throw_if (not (is_reserved asset.status)) (conflict not_reserved)) _ e₁ in
    let (v, unassigned, e₃) =
      >>=-eq-ok
        (throw_if (is_some (open_assignment db i.asset_id)) (conflict assignment_still_open)) _
        e₂ in
    let (w, unrepaired, e₄) =
      >>=-eq-ok (throw_if (is_some (open_record db i.asset_id)) (conflict maintenance_still_open)) _
        e₃ in
    let (db₁, wrote, more) = >>=-eq-ok (update_asset i.asset_id (retired target) db) _ e₄ in
    let (a, here, is) = update_asset-wrote i.asset_id (retired target) db db₁ wrote in
    Rewrites-cons _ i rest (retired target a) db _ db' (ap (λ d. d.asset) is) (ap (λ d. d.cases) is)
      (ap (λ d. d.next_id) is)
      (record {
        final = refl;
        no_user = refl;
        no_holder = refl;
        no_warehouse = refl;
        no_location = refl;
      })
      (retire_items-Rewrites begin c note actor target rest _ db' more)
