-- ===== src/Lifecycle/Outcomes/Lots.antt =====
-- What `assignMany` does to each listed asset, to the table of assignments, and to nothing else.
use asset_it.Prelude.{
  ℕ, ◌+◌, ◌≡◌, refl, sym, ap, ◌∙◌, true, false, ◌==◌, ==_iff, includes, distinct, Option, none,
  some, List, [], ◌∷◌, Text, ok, subst, >>=-eq-ok, Bool-cases, inl, inr, arith,
}
use asset_it.Store.Enums.{StatusCode, AssignmentType}
use asset_it.Store.Rows.{Actor, Asset, Assignment}
use asset_it.Store.Tables.{Env, Db, open_assignment}
use asset_it.Lifecycle.Rules.{assignment_target}
use asset_it.Lifecycle.Issue.{AssignAsset, Terms, Batch, issue, issue_terms, handed_over}
use asset_it.Lifecycle.Batch.{gather, issue_all, assign_many}
use asset_it.Lifecycle.Custody.{Custody}
use asset_it.Lifecycle.Custody.Issuing.{issue-Issued}
use asset_it.Lifecycle.Custody.Batches.{
  Standing, Standing-put, ids, ids-gather, Standing-gather, assign_many-loop, assign_many-Custody,
}

-- The status of an asset that is handed out.
abbrev pub handed_status : AssignmentType → StatusCode
handed_status AssignmentType.assignment = StatusCode.in_use
handed_status AssignmentType.loan = StatusCode.on_loan

-- The asset `k` was ready and free, and is with the recipient under the open assignment `row`.
pub record InHand (terms : Terms) (type : AssignmentType) (db db' : Db) (k : ℕ) (row : Assignment)
    : Type 0 where
  pub old : Asset
  pub new : Asset
  pub before : db.asset k ≡ some old
  pub was_ready : old.status ≡ StatusCode.ready
  pub was_free : old.current_custodian_id ≡ none
  pub was_closed : open_assignment db k ≡ none
  pub after : db'.asset k ≡ some new
  pub status : new.status ≡ handed_status type
  pub holder : new.current_custodian_id ≡ some terms.person.id
  pub place : new.location_id ≡ some terms.location.id
  pub unstocked : new.warehouse_id ≡ none
  pub of_asset : row.asset_id ≡ k
  pub to_person : row.assigned_to_id ≡ terms.person.id
  pub opened : open_assignment db' k ≡ some row

-- The rows belong to the assets one by one, in the same order.
pub data Matched (P : ℕ → Assignment → Type 0) : List ℕ → List Assignment → Type 0 where
  none_left : Matched P [] []
  one_more :
      {k : ℕ} {row : Assignment} {ks : List ℕ} {rows : List Assignment}
      → P k row
      → Matched P ks rows
      → Matched P (k ∷ ks) (row ∷ rows)

-- The table after the rows have been added one by one.
abbrev pub stacked : List Assignment → List Assignment → List Assignment
stacked [] old = old
stacked (row ∷ rows) old = stacked rows (row ∷ old)

pub record HandedOut (terms : Terms) (type : AssignmentType) (db db' : Db) (ks : List ℕ)
    (rows : List Assignment) : Type 0 where
  pub each : Matched (InHand terms type db db') ks rows
  pub others : (j : ℕ) → includes j ks ≡ false → db'.asset j ≡ db.asset j
  pub others_open : (j : ℕ) → includes j ks ≡ false → open_assignment db' j ≡ open_assignment db j
  pub table : db'.assignments ≡ stacked rows db.assignments

pub Matched-at :
    (P : ℕ → Assignment → Type 0) (j : ℕ) (ks : List ℕ) (rows : List Assignment)
    → includes j ks ≡ true
    → Matched P ks rows
    → (row : Assignment) × P j row
Matched-at P j [] [] here none_left = absurd (ground arith)
Matched-at P j [] (row ∷ rows) here m = elim m [ ]
Matched-at P j (k ∷ ks) [] here m = elim m [ ]
Matched-at P j (k ∷ ks) (row ∷ rows) here (one_more p later) = elim (Bool-cases (k == j)) [
  | inl same ↦ (row, subst (λ n. P n row) ((==_iff k j).0 same) p)
  | inr away ↦ Matched-at P j ks rows (ground arith) later
]

-- The handing over of an asset, seen from and in tables that have the same rows for it.
InHand-same :
    (terms : Terms) (type : AssignmentType) (db db₁ db₂ db' : Db) (k : ℕ) (row : Assignment)
    → db₁.asset k ≡ db.asset k
    → open_assignment db₁ k ≡ open_assignment db k
    → db'.asset k ≡ db₂.asset k
    → open_assignment db' k ≡ open_assignment db₂ k
    → InHand terms type db₁ db₂ k row
    → InHand terms type db db' k row
InHand-same terms type db db₁ db₂ db' k row asset held asset' held' h = record {
  old = h.old;
  new = h.new;
  before = sym asset ∙ h.before;
  was_ready = h.was_ready;
  was_free = h.was_free;
  was_closed = sym held ∙ h.was_closed;
  after = asset' ∙ h.after;
  status = h.status;
  holder = h.holder;
  place = h.place;
  unstocked = h.unstocked;
  of_asset = h.of_asset;
  to_person = h.to_person;
  opened = held' ∙ h.opened;
}

Matched-earlier :
    (terms : Terms) (type : AssignmentType) (db db₁ db' : Db) (x : ℕ) (ks : List ℕ)
    (rows : List Assignment)
    → includes x ks ≡ false
    → ((j : ℕ)
        → (j == x) ≡ false
        → (db₁.asset j ≡ db.asset j) × (open_assignment db₁ j ≡ open_assignment db j))
    → Matched (InHand terms type db₁ db') ks rows
    → Matched (InHand terms type db db') ks rows
Matched-earlier terms type db db₁ db' x [] [] apart same none_left = none_left
Matched-earlier terms type db db₁ db' x [] (row ∷ rows) apart same m = elim m [ ]
Matched-earlier terms type db db₁ db' x (k ∷ ks) [] apart same m = elim m [ ]
Matched-earlier terms type db db₁ db' x (k ∷ ks) (row ∷ rows) apart same (one_more h later) =
    let (asset, held) = same k (ground arith) in
    one_more (InHand-same terms type db db₁ db' db' k row asset held refl refl h)
      (Matched-earlier terms type db db₁ db' x ks rows (ground arith) same later)

assignment_target-handed :
    (s t : StatusCode) (type : AssignmentType)
    → assignment_target s type ≡ ok t
    → t ≡ handed_status type
unfolding assignment_target
assignment_target-handed s t type e = ground arith

-- One handover: the asset is in hand, and the rest is as before.
pub issue-InHand :
    (env : Env) (a : Asset) (terms : Terms) (body : AssignAsset) (actor : Actor) (number : Text)
    (batch : Option Batch) (db db' : Db) (row : Assignment)
    → db.asset a.id ≡ some a
    → issue env a terms body actor number batch db ≡ ok (row, db')
    → InHand terms body.type db db' a.id row
      × (db'.assignments ≡ row ∷ db.assignments)
      × ((j : ℕ)
          → (j == a.id) ≡ false
          → (db'.asset j ≡ db.asset j) × (open_assignment db' j ≡ open_assignment db j))
issue-InHand env a terms body actor number batch db db' row here e =
    let (target, i, is_row, goes) =
      issue-Issued env a terms body actor number batch db db' row here e in
    (
      record {
        old = a;
        new = handed_over target terms a;
        before = here;
        was_ready = i.was_ready;
        was_free = i.was_free;
        was_closed = i.was_closed;
        after = ap (λ (f : ℕ → Option Asset). f a.id) i.asset ∙ ground arith;
        status = assignment_target-handed a.status target body.type goes;
        holder = refl;
        place = refl;
        unstocked = refl;
        of_asset = ground (arith, is_row);
        to_person = ground (arith, is_row);
        opened = ground (arith, i.assignments, is_row);
      },
      i.assignments,
      λ j away. (
        ap (λ (f : ℕ → Option Asset). f j) i.asset ∙ ground arith,
        ground (arith, i.assignments, is_row, ==_iff a.id j, ==_iff j a.id),
      ),
    )

HandedOut-first :
    (terms : Terms) (type : AssignmentType) (db db₁ db' : Db) (k : ℕ) (row : Assignment)
    (ks : List ℕ) (rows : List Assignment)
    → includes k ks ≡ false
    → InHand terms type db db₁ k row
    → db₁.assignments ≡ row ∷ db.assignments
    → ((j : ℕ)
        → (j == k) ≡ false
        → (db₁.asset j ≡ db.asset j) × (open_assignment db₁ j ≡ open_assignment db j))
    → HandedOut terms type db₁ db' ks rows
    → HandedOut terms type db db' (k ∷ ks) (row ∷ rows)
HandedOut-first terms type db db₁ db' k row ks rows apart h grown same later = record {
  each =
      one_more
        (InHand-same terms type db db db₁ db' k row refl refl (later.others k apart)
          (later.others_open k apart) h)
        (Matched-earlier terms type db db₁ db' k ks rows apart same later.each);
  others =
      λ j out. later.others j (ground arith) ∙ (same j (ground (arith, ==_iff j k, ==_iff k j))).0;
  others_open = λ j out.
      later.others_open j (ground arith) ∙ (same j (ground (arith, ==_iff j k, ==_iff k j))).1;
  table = later.table ∙ ap (stacked rows) grown;
}

-- The loop: distinct assets that stand in the table are handed out one by one.
pub issue_all-HandedOut :
    (env : Env) (terms : Terms) (body : AssignAsset) (actor : Actor) (batch : Batch) (n : ℕ)
    (assets : List Asset) (db db' : Db) (rows : List Assignment)
    → distinct (ids assets) ≡ true
    → Standing db assets
    → issue_all env terms body actor batch n assets db ≡ ok (rows, db')
    → HandedOut terms body.type db db' (ids assets) rows
unfolding issue_all
issue_all-HandedOut env terms body actor batch n [] db db' rows apart s e =
    let none_made : [] ≡ rows = ground arith in
    let same : db ≡ db' = ground arith in
    subst (λ rows. HandedOut terms body.type db db' [] rows) none_made
      (subst (λ d. HandedOut terms body.type db d [] []) same
        (record {
          each = none_left;
          others = λ j out. refl;
          others_open = λ j out. refl;
          table = refl;
        }))
issue_all-HandedOut env terms body actor batch n (a ∷ rest) db db' rows apart s e =
    let (p, run, more) = >>=-eq-ok (issue env a terms body actor _ (some batch) db) _ e in
    let (q, others, last) =
      >>=-eq-ok (issue_all env terms body actor batch (n + 1) rest p.1) _ more in
    let (target, i, is_row, is_target) =
      issue-Issued env a terms body actor _ (some batch) db p.1 p.0 s.0 run in
    let later =
      issue_all-HandedOut env terms body actor batch (n + 1) rest p.1 q.1 q.0 (ground arith)
        (Standing-put db p.1 a _ rest i.asset (ground arith) s.1) others in
    let first = issue-InHand env a terms body actor _ (some batch) db p.1 p.0 s.0 run in
    let is_rows : p.0 ∷ q.0 ≡ rows = ground arith in
    let is_db : q.1 ≡ db' = ground arith in
    subst (λ rows. HandedOut terms body.type db db' (ids (a ∷ rest)) rows) is_rows
      (subst (λ d. HandedOut terms body.type db d (ids (a ∷ rest)) (p.0 ∷ q.0)) is_db
        (HandedOut-first terms body.type db p.1 q.1 a.id p.0 (ids rest) q.0 (ground arith) first.0
          first.1 first.2 later))

-- A batch handover of distinct assets that succeeds from tables that satisfy the custody invariant
-- was made on valid terms and keeps the invariant. Its rows belong to the listed assets one by one:
-- each asset was READY with neither holder nor open assignment, and now has the status of the kind
-- of handover, the recipient as its holder, the chosen location, no warehouse, and that row as its
-- open assignment. These rows are all that is added to the assignments, and no other asset has
-- changed or has another open assignment.
pub assign_many-hands-over :
    (env : Env) (ks : List ℕ) (body : AssignAsset) (actor : Actor) (db db' : Db) (number : Text)
    (rows : List Assignment)
    → Custody db
    → distinct ks ≡ true
    → assign_many env ks body actor db ≡ ok (number, rows, db')
    → Custody db'
      × (terms : Terms) × (issue_terms env body actor ≡ ok terms)
      × HandedOut terms body.type db db' ks rows
assign_many-hands-over env ks body actor db db' number rows c apart e =
    let (terms, agreed, all_there, _, run) =
      assign_many-loop env ks body actor db db' number rows e in
    let keyed = λ (k : ℕ) (a : Asset) (found : db.asset k ≡ some a). (c.agrees k a found).keyed in
    let same : ids (gather db ks) ≡ ks = ids-gather db ks keyed all_there in
    (
      (assign_many-Custody env ks body actor db db' number rows c apart e).0,
      terms,
      agreed,
      subst (λ js. HandedOut terms body.type db db' js rows) same
          (issue_all-HandedOut env terms body actor _ 1 (gather db ks) db db' rows
            (ap distinct same ∙ apart) (Standing-gather db ks keyed) run),
    )
