-- ===== src/Inventory/Changes.antt =====
-- What a request on stock counts does: it opens a session or changes one.
use asset_it.Prelude.{
  ℕ, suc, true, ◌≡◌, refl, subst, Option, none, some, ok, err, inl, inr, Option-cases, Result-cases,
  arith,
}
use asset_it.Store.Rows.{Actor, Asset}
use asset_it.Store.Exceptions.{Outcome}
use asset_it.Store.InventoryRows.{InventorySession, InventoryResult}
use asset_it.Store.Tables.{Env, Db}
use asset_it.Inventory.Guards.{is_open, put_session, assets_below, first_of, department_scope}
use asset_it.Inventory.Opening.{CreateInventory, in_scope, new_session, create, write_session}
use asset_it.Inventory.Scanning.{
  ScanInventory, carries, item_of, scan_result, observed, write_item, scan, write_scan,
}
use asset_it.Inventory.Ending.{
  close, write_close, closed_session, cancel, write_cancel, cancelled_session, remove,
  erase_session,
}
use asset_it.Inventory.Calls.{
  Call, creates, scans, closes, cancels, removes, Request, settled, settled_with, step,
}

abbrev pub scanned : Env → ScanInventory → Actor → ℕ → Asset → InventorySession → InventorySession
scanned env body actor n a s = record s {
  items =
      write_item (item_of n s.items) n
        (observed body a (scan_result (item_of n s.items) body a) env.now actor) s.items;
}

-- What a request that is granted does to the session `k`, which is `s`.
pub data Change (k : ℕ) (s : InventorySession) : Call → Option InventorySession → Type 0 where
  scan_of :
      (env : Env) (body : ScanInventory) (actor : Actor) (n : ℕ) (a : Asset)
      → is_open s.status ≡ true
      → Change k s (scans k body) (some (scanned env body actor n a s))
  close_at :
      (now : ℕ) → is_open s.status ≡ true → Change k s (closes k) (some (closed_session now s))
  cancel_at :
      (now : ℕ) → is_open s.status ≡ true → Change k s (cancels k) (some (cancelled_session now s))
  removal : Change k s (removes k) none

-- The tables before and after a request that opens a session, and after one that changes one.
pub record Opened (call : Call) (db db' : Db) : Type 0 where
  pub env : Env
  pub body : CreateInventory
  pub department : Option ℕ
  pub actor : Actor
  pub by : call ≡ creates body
  pub sessions :
      db'.sessions
      ≡ put_session db.sessions db.next_id (
          some (
            new_session env body department actor db.next_id
              (assets_below db.next_id db.asset (in_scope env body department))))
  pub next : db'.next_id ≡ suc db.next_id

pub record Changed (call : Call) (db db' : Db) (k : ℕ) (s : InventorySession)
    (new : Option InventorySession) : Type 0 where
  pub here : db.sessions k ≡ some s
  pub change : Change k s call new
  pub there : db'.sessions ≡ put_session db.sessions k new
  pub next : db'.next_id ≡ db.next_id

write_session-Opened :
    (env : Env) (body : CreateInventory) (department : Option ℕ) (actor : Actor) (db : Db)
    → Opened
        (creates body)
        db
        (write_session env body department actor
          (assets_below db.next_id db.asset (in_scope env body department))
          db).1
unfolding write_session
write_session-Opened env body department actor db = record {
  env = env;
  body = body;
  department = department;
  actor = actor;
  by = refl;
  sessions = refl;
  next = refl;
}

create-writes :
    (env : Env) (body : CreateInventory) (actor : Actor) (db db' : Db) (s : InventorySession)
    → create env body actor db ≡ ok (s, db')
    → (department : Option ℕ) × (write_session env body department actor
          (assets_below db.next_id db.asset (in_scope env body department))
          db
        ≡ (s, db'))
unfolding create
create-writes env body actor db db' s e =
    elim (Result-cases (department_scope actor body.department_id)) [
      | inr (x, refused) ↦ absurd (ground arith)
      | inl (department, granted) ↦ (department, ground arith)
    ]

write_scan-Changed :
    (env : Env) (k : ℕ) (s : InventorySession) (body : ScanInventory) (actor : Actor) (n : ℕ)
    (a : Asset) (db : Db)
    → db.sessions k ≡ some s
    → is_open s.status ≡ true
    → Changed
        (scans k body)
        db
        (write_scan env k s body actor n a db).1
        k
        s
        (some (scanned env body actor n a s))
unfolding write_scan
write_scan-Changed env k s body actor n a db here going = record {
  here = here;
  change = scan_of env body actor n a going;
  there = refl;
  next = refl;
}

pub scan-writes :
    (env : Env) (k : ℕ) (body : ScanInventory) (actor : Actor) (db db' : Db) (r : InventoryResult)
    → scan env k body actor db ≡ ok (r, db')
    → (s : InventorySession) × (row : ℕ × Asset) × (db.sessions k ≡ some s)
      × (is_open s.status ≡ true)
      × (first_of (assets_below db.next_id db.asset (carries env body.value)) ≡ some row)
      × (write_scan env k s body actor row.0 row.1 db ≡ (r, db'))
unfolding scan
scan-writes env k body actor db db' r e = elim (Option-cases (db.sessions k)) [
  | inl absent ↦ absurd (ground arith)
  | inr (s, here) ↦
      elim (Option-cases (first_of (assets_below db.next_id db.asset (carries env body.value)))) [
        | inl unknown ↦ absurd (ground arith)
        | inr (row, found) ↦ (s, row, here, ground arith, found, ground arith)
      ]
]

close-writes :
    (env : Env) (k : ℕ) (actor : Actor) (db db' : Db) (c : InventorySession)
    → close env k actor db ≡ ok (c, db')
    → (s : InventorySession) × (db.sessions k ≡ some s)
      × (is_open s.status ≡ true)
      × (write_close env k s actor db ≡ (c, db'))
unfolding close
close-writes env k actor db db' c e = elim (Option-cases (db.sessions k)) [
  | inl absent ↦ absurd (ground arith)
  | inr (s, here) ↦ (s, here, ground arith, ground arith)
]

cancel-writes :
    (env : Env) (k : ℕ) (actor : Actor) (db db' : Db) (c : InventorySession)
    → cancel env k actor db ≡ ok (c, db')
    → (s : InventorySession) × (db.sessions k ≡ some s)
      × (is_open s.status ≡ true)
      × (write_cancel env k s actor db ≡ (c, db'))
unfolding cancel
cancel-writes env k actor db db' c e = elim (Option-cases (db.sessions k)) [
  | inl absent ↦ absurd (ground arith)
  | inr (s, here) ↦ (s, here, ground arith, ground arith)
]

write_close-Changed :
    (env : Env) (k : ℕ) (s : InventorySession) (actor : Actor) (db : Db)
    → db.sessions k ≡ some s
    → is_open s.status ≡ true
    → Changed (closes k) db (write_close env k s actor db).1 k s (some (closed_session env.now s))
unfolding write_close
write_close-Changed env k s actor db here going = record {
  here = here;
  change = close_at env.now going;
  there = refl;
  next = refl;
}

write_cancel-Changed :
    (env : Env) (k : ℕ) (s : InventorySession) (actor : Actor) (db : Db)
    → db.sessions k ≡ some s
    → is_open s.status ≡ true
    → Changed
        (cancels k)
        db
        (write_cancel env k s actor db).1
        k
        s
        (some (cancelled_session env.now s))
unfolding write_cancel
write_cancel-Changed env k s actor db here going = record {
  here = here;
  change = cancel_at env.now going;
  there = refl;
  next = refl;
}

remove-Changed :
    (env : Env) (k : ℕ) (actor : Actor) (db db' : Db)
    → remove env k actor db ≡ ok db'
    → (s : InventorySession) × Changed (removes k) db db' k s none
unfolding remove erase_session
remove-Changed env k actor db db' e = elim (Option-cases (db.sessions k)) [
  | inl absent ↦ absurd (ground arith)
  | inr (s, here) ↦
      (s, record { here = here; change = removal; there = ground arith; next = ground arith })
]

-- A property that the opening of a session and a change of one keep is kept by each request.
module _ (P : Db → Type 0) (db : Db) (p : P db) where
  settled_with_lem :
      {A : Type 0} (m : Outcome (A × Db))
      → ((a : A) (db' : Db) → m ≡ ok (a, db') → P db')
      → P (settled_with db m)
  settled_with_lem (ok (a, db')) f = f a db' refl
  settled_with_lem (err x) f = p

  settled_lem : (m : Outcome Db) → ((db' : Db) → m ≡ ok db' → P db') → P (settled db m)
  settled_lem (ok db') f = f db' refl
  settled_lem (err x) f = p

  keeps :
      (env : Env) (actor : Actor) (call : Call)
      → ((db' : Db) → Opened call db db' → P db')
      → ((db' : Db) (k : ℕ) (s : InventorySession) (new : Option InventorySession)
          → Changed call db db' k s new
          → P db')
      → P (step (record { env = env; actor = actor; call = call }) db)
  unfolding step
  keeps env actor (creates body) opens changes =
      settled_with_lem (create env body actor db) (λ s db' e.
        let (department, wrote) = create-writes env body actor db db' s e in
        opens db' (
          subst (λ (x : InventorySession × Db). Opened (creates body) db x.1) wrote
            (write_session-Opened env body department actor db)))
  keeps env actor (scans k body) opens changes =
      settled_with_lem (scan env k body actor db) (λ r db' e.
        let (s, row, here, going, found, wrote) = scan-writes env k body actor db db' r e in
        changes db' k s (some (scanned env body actor row.0 row.1 s)) (
          subst
            (λ (x : InventoryResult × Db).
              Changed (scans k body) db x.1 k s (some (scanned env body actor row.0 row.1 s)))
            wrote (write_scan-Changed env k s body actor row.0 row.1 db here going)))
  keeps env actor (closes k) opens changes = settled_with_lem (close env k actor db) (λ c db' e.
      let (s, here, going, wrote) = close-writes env k actor db db' c e in
      changes db' k s (some (closed_session env.now s)) (
        subst
          (λ (x : InventorySession × Db).
            Changed (closes k) db x.1 k s (some (closed_session env.now s)))
          wrote (write_close-Changed env k s actor db here going)))
  keeps env actor (cancels k) opens changes = settled_with_lem (cancel env k actor db) (λ c db' e.
      let (s, here, going, wrote) = cancel-writes env k actor db db' c e in
      changes db' k s (some (cancelled_session env.now s)) (
        subst
          (λ (x : InventorySession × Db).
            Changed (cancels k) db x.1 k s (some (cancelled_session env.now s)))
          wrote (write_cancel-Changed env k s actor db here going)))
  keeps env actor (removes k) opens changes = settled_lem (remove env k actor db) (λ db' e.
      let (s, erased) = remove-Changed env k actor db db' e in changes db' k s none erased)

  pub step-keeps :
      (r : Request)
      → ((db' : Db) → Opened r.call db db' → P db')
      → ((db' : Db) (k : ℕ) (s : InventorySession) (new : Option InventorySession)
          → Changed r.call db db' k s new
          → P db')
      → P (step r db)
  step-keeps r = keeps r.env r.actor r.call
