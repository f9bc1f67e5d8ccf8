-- ===== src/Inventory/Refinement.antt =====
-- Sessions as counts: a status and a board. The requests of the service are steps of a count.
use asset_it.Prelude.{
  ℕ, ◌≤◌, Bool, true, false, ◌==◌, ==_iff, ◌≡◌, refl, ap, sym, subst, ◌⊎◌, inl, inr, Option, none,
  some, option_map, List, [], ◌∷◌, Bool-cases, arith,
}
use asset_it.Store.InventoryRows.{InventorySession, InventoryStatus, InventoryResult, InventoryItem}
use asset_it.Store.Tables.{Db}
use asset_it.Inventory.Guards.{is_open, put_session, assets_below}
use asset_it.Inventory.Opening.{CreateInventory, in_scope, new_session}
use asset_it.Inventory.Scanning.{ScanInventory, scan_result, item_of}
use asset_it.Store.Rows.{Asset}
use asset_it.Inventory.Calls.{Call, creates, scans, closes, cancels, removes, Request, step, run}
use asset_it.Inventory.Judging.{scan_result-unseen, scan_result-new, scan_result-expected}
use asset_it.Inventory.Changes.{
  Change, scan_of, close_at, cancel_at, removal, Opened, Changed, step-keeps,
}
use asset_it.Inventory.Board.{
  Board, board, result_of, marked, without_pending, board-scan, board-close, board-open,
}

pub record Count : Type 0 where
  pub status : InventoryStatus
  pub board : Board

abbrev pub count_of : InventorySession → Count
count_of s = record { status = s.status; board = board s.items }

abbrev pub count_at : ℕ → Db → Option Count
count_at k db = option_map count_of (db.sessions k)

-- What a scan may say of an asset that has the result `old` on the board, seen or not.
abbrev pub Verdict : Bool → Option InventoryResult → InventoryResult → Type 0
Verdict false old new = new ≡ InventoryResult.missing
Verdict true none new = new ≡ InventoryResult.unexpected
Verdict true (some r) new =
    (new ≡ InventoryResult.custodian_mismatch)
    ⊎ ((new ≡ InventoryResult.location_mismatch) ⊎ (new ≡ InventoryResult.matched))

-- What a request may do to the count `k`: its opening makes it, with assets that wait; a scan marks
-- one asset; the closing makes the pending results MISSING; it is cancelled, or forgotten.
pub data CountStep (k : ℕ) : Call → Option Count → Option Count → Type 0 where
  stays : (call : Call) (c : Option Count) → CountStep k call c c
  opens :
      (body : CreateInventory) (c : Count)
      → c.status ≡ InventoryStatus.open_
      → ((n : ℕ) → (c.board n ≡ none) ⊎ (c.board n ≡ some InventoryResult.pending))
      → CountStep k (creates body) none (some c)
  marks :
      (body : ScanInventory) (c c' : Count) (n : ℕ) (r : InventoryResult)
      → c.status ≡ InventoryStatus.open_
      → c'.status ≡ InventoryStatus.open_
      → Verdict body.found (c.board n) r
      → ((m : ℕ) → c'.board m ≡ marked n r c.board m)
      → CountStep k (scans k body) (some c) (some c')
  shuts :
      (c c' : Count)
      → c.status ≡ InventoryStatus.open_
      → c'.status ≡ InventoryStatus.closed
      → ((m : ℕ) → c'.board m ≡ without_pending c.board m)
      → CountStep k (closes k) (some c) (some c')
  gives_up :
      (c c' : Count)
      → c.status ≡ InventoryStatus.open_
      → c'.status ≡ InventoryStatus.cancelled
      → ((m : ℕ) → c'.board m ≡ c.board m)
      → CountStep k (cancels k) (some c) (some c')
  forgets : (c : Count) → CountStep k (removes k) (some c) none

-- One step for each request of the history.
pub data CountRun (k : ℕ) : List Request → Option Count → Option Count → Type 0 where
  finished : (c : Option Count) → CountRun k [] c c
  going_on :
      {c c' c'' : Option Count} (r : Request) (rs : List Request)
      → CountStep k r.call c c'
      → CountRun k rs c' c''
      → CountRun k (r ∷ rs) c c''

-- No session has an identifier that is still to be given.
abbrev pub Given : Db → Type 0
Given db = (k : ℕ) → db.next_id ≤ k → db.sessions k ≡ none

open_status : (s : InventoryStatus) → is_open s ≡ true → s ≡ InventoryStatus.open_
open_status InventoryStatus.open_ e = refl
open_status InventoryStatus.closed e = absurd (ground arith)
open_status InventoryStatus.cancelled e = absurd (ground arith)

scan_result-Verdict :
    (current : Option InventoryItem) (body : ScanInventory) (a : Asset)
    → Verdict body.found (option_map result_of current) (scan_result current body a)
scan_result-Verdict current body a = elim (Bool-cases body.found) [
  | inr unseen ↦
      subst (λ b. Verdict b (option_map result_of current) (scan_result current body a))
        (sym unseen) (sym (scan_result-unseen current body a unseen))
  | inl seen ↦
      subst (λ b. Verdict b (option_map result_of current) (scan_result current body a)) (sym seen)
        (seen_Verdict current body a seen)
]
  where
    seen_Verdict :
        (current : Option InventoryItem) (body : ScanInventory) (a : Asset)
        → body.found ≡ true
        → Verdict true (option_map result_of current) (scan_result current body a)
    seen_Verdict none body a seen = sym (scan_result-new body a seen)
    seen_Verdict (some i) body a seen = scan_result-expected i body a seen

Change-CountStep :
    (k : ℕ) (s : InventorySession) (call : Call) (new : Option InventorySession)
    → Change k s call new
    → CountStep k call (some (count_of s)) (option_map count_of new)
Change-CountStep k s _ _ (scan_of env body actor n a going) =
    marks body _ _ n (scan_result (item_of n s.items) body a) (open_status s.status going)
      (open_status s.status going) (scan_result-Verdict (item_of n s.items) body a)
      (λ m. board-scan body a env.now actor n m s.items)
Change-CountStep k s _ _ (close_at now going) =
    shuts _ _ (open_status s.status going) refl (λ m. board-close m s.items)
Change-CountStep k s _ _ (cancel_at now going) =
    gives_up _ _ (open_status s.status going) refl (λ m. refl)
Change-CountStep k s _ _ removal = forgets _

count_at-away :
    (db db' : Db) (k j : ℕ) (new : Option InventorySession)
    → db'.sessions ≡ put_session db.sessions j new
    → (k == j) ≡ false
    → count_at k db ≡ count_at k db'
count_at-away db db' k j new there away =
    let at = ap (λ (f : ℕ → Option InventorySession). f k) there in ground arith

count_at-same :
    (db db' : Db) (k j : ℕ) (new : Option InventorySession)
    → db'.sessions ≡ put_session db.sessions j new
    → (k == j) ≡ true
    → option_map count_of new ≡ count_at k db'
count_at-same db db' k j new there here =
    let at = ap (λ (f : ℕ → Option InventorySession). f k) there in ground arith

Opened-CountStep :
    (k : ℕ) (call : Call) (db db' : Db)
    → Given db
    → Opened call db db'
    → CountStep k call (count_at k db) (count_at k db')
Opened-CountStep k call db db' g o =
    let rows = assets_below db.next_id db.asset (in_scope o.env o.body o.department) in
    let made = new_session o.env o.body o.department o.actor db.next_id rows in
    elim (Bool-cases (k == db.next_id)) [
      | inr away ↦
          subst (CountStep k call (count_at k db))
            (count_at-away db db' k db.next_id _ o.sessions away) (stays call (count_at k db))
      | inl here ↦
          let equal = (==_iff k db.next_id).0 here in
          subst (λ c. CountStep k call c (count_at k db'))
            (sym (ap (option_map count_of) (g k (ground arith))))
            (subst (CountStep k call none) (count_at-same db db' k db.next_id _ o.sessions here) (
              subst (λ x. CountStep k x none (some (count_of made))) (sym o.by)
                (opens o.body _ refl (λ n. board-open n rows))))
    ]

Changed-CountStep :
    (k j : ℕ) (s : InventorySession) (call : Call) (new : Option InventorySession) (db db' : Db)
    → Changed call db db' j s new
    → CountStep k call (count_at k db) (count_at k db')
Changed-CountStep k j s call new db db' c = elim (Bool-cases (k == j)) [
  | inr away ↦
      subst (CountStep k call (count_at k db)) (count_at-away db db' k j new c.there away)
        (stays call (count_at k db))
  | inl here ↦
      let equal : k ≡ j = (==_iff k j).0 here in
      subst (λ x. CountStep k call x (count_at k db'))
        (sym (ap (option_map count_of) (subst (λ m. db.sessions m ≡ some s) (sym equal) c.here)))
        (subst (CountStep k call (some (count_of s))) (count_at-same db db' k j new c.there here) (
          subst (λ n. CountStep n call (some (count_of s)) (option_map count_of new)) (sym equal)
            (Change-CountStep j s call new c.change)))
]

Opened-Given : (call : Call) (db db' : Db) → Given db → Opened call db db' → Given db'
Opened-Given call db db' g o k above =
    let next = o.next in
    let at = ap (λ (f : ℕ → Option InventorySession). f k) o.sessions in
    let old = g k (omega (arith, above, next)) in
    elim (Bool-cases (k == db.next_id)) [
      | inr away ↦ ground arith
      | inl here ↦
          let equal = (==_iff k db.next_id).0 here in absurd (omega (arith, equal, above, next))
    ]

Changed-Given :
    (j : ℕ) (s : InventorySession) (call : Call) (new : Option InventorySession) (db db' : Db)
    → Given db
    → Changed call db db' j s new
    → Given db'
Changed-Given j s call new db db' g c k above =
    let old = g k (subst (λ n. n ≤ k) c.next above) in
    let at = ap (λ (f : ℕ → Option InventorySession). f k) c.there in
    elim (Bool-cases (k == j)) [
      | inr away ↦ ground arith
      | inl here ↦
          let equal = subst (λ m. db.sessions m ≡ some s) (sym ((==_iff k j).0 here)) c.here in
          absurd (ground arith)
    ]

-- One request is one step of the count that the session `k` stands for.
step-CountStep :
    (k : ℕ) (r : Request) (db : Db)
    → Given db
    → CountStep k r.call (count_at k db) (count_at k (step r db)) × Given (step r db)
step-CountStep k r db g =
    step-keeps (λ db'. CountStep k r.call (count_at k db) (count_at k db') × Given db') db
      (stays r.call (count_at k db), g) r
      (λ db' o. (Opened-CountStep k r.call db db' g o, Opened-Given r.call db db' g o))
      (λ db' j s new c.
        (Changed-CountStep k j s r.call new db db' c, Changed-Given j s r.call new db db' g c))

-- If no session has an identifier that is still to be given, then any history of requests on stock
-- counts is, for the session of any identifier, a run of an abstract count with one step for each
-- request. Each request leaves the count as it is or makes the step of its kind: an opening makes
-- the count, with assets that wait; a scan of it marks one asset while it is open, as MISSING if not
-- seen, and otherwise as UNEXPECTED exactly if the board has nothing on it; its closing and its
-- cancellation take it out of the open status, and the closing changes the board at the pending
-- assets alone; and only its deletion forgets it.
pub run-CountRun :
    (k : ℕ) (rs : List Request) (db : Db)
    → Given db
    → CountRun k rs (count_at k db) (count_at k (run rs db))
unfolding run
run-CountRun k [] db g = finished (count_at k db)
run-CountRun k (r ∷ rs) db g =
    let (one, given) = step-CountStep k r db g in
    going_on r rs one (run-CountRun k rs (step r db) given)
