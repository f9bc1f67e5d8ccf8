-- ===== src/Inventory/Ended.antt =====
-- What becomes of a session that is closed or cancelled.
use asset_it.Prelude.{
  ℕ, ◌<◌, true, false, ◌==◌, ==_iff, ◌≡◌, refl, ap, sym, subst, ◌∙◌, ◌⊎◌, inl, inr, Option, none,
  some, List, [], ◌∷◌, Bool-cases, arith,
}
use asset_it.Store.InventoryRows.{InventorySession}
use asset_it.Store.Tables.{Db}
use asset_it.Inventory.Guards.{is_open, put_session}
use asset_it.Inventory.Calls.{Call, Request, step, run}
use asset_it.Inventory.Changes.{
  Change, scan_of, close_at, cancel_at, removal, Opened, Changed, step-keeps,
}

-- The session `k`, whose identifier was given out, is `s` or has been deleted.
pub record Kept (k : ℕ) (s : InventorySession) (db : Db) : Type 0 where
  pub given : k < db.next_id
  pub same : (db.sessions k ≡ some s) ⊎ (db.sessions k ≡ none)

Change-ended :
    (k : ℕ) (s : InventorySession) (call : Call) (new : Option InventorySession)
    → Change k s call new
    → is_open s.status ≡ false
    → new ≡ none
Change-ended k s _ _ (scan_of env body actor n a going) over = absurd (ground arith)
Change-ended k s _ _ (close_at now going) over = absurd (ground arith)
Change-ended k s _ _ (cancel_at now going) over = absurd (ground arith)
Change-ended k s _ _ removal over = refl

put_session-away :
    (f : ℕ → Option InventorySession) (k j : ℕ) (new : Option InventorySession)
    → (k == j) ≡ false
    → put_session f j new k ≡ f k
put_session-away f k j new away = ground arith

put_session-same :
    (f : ℕ → Option InventorySession) (k j : ℕ) (new : Option InventorySession)
    → (k == j) ≡ true
    → put_session f j new k ≡ new
put_session-same f k j new here = ground arith

Opened-Kept :
    (k : ℕ) (s : InventorySession) (call : Call) (db db' : Db)
    → Opened call db db'
    → Kept k s db
    → Kept k s db'
Opened-Kept k s call db db' o h =
    let below = h.given in
    let next = o.next in
    let other =
      ap (λ (f : ℕ → Option InventorySession). f k) o.sessions
      ∙ put_session-away db.sessions k db.next_id _ (ground arith) in
    record {
      given = omega (arith, below, next);
      same = elim h.same [ inl same ↦ inl (other ∙ same) | inr gone ↦ inr (other ∙ gone) ];
    }

Changed-Kept :
    (k j : ℕ) (s x : InventorySession) (call : Call) (new : Option InventorySession) (db db' : Db)
    → is_open s.status ≡ false
    → Changed call db db' j x new
    → Kept k s db
    → Kept k s db'
Changed-Kept k j s x call new db db' over c h =
    let below = h.given in
    let next = c.next in
    let at = ap (λ (f : ℕ → Option InventorySession). f k) c.there in
    record {
      given = omega (arith, below, next);
      same = elim (Bool-cases (k == j)) [
        | inr away ↦
            let other = at ∙ put_session-away db.sessions k j new away in
            elim h.same [ inl same ↦ inl (other ∙ same) | inr gone ↦ inr (other ∙ gone) ]
        | inl here ↦
            let there = subst (λ m. db.sessions m ≡ some x) (sym ((==_iff k j).0 here)) c.here in
            elim h.same [
              | inr gone ↦ absurd (ground arith)
              | inl same ↦ inr (
                  at
                  ∙ put_session-same db.sessions k j new here
                  ∙ Change-ended j x call new c.change
                      (let equal = sym same ∙ there in ground arith))
            ]
      ];
    }

step-Kept :
    (k : ℕ) (s : InventorySession) (r : Request) (db : Db)
    → is_open s.status ≡ false
    → Kept k s db
    → Kept k s (step r db)
step-Kept k s r db over h =
    step-keeps (Kept k s) db h r (λ db' o. Opened-Kept k s r.call db db' o h)
      (λ db' j x new c. Changed-Kept k j s x r.call new db db' over c h)

-- Once a session whose identifier was given out is closed or cancelled, it is, after any history of
-- requests on stock counts, the same to the last item, or deleted: no request changes it, and none
-- opens another one under its identifier.
pub run-Kept :
    (k : ℕ) (s : InventorySession) (rs : List Request) (db : Db)
    → is_open s.status ≡ false
    → Kept k s db
    → Kept k s (run rs db)
unfolding run
run-Kept k s [] db over h = h
run-Kept k s (r ∷ rs) db over h = run-Kept k s rs (step r db) over (step-Kept k s r db over h)
