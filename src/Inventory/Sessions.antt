-- ===== src/Inventory/Sessions.antt =====
-- The sessions of stock counts over whole histories of requests.
use asset_it.Prelude.{
  ℕ, zero, suc, ◌≤◌, Bool, true, false, ◌==◌, ==_iff, ◌≡◌, ◌≢◌, refl, ap, subst, ◌∙◌, ◌⊎◌, Option,
  none, some, List, [], ◌∷◌, map, All, includes, distinct, inl, inr, Bool-cases, arith,
}
use asset_it.Store.Rows.{Asset}
use asset_it.Store.InventoryRows.{InventoryResult, InventoryItem}
use asset_it.Inventory.Guards.{assets_below, put_row}
use asset_it.Inventory.Opening.{expected_item}
use asset_it.Inventory.Ending.{given_up}
use asset_it.Inventory.Rules.{same_result}
use asset_it.Store.InventoryRows.{InventorySession, InventoryStatus}
use asset_it.Store.Tables.{Db}
use asset_it.Inventory.Guards.{put_session}
use asset_it.Inventory.Opening.{in_scope}
use asset_it.Inventory.Calls.{Call, Request, step, run}
use asset_it.Inventory.Changes.{Change, scan_of, close_at, cancel_at, removal, step-keeps}
use asset_it.Inventory.Items.{asset_ids, SoundItems, scan-SoundItems}
use asset_it.Inventory.Judging.{Means, Judged}

same_result-pending :
    (r : InventoryResult)
    → same_result r InventoryResult.pending ≡ true
    → r ≡ InventoryResult.pending
same_result-pending InventoryResult.pending e = refl
same_result-pending InventoryResult.matched e = absurd (ground arith)
same_result-pending InventoryResult.missing e = absurd (ground arith)
same_result-pending InventoryResult.unexpected e = absurd (ground arith)
same_result-pending InventoryResult.location_mismatch e = absurd (ground arith)
same_result-pending InventoryResult.custodian_mismatch e = absurd (ground arith)

given_up-missing :
    (i : InventoryItem)
    → same_result i.result InventoryResult.pending ≡ true
    → record i { result = InventoryResult.missing } ≡ given_up i
given_up-missing i waits = ground arith

given_up-same :
    (i : InventoryItem) → same_result i.result InventoryResult.pending ≡ false → i ≡ given_up i
given_up-same i counted = ground arith

given_up-Judged : (i : InventoryItem) → Judged i → Judged (given_up i)
given_up-Judged i h = elim (Bool-cases (same_result i.result InventoryResult.pending)) [
  | inl waits ↦
      let unseen = subst (λ r. Means r i) (same_result-pending i.result waits) h in
      subst Judged (given_up-missing i waits) unseen.0
  | inr counted ↦ subst Judged (given_up-same i counted) h
]

abbrev pub Settled : InventoryItem → Type 0
Settled i = i.result ≢ InventoryResult.pending

missing-Settled : (i : InventoryItem) → Settled (record i { result = InventoryResult.missing })
missing-Settled i e = absurd (ground arith)

counted-Settled :
    (i : InventoryItem) → same_result i.result InventoryResult.pending ≡ false → Settled i
counted-Settled i counted e =
    let t = ap (λ r. same_result r InventoryResult.pending) e in absurd (ground arith)

given_up-Settled : (i : InventoryItem) → Settled (given_up i)
given_up-Settled i = elim (Bool-cases (same_result i.result InventoryResult.pending)) [
  | inl waits ↦ subst Settled (given_up-missing i waits) (missing-Settled i)
  | inr counted ↦ subst Settled (given_up-same i counted) (counted-Settled i counted)
]

close-Settled : (items : List InventoryItem) → All Settled (map given_up items)
close-Settled [] = tt
close-Settled (i ∷ rest) = (given_up-Settled i, close-Settled rest)

close-Judged : (items : List InventoryItem) → All Judged items → All Judged (map given_up items)
close-Judged [] h = tt
close-Judged (i ∷ rest) (this, all) = (given_up-Judged i this, close-Judged rest all)

close-ids : (items : List InventoryItem) → asset_ids (map given_up items) ≡ asset_ids items
close-ids [] = refl
close-ids (i ∷ rest) = let later = close-ids rest in ground arith

open-Judged : (rows : List (ℕ × Asset)) → All Judged (map expected_item rows)
open-Judged [] = tt
open-Judged (row ∷ rest) = (((refl, refl), refl), open-Judged rest)

-- Rows with identifiers below `n`, each once.
abbrev Below : ℕ → List (ℕ × Asset) → Type 0
Below n rows =
    (distinct (asset_ids (map expected_item rows)) ≡ true)
    × ((m : ℕ) → n ≤ m → includes m (asset_ids (map expected_item rows)) ≡ false)

put_row-Below :
    (k : ℕ) (p : Asset → Bool) (o : Option Asset) (rows : List (ℕ × Asset))
    → Below k rows
    → Below (suc k) (put_row k p o rows)
put_row-Below k p none rows (once, fresh) = (once, λ m above. fresh m (omega arith))
put_row-Below k p (some a) rows (once, fresh) =
    let new = fresh k (omega arith) in
    elim (Bool-cases (p a)) [
      | inl wanted ↦ (ground arith, λ m above. let old = fresh m (omega arith) in ground arith)
      | inr left_out ↦ (ground arith, λ m above. let old = fresh m (omega arith) in ground arith)
    ]

assets_below-Below :
    (n : ℕ) (f : ℕ → Option Asset) (p : Asset → Bool) → Below n (assets_below n f p)
unfolding assets_below
assets_below-Below zero f p = (refl, λ m above. refl)
assets_below-Below (suc k) f p =
    put_row-Below k p (f k) (assets_below k f p) (assets_below-Below k f p)

-- One item for an asset, each judged, and none left pending once the session is closed.
pub record SoundSession (s : InventorySession) : Type 0 where
  pub items : SoundItems s.items
  pub done : s.status ≡ InventoryStatus.closed → All Settled s.items

pub record SoundCounts (db : Db) : Type 0 where
  pub sessions : (k : ℕ) (s : InventorySession) → db.sessions k ≡ some s → SoundSession s

abbrev SoundOption : Option InventorySession → Type 0
SoundOption none = Unit
SoundOption (some s) = SoundSession s

Change-SoundOption :
    (k : ℕ) (s : InventorySession) (call : Call) (new : Option InventorySession)
    → Change k s call new
    → SoundSession s
    → SoundOption new
Change-SoundOption k s _ _ (scan_of env body actor n a going) h = record {
  items = scan-SoundItems body a env.now actor n s.items h.items;
  done = λ e. absurd (ground arith);
}
Change-SoundOption k s _ _ (close_at now going) h = record {
  items = record {
    once = ap distinct (close-ids s.items) ∙ h.items.once;
    judged = close-Judged s.items h.items.judged;
  };
  done = λ e. close-Settled s.items;
}
Change-SoundOption k s _ _ (cancel_at now going) h = record {
  items = h.items;
  done = λ e. absurd (ground arith);
}
Change-SoundOption k s _ _ removal h = tt

pub put_session-cases :
    (db db' : Db) (k j : ℕ) (new : Option InventorySession) (x : InventorySession)
    → db'.sessions ≡ put_session db.sessions k new
    → db'.sessions j ≡ some x
    → ((j ≡ k) × (new ≡ some x)) ⊎ ((j ≢ k) × (db.sessions j ≡ some x))
put_session-cases db db' k j new x there found =
    let at = ap (λ (f : ℕ → Option InventorySession). f j) there in
    elim (Bool-cases (j == k)) [
      | inl here ↦ inl ((==_iff j k).0 here, ground arith)
      | inr away ↦ inr (ground arith, ground arith)
    ]

put-SoundCounts :
    (db db' : Db) (k : ℕ) (new : Option InventorySession)
    → SoundCounts db
    → db'.sessions ≡ put_session db.sessions k new
    → SoundOption new
    → SoundCounts db'
put-SoundCounts db db' k new h there sound = record {
  sessions = λ j x found. elim (put_session-cases db db' k j new x there found) [
    | inl here ↦ subst SoundOption here.1 sound
    | inr old ↦ h.sessions j x old.1
  ];
}

step-SoundCounts : (r : Request) (db : Db) → SoundCounts db → SoundCounts (step r db)
step-SoundCounts r db h =
    step-keeps SoundCounts db h r
      (λ db' o. put-SoundCounts db db' db.next_id _ h o.sessions (record {
        items = record {
          once = (assets_below-Below db.next_id db.asset (in_scope o.env o.body o.department)).0;
          judged =
              open-Judged (assets_below db.next_id db.asset (in_scope o.env o.body o.department));
        };
        done = λ e. absurd (ground arith);
      }))
      (λ db' k s new c.
        put-SoundCounts db db' k new h c.there
          (Change-SoundOption k s r.call new c.change (h.sessions k s c.here)))

-- If it is so before, then after any history of requests on stock counts every session has one item
-- at most for an asset; a closed session has no pending item; and the result of an item is what was
-- seen against the book value: MATCHED says that holder and place agree, LOCATION_MISMATCH that the
-- place alone differs, CUSTODIAN_MISMATCH that the holder differs, PENDING that nobody scanned it,
-- MISSING that nothing was seen, UNEXPECTED that the item has no book value.
pub run-SoundCounts : (rs : List Request) (db : Db) → SoundCounts db → SoundCounts (run rs db)
unfolding run
run-SoundCounts [] db h = h
run-SoundCounts (r ∷ rs) db h = run-SoundCounts rs (step r db) (step-SoundCounts r db h)
