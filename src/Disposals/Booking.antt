-- ===== src/Disposals/Booking.antt =====
-- The hold of active cases on assets: an asset that an active case lists is RESERVED, and no other
-- active case lists it.
use asset_it.Prelude.{
  ℕ, ◌<◌, true, false, not, ◌&&◌, ◌==◌, ==_iff, ◌≡◌, refl, ◌∙◌, ap, sym, ◌⊎◌, inl, inr, Option,
  some, List, [], ◌∷◌, map, any_below-false, ◌≢◌, Bool-cases, arith,
}
use asset_it.Store.Enums.{StatusCode}
use asset_it.Store.Rows.{Actor, Asset}
use asset_it.Store.DisposalRows.{DisposalItem, DisposalCase}
use asset_it.Store.Tables.{Env, Db}
use asset_it.Disposals.Guards.{is_active, has_asset, holds, held_elsewhere, put_case}
use asset_it.Disposals.Execution.{UpdateSanitization, sanitize_item}
use asset_it.Disposals.Moves.{
  ◌⇒◌, submits, approves, rejects, starts, adds_evidence, sanitizes, completes, cancels,
}
use asset_it.Disposals.Effects.{Moved}

-- The case is active and lists the asset.
abbrev pub Holds : ℕ → DisposalCase → Type 0
Holds j c = (is_active c.status ≡ true) × (has_asset j c.items ≡ true)

pub record Booking (db : Db) : Type 0 where
  pub fresh : (k : ℕ) (c : DisposalCase) → db.cases k ≡ some c → k < db.next_id
  pub held :
      (k j : ℕ) (c : DisposalCase)
      → db.cases k ≡ some c
      → Holds j c
      → (b : Asset) × (db.asset j ≡ some b) × (b.status ≡ StatusCode.reserved)
  pub exclusive :
      (k l j : ℕ) (c d : DisposalCase)
      → db.cases k ≡ some c
      → db.cases l ≡ some d
      → Holds j c
      → Holds j d
      → k ≡ l

sanitize-has_asset :
    (env : Env) (actor : Actor) (body : UpdateSanitization) (item_id j : ℕ)
    (items : List DisposalItem)
    → has_asset j (map (sanitize_item env actor body item_id) items) ≡ has_asset j items
sanitize-has_asset env actor body item_id j [] = refl
sanitize-has_asset env actor body item_id j (i ∷ rest) =
    ground (arith, sanitize-has_asset env actor body item_id j rest)

-- A move changes no item's asset.
⇒-has_asset : {c c' : DisposalCase} (j : ℕ) → c ⇒ c' → has_asset j c'.items ≡ has_asset j c.items
⇒-has_asset j (submits env actor c a b) = refl
⇒-has_asset j (approves env actor note c a b d) = refl
⇒-has_asset j (rejects env actor note c a b d) = refl
⇒-has_asset j (starts env actor note c a) = refl
⇒-has_asset j (adds_evidence actor body row c a) = refl
⇒-has_asset j (sanitizes env actor body item_id tag item c a b d f) =
    sanitize-has_asset env actor body item_id j c.items
⇒-has_asset j (completes env actor body c a b d f) = refl
⇒-has_asset j (cancels env actor note c a) = refl

-- Who is free of other holders is held by no other case.
held_elsewhere-free :
    (db : Db) (id l j : ℕ) (d : DisposalCase)
    → Booking db
    → held_elsewhere db id j ≡ false
    → db.cases l ≡ some d
    → Holds j d
    → l ≡ id
unfolding held_elsewhere
held_elsewhere-free db id l j d b free found h =
    let alone : (not (l == id) && holds j (db.cases l)) ≡ false =
      any_below-false db.next_id (λ x. not (x == id) && holds j (db.cases x)) l free
        (b.fresh l d found) in
    let busy : holds j (db.cases l) ≡ true = ap (holds j) found ∙ ground (arith, h.0, h.1) in
    ground arith

-- A case of the new table is the one that moved, or one of the old table.
pub put_case-cases :
    (db db' : Db) (id k : ℕ) (c' d : DisposalCase)
    → db'.cases ≡ put_case db.cases id c'
    → db'.cases k ≡ some d
    → ((k ≡ id) × (c' ≡ d)) ⊎ ((k ≢ id) × (db.cases k ≡ some d))
put_case-cases db db' id k c' d there found =
    let at : db'.cases k ≡ put_case db.cases id c' k =
      ap (λ (f : ℕ → Option DisposalCase). f k) there in
    elim (Bool-cases (k == id)) [
      | inl here ↦ inl ((==_iff k id).0 here, ground arith)
      | inr away ↦ inr (ground arith, ground arith)
    ]

module _ (db db' : Db) (id : ℕ) (c c' : DisposalCase) (b : Booking db)
    (m : Moved db db' id c c') where
  was_listed : (j : ℕ) → has_asset j c'.items ≡ true → has_asset j c.items ≡ true
  was_listed j h = sym (⇒-has_asset j m.move) ∙ h

  -- Another case's asset is not the moving case's.
  apart :
      (l j : ℕ) (d : DisposalCase)
      → db.cases l ≡ some d
      → l ≢ id
      → Holds j d
      → is_active c'.status ≡ true
      → has_asset j c.items ≡ false
  apart l j d found away h active = elim (Bool-cases (has_asset j c.items)) [
    | inr out ↦ out
    | inl listed ↦ elim (m.holding active) [
      | inl keeps ↦ absurd (away (b.exclusive l id j d c found m.here h (keeps.0, listed)))
      | inr takes ↦ absurd (away (held_elsewhere-free db id l j d b (takes j listed).0 found h))
    ]
  ]

  untouched :
      (l j : ℕ) (d : DisposalCase)
      → db.cases l ≡ some d
      → l ≢ id
      → Holds j d
      → db'.asset j ≡ db.asset j
  untouched l j d found away h = elim (Bool-cases (is_active c'.status)) [
    | inl active ↦ m.outside j (apart l j d found away h active)
    | inr over ↦ elim (Bool-cases (is_active c.status)) [
      | inr idle ↦ ap (λ (f : ℕ → Option Asset). f j) (m.idle idle over)
      | inl busy ↦ elim (Bool-cases (has_asset j c.items)) [
        | inr out ↦ m.outside j out
        | inl listed ↦ absurd (away (b.exclusive l id j d c found m.here h (busy, listed)))
      ]
    ]
  ]

  own :
      (j : ℕ) → Holds j c' → (x : Asset) × (db'.asset j ≡ some x) × (x.status ≡ StatusCode.reserved)
  own j h = elim (m.holding h.0) [
    | inl keeps ↦
        let (x, there, s) = b.held id j c m.here (keeps.0, was_listed j h.1) in
        (x, ap (λ (f : ℕ → Option Asset). f j) keeps.1 ∙ there, s)
    | inr takes ↦ let (free, x, there, s) = takes j (was_listed j h.1) in (x, there, s)
  ]

  clash : (l j : ℕ) (d : DisposalCase) → db.cases l ≡ some d → l ≢ id → Holds j d → ¬ Holds j c'
  clash l j d found away h g =
      let out = apart l j d found away h g.0 in let listed = was_listed j g.1 in ground arith

  pub Booking-Moved : Booking db'
  Booking-Moved = record {
    fresh = λ k d found. elim (put_case-cases db db' id k c' d m.there found) [
      | inl here ↦ omega (arith, here.0, b.fresh id c m.here, m.grows)
      | inr old ↦ omega (arith, b.fresh k d old.1, m.grows)
    ];
    held = λ k j d found h. elim (put_case-cases db db' id k c' d m.there found) [
      | inl here ↦ own j (rw here.1 h)
      | inr old ↦
          let (x, there, s) = b.held k j d old.1 h in (x, untouched k j d old.1 old.0 h ∙ there, s)
    ];
    exclusive = λ k l j d f at_k at_l h g. elim (put_case-cases db db' id k c' d m.there at_k) [
      | inl x ↦ elim (put_case-cases db db' id l c' f m.there at_l) [
        | inl y ↦ omega (arith, x.0, y.0)
        | inr y ↦ absurd (clash l j f y.1 y.0 g (rw x.1 h))
      ]
      | inr x ↦ elim (put_case-cases db db' id l c' f m.there at_l) [
        | inl y ↦ absurd (clash k j d x.1 x.0 h (rw y.1 g))
        | inr y ↦ b.exclusive k l j d f x.1 y.1 h g
      ]
    ];
  }
