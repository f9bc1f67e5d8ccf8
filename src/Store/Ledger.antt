-- ===== src/Store/Ledger.antt =====
-- A table of rows that are opened once per asset and later closed, newest row first: what its two
-- unique keys give, and how an insertion and a closing change the open row of each asset.
use asset_it.Prelude.{
  ℕ, ◌≤◌, ◌<◌, ◌≡◌, ◌≢◌, refl, ◌∙◌, ap, Bool, true, false, ◌&&◌, none, some, List, [], ◌∷◌, map,
  find, ◌==◌, ==_iff, Bool-cases, inl, inr, if◌then◌else◌, arith,
}

module _ {A : Type 0} (id key : A → ℕ) (opened : A → Bool) where
  -- Identifiers fall along the list, from below `n`.
  abbrev pub Below : ℕ → List A → Type 0
  Below n [] = Unit {0}
  Below n (r ∷ rs) = (id r < n) × Below (id r) rs

  abbrev pub open_at : ℕ → A → Bool
  open_at k r = opened r && key r == k

  abbrev pub open_with_id : ℕ → A → Bool
  open_with_id k r = opened r && id r == k

  -- No key has two open rows.
  abbrev pub OneOpen : List A → Type 0
  OneOpen [] = Unit {0}
  OneOpen (r ∷ rs) = (opened r ≡ true → find (open_at (key r)) rs ≡ none) × OneOpen rs

module _ {A : Type 0} (id key : A → ℕ) (opened : A → Bool) where
  pub Below-mono :
      (m n : ℕ) (rs : List A) → m ≤ n → Below id key opened m rs → Below id key opened n rs
  Below-mono m n [] h b = tt
  Below-mono m n (r ∷ rs) h b = (omega arith, b.1)

  pub find-lt :
      (p : A → Bool) (n : ℕ) (rs : List A) (o : A)
      → Below id key opened n rs
      → find p rs ≡ some o
      → id o < n
  find-lt p n [] o b e = cc
  find-lt p n (r ∷ rs) o b e = elim (Bool-cases (p r)) [
    | inl hit ↦ ground (arith)
    | inr miss ↦ ground (arith, find-lt p (id r) rs o b.1)
  ]

  pub open_at_found :
      (k : ℕ) (rs : List A) (o : A)
      → find (open_at id key opened k) rs ≡ some o
      → (opened o ≡ true) × (key o ≡ k)
  open_at_found k [] o e = cc
  open_at_found k (r ∷ rs) o e = ground (arith, open_at_found k rs o)

  pub find-cons :
      (r : A) (rs : List A) (k : ℕ)
      → opened r ≡ true
      → find (open_at id key opened k) (r ∷ rs)
        ≡ (if key r == k then some r else find (open_at id key opened k) rs)
  find-cons r rs k h = ground arith

  -- The open row with an identifier is the open row of its key.
  pub open_with_id-open_at :
      (k : ℕ) (rs : List A) (o : A)
      → OneOpen id key opened rs
      → find (open_with_id id key opened k) rs ≡ some o
      → find (open_at id key opened (key o)) rs ≡ some o
  open_with_id-open_at k [] o u e = cc
  open_with_id-open_at k (r ∷ rs) o u e =
      ground (arith, open_with_id-open_at k rs o u.1, u.0, ==_iff (key r) (key o))

  module _ (close : A → A) (o : A) (others : (r : A) → id r ≢ id o → close r ≡ r)
      (keeps_id : (r : A) → id (close r) ≡ id r) (same_key : key (close o) ≡ key o)
      (shut : opened (close o) ≡ false) where
    map-close-Below :
        (n : ℕ) (rs : List A) → n ≤ id o → Below id key opened n rs → map close rs ≡ rs
    map-close-Below n [] h b = refl
    map-close-Below n (r ∷ rs) h b =
        cc (others r (omega arith), map-close-Below (id r) rs (omega arith) b.1)

    pub find-close_self :
        (k n : ℕ) (rs : List A)
        → Below id key opened n rs
        → OneOpen id key opened rs
        → find (open_at id key opened k) rs ≡ some o
        → find (open_at id key opened k) (map close rs) ≡ none
    find-close_self k n [] b u e = refl
    find-close_self k n (r ∷ rs) b u e = elim (Bool-cases (open_at id key opened k r)) [
      | inl hit ↦
          let same : r ≡ o = ground arith in
          let below : id r ≤ id o = omega (arith, ap id same) in
          ground (arith, ap close same, ap key same, map-close-Below (id r) rs below b.1, u.0)
      | inr miss ↦
          let later : find (open_at id key opened k) rs ≡ some o = ground arith in
          let lower : id o < id r = find-lt (open_at id key opened k) (id r) rs o b.1 later in
          let kept : close r ≡ r = others r (omega arith) in
          rw kept (rw miss (find-close_self k (id r) rs b.1 u.1 later))
    ]

    pub find-close_ne :
        (k j n : ℕ) (rs : List A)
        → j ≢ k
        → Below id key opened n rs
        → find (open_at id key opened k) rs ≡ some o
        → find (open_at id key opened j) (map close rs) ≡ find (open_at id key opened j) rs
    find-close_ne k j n [] ne b e = refl
    find-close_ne k j n (r ∷ rs) ne b e = elim (Bool-cases (open_at id key opened k r)) [
      | inl hit ↦
          let same : r ≡ o = ground arith in
          let below : id r ≤ id o = omega (arith, ap id same) in
          ground (arith, ap close same, ap key same, map-close-Below (id r) rs below b.1)
      | inr miss ↦
          let later : find (open_at id key opened k) rs ≡ some o = ground arith in
          let lower : id o < id r = find-lt (open_at id key opened k) (id r) rs o b.1 later in
          let kept : close r ≡ r = others r (omega arith) in
          rw kept (ground (arith, find-close_ne k j (id r) rs ne b.1 later))
    ]

    pub Below-close :
        (n : ℕ) (rs : List A) → Below id key opened n rs → Below id key opened n (map close rs)
    Below-close n [] b = tt
    Below-close n (r ∷ rs) b =
        (omega (arith, keeps_id r), rw (keeps_id r) (Below-close (id r) rs b.1))

    pub OneOpen-close :
        (k n : ℕ) (rs : List A)
        → Below id key opened n rs
        → OneOpen id key opened rs
        → find (open_at id key opened k) rs ≡ some o
        → OneOpen id key opened (map close rs)
    OneOpen-close k n [] b u e = tt
    OneOpen-close k n (r ∷ rs) b u e = elim (Bool-cases (open_at id key opened k r)) [
      | inl hit ↦
          let same : r ≡ o = ground arith in
          let below : id r ≤ id o = omega (arith, ap id same) in
          rw (map-close-Below (id r) rs below b.1) ((λ h. cc (ap opened (ap close same))), u.1)
      | inr miss ↦
          let later : find (open_at id key opened k) rs ≡ some o = ground arith in
          let lower : id o < id r = find-lt (open_at id key opened k) (id r) rs o b.1 later in
          let kept : close r ≡ r = others r (omega arith) in
          rw kept (
            (λ h. find-close_ne k (key r) (id r) rs (λ same. cc (u.0 h, later)) b.1 later ∙ u.0 h),
            OneOpen-close k (id r) rs b.1 u.1 later,
          )
    ]
