-- ===== src/Risks/Weights.antt =====
-- The level of a risk grows with its likelihood and with its impact.
use asset_it.Prelude.{
  ℕ, zero, suc, ◌*◌, ◌≤◌, ◌<◌, Bool, true, not, ◌&&◌, ◌||◌, leb, ◌≡◌, refl, ok, err, Result,
  Result-cases, inl, inr, all_below, all_below-true, arith,
}
use native.Mathlib.Nat.{mul-le-mul}
use asset_it.Risks.Criteria.{RiskLevel, ScoreError, RiskScore, risk_level_for, calculate_risk_score}

abbrev pub rank : RiskLevel → ℕ
rank RiskLevel.low = 0
rank RiskLevel.medium = 1
rank RiskLevel.high = 2
rank RiskLevel.critical = 3

-- The rank of a score, or 4 for an error.
abbrev rank_of : Result ScoreError RiskLevel → ℕ
rank_of (ok level) = rank level
rank_of (err e) = 4

-- On indices from 0: a score there is no error, and no lower score stands above it.
abbrev grows_at : ℕ → ℕ → ℕ → ℕ → Bool
grows_at l i l' i' =
    leb (rank_of (risk_level_for (suc l) (suc i))) 3
    && (not (leb l l' && leb i i')
        || leb (rank_of (risk_level_for (suc l) (suc i)))
            (rank_of (risk_level_for (suc l') (suc i'))))

all_grow :
    all_below 5 (λ l. all_below 5 (λ i. all_below 5 (λ l'. all_below 5 (grows_at l i l')))) ≡ true
unfolding all_below risk_level_for
all_grow = refl

grows : (l i l' i' : ℕ) → l < 5 → i < 5 → l' < 5 → i' < 5 → grows_at l i l' i' ≡ true
grows l i l' i' less_l less_i less_l' less_i' =
    all_below-true 5 (grows_at l i l') i'
      (all_below-true 5 (λ x. all_below 5 (grows_at l i x)) l'
        (all_below-true 5 (λ y. all_below 5 (λ x. all_below 5 (grows_at l y x))) i
          (all_below-true 5
            (λ z. all_below 5 (λ y. all_below 5 (λ x. all_below 5 (grows_at z y x)))) l all_grow
            less_l)
          less_i)
        less_l')
      less_i'

-- A likelihood and an impact from 1 to 5 have a level.
risk_level_for-ok :
    (l i : ℕ) → l < 5 → i < 5 → (level : RiskLevel) × (risk_level_for (suc l) (suc i) ≡ ok level)
risk_level_for-ok l i less_l less_i =
    let fine = grows l i l i less_l less_i less_l less_i in
    elim (Result-cases (risk_level_for (suc l) (suc i))) [
      | inl (level, is) ↦ (level, is)
      | inr (x, is) ↦ absurd (ground arith)
    ]

calculate-ok :
    (l i : ℕ) (level : RiskLevel)
    → l < 5
    → i < 5
    → risk_level_for (suc l) (suc i) ≡ ok level
    → calculate_risk_score (suc l) (suc i) ≡ ok (record { score = suc l * suc i; level = level })
unfolding calculate_risk_score
calculate-ok l i level less_l less_i is = ground arith

-- A likelihood and an impact from 1 to 5 have a score, and where both are at least those of another
-- such pair, neither the score nor the level is below the other one's.
pub calculate_risk_score-grows :
    (l i l' i' : ℕ)
    → 1 ≤ l
    → l ≤ l'
    → l' ≤ 5
    → 1 ≤ i
    → i ≤ i'
    → i' ≤ 5
    → (a : RiskScore) × (b : RiskScore) × (calculate_risk_score l i ≡ ok a)
      × (calculate_risk_score l' i' ≡ ok b)
      × (a.score ≤ b.score)
      × (rank a.level ≤ rank b.level)
calculate_risk_score-grows zero i l' i' least up top least_i up_i top_i =
    absurd (omega (arith, least))
calculate_risk_score-grows (suc l) zero l' i' least up top least_i up_i top_i =
    absurd (omega (arith, least_i))
calculate_risk_score-grows (suc l) (suc i) zero i' least up top least_i up_i top_i =
    absurd (omega (arith, up))
calculate_risk_score-grows (suc l) (suc i) (suc l') zero least up top least_i up_i top_i =
    absurd (omega (arith, up_i))
calculate_risk_score-grows (suc l) (suc i) (suc l') (suc i') least up top least_i up_i top_i =
    let (a, low) = risk_level_for-ok l i (omega arith) (omega arith) in
    let (b, high) = risk_level_for-ok l' i' (omega arith) (omega arith) in
    let order = grows l i l' i' (omega arith) (omega arith) (omega arith) (omega arith) in
    (
      record { score = suc l * suc i; level = a },
      record { score = suc l' * suc i'; level = b },
      calculate-ok l i a (omega arith) (omega arith) low,
      calculate-ok l' i' b (omega arith) (omega arith) high,
      mul-le-mul up up_i,
      ground arith,
    )
