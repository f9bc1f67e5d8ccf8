-- ===== src/Risks/Criteria.antt =====
-- The matrix of apps/api/src/modules/risks/risk-criteria.ts and `calculateRiskScore` of risks.rules.ts.
-- Likelihood and impact are numbers from 0 on: an input that is negative or not whole fails the same
-- tests.
use asset_it.Prelude.{
  ℕ, ◌*◌, ◌||◌, ◌==◌, ltb, Option, none, some, option_bind, List, [], ◌∷◌, Result, ok, err,
  if◌then◌else◌,
}

pub data RiskLevel : Type 0 where
  low medium high critical : RiskLevel

abbrev pub Row : Type 0
Row = List (ℕ × RiskLevel)

-- `row[key]`
abbrev pub look_up : {A : Type 0} → ℕ → List (ℕ × A) → Option A
look_up key [] = none
look_up key (entry ∷ rest) =
    let later = look_up key rest in if entry.0 == key then some entry.1 else later

abbrev pub levels : RiskLevel → RiskLevel → RiskLevel → RiskLevel → RiskLevel → Row
levels a b c d e = (1, a) ∷ (2, b) ∷ (3, c) ∷ (4, d) ∷ (5, e) ∷ []

-- `matrix[impact][likelihood]`
abbrev pub matrix : List (ℕ × Row)
matrix =
    (
      5,
      levels RiskLevel.high RiskLevel.high RiskLevel.critical RiskLevel.critical RiskLevel.critical,
    )
    ∷ (
      4,
      levels RiskLevel.medium RiskLevel.high RiskLevel.high RiskLevel.critical RiskLevel.critical,
    )
    ∷ (3, levels RiskLevel.low RiskLevel.medium RiskLevel.medium RiskLevel.high RiskLevel.high)
    ∷ (2, levels RiskLevel.low RiskLevel.low RiskLevel.medium RiskLevel.medium RiskLevel.high)
    ∷ (1, levels RiskLevel.low RiskLevel.low RiskLevel.low RiskLevel.low RiskLevel.medium)
    ∷ []

pub data ScoreError : Type 0 where
  not_from_1_to_5 : ScoreError

abbrev pub or_error : Option RiskLevel → Result ScoreError RiskLevel
or_error none = err not_from_1_to_5
or_error (some level) = ok level

unfoldable pub risk_level_for : ℕ → ℕ → Result ScoreError RiskLevel
risk_level_for likelihood impact =
    or_error (option_bind (look_up impact matrix) (look_up likelihood))

pub record RiskScore : Type 0 where
  pub score : ℕ
  pub level : RiskLevel

abbrev pub scored : ℕ → Result ScoreError RiskLevel → Result ScoreError RiskScore
scored score (ok level) = ok (record { score = score; level = level })
scored score (err e) = err e

unfoldable pub calculate_risk_score : ℕ → ℕ → Result ScoreError RiskScore
calculate_risk_score likelihood impact =
    if ltb likelihood 1 || ltb 5 likelihood || ltb impact 1 || ltb 5 impact
    then err not_from_1_to_5
    else scored (likelihood * impact) (risk_level_for likelihood impact)
