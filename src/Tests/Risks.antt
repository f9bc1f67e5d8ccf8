-- ===== src/Tests/Risks.antt =====
-- The theorem on the scoring of risks at two scores.
use asset_it.Prelude.{◌≡◌, ◌≤◌, ok, arith}
use asset_it.Risks.Criteria.{RiskScore, calculate_risk_score}
use asset_it.Risks.Weights.{rank, calculate_risk_score-grows}

calculate_risk_score-grows_example :
    (a : RiskScore) × (b : RiskScore) × (calculate_risk_score 2 3 ≡ ok a)
    × (calculate_risk_score 2 5 ≡ ok b)
    × (a.score ≤ b.score)
    × (rank a.level ≤ rank b.level)
calculate_risk_score-grows_example =
    calculate_risk_score-grows 2 3 2 5 (omega arith) (omega arith) (omega arith) (omega arith)
      (omega arith) (omega arith)
