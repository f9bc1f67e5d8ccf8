-- ===== src/Risks.antt =====
-- The scoring of risks (apps/api/src/modules/risks).
pub mod Criteria
pub mod Weights
