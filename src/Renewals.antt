-- ===== src/Renewals.antt =====
-- The seats of licences (apps/api/src/modules/renewals).
pub mod Rows
pub mod Seats
pub mod Histories
