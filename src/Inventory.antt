-- ===== src/Inventory.antt =====
-- Stock counts (apps/api/src/modules/inventory).
pub mod Rules
pub mod Guards
pub mod Opening
pub mod Scanning
pub mod Ending
pub mod Calls
pub mod Changes
pub mod Judging
pub mod Items
pub mod Sessions
pub mod Ended
pub mod Summary
pub mod Board
pub mod Refinement
pub mod Rescan
