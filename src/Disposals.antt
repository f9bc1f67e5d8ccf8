-- ===== src/Disposals.antt =====
-- apps/api/src/modules/disposals: the approval and execution of asset disposals.
pub mod Rules
pub mod Guards
pub mod Drafting
pub mod Approval
pub mod Execution
pub mod Removal
pub mod Moves
pub mod Loops
pub mod Effects
pub mod Settling
pub mod Calls
pub mod Soundness
pub mod Drafts
pub mod Steps
pub mod Booking
pub mod Histories
pub mod Outcomes
pub mod Stranding
