-- ===== src/Lifecycle.antt =====
-- apps/api/src/modules/lifecycle: handing assets over, taking them back, moving and repairing them.
pub mod Rules
pub mod Guards
pub mod Issue
pub mod Batch
pub mod Recall
pub mod Relocation
pub mod Repair
pub mod Calls
pub mod Diagram
pub mod Custody
pub mod Outcomes
