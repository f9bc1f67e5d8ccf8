-- ===== src/Incidents.antt =====
-- apps/api/src/modules/incidents: incident records, who is responsible for them, and their workflow.
pub mod Rows
pub mod Rules
pub mod Desk
pub mod Names
pub mod Intake
pub mod Revision
pub mod Progress
pub mod Removal
pub mod Moves
pub mod Calls
pub mod Records
pub mod Ownership
pub mod Responsible
pub mod Owned
pub mod Staffing
pub mod Closing
