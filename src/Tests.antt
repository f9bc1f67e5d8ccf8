-- ===== src/Tests.antt =====
-- Concrete inputs: the theorems applied, and runs of the definitions.
mod Samples
mod Lifecycle
mod Disposals
mod Stranding
mod Netmon
mod Incidents
mod Inventory
mod Renewals
mod Risks
