-- ===== src/Store.antt =====
-- The tables, rows and exceptions that the asset services share (apps/api/prisma).
pub mod Enums
pub mod Rows
pub mod DisposalRows
pub mod InventoryRows
pub mod Exceptions
pub mod Tables
pub mod Ledger
