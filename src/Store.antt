-- ===== src/Store.antt =====
-- internal/store: the tables that the coordinator keeps, one module to a group of tables.
pub mod Keys
pub mod Rows
pub mod Claims
pub mod Tasks
pub mod Hazards
