-- ===== src/Db.antt =====
-- The database: the tables as rows of records, and transactions.
pub mod Models
pub mod Session
pub mod Rows
