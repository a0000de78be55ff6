-- ===== src/Replies.antt =====
-- The messages that the workflow stores for a customer, with their rows of the outbox. A `select`
-- without an order takes the rows in the order of the table.
pub mod Messages
pub mod Services
pub mod Created
pub mod Clarified
pub mod Counts
pub mod Sparing
pub mod Summaries
pub mod Asking
pub mod Once
