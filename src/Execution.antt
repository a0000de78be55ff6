-- ===== src/Execution.antt =====
-- workflow/execution_service.py: durable, idempotent execution of business operations.
pub mod Api
pub mod Prepare
pub mod Execute
pub mod Clock
pub mod Schedule
pub mod Cancel
pub mod Dispatch
pub mod Recorded
pub mod AtMostOnce
pub mod Settling
pub mod Outcomes
pub mod Kept
pub mod Replayed
pub mod Untouched
pub mod Gate
pub mod Ends
pub mod Queue
pub mod Scheduling
