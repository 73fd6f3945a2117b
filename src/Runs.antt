-- ===== src/Runs.antt =====
-- Runs of a digest: their rows (models/digest_run.py), the statements that change them
-- (repositories/run_state_repository.py) and the worker's lease (radar/lease.py).
pub mod Model
pub mod State
pub mod Rows
pub mod Feedback
pub mod Retry
pub mod Lease
pub mod Lifecycle
pub mod Ending
pub mod Claims
pub mod Offer
pub mod Steps
mod Tests
mod EndingTests
