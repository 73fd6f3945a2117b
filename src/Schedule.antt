-- ===== src/Schedule.antt =====
-- The times of a repeated digest: scheduler/recurrence.py.
pub mod Recurrence
pub mod Order
pub mod Around
mod Tests
