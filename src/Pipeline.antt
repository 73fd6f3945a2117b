-- ===== src/Pipeline.antt =====
-- The execution of a claimed run: radar/runner.py with repositories/run_result_repository.py.
pub mod Model
pub mod Saves
pub mod Batches
pub mod Accept
pub mod Stages
pub mod Sets
pub mod Batched
pub mod Summarized
pub mod Evidenced
pub mod Complete
pub mod Answered
pub mod Execute
pub mod Unchanged
pub mod Kept
pub mod Ends
pub mod Ownership
pub mod Tests
pub mod EndsTests
