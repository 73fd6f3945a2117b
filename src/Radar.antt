-- ===== src/Radar.antt =====
-- The research pipeline (backend/app/radar): contracts of the stages, their validation, the inputs
-- built from them, and the state of a run.
pub mod Contracts
pub mod Validators
pub mod Validation
pub mod Period
pub mod Sources
pub mod StageInputs
pub mod Agreement
pub mod Selection
pub mod Evidence
pub mod Traced
pub mod Constrained
pub mod Quality
pub mod Cleared
pub mod Samples
mod Tests
mod EvidenceTests
mod QualityTests
