-- ===== src/Radar/Contracts.antt =====
-- backend/app/radar/contracts.py: the stage outputs, and the `model_validator` methods that run
-- whenever one is parsed. A date is its ordinal. A score is a float between 0 and 100, which the
-- code only compares: it is modelled by its bit pattern, which orders the same way.
mod Discovery
mod Summaries
mod Trends
mod Briefing
pub use Discovery.*
pub use Summaries.*
pub use Trends.*
pub use Briefing.*
