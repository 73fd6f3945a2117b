-- ===== src/Quota.antt =====
-- Plans and the allowance of an account: services/subscription_access_service.py,
-- services/subscription_observation_service.py, services/billing_types.py.
pub mod Plans
pub mod Model
pub mod Rules
pub mod Ledger
pub mod Upgrades
pub mod Sums
pub mod Bounds
pub mod Observation
pub mod Account
pub mod Details
mod Tests
mod ObservationTests
mod AccountTests
