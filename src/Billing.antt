-- ===== src/Billing.antt =====
-- The evidence of an upgrade's invoice: services/billing_payment_rules.py with billing_types.py.
pub mod Integers
pub mod Json
pub mod Types
pub mod Rules
pub mod Verified
pub mod Order
pub mod Prices
pub mod Applied
pub mod InForce
pub mod Settled
pub mod Tests
