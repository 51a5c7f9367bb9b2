-- ===== src/Billing.antt =====
-- The billing of internal/billing: the pools, their scripts, and what reserves, settles, refunds and
-- renews them.
pub mod Pools
pub mod Scripts
pub mod Request
pub mod Outbox
pub mod Deduct
pub mod Settlement
pub mod Subscription
