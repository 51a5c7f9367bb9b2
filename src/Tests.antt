-- ===== src/Tests.antt =====
-- The theorems at concrete inputs.
mod Billing
mod Accounts
mod Channels
mod Gateway
mod Webhooks
mod Rounding
mod Requests
mod Tasks
