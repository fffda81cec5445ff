-- ===== src/Tests.antt =====
-- The properties at concrete requests.
pub mod Tasks
pub mod Payments
pub mod Accounts
pub mod Organizations
pub mod Requests
pub mod Guards
pub mod TaskRequests
pub mod Limits
pub mod Webhooks
pub mod Chats
pub mod Factors
