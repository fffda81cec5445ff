-- ===== src/Webhook.antt =====
-- src/modules/webhook: subscriptions of an organization, and the job that delivers an event to one.
pub mod Row
pub mod Repository
pub mod Service
pub mod Worker
pub mod Delivered
pub mod Once
