-- ===== src/Payment.antt =====
-- src/modules/payment: orders, their verification by the client, and the webhooks of Razorpay.
pub mod Row
pub mod Repository
pub mod Service
pub mod Webhook
pub mod Delivery
pub mod Order
pub mod Capture
pub mod Grace
pub mod Between
pub mod Suspension
