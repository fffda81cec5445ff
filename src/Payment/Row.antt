-- ===== src/Payment/Row.antt =====
-- The rows of src/modules/payment/payment.repository.ts and the part of the database, of Redis and of
-- the job queue that payments use. Ids, also those of Razorpay, are only compared, so they are
-- numbers; amounts are in paise.
use multi_tenant_collaborati.Common.{ℕ, String, Bool, Option, List}
use multi_tenant_collaborati.Organization.Row.{OrgRow, PlanTier}

pub data PaymentStatus : Type 0 where
  created authorized captured failed refunded disputed : PaymentStatus

pub data BillingCycle : Type 0 where
  monthly annual : BillingCycle

-- `${orgId}:${planTier}:${billingCycle}:${epochDay}`.
pub record IdempotencyKey : Type 0 where
  pub org_id : ℕ
  pub plan_tier : PlanTier
  pub billing_cycle : BillingCycle
  pub epoch_day : ℕ

-- The JSON of the `metadata` column; `planTier` may be missing in it.
pub record Metadata : Type 0 where
  pub plan_tier : Option PlanTier
  pub billing_cycle : Option BillingCycle
  pub user_id : Option ℕ

pub record PaymentRow : Type 0 where
  pub id : ℕ
  pub org_id : ℕ
  pub subscription_id : Option ℕ
  pub razorpay_order_id : ℕ
  pub razorpay_payment_id : Option ℕ
  pub amount_paise : ℕ
  pub currency : String
  pub status : PaymentStatus
  pub failure_reason : Option String
  pub captured_at : Option ℕ
  pub refunded_at : Option ℕ
  pub idempotency_key : IdempotencyKey
  pub metadata : Metadata
  pub created_at : ℕ
  pub updated_at : ℕ

pub data SubscriptionStatus : Type 0 where
  active halted cancelled expired pending : SubscriptionStatus

pub record SubscriptionRow : Type 0 where
  pub id : ℕ
  pub org_id : ℕ
  pub razorpay_subscription_id : Option ℕ
  pub plan_tier : PlanTier
  pub status : SubscriptionStatus
  pub current_period_start : Option ℕ
  pub current_period_end : Option ℕ
  pub cancel_at_period_end : Bool
  pub cancelled_at : Option ℕ
  pub trial_end : Option ℕ
  pub metadata : String
  pub created_at : ℕ
  pub updated_at : ℕ

pub record CreatePaymentData : Type 0 where
  pub org_id : ℕ
  pub subscription_id : Option ℕ
  pub razorpay_order_id : ℕ
  pub amount_paise : ℕ
  pub currency : Option String
  pub status : PaymentStatus
  pub idempotency_key : IdempotencyKey
  pub metadata : Option Metadata

-- The outbox events of the payment module, with their payloads.
pub data PaymentEvent : Type 0 where
  payment_created : (payment order amount_paise : ℕ) (plan : PlanTier) → PaymentEvent
  payment_captured : (payment : ℕ) → PaymentEvent
  payment_verified : (payment razorpay_payment : ℕ) (plan : PlanTier) → PaymentEvent
  subscription_charged : (subscription : ℕ) → PaymentEvent
  payment_refunded : (refund : ℕ) → PaymentEvent
  payment_disputed : (dispute : ℕ) → PaymentEvent

pub record OutboxRow : Type 0 where
  pub org_id : ℕ
  pub entity_id : ℕ
  pub payload : PaymentEvent
  pub occurred_at : ℕ

-- `webhook:razorpay:${event}:${entityId}`.
pub data WebhookKey : Type 0 where
  captured_key failed_key charged_key refund_key dispute_key : ℕ → WebhookKey

pub record PaymentDb : Type 0 where
  pub payments : List PaymentRow
  pub subscriptions : List SubscriptionRow
  pub organizations : List OrgRow
  pub outbox : List OutboxRow
  -- `enqueue('payments', 'handle-payment-failure', { orgId })`
  pub failure_jobs : List ℕ
  -- the deduplication keys in Redis, each with the time at which it expires
  pub processed : List (WebhookKey × ℕ)
