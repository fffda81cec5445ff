-- ===== src/Payment/Webhook.antt =====
-- src/modules/payment/webhook.handler.ts: the route that Razorpay calls. The signature check and the
-- JSON and schema parsers are library code, so they are parameters.
use multi_tenant_collaborati.Common.{
  ℕ, ◌+◌, Bool, true, false, ◌&&◌, Option, none, some, List, ◌∷◌, ◌==◌, if◌then◌else◌, ltb, any,
  select_first, update_where,
}
use multi_tenant_collaborati.Organization.Row.{active, suspended, org_status_eq}
use multi_tenant_collaborati.Payment.Row.{
  captured, failed, refunded, disputed, PaymentRow, PaymentEvent, payment_captured,
  subscription_charged, payment_refunded, payment_disputed, WebhookKey, captured_key, failed_key,
  charged_key, refund_key, dispute_key, PaymentDb,
}
use multi_tenant_collaborati.Payment.Repository.{find_by_order_id, no_extra, update_status}
use multi_tenant_collaborati.Payment.Service.{is_captured, captured_extra}

-- The entities of the schema `RazorpayWebhookPayloadSchema`, as far as the handlers read them.
pub record PaymentEntity : Type 0 where
  pub id : ℕ
  pub order_id : Option ℕ

pub record RefundEntity : Type 0 where
  pub id : ℕ
  pub payment_id : ℕ

pub data WebhookEvent : Type 0 where
  captured_event failed_event : PaymentEntity → WebhookEvent
  charged_event : (subscription : ℕ) → WebhookEvent
  refund_event dispute_event : RefundEntity → WebhookEvent

-- 7 * 24 * 3600 seconds, in milliseconds.
abbrev pub idempotency_ttl : ℕ
idempotency_ttl = 604800000

unfoldable pub add_event : ℕ → ℕ → ℕ → PaymentEvent → PaymentDb → PaymentDb
add_event now org entity event db = record db {
  outbox =
      record { org_id = org; entity_id = entity; payload = event; occurred_at = now } ∷ db.outbox;
}

-- `UPDATE organizations SET status = 'active', grace_period_ends_at = NULL WHERE id = $1 AND status =
-- 'suspended'`.
unfoldable pub reactivate_suspended : ℕ → PaymentDb → PaymentDb
reactivate_suspended org db = record db {
  organizations =
      update_where (λ o. o.id == org && org_status_eq o.status suspended)
        (λ o. record o { status = active; grace_period_ends_at = none }) db.organizations;
}

abbrev pub captured_with :
    ℕ → PaymentRow → Option (Option PaymentRow × List PaymentRow) → PaymentDb → Option PaymentDb
captured_with now payment none db = none
captured_with now payment (some (_, rows)) db = some (
    add_event now payment.org_id payment.id (payment_captured payment.id)
      (reactivate_suspended payment.org_id (record db { payments = rows })))

-- The handlers of payments: `none` where one throws; these write nothing before they throw.
unfoldable pub capture_payment : ℕ → ℕ → ℕ → PaymentRow → PaymentDb → Option PaymentDb
unfolding update_status
capture_payment now entity_id order payment db =
    if is_captured payment.status
    then some db
    else captured_with now payment
        (update_status order captured (captured_extra now entity_id) db.payments) db

unfoldable pub on_payment_captured : ℕ → ℕ → Option ℕ → PaymentDb → Option PaymentDb
on_payment_captured now entity_id none db = some db
on_payment_captured now entity_id (some order) db = elim (find_by_order_id order db.payments) [
  | none ↦ some db
  | some payment ↦ capture_payment now entity_id order payment db
]

abbrev pub failed_with :
    PaymentRow → Option (Option PaymentRow × List PaymentRow) → PaymentDb → Option PaymentDb
failed_with payment none db = none
failed_with payment (some (_, rows)) db =
    some (record db { payments = rows; failure_jobs = payment.org_id ∷ db.failure_jobs })

unfoldable pub on_payment_failed : Option ℕ → PaymentDb → Option PaymentDb
unfolding update_status
on_payment_failed none db = some db
on_payment_failed (some order) db = elim (find_by_order_id order db.payments) [
  | none ↦ some db
  | some payment ↦ failed_with payment (update_status order failed no_extra db.payments) db
]

abbrev pub same_option : Option ℕ → ℕ → Bool
same_option none k = false
same_option (some j) k = j == k

abbrev pub is_razorpay_payment : ℕ → PaymentRow → Bool
is_razorpay_payment payment p = same_option p.razorpay_payment_id payment

unfoldable pub on_refund_created : ℕ → RefundEntity → PaymentDb → PaymentDb
unfolding add_event
on_refund_created now refund db =
    elim (select_first (is_razorpay_payment refund.payment_id) db.payments) [
      | none ↦ db
      | some p ↦ add_event now p.org_id p.id (payment_refunded refund.id) (record db {
        payments =
            update_where (is_razorpay_payment refund.payment_id)
              (λ q. record q { status = refunded; refunded_at = some now }) db.payments;
      })
    ]

unfoldable pub on_dispute_created : ℕ → RefundEntity → PaymentDb → PaymentDb
unfolding add_event
on_dispute_created now dispute db =
    elim (select_first (is_razorpay_payment dispute.payment_id) db.payments) [
      | none ↦ db
      | some p ↦ add_event now p.org_id p.id (payment_disputed dispute.id) (record db {
        payments =
            update_where (is_razorpay_payment dispute.payment_id)
              (λ q. record q { status = disputed }) db.payments;
      })
    ]

-- `webhook:razorpay:${event}:${eventEntityId}`.
abbrev pub event_key : WebhookEvent → WebhookKey
event_key (captured_event e) = captured_key e.id
event_key (failed_event e) = failed_key e.id
event_key (charged_event s) = charged_key s
event_key (refund_event r) = refund_key r.id
event_key (dispute_event d) = dispute_key d.id

abbrev pub webhook_key_eq : WebhookKey → WebhookKey → Bool
webhook_key_eq (captured_key a) (captured_key b) = a == b
webhook_key_eq (failed_key a) (failed_key b) = a == b
webhook_key_eq (charged_key a) (charged_key b) = a == b
webhook_key_eq (refund_key a) (refund_key b) = a == b
webhook_key_eq (dispute_key a) (dispute_key b) = a == b
webhook_key_eq _ _ = false

-- `redisClient.get(key)`: a key counts until it expires.
unfoldable pub already_processed : ℕ → WebhookKey → List (WebhookKey × ℕ) → Bool
already_processed now key = any (λ e. webhook_key_eq e.0 key && ltb now e.1)

-- A handler that ended, or one that threw, with what it had written before.
abbrev pub outcome_of : Option PaymentDb → PaymentDb → Bool × PaymentDb
outcome_of none db = (false, db)
outcome_of (some db') db = (true, db')

-- The answer to a delivery: where the handler throws, 500 without a mark.
abbrev pub answered : ℕ → WebhookEvent → Bool × PaymentDb → ℕ × PaymentDb
answered now event (false, db) = (500, db)
answered now event (true, db) =
    (200, record db { processed = (event_key event, now + idempotency_ttl) ∷ db.processed })

-- A text that a statement uses as a UUID: the empty one, or an id of Razorpay's.
pub data UuidText : Type 0 where
  empty_text : UuidText
  entity_text : ℕ → UuidText

-- What parsing the body gives: no JSON, JSON of another shape, or an event.
pub data Parsed : Type 0 where
  invalid_json unrecognized : Parsed
  parsed : WebhookEvent → Parsed

-- `parse_uuid` is PostgreSQL's reading of a text as a UUID, `none` where it refuses the statement.
module _ (parse_uuid : UuidText → Option ℕ) where
  -- The event of `handleSubscriptionCharged`, whose UUID column `entity_id` is the subscription's id.
  -- Where the insert is refused, the reactivation stays.
  unfoldable pub charged_with : ℕ → ℕ → ℕ → PaymentDb → Bool × PaymentDb
  unfolding add_event
  charged_with now org subscription db = elim (parse_uuid (entity_text subscription)) [
    | none ↦ (false, db)
    | some entity ↦ (true, add_event now org entity (subscription_charged subscription) db)
  ]

  -- `handleSubscriptionCharged` after its first statement.
  unfoldable pub charge_subscription : ℕ → ℕ → PaymentDb → Bool × PaymentDb
  unfolding reactivate_suspended charged_with
  charge_subscription now subscription db =
      elim (select_first (λ s. same_option s.razorpay_subscription_id subscription)
        db.subscriptions) [
          | none ↦ (true, db)
          | some s ↦ charged_with now s.org_id subscription (reactivate_suspended s.org_id db)
        ]

  -- `findByOrg('')` compares the UUID column `org_id` with the empty text.
  unfoldable pub on_subscription_charged : ℕ → ℕ → PaymentDb → Bool × PaymentDb
  unfolding charge_subscription
  on_subscription_charged now subscription db = elim (parse_uuid empty_text) [
    | none ↦ (false, db)
    | some _ ↦ charge_subscription now subscription db
  ]

  unfoldable pub handle : ℕ → WebhookEvent → PaymentDb → Bool × PaymentDb
  unfolding on_payment_captured on_payment_failed on_subscription_charged on_refund_created
      on_dispute_created
  handle now (captured_event e) db = outcome_of (on_payment_captured now e.id e.order_id db) db
  handle now (failed_event e) db = outcome_of (on_payment_failed e.order_id db) db
  handle now (charged_event s) db = on_subscription_charged now s db
  handle now (refund_event r) db = (true, on_refund_created now r db)
  handle now (dispute_event d) db = (true, on_dispute_created now d db)

  unfoldable pub process : ℕ → WebhookEvent → PaymentDb → ℕ × PaymentDb
  unfolding handle already_processed
  process now event db =
      if already_processed now (event_key event) db.processed
      then (200, db)
      else answered now event (handle now event db)

  unfoldable pub dispatch : ℕ → Parsed → PaymentDb → ℕ × PaymentDb
  unfolding process
  dispatch now invalid_json db = (400, db)
  dispatch now unrecognized db = (200, db)
  dispatch now (parsed event) db = process now event db

  module _ {Body Signature : Type 0} (verify : Body → Signature → Bool)
      (parse : Body → Parsed) where
    -- The route: the HTTP status that is answered, and the database.
    unfoldable pub receive : ℕ → Body → Option Signature → PaymentDb → ℕ × PaymentDb
    unfolding dispatch
    receive now body none db = (400, db)
    receive now body (some signature) db =
        if verify body signature then dispatch now (parse body) db else (400, db)
