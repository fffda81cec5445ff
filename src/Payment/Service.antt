-- ===== src/Payment/Service.antt =====
-- src/modules/payment/payment.service.ts. What Razorpay answers and whether a signature verifies are
-- arguments: both are computed outside this repository.
use multi_tenant_collaborati.Common.{
  ℕ, ◌/◌, String, Bool, true, false, not, Option, none, some, List, ◌∷◌, ◌==◌, if◌then◌else◌,
  or_else, Result, ok, err, Action, pure, throw, gets, or_throw, throw_if, modify, ◌>>=◌, ◌>>◌,
  not_found_error, bad_request_error, unprocessable_error, conflict_error, update_where,
}
use multi_tenant_collaborati.Organization.Row.{OrgRow, PlanTier, free, pro, business, enterprise}
use multi_tenant_collaborati.Payment.Row.{
  PaymentStatus, created, authorized, captured, failed, refunded, disputed, BillingCycle, monthly,
  annual, IdempotencyKey, PaymentRow, PaymentEvent, payment_created, payment_verified, PaymentDb,
}
use multi_tenant_collaborati.Payment.Repository.{
  new_payment, find_by_order_id, find_by_idempotency_key, StatusExtra, update_status, upsert,
}

-- `PLAN_AMOUNTS[planTier]`; `none` for the free tier and every other text.
unfoldable pub plan_amounts : PlanTier → BillingCycle → Option ℕ
plan_amounts free cycle = none
plan_amounts pro monthly = some 99900
plan_amounts pro annual = some 999900
plan_amounts business monthly = some 299900
plan_amounts business annual = some 2999900
plan_amounts enterprise monthly = some 999900
plan_amounts enterprise annual = some 9999900

abbrev pub ms_per_day : ℕ
ms_per_day = 86400000

abbrev pub order_key : ℕ → PlanTier → BillingCycle → ℕ → IdempotencyKey
order_key org plan cycle now = record {
  org_id = org;
  plan_tier = plan;
  billing_cycle = cycle;
  epoch_day = now / ms_per_day;
}

unfoldable pub write_outbox_event : ℕ → ℕ → ℕ → PaymentEvent → Action PaymentDb (Unit {0})
write_outbox_event now org entity event = modify λ db. record db {
  outbox =
      record { org_id = org; entity_id = entity; payload = event; occurred_at = now } ∷ db.outbox;
}

unfoldable pub insert_payment : PaymentRow → Action PaymentDb PaymentRow
insert_payment row db = (ok row, record db { payments = row ∷ db.payments })

-- An order of Razorpay's; `entity` is always 'order'. Its receipt is a text, its time in seconds.
pub record RazorpayOrder : Type 0 where
  pub id : ℕ
  pub amount : ℕ
  pub currency : String
  pub status : String
  pub receipt : Option String
  pub created_at : ℕ

abbrev pub status_text : PaymentStatus → String
status_text created = "created"
status_text authorized = "authorized"
status_text captured = "captured"
status_text failed = "failed"
status_text refunded = "refunded"
status_text disputed = "disputed"

-- The order that is rebuilt from the row of an existing payment.
abbrev pub existing_order : PaymentRow → RazorpayOrder
existing_order existing = record {
  id = existing.razorpay_order_id;
  amount = existing.amount_paise;
  currency = existing.currency;
  status = status_text existing.status;
  receipt = none;
  created_at = existing.created_at / 1000;
}

-- The payment of a new order, and what is written with it.
unfoldable pub place_order :
    ℕ
    → ℕ
    → ℕ
    → PlanTier
    → BillingCycle
    → ℕ
    → ℕ
    → Result RazorpayOrder
    → Action PaymentDb (RazorpayOrder × PaymentRow)
unfolding write_outbox_event insert_payment new_payment
place_order new_id now org plan cycle user amount (err e) = throw e
place_order new_id now org plan cycle user amount (ok order) = do
  payment ← insert_payment (
      new_payment new_id now (record {
        org_id = org;
        subscription_id = none;
        razorpay_order_id = order.id;
        amount_paise = amount;
        currency = none;
        status = created;
        idempotency_key = order_key org plan cycle now;
        metadata =
            some
              (record { plan_tier = some plan; billing_cycle = some cycle; user_id = some user });
      }))
  write_outbox_event now org payment.id (payment_created payment.id order.id amount plan)
  pure (order, payment)

unfoldable pub existing_or_new :
    Option PaymentRow
    → Action PaymentDb (RazorpayOrder × PaymentRow)
    → Action PaymentDb (RazorpayOrder × PaymentRow)
existing_or_new (some payment) place = pure (existing_order payment, payment)
existing_or_new none place = place

-- `answer` is what Razorpay returns for a new order.
unfoldable pub create_order :
    ℕ
    → ℕ
    → ℕ
    → PlanTier
    → BillingCycle
    → ℕ
    → Result RazorpayOrder
    → Action PaymentDb (RazorpayOrder × PaymentRow)
create_order new_id now org plan cycle user answer = do
  amount ← or_throw (plan_amounts plan cycle) (unprocessable_error "INVALID_PLAN")
  existing ← gets (λ db. find_by_idempotency_key (order_key org plan cycle now) db.payments)
  existing_or_new existing (place_order new_id now org plan cycle user amount answer)

abbrev pub own_payment : ℕ → Option PaymentRow → Option PaymentRow
own_payment org none = none
own_payment org (some p) = if p.org_id == org then some p else none

abbrev pub is_captured : PaymentStatus → Bool
is_captured captured = true
is_captured _ = false

abbrev pub paid_plan : PaymentRow → PlanTier
paid_plan p = or_else p.metadata.plan_tier pro

abbrev pub captured_extra : ℕ → ℕ → StatusExtra
captured_extra now payment = record {
  razorpay_payment_id = some payment;
  failure_reason = none;
  captured_at = some now;
  refunded_at = none;
}

-- `UPDATE organizations SET plan_tier = $1 WHERE id = $2`.
unfoldable pub set_plan_tier : ℕ → PlanTier → List OrgRow → List OrgRow
set_plan_tier org plan rows =
    update_where (λ o. o.id == org) (λ o. record o { plan_tier = plan }) rows

-- A refusal by the unique index is thrown on, and answered with 409.
abbrev pub updated_row : Option (Option PaymentRow × List PaymentRow) → Action PaymentDb PaymentRow
updated_row none db = throw (conflict_error "DUPLICATE_ENTRY") db
updated_row (some (updated, rows)) db =
    or_throw updated (conflict_error "PAYMENT_UPDATE_CONFLICT") (record db { payments = rows })

unfoldable pub capture_row : ℕ → ℕ → ℕ → Action PaymentDb PaymentRow
unfolding update_status
capture_row now order razorpay_payment db =
    updated_row (update_status order captured (captured_extra now razorpay_payment) db.payments) db

-- A payment that is not captured yet: capture it and give the organization its plan.
unfoldable pub capture_and_upgrade : ℕ → ℕ → ℕ → ℕ → ℕ → PaymentRow → Action PaymentDb PaymentRow
capture_and_upgrade new_id now org order razorpay_payment payment = do
  updated ← capture_row now order razorpay_payment
  modify (λ db. record db {
    subscriptions = upsert new_id now org (paid_plan payment) db.subscriptions;
  })
  modify
      (λ db. record db { organizations = set_plan_tier org (paid_plan payment) db.organizations })
  write_outbox_event now org updated.id
      (payment_verified updated.id razorpay_payment (paid_plan payment))
  pure updated

unfoldable pub verify_payment : ℕ → ℕ → ℕ → ℕ → ℕ → Bool → Action PaymentDb PaymentRow
verify_payment new_id now org order razorpay_payment valid = do
  throw_if (not valid) (bad_request_error "INVALID_PAYMENT_SIGNATURE")
  found ← gets (λ db. own_payment org (find_by_order_id order db.payments))
  payment ← or_throw found not_found_error
  if is_captured payment.status
      then pure payment
      else capture_and_upgrade new_id now org order razorpay_payment payment
