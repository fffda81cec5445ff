-- ===== src/Payment/Repository.antt =====
-- src/modules/payment/payment.repository.ts.
use multi_tenant_collaborati.Common.{
  ℕ, String, Bool, true, false, not, ◌&&◌, Option, none, some, List, ◌∷◌, ◌==◌, if◌then◌else◌,
  or_else, any, select_first, select, limit_rows, skip_rows, update_where,
}
use multi_tenant_collaborati.Organization.Row.{PlanTier, free, pro, business, enterprise}
use multi_tenant_collaborati.Payment.Row.{
  PaymentStatus, BillingCycle, monthly, annual, IdempotencyKey, Metadata, PaymentRow, active,
  SubscriptionStatus, SubscriptionRow, CreatePaymentData,
}

abbrev pub plan_eq : PlanTier → PlanTier → Bool
plan_eq free free = true
plan_eq pro pro = true
plan_eq business business = true
plan_eq enterprise enterprise = true
plan_eq _ _ = false

abbrev pub cycle_eq : BillingCycle → BillingCycle → Bool
cycle_eq monthly monthly = true
cycle_eq annual annual = true
cycle_eq _ _ = false

abbrev pub key_eq : IdempotencyKey → IdempotencyKey → Bool
key_eq a b =
    a.org_id == b.org_id
    && (plan_eq a.plan_tier b.plan_tier
        && (cycle_eq a.billing_cycle b.billing_cycle && a.epoch_day == b.epoch_day))

abbrev empty_metadata : Metadata
empty_metadata = record { plan_tier = none; billing_cycle = none; user_id = none }

unfoldable pub new_payment : ℕ → ℕ → CreatePaymentData → PaymentRow
new_payment new_id now d = record {
  id = new_id;
  org_id = d.org_id;
  subscription_id = d.subscription_id;
  razorpay_order_id = d.razorpay_order_id;
  razorpay_payment_id = none;
  amount_paise = d.amount_paise;
  currency = or_else d.currency "INR";
  status = d.status;
  failure_reason = none;
  captured_at = none;
  refunded_at = none;
  idempotency_key = d.idempotency_key;
  metadata = or_else d.metadata empty_metadata;
  created_at = now;
  updated_at = now;
}

abbrev pub is_order : ℕ → PaymentRow → Bool
is_order order p = p.razorpay_order_id == order

unfoldable pub find_by_order_id : ℕ → List PaymentRow → Option PaymentRow
find_by_order_id order rows = select_first (is_order order) rows

-- `findByOrg`: the newest first.
unfoldable pub payments_of_org : ℕ → ℕ → ℕ → List PaymentRow → List PaymentRow
payments_of_org org limit offset rows =
    limit_rows limit (skip_rows offset (select (λ p. p.org_id == org) rows))

unfoldable pub find_by_idempotency_key : IdempotencyKey → List PaymentRow → Option PaymentRow
find_by_idempotency_key key rows = select_first (λ p. key_eq p.idempotency_key key) rows

-- `updateStatus`: the extra columns are written where they are given.
abbrev pub set_or_keep {ℓ} : {A : Type ℓ} → Option A → Option A → Option A
set_or_keep none old = old
set_or_keep (some a) old = some a

pub record StatusExtra : Type 0 where
  pub razorpay_payment_id : Option ℕ
  pub failure_reason : Option String
  pub captured_at : Option ℕ
  pub refunded_at : Option ℕ

abbrev pub no_extra : StatusExtra
no_extra = record {
  razorpay_payment_id = none;
  failure_reason = none;
  captured_at = none;
  refunded_at = none;
}

abbrev pub with_status : PaymentStatus → StatusExtra → PaymentRow → PaymentRow
with_status status extra p = record p {
  status = status;
  razorpay_payment_id = set_or_keep extra.razorpay_payment_id p.razorpay_payment_id;
  failure_reason = set_or_keep extra.failure_reason p.failure_reason;
  captured_at = set_or_keep extra.captured_at p.captured_at;
  refunded_at = set_or_keep extra.refunded_at p.refunded_at;
}

abbrev pub has_payment_id : ℕ → PaymentRow → Bool
has_payment_id payment p = elim p.razorpay_payment_id [ none ↦ false | some k ↦ k == payment ]

-- The unique index on `razorpay_payment_id`: another row has the id that the update writes.
unfoldable pub is_taken : ℕ → Option ℕ → List PaymentRow → Bool
is_taken order none rows = false
is_taken order (some payment) rows =
    any (λ p. not (is_order order p) && has_payment_id payment p) rows

-- `none` where the index refuses the statement.
unfoldable pub update_status :
    ℕ → PaymentStatus → StatusExtra → List PaymentRow → Option (Option PaymentRow × List PaymentRow)
unfolding is_taken
update_status order status extra rows =
    if is_taken order extra.razorpay_payment_id rows
    then none
    else some (
      elim (select_first (is_order order) rows) [
        | none ↦ none
        | some p ↦ some (with_status status extra p)
      ],
      update_where (is_order order) (with_status status extra) rows,
    )

-- `SubscriptionRepository.upsert` with the columns that the payment service gives: on a conflict the
-- plan and the status are overwritten (`data.status ?? 'active'`), the rest is kept.
abbrev is_subscription_of : ℕ → SubscriptionRow → Bool
is_subscription_of org s = s.org_id == org

abbrev pub new_subscription : ℕ → ℕ → ℕ → PlanTier → SubscriptionRow
new_subscription new_id now org plan = record {
  id = new_id;
  org_id = org;
  razorpay_subscription_id = none;
  plan_tier = plan;
  status = active;
  current_period_start = none;
  current_period_end = none;
  cancel_at_period_end = false;
  cancelled_at = none;
  trial_end = none;
  metadata = "{}";
  created_at = now;
  updated_at = now;
}

unfoldable pub upsert : ℕ → ℕ → ℕ → PlanTier → List SubscriptionRow → List SubscriptionRow
upsert new_id now org plan rows =
    if any (is_subscription_of org) rows
    then update_where (is_subscription_of org) (λ s. record s { plan_tier = plan; status = active })
        rows
    else new_subscription new_id now org plan ∷ rows

unfoldable pub find_subscription : ℕ → List SubscriptionRow → Option SubscriptionRow
find_subscription org rows = select_first (is_subscription_of org) rows

-- `SubscriptionRepository.updateStatus`: an absent field is `none`, a cancellation date that is null
-- `some none`.
unfoldable pub update_subscription_status :
    ℕ
    → SubscriptionStatus
    → Option (Option ℕ)
    → Option Bool
    → List SubscriptionRow
    → Option SubscriptionRow × List SubscriptionRow
update_subscription_status org status' cancelled at_period_end rows =
    let change = λ (s : SubscriptionRow). record s {
      status = status';
      cancelled_at = or_else cancelled s.cancelled_at;
      cancel_at_period_end = or_else at_period_end s.cancel_at_period_end;
    } in
    let after = update_where (is_subscription_of org) change rows in
    (select_first (is_subscription_of org) after, after)
