-- ===== src/Payment/Order.antt =====
-- `createOrder`, and the same request again on the same day.
use multi_tenant_collaborati.Common.{
  ℕ, ◌/◌, ◌≡◌, ◌≢◌, refl, sym, true, none, some, arith, Option-cases, inl, inr, Result, ok, err,
}
use multi_tenant_collaborati.Organization.Row.{PlanTier, free, pro, business, enterprise}
use multi_tenant_collaborati.Payment.Row.{
  PaymentRow, PaymentDb, BillingCycle, monthly, annual, IdempotencyKey,
}
use multi_tenant_collaborati.Payment.Repository.{key_eq, plan_eq, cycle_eq, find_by_idempotency_key}
use multi_tenant_collaborati.Payment.Service.{
  plan_amounts, ms_per_day, order_key, RazorpayOrder, existing_order, place_order, existing_or_new,
  create_order,
}

key_eq_refl : (k : IdempotencyKey) → key_eq k k ≡ true
key_eq_refl k = ground (arith, plan_eq_refl k.plan_tier, cycle_eq_refl k.billing_cycle)
  where
    plan_eq_refl : (p : PlanTier) → plan_eq p p ≡ true
    plan_eq_refl free = refl
    plan_eq_refl pro = refl
    plan_eq_refl business = refl
    plan_eq_refl enterprise = refl

    cycle_eq_refl : (c : BillingCycle) → cycle_eq c c ≡ true
    cycle_eq_refl monthly = refl
    cycle_eq_refl annual = refl

module _ (new_id now org : ℕ) (plan : PlanTier) (cycle : BillingCycle) (user : ℕ)
    (answer : Result RazorpayOrder) (db : PaymentDb) where
  create_order_found :
      (p : PaymentRow) (a : ℕ)
      → plan_amounts plan cycle ≡ some a
      → find_by_idempotency_key (order_key org plan cycle now) db.payments ≡ some p
      → create_order new_id now org plan cycle user answer db ≡ (ok (existing_order p, p), db)
  unfolding create_order existing_or_new
  create_order_found p a e f = ground arith

  create_order_placed :
      (a : ℕ)
      → plan_amounts plan cycle ≡ some a
      → find_by_idempotency_key (order_key org plan cycle now) db.payments ≡ none
      → create_order new_id now org plan cycle user answer db
        ≡ place_order new_id now org plan cycle user a answer db
  unfolding create_order existing_or_new
  create_order_placed a e f = ground arith

  create_order_unpriced :
      (r : RazorpayOrder × PaymentRow)
      → plan_amounts plan cycle ≡ none
      → (create_order new_id now org plan cycle user answer db).0 ≢ ok r
  unfolding create_order
  create_order_unpriced r e h = ground arith

place_order_stored :
    (new_id now org : ℕ) (plan : PlanTier) (cycle : BillingCycle) (user a : ℕ)
    (answer : Result RazorpayOrder) (db : PaymentDb) (r : RazorpayOrder × PaymentRow)
    → (place_order new_id now org plan cycle user a answer db).0 ≡ ok r
    → (find_by_idempotency_key
          (order_key org plan cycle now)
          (place_order new_id now org plan cycle user a answer db).1.payments
        ≡ some r.1)
      × (r.0.id ≡ r.1.razorpay_order_id)
      × (r.1.amount_paise ≡ a)
unfolding place_order find_by_idempotency_key
place_order_stored new_id now org plan cycle user a (err x) db r h = absurd (ground arith)
place_order_stored new_id now org plan cycle user a (ok order) db r h =
    ground (arith, key_eq_refl (order_key org plan cycle now))

-- The row under the key after a request that succeeded.
record Stored (org now : ℕ) (plan : PlanTier) (cycle : BillingCycle)
    (r : RazorpayOrder × PaymentRow) (db : PaymentDb) : Type 0 where
  price : ℕ
  priced : plan_amounts plan cycle ≡ some price
  found : find_by_idempotency_key (order_key org plan cycle now) db.payments ≡ some r.1
  same : r.0.id ≡ r.1.razorpay_order_id

create_order-Stored :
    (new_id now org : ℕ) (plan : PlanTier) (cycle : BillingCycle) (user : ℕ)
    (answer : Result RazorpayOrder) (db : PaymentDb) (r : RazorpayOrder × PaymentRow)
    → (create_order new_id now org plan cycle user answer db).0 ≡ ok r
    → Stored org now plan cycle r (create_order new_id now org plan cycle user answer db).1
create_order-Stored new_id now org plan cycle user answer db r h =
    elim (Option-cases (plan_amounts plan cycle)) [
      | inl e ↦ absurd (create_order_unpriced new_id now org plan cycle user answer db r e h)
      | inr (a, e) ↦
          elim (Option-cases (find_by_idempotency_key (order_key org plan cycle now) db.payments)) [
            | inr (p, f) ↦
                let run = create_order_found new_id now org plan cycle user answer db p a e f in
                record { price = a; priced = e; found = rw run (ground arith); same = ground arith }
            | inl f ↦
                let run = create_order_placed new_id now org plan cycle user answer db a e f in
                let (found, same, paid) =
                  place_order_stored new_id now org plan cycle user a answer db r (rw run at h) in
                record { price = a; priced = e; found = rw run found; same = same }
          ]
    ]

-- Once `createOrder` has answered with an order and a payment, every further request on the same day
-- for the same organization, plan and billing cycle, by any user and whatever Razorpay would answer,
-- gets the same payment, with the order of the same id as it is rebuilt from the payment's row, and
-- writes nothing.
pub create_order_again :
    (new_id new_id' now later org : ℕ) (plan : PlanTier) (cycle : BillingCycle) (user user' : ℕ)
    (answer answer' : Result RazorpayOrder) (db : PaymentDb) (order : RazorpayOrder)
    (payment : PaymentRow)
    → (create_order new_id now org plan cycle user answer db).0 ≡ ok (order, payment)
    → later / ms_per_day ≡ now / ms_per_day
    → let after = (create_order new_id now org plan cycle user answer db).1 in
      (create_order new_id' later org plan cycle user' answer' after
        ≡ (ok (existing_order payment, payment), after))
      × ((existing_order payment).id ≡ order.id)
create_order_again new_id new_id' now later org plan cycle user user' answer answer' db order
      payment h day =
    let after = (create_order new_id now org plan cycle user answer db).1 in
    let s = create_order-Stored new_id now org plan cycle user answer db (order, payment) h in
    let found : find_by_idempotency_key (order_key org plan cycle later) after.payments
        ≡ some payment =
      rw day s.found in
    (
      create_order_found new_id' later org plan cycle user' answer' after payment s.price s.priced
          found,
      sym s.same,
    )
