-- ===== src/Payment/Capture.antt =====
-- Captures: what the client's verification and Razorpay's webhooks do to a payment and its
-- organization, in either order.
use multi_tenant_collaborati.Common.{
  subst, ap, ℕ, Option, update_where, ◌≡◌, ◌≢◌, refl, true, false, ◌&&◌, none, some, List, ◌∷◌,
  ◌==◌, arith, Bool-cases, inl, inr, Memᴰ, mem-select_first, select_first-update_where,
  mem-update_where, ok, err, bad_request_error,
}
use multi_tenant_collaborati.Organization.Row.{OrgRow, active, suspended, org_status_eq, PlanTier}
use multi_tenant_collaborati.Payment.Row.{
  PaymentRow, PaymentDb, PaymentStatus, captured, failed, payment_captured,
}
use multi_tenant_collaborati.Payment.Repository.{
  is_order, is_taken, StatusExtra, find_by_order_id, update_status, with_status, no_extra,
}
use multi_tenant_collaborati.Payment.Service.{
  is_captured, paid_plan, captured_extra, set_plan_tier, capture_row, capture_and_upgrade,
  verify_payment, write_outbox_event,
}
use multi_tenant_collaborati.Payment.Webhook.{
  UuidText, outcome_of, captured_event, failed_event, handle, on_payment_captured,
  on_payment_failed, capture_payment, reactivate_suspended, add_event,
}

-- What an update of the order's row that the index does not refuse leaves.
update_status_lem :
    (order : ℕ) (status : PaymentStatus) (extra : StatusExtra) (rows : List PaymentRow)
    (p : PaymentRow)
    → find_by_order_id order rows ≡ some p
    → is_taken order extra.razorpay_payment_id rows ≡ false
    → update_status order status extra rows
      ≡ some (
        some (with_status status extra p),
        update_where (is_order order) (with_status status extra) rows,
      )
unfolding find_by_order_id update_status
update_status_lem order status extra rows p e free = rw (free, e) refl

find_updated :
    (order : ℕ) (status : PaymentStatus) (extra : StatusExtra) (rows : List PaymentRow)
    (p : PaymentRow)
    → find_by_order_id order rows ≡ some p
    → find_by_order_id order (update_where (is_order order) (with_status status extra) rows)
      ≡ some (with_status status extra p)
unfolding find_by_order_id
find_updated order status extra rows p e =
    let (m, h) = mem-select_first (is_order order) rows e in
    ground (
      arith,
      select_first-update_where (is_order order) (is_order order) (with_status status extra) rows p
          (λ x. refl) e,
    )

no_id-is_taken : (order : ℕ) (rows : List PaymentRow) → is_taken order none rows ≡ false
unfolding is_taken
no_id-is_taken order rows = refl

-- A `payment.failed` webhook overwrites the status of the payment of its order whatever it was, also
-- when the payment is captured: the status becomes `failed` while the capture time stays, and a job
-- to handle the failure is queued for the organization.
pub failed_overwrites :
    (parse_uuid : UuidText → Option ℕ) (now entity_id order : ℕ) (p : PaymentRow) (db : PaymentDb)
    → find_by_order_id order db.payments ≡ some p
    → (after : PaymentDb) × (handle parse_uuid now
          (failed_event (record { id = entity_id; order_id = some order }))
          db
        ≡ (true, after))
      × (find_by_order_id order after.payments ≡ some (record p { status = failed }))
      × (after.failure_jobs ≡ p.org_id ∷ db.failure_jobs)
unfolding handle on_payment_failed
failed_overwrites parse_uuid now entity_id order p db e = (
  record db {
    payments = update_where (is_order order) (with_status failed no_extra) db.payments;
    failure_jobs = p.org_id ∷ db.failure_jobs;
  },
  ground (
    arith,
    update_status_lem order failed no_extra db.payments p e (no_id-is_taken order db.payments),
  ),
  find_updated order failed no_extra db.payments p e,
  refl,
)

abbrev captured_row : ℕ → ℕ → PaymentRow → PaymentRow
captured_row now payment p = with_status captured (captured_extra now payment) p

abbrev captured_rows : ℕ → ℕ → ℕ → List PaymentRow → List PaymentRow
captured_rows order now payment rows = update_where (is_order order) (captured_row now payment) rows

verify_payment_captured :
    (new_id now org order payment : ℕ) (db : PaymentDb) (t : PaymentRow)
    → find_by_order_id order db.payments ≡ some t
    → t.org_id ≡ org
    → is_captured t.status ≡ true
    → verify_payment new_id now org order payment true db ≡ (ok t, db)
unfolding verify_payment
verify_payment_captured new_id now org order payment db t e o c = ground arith

-- The organization keeps the plan that it had.
abbrev pub KeepsPlans : PaymentDb → PaymentDb → Type 0
KeepsPlans db db' =
    (o : OrgRow)
    → Memᴰ o db'.organizations
    → (old : OrgRow) × Memᴰ old db.organizations × (o.id ≡ old.id) × (o.plan_tier ≡ old.plan_tier)

reactivate_suspended-KeepsPlans :
    (org : ℕ) (db : PaymentDb) → KeepsPlans db (reactivate_suspended org db)
unfolding reactivate_suspended
reactivate_suspended-KeepsPlans org db o m =
    let (x, mx, e) =
      mem-update_where (λ o. o.id == org && org_status_eq o.status suspended)
        (λ o. record o { status = active; grace_period_ends_at = none }) db.organizations o m in
    (x, mx, ground arith, ground arith)

-- What the webhook leaves of a payment that was not captured yet.
abbrev after_capture : ℕ → ℕ → ℕ → PaymentRow → PaymentDb → PaymentDb
after_capture now entity_id order p db = add_event now p.org_id p.id (payment_captured p.id) (
    reactivate_suspended p.org_id
      (record db { payments = captured_rows order now entity_id db.payments }))

on_payment_captured_open :
    (now entity_id order : ℕ) (p : PaymentRow) (db : PaymentDb)
    → find_by_order_id order db.payments ≡ some p
    → is_captured p.status ≡ false
    → is_taken order (some entity_id) db.payments ≡ false
    → on_payment_captured now entity_id (some order) db
      ≡ some (after_capture now entity_id order p db)
unfolding on_payment_captured capture_payment
on_payment_captured_open now entity_id order p db e h free =
    ground
      (arith, update_status_lem order captured (captured_extra now entity_id) db.payments p e free)

-- Razorpay's `payment.captured` webhook for a payment that is not captured yet, whose id no other
-- payment has, handled before the client verifies the payment. The verification that comes next, with
-- a valid signature, returns the captured payment and writes nothing: the subscriptions and the plan
-- of every organization are then what they were before the webhook.
pub webhook_before_verification :
    (parse_uuid : UuidText → Option ℕ) (new_id now later entity_id order payment : ℕ)
    (p : PaymentRow) (db : PaymentDb)
    → find_by_order_id order db.payments ≡ some p
    → is_captured p.status ≡ false
    → is_taken order (some entity_id) db.payments ≡ false
    → (after : PaymentDb) × (handle parse_uuid now
          (captured_event (record { id = entity_id; order_id = some order }))
          db
        ≡ (true, after))
      × (verify_payment new_id later p.org_id order payment true after
          ≡ (ok (with_status captured (captured_extra now entity_id) p), after))
      × (after.subscriptions ≡ db.subscriptions)
      × KeepsPlans db after
unfolding handle add_event reactivate_suspended
webhook_before_verification parse_uuid new_id now later entity_id order payment p db e open_yet
      free =
    (
      after_capture now entity_id order p db,
      ap (λ m. outcome_of m db) (on_payment_captured_open now entity_id order p db e open_yet free),
      verify_payment_captured new_id later p.org_id order payment _ (captured_row now entity_id p)
          (find_updated order captured (captured_extra now entity_id) db.payments p e) refl refl,
      refl,
      reactivate_suspended-KeepsPlans p.org_id db,
    )

-- The organizations after `UPDATE … SET plan_tier`: those of this id have the plan, the rest is kept.
set_plan_tier_lem :
    (org : ℕ) (plan : PlanTier) (rows : List OrgRow) (o : OrgRow)
    → Memᴰ o (set_plan_tier org plan rows)
    → ((o.id ≡ org) → (o.plan_tier ≡ plan)) × ((o.id ≢ org) → Memᴰ o rows)
unfolding set_plan_tier
set_plan_tier_lem org plan rows o m =
    let (x, mx, e) =
      mem-update_where (λ r. r.id == org) (λ r. record r { plan_tier = plan }) rows o m in
    elim (Bool-cases (x.id == org)) [
      | inl hit ↦ (λ h. ground arith, λ h. absurd (ground arith))
      | inr miss ↦ let same : o ≡ x = ground arith in (λ h. absurd (ground arith), λ h. rw same mx)
    ]

verify_payment_open :
    (new_id now org order payment : ℕ) (p : PaymentRow) (db : PaymentDb)
    → find_by_order_id order db.payments ≡ some p
    → p.org_id ≡ org
    → is_captured p.status ≡ false
    → verify_payment new_id now org order payment true db
      ≡ capture_and_upgrade new_id now org order payment p db
unfolding verify_payment
verify_payment_open new_id now org order payment p db e own open_yet = ground arith

capture_row_lem :
    (now order payment : ℕ) (p : PaymentRow) (db : PaymentDb)
    → find_by_order_id order db.payments ≡ some p
    → is_taken order (some payment) db.payments ≡ false
    → capture_row now order payment db ≡ (
      ok (captured_row now payment p),
      record db { payments = captured_rows order now payment db.payments },
    )
unfolding capture_row
capture_row_lem now order payment p db e free =
    rw (update_status_lem order captured (captured_extra now payment) db.payments p e free) refl

capture_and_upgrade_lem :
    (new_id now org order payment : ℕ) (p : PaymentRow) (db : PaymentDb)
    → find_by_order_id order db.payments ≡ some p
    → is_taken order (some payment) db.payments ≡ false
    → let (r, after) = capture_and_upgrade new_id now org order payment p db in
      (r ≡ ok (captured_row now payment p))
      × (after.payments ≡ captured_rows order now payment db.payments)
      × (after.organizations ≡ set_plan_tier org (paid_plan p) db.organizations)
unfolding capture_and_upgrade write_outbox_event
capture_and_upgrade_lem new_id now org order payment p db e free =
    let run = capture_row_lem now order payment p db e free in ground arith

-- A payment of the organization that is not captured, verified with a valid signature and an id of
-- Razorpay's that no other payment has: the request returns the captured row, which is then the row of
-- the order, every row of the organization has the plan of the payment (`pro` if it names none), and
-- the other organizations are unchanged. With an invalid signature the request is refused with 400 and
-- writes nothing.
pub verify_payment_upgrades :
    (new_id now org order payment : ℕ) (p : PaymentRow) (db : PaymentDb)
    → find_by_order_id order db.payments ≡ some p
    → p.org_id ≡ org
    → is_captured p.status ≡ false
    → is_taken order (some payment) db.payments ≡ false
    → let (r, after) = verify_payment new_id now org order payment true db in
      (r ≡ ok (with_status captured (captured_extra now payment) p))
      × (find_by_order_id order after.payments
          ≡ some (with_status captured (captured_extra now payment) p))
      × ((o : OrgRow)
          → Memᴰ o after.organizations
          → ((o.id ≡ org) → (o.plan_tier ≡ paid_plan p)) × ((o.id ≢ org) → Memᴰ o db.organizations))
      × (verify_payment new_id now org order payment false db
          ≡ (err (bad_request_error "INVALID_PAYMENT_SIGNATURE"), db))
unfolding verify_payment
verify_payment_upgrades new_id now org order payment p db e own open_yet free =
    let run = verify_payment_open new_id now org order payment p db e own open_yet in
    let (returns, payments, organizations) =
      capture_and_upgrade_lem new_id now org order payment p db e free in
    (
      rw run returns,
      rw (run, payments) (find_updated order captured (captured_extra now payment) db.payments p e),
      λ o m.
          set_plan_tier_lem org (paid_plan p) db.organizations o
            (subst (λ rows. Memᴰ o rows) (rw run organizations) m),
      refl,
    )
