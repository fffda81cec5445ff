-- ===== src/Payment/Between.antt =====
-- What the payments of src/modules/payment/payment.service.ts and webhook.handler.ts do to an active
-- organization in its grace period.
use multi_tenant_collaborati.Common.{
  ℕ, ◌≡◌, refl, AppError, ok, err, Bool, true, false, inl, inr, ◌⊎◌, select_first, Option, none,
  some, List, [], ◌∷◌, arith, ◌==◌, ◌&&◌, Bool-cases, Option-cases, or_else,
  select_first-update_where,
}
use multi_tenant_collaborati.Organization.Row.{
  OrgRow, PlanTier, active, suspended, org_status_eq, is_live_org, find_by_id,
}
use multi_tenant_collaborati.Payment.Row.{captured, failed, PaymentRow, SubscriptionRow, PaymentDb}
use multi_tenant_collaborati.Payment.Repository.{find_by_order_id, update_status, no_extra}
use multi_tenant_collaborati.Payment.Service.{
  own_payment, is_captured, paid_plan, captured_extra, set_plan_tier, updated_row, capture_row,
  capture_and_upgrade, write_outbox_event, verify_payment,
}
use multi_tenant_collaborati.Payment.Webhook.{
  WebhookEvent, UuidText, empty_text, entity_text, answered, outcome_of, charged_with,
  captured_event, failed_event, charged_event, refund_event, dispute_event, RefundEntity,
  same_option, is_razorpay_payment, reactivate_suspended, add_event, capture_payment,
  on_payment_captured, failed_with, on_payment_failed, charge_subscription, on_subscription_charged,
  on_refund_created, on_dispute_created, handle, already_processed, event_key, process,
}

-- The organization's row is active, and says this of the grace period.
abbrev pub IsActive : ℕ → Option ℕ → List OrgRow → Type 0
IsActive org ends_at rows =
    (o : OrgRow) × (find_by_id org rows ≡ some o)
    × (o.status ≡ active)
    × (o.grace_period_ends_at ≡ ends_at)

set_plan_tier-IsActive :
    (org : ℕ) (ends_at : Option ℕ) (payer : ℕ) (plan : PlanTier) (rows : List OrgRow)
    → IsActive org ends_at rows
    → IsActive org ends_at (set_plan_tier payer plan rows)
unfolding find_by_id set_plan_tier
set_plan_tier-IsActive org ends_at payer plan rows (o, found, is, at) =
    let e =
      select_first-update_where (is_live_org org) (λ (x : OrgRow). x.id == payer)
        (λ (x : OrgRow). record x { plan_tier = plan }) rows o (λ x. refl) found in
    elim (Bool-cases (o.id == payer)) [
      | inl own ↦ (record o { plan_tier = plan }, ground arith, is, at)
      | inr other ↦ (o, ground arith, is, at)
    ]

reactivate_suspended-IsActive :
    (org : ℕ) (ends_at : Option ℕ) (payer : ℕ) (db : PaymentDb)
    → IsActive org ends_at db.organizations
    → IsActive org ends_at (reactivate_suspended payer db).organizations
unfolding find_by_id reactivate_suspended
reactivate_suspended-IsActive org ends_at payer db (o, found, is, at) =
    let e =
      select_first-update_where (is_live_org org)
        (λ (x : OrgRow). x.id == payer && org_status_eq x.status suspended)
        (λ (x : OrgRow). record x { status = active; grace_period_ends_at = none }) db.organizations
        o (λ x. refl) found in
    (o, ground arith, is, at)

-- What an update of the order's row leaves, also where it is refused.
updated_row-cases :
    (m : Option (Option PaymentRow × List PaymentRow)) (db : PaymentDb)
    → ((e : AppError) × (after : PaymentDb) × (updated_row m db ≡ (err e, after))
        × (after.organizations ≡ db.organizations))
      ⊎ ((row : PaymentRow) × (after : PaymentDb) × (updated_row m db ≡ (ok row, after))
          × (after.organizations ≡ db.organizations))
updated_row-cases none db = inl (_, db, refl, refl)
updated_row-cases (some (none, rows)) db = inl (_, record db { payments = rows }, refl, refl)
updated_row-cases (some (some row, rows)) db = inr (row, record db { payments = rows }, refl, refl)

capture_row-cases :
    (now order payment : ℕ) (db : PaymentDb)
    → ((e : AppError) × (after : PaymentDb) × (capture_row now order payment db ≡ (err e, after))
        × (after.organizations ≡ db.organizations))
      ⊎ ((row : PaymentRow) × (after : PaymentDb) × (capture_row now order payment db
            ≡ (ok row, after))
          × (after.organizations ≡ db.organizations))
unfolding capture_row
capture_row-cases now order payment db =
    updated_row-cases (update_status order captured (captured_extra now payment) db.payments) db

capture_and_upgrade-IsActive :
    (new_id now payer order payment : ℕ) (p : PaymentRow) (org : ℕ) (ends_at : Option ℕ)
    (db : PaymentDb)
    → IsActive org ends_at db.organizations
    → IsActive org ends_at (capture_and_upgrade new_id now payer order payment p db).1.organizations
unfolding capture_and_upgrade write_outbox_event
capture_and_upgrade-IsActive new_id now payer order payment p org ends_at db h =
    elim (capture_row-cases now order payment db) [
      | inl (e, after, run, same) ↦
          let kept : (capture_and_upgrade new_id now payer order payment p db).1.organizations
              ≡ db.organizations =
            ground arith in
          rw kept h
      | inr (row, after, run, same) ↦
          let planned : (capture_and_upgrade new_id now payer order payment p db).1.organizations
              ≡ set_plan_tier payer (paid_plan p) db.organizations =
            ground arith in
          rw planned (set_plan_tier-IsActive org ends_at payer (paid_plan p) db.organizations h)
    ]

verify_payment-IsActive :
    (new_id now payer order payment : ℕ) (valid : Bool) (org : ℕ) (ends_at : Option ℕ)
    (db : PaymentDb)
    → IsActive org ends_at db.organizations
    → IsActive org ends_at (verify_payment new_id now payer order payment valid db).1.organizations
unfolding verify_payment
verify_payment-IsActive new_id now payer order payment false org ends_at db h = h
verify_payment-IsActive new_id now payer order payment true org ends_at db h =
    elim (Option-cases (own_payment payer (find_by_order_id order db.payments))) [
      | inl missing ↦ rw missing h
      | inr (p, found) ↦ elim (Bool-cases (is_captured p.status)) [
        | inl done ↦ rw (found, done) h
        | inr open_yet ↦
            rw (found, open_yet)
              (capture_and_upgrade-IsActive new_id now payer order payment p org ends_at db h)
      ]
    ]

capture_payment-IsActive :
    (now entity_id order : ℕ) (p : PaymentRow) (org : ℕ) (ends_at : Option ℕ) (db : PaymentDb)
    → IsActive org ends_at db.organizations
    → IsActive org ends_at (or_else (capture_payment now entity_id order p db) db).organizations
unfolding capture_payment add_event
capture_payment-IsActive now entity_id order p org ends_at db h =
    elim (Bool-cases (is_captured p.status)) [
      | inl done ↦ rw done h
      | inr open_yet ↦
          elim (Option-cases
            (update_status order captured (captured_extra now entity_id) db.payments)) [
              | inl refused ↦ rw (open_yet, refused) h
              | inr ((updated, rows), taken) ↦
                  rw (open_yet, taken)
                    (reactivate_suspended-IsActive org ends_at p.org_id
                      (record db { payments = rows }) h)
            ]
    ]

on_payment_captured-IsActive :
    (now entity_id : ℕ) (order : Option ℕ) (org : ℕ) (ends_at : Option ℕ) (db : PaymentDb)
    → IsActive org ends_at db.organizations
    → IsActive org ends_at (or_else (on_payment_captured now entity_id order db) db).organizations
unfolding on_payment_captured
on_payment_captured-IsActive now entity_id none org ends_at db h = h
on_payment_captured-IsActive now entity_id (some order) org ends_at db h =
    elim (Option-cases (find_by_order_id order db.payments)) [
      | inl missing ↦ rw (missing, on_payment_captured, or_else) h
      | inr (p, found) ↦
          rw (found, on_payment_captured, or_else)
            (capture_payment-IsActive now entity_id order p org ends_at db h)
    ]

failed_with-IsActive :
    (p : PaymentRow) (m : Option (Option PaymentRow × List PaymentRow)) (org : ℕ)
    (ends_at : Option ℕ) (db : PaymentDb)
    → IsActive org ends_at db.organizations
    → IsActive org ends_at (or_else (failed_with p m db) db).organizations
failed_with-IsActive p none org ends_at db h = h
failed_with-IsActive p (some (updated, rows)) org ends_at db h = h

on_payment_failed-IsActive :
    (order : Option ℕ) (org : ℕ) (ends_at : Option ℕ) (db : PaymentDb)
    → IsActive org ends_at db.organizations
    → IsActive org ends_at (or_else (on_payment_failed order db) db).organizations
unfolding on_payment_failed
on_payment_failed-IsActive none org ends_at db h = h
on_payment_failed-IsActive (some order) org ends_at db h =
    elim (Option-cases (find_by_order_id order db.payments)) [
      | inl missing ↦ rw (missing, on_payment_failed, or_else) h
      | inr (p, found) ↦
          rw (found, on_payment_failed, or_else)
            (failed_with-IsActive p (update_status order failed no_extra db.payments) org ends_at db
              h)
    ]

outcome_of-IsActive :
    (m : Option PaymentDb) (org : ℕ) (ends_at : Option ℕ) (db : PaymentDb)
    → IsActive org ends_at (or_else m db).organizations
    → IsActive org ends_at (outcome_of m db).1.organizations
outcome_of-IsActive none org ends_at db h = h
outcome_of-IsActive (some after) org ends_at db h = h

on_refund_created-IsActive :
    (now : ℕ) (refund : RefundEntity) (org : ℕ) (ends_at : Option ℕ) (db : PaymentDb)
    → IsActive org ends_at db.organizations
    → IsActive org ends_at (on_refund_created now refund db).organizations
unfolding on_refund_created add_event
on_refund_created-IsActive now refund org ends_at db h =
    elim (Option-cases (select_first (is_razorpay_payment refund.payment_id) db.payments)) [
      | inl missing ↦ rw (missing, on_refund_created) h
      | inr (p, found) ↦ rw (found, on_refund_created) h
    ]

on_dispute_created-IsActive :
    (now : ℕ) (dispute : RefundEntity) (org : ℕ) (ends_at : Option ℕ) (db : PaymentDb)
    → IsActive org ends_at db.organizations
    → IsActive org ends_at (on_dispute_created now dispute db).organizations
unfolding on_dispute_created add_event
on_dispute_created-IsActive now dispute org ends_at db h =
    elim (Option-cases (select_first (is_razorpay_payment dispute.payment_id) db.payments)) [
      | inl missing ↦ rw (missing, on_dispute_created) h
      | inr (p, found) ↦ rw (found, on_dispute_created) h
    ]

-- A request of a client or of Razorpay about payments.
pub data PaymentStep : Type 0 where
  verification : (new_id now org order payment : ℕ) (valid : Bool) → PaymentStep
  delivery : (now : ℕ) (event : WebhookEvent) → PaymentStep

module _ (parse_uuid : UuidText → Option ℕ) where
  charged_with-IsActive :
      (now payer subscription org : ℕ) (ends_at : Option ℕ) (db : PaymentDb)
      → IsActive org ends_at db.organizations
      → IsActive org ends_at (charged_with parse_uuid now payer subscription db).1.organizations
  unfolding charged_with add_event
  charged_with-IsActive now payer subscription org ends_at db h =
      elim (Option-cases (parse_uuid (entity_text subscription))) [
        | inl refused ↦ rw (refused, charged_with) h
        | inr (entity, read) ↦ rw (read, charged_with) h
      ]

  charge_subscription-IsActive :
      (now subscription org : ℕ) (ends_at : Option ℕ) (db : PaymentDb)
      → IsActive org ends_at db.organizations
      → IsActive org ends_at (charge_subscription parse_uuid now subscription db).1.organizations
  unfolding charge_subscription
  charge_subscription-IsActive now subscription org ends_at db h =
      elim (Option-cases (
        select_first (λ (s : SubscriptionRow). same_option s.razorpay_subscription_id subscription)
          db.subscriptions)) [
            | inl missing ↦ rw (missing, charge_subscription) h
            | inr (s, found) ↦
                rw (found, charge_subscription)
                  (charged_with-IsActive now s.org_id subscription org ends_at _
                    (reactivate_suspended-IsActive org ends_at s.org_id db h))
          ]

  handle-IsActive :
      (now : ℕ) (event : WebhookEvent) (org : ℕ) (ends_at : Option ℕ) (db : PaymentDb)
      → IsActive org ends_at db.organizations
      → IsActive org ends_at (handle parse_uuid now event db).1.organizations
  unfolding handle on_subscription_charged
  handle-IsActive now (captured_event e) org ends_at db h =
      outcome_of-IsActive (on_payment_captured now e.id e.order_id db) org ends_at db
        (on_payment_captured-IsActive now e.id e.order_id org ends_at db h)
  handle-IsActive now (failed_event e) org ends_at db h =
      outcome_of-IsActive (on_payment_failed e.order_id db) org ends_at db
        (on_payment_failed-IsActive e.order_id org ends_at db h)
  handle-IsActive now (charged_event s) org ends_at db h =
      elim (Option-cases (parse_uuid empty_text)) [
        | inl refused ↦ rw (refused, handle, on_subscription_charged) h
        | inr (id, read) ↦
            rw (read, handle, on_subscription_charged)
              (charge_subscription-IsActive now s org ends_at db h)
      ]
  handle-IsActive now (refund_event r) org ends_at db h =
      on_refund_created-IsActive now r org ends_at db h
  handle-IsActive now (dispute_event d) org ends_at db h =
      on_dispute_created-IsActive now d org ends_at db h

  answered-organizations :
      (now : ℕ) (event : WebhookEvent) (handled : Bool × PaymentDb)
      → (answered now event handled).1.organizations ≡ handled.1.organizations
  answered-organizations now event (false, db) = refl
  answered-organizations now event (true, db) = refl

  process-organizations :
      (now : ℕ) (event : WebhookEvent) (db : PaymentDb)
      → ((process parse_uuid now event db).1.organizations ≡ db.organizations)
        ⊎ ((process parse_uuid now event db).1.organizations
            ≡ (handle parse_uuid now event db).1.organizations)
  unfolding process
  process-organizations now event db =
      elim (Bool-cases (already_processed now (event_key event) db.processed)) [
        | inl old ↦ inl (rw old refl)
        | inr new ↦ inr (rw new (answered-organizations now event (handle parse_uuid now event db)))
      ]

  unfoldable pub run_step : PaymentStep → PaymentDb → PaymentDb
  unfolding verify_payment process
  run_step (verification new_id now org order payment valid) db =
      (verify_payment new_id now org order payment valid db).1
  run_step (delivery now event) db = (process parse_uuid now event db).1

  unfoldable pub run_steps : List PaymentStep → PaymentDb → PaymentDb
  unfolding run_step
  run_steps [] db = db
  run_steps (step ∷ steps) db = run_steps steps (run_step step db)

  run_step-IsActive :
      (step : PaymentStep) (org : ℕ) (ends_at : Option ℕ) (db : PaymentDb)
      → IsActive org ends_at db.organizations
      → IsActive org ends_at (run_step step db).organizations
  unfolding run_step
  run_step-IsActive (verification new_id now payer order payment valid) org ends_at db h =
      verify_payment-IsActive new_id now payer order payment valid org ends_at db h
  run_step-IsActive (delivery now event) org ends_at db h =
      elim (process-organizations now event db) [
        | inl same ↦ rw same h
        | inr handled ↦ rw handled (handle-IsActive now event org ends_at db h)
      ]

  -- Payments leave an active organization active, with the end of its grace period.
  pub run_steps-IsActive :
      (steps : List PaymentStep) (org : ℕ) (ends_at : Option ℕ) (db : PaymentDb)
      → IsActive org ends_at db.organizations
      → IsActive org ends_at (run_steps steps db).organizations
  unfolding run_steps
  run_steps-IsActive [] org ends_at db h = h
  run_steps-IsActive (step ∷ steps) org ends_at db h =
      run_steps-IsActive steps org ends_at _ (run_step-IsActive step org ends_at db h)
