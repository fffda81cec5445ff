-- ===== src/Tests/Payments.antt =====
-- An organization that buys the pro plan, and the deliveries about its payment.
use multi_tenant_collaborati.Common.{
  length, ap, ℕ, Option, ◌⊎◌, ◌≡◌, ◌≢◌, refl, Bool, true, false, none, some, [], ◌∷◌, Memᴰ, arith,
  ok, err, ◌==◌, bad_request_error,
}
use multi_tenant_collaborati.Organization.Row.{OrgRow, active, free, pro}
use multi_tenant_collaborati.Payment.Row.{PaymentRow, PaymentDb, created, captured, monthly}
use multi_tenant_collaborati.Payment.Repository.{
  find_by_order_id, find_by_idempotency_key, is_taken, with_status, update_status,
}
use multi_tenant_collaborati.Payment.Service.{
  RazorpayOrder, existing_order, create_order, plan_amounts, existing_or_new, place_order,
  insert_payment, write_outbox_event, order_key, captured_extra, verify_payment,
}
use multi_tenant_collaborati.Payment.Webhook.{
  UuidText, WebhookEvent, captured_event, Parsed, parsed, handle, process, receive,
  already_processed, event_key, dispatch, on_payment_captured, capture_payment, add_event,
  reactivate_suspended,
}
use multi_tenant_collaborati.Payment.Delivery.{receive_twice, receive_changes}
use multi_tenant_collaborati.Payment.Order.{create_order_again}
use multi_tenant_collaborati.Payment.Capture.{
  KeepsPlans, webhook_before_verification, verify_payment_upgrades,
}

abbrev pub organization : OrgRow
organization = record {
  id = 1;
  name = "Acme";
  slug = "acme";
  status = active;
  plan_tier = free;
  plan_started_at = 0;
  plan_expires_at = none;
  grace_period_ends_at = none;
  offboarding_started_at = none;
  deleted_at = none;
  max_members = 5;
  storage_quota_bytes = 1000;
  storage_used_bytes = 0;
  saml_enabled = false;
  saml_metadata_url = none;
  mfa_required = false;
  account_lockout_attempts = 5;
  retention_audit_days = 30;
  retention_chat_days = none;
  timezone = "UTC";
  locale = "en";
  created_at = 0;
  updated_at = 0;
  version = 1;
}

abbrev order_row : PaymentRow
order_row = record {
  id = 20;
  org_id = 1;
  subscription_id = none;
  razorpay_order_id = 500;
  razorpay_payment_id = none;
  amount_paise = 99900;
  currency = "INR";
  status = created;
  failure_reason = none;
  captured_at = none;
  refunded_at = none;
  idempotency_key = order_key 1 pro monthly 0;
  metadata = record { plan_tier = some pro; billing_cycle = some monthly; user_id = some 7 };
  created_at = 0;
  updated_at = 0;
}

abbrev pub ordered : PaymentDb
ordered = record {
  payments = order_row ∷ [];
  subscriptions = [];
  organizations = organization ∷ [];
  outbox = [];
  failure_jobs = [];
  processed = [];
}

abbrev empty : PaymentDb
empty = record ordered { payments = [] }

order_found : find_by_order_id 500 ordered.payments ≡ some order_row
unfolding find_by_order_id
order_found = refl

-- Bodies and signatures are numbers here: a signature is right if it is the body, and the body names
-- a captured payment of order 500.
abbrev signed : ℕ → ℕ → Bool
signed body signature = body == signature

abbrev capture_of : ℕ → Parsed
capture_of payment = parsed (captured_event (record { id = payment; order_id = some 500 }))

abbrev captured_once : WebhookEvent
captured_once = captured_event (record { id = 9; order_id = some 500 })

-- PostgreSQL's reading of a text as a UUID, replaced: it reads none.
abbrev pub no_uuid : UuidText → Option ℕ
no_uuid text = none

unseen : already_processed 100 (event_key captured_once) [] ≡ false
unfolding already_processed
unseen = refl

receive_twice_example :
    let (status, after) = receive no_uuid signed capture_of 100 9 (some 9) ordered in
    ((handle no_uuid 100 captured_once ordered ≡ (false, ordered))
      × (status ≡ 500)
      × (after ≡ ordered))
    ⊎ ((status ≡ 200) × (receive no_uuid signed capture_of 200 9 (some 9) after ≡ (200, after)))
receive_twice_example =
    receive_twice no_uuid signed capture_of 100 200 9 9 captured_once ordered refl refl refl unseen
      (ground arith)

processed_after : PaymentDb → ℕ
processed_after db = length db.processed

capture_marks : processed_after (receive no_uuid signed capture_of 100 9 (some 9) ordered).1 ≡ 1
unfolding processed_after receive dispatch process handle already_processed on_payment_captured
    capture_payment update_status add_event reactivate_suspended find_by_order_id
capture_marks = refl

one_not_zero : (n : ℕ) → n ≡ 1 → n ≢ 0
one_not_zero n is_one is_zero = omega (arith, is_one, is_zero)

capture_writes : (receive no_uuid signed capture_of 100 9 (some 9) ordered).1 ≢ ordered
unfolding processed_after
capture_writes e = one_not_zero _ capture_marks (ap processed_after e)

receive_changes_example :
    (s : ℕ) × (event : WebhookEvent) × (some 9 ≡ some s)
    × (signed 9 s ≡ true)
    × (capture_of 9 ≡ parsed event)
    × (already_processed 100 (event_key event) [] ≡ false)
    × (receive no_uuid signed capture_of 100 9 (some 9) ordered
        ≡ (200, (process no_uuid 100 event ordered).1))
receive_changes_example =
    receive_changes no_uuid signed capture_of 100 9 (some 9) ordered refl capture_writes

-- What Razorpay answers.
abbrev order : ℕ → RazorpayOrder
order n = record {
  id = n;
  amount = 99900;
  currency = "INR";
  status = "created";
  receipt = some "receipt";
  created_at = 0;
}

create_succeeds :
    (create_order 20 0 1 pro monthly 7 (ok (order 500)) empty).0 ≡ ok (order 500, order_row)
unfolding create_order plan_amounts existing_or_new place_order insert_payment write_outbox_event
    find_by_idempotency_key
create_succeeds = refl

create_order_again_example :
    let after = (create_order 20 0 1 pro monthly 7 (ok (order 500)) empty).1 in
    (create_order 21 5000 1 pro monthly 8 (ok (order 501)) after
      ≡ (ok (existing_order order_row, order_row), after))
    × ((existing_order order_row).id ≡ 500)
create_order_again_example =
    create_order_again 20 21 0 5000 1 pro monthly 7 8 (ok (order 500)) (ok (order 501)) empty
      (order 500) order_row create_succeeds refl

nine_free : is_taken 500 (some 9) ordered.payments ≡ false
unfolding is_taken
nine_free = refl

webhook_before_verification_example :
    (after : PaymentDb) × (handle no_uuid 100
        (captured_event (record { id = 9; order_id = some 500 }))
        ordered
      ≡ (true, after))
    × (verify_payment 30 200 1 500 9 true after
        ≡ (ok (with_status captured (captured_extra 100 9) order_row), after))
    × (after.subscriptions ≡ [])
    × KeepsPlans ordered after
webhook_before_verification_example =
    webhook_before_verification no_uuid 30 100 200 9 500 9 order_row ordered order_found refl
      nine_free

verify_payment_upgrades_example :
    let (r, after) = verify_payment 30 200 1 500 9 true ordered in
    (r ≡ ok (with_status captured (captured_extra 200 9) order_row))
    × (find_by_order_id 500 after.payments
        ≡ some (with_status captured (captured_extra 200 9) order_row))
    × ((o : OrgRow)
        → Memᴰ o after.organizations
        → ((o.id ≡ 1) → (o.plan_tier ≡ pro)) × ((o.id ≢ 1) → Memᴰ o ordered.organizations))
    × (verify_payment 30 200 1 500 9 false ordered
        ≡ (err (bad_request_error "INVALID_PAYMENT_SIGNATURE"), ordered))
verify_payment_upgrades_example =
    verify_payment_upgrades 30 200 1 500 9 order_row ordered order_found refl refl nine_free
