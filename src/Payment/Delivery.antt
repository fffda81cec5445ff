-- ===== src/Payment/Delivery.antt =====
-- What Razorpay's deliveries can change.
use multi_tenant_collaborati.Common.{
  ℕ, ◌+◌, ◌<◌, ◌≡◌, ◌≢◌, refl, ◌∙◌, Bool, true, false, Option, none, some, List, ◌∷◌, ==_refl,
  arith, Bool-cases, inl, inr, ◌⊎◌,
}
use multi_tenant_collaborati.Payment.Row.{
  PaymentDb, WebhookKey, captured_key, failed_key, charged_key, refund_key, dispute_key,
}
use multi_tenant_collaborati.Payment.Webhook.{
  UuidText, empty_text, outcome_of, on_payment_captured, on_payment_failed, captured_event,
  failed_event, refund_event, dispute_event, WebhookEvent, charged_event, Parsed, invalid_json,
  unrecognized, parsed, event_key, webhook_key_eq, already_processed, answered, handle,
  on_subscription_charged, process, receive, dispatch, idempotency_ttl,
}

webhook_key_eq_refl : (k : WebhookKey) → webhook_key_eq k k ≡ true
webhook_key_eq_refl (captured_key a) = ==_refl a
webhook_key_eq_refl (failed_key a) = ==_refl a
webhook_key_eq_refl (charged_key a) = ==_refl a
webhook_key_eq_refl (refund_key a) = ==_refl a
webhook_key_eq_refl (dispute_key a) = ==_refl a

module _ (parse_uuid : UuidText → Option ℕ) where
  process_once :
      (now : ℕ) (event : WebhookEvent) (db : PaymentDb)
      → already_processed now (event_key event) db.processed ≡ false
      → process parse_uuid now event db ≡ answered now event (handle parse_uuid now event db)
  unfolding process
  process_once now event db new = rw new refl

  process_skips :
      (now : ℕ) (event : WebhookEvent) (db : PaymentDb)
      → already_processed now (event_key event) db.processed ≡ true
      → process parse_uuid now event db ≡ (200, db)
  unfolding process
  process_skips now event db old = rw old refl

  -- A `subscription.charged` event is refused, since the empty text is no UUID.
  pub charged_refused :
      (now subscription : ℕ) (db : PaymentDb)
      → parse_uuid empty_text ≡ none
      → already_processed now (event_key (charged_event subscription)) db.processed ≡ false
      → process parse_uuid now (charged_event subscription) db ≡ (500, db)
  unfolding process handle on_subscription_charged
  charged_refused now subscription db refused new = ground arith

outcome_of-cases :
    (m : Option PaymentDb) (db : PaymentDb)
    → (outcome_of m db ≡ (false, db)) ⊎ ((after : PaymentDb) × (outcome_of m db ≡ (true, after)))
outcome_of-cases none db = inl refl
outcome_of-cases (some after) db = inr (after, refl)

-- A handler that throws has written nothing, since `subscription.charged` comes to no write.
handle-cases :
    (parse_uuid : UuidText → Option ℕ) (now : ℕ) (event : WebhookEvent) (db : PaymentDb)
    → parse_uuid empty_text ≡ none
    → (handle parse_uuid now event db ≡ (false, db))
      ⊎ ((after : PaymentDb) × (handle parse_uuid now event db ≡ (true, after)))
unfolding handle on_subscription_charged
handle-cases parse_uuid now (captured_event e) db no_empty =
    outcome_of-cases (on_payment_captured now e.id e.order_id db) db
handle-cases parse_uuid now (failed_event e) db no_empty =
    outcome_of-cases (on_payment_failed e.order_id db) db
handle-cases parse_uuid now (charged_event s) db no_empty =
    inl (rw (no_empty, handle, on_subscription_charged) refl)
handle-cases parse_uuid now (refund_event r) db no_empty = inr (_, refl)
handle-cases parse_uuid now (dispute_event d) db no_empty = inr (_, refl)

marked :
    (now later : ℕ) (event : WebhookEvent) (marks : List (WebhookKey × ℕ))
    → later < now + idempotency_ttl
    → already_processed later (event_key event) ((event_key event, now + idempotency_ttl) ∷ marks)
      ≡ true
unfolding already_processed
marked now later event marks soon = ground (arith, webhook_key_eq_refl (event_key event))

-- A body that gives no event is answered with a status, and nothing is done.
Parsed-cases :
    (parse_uuid : UuidText → Option ℕ) (p : Parsed)
    → ((status : ℕ) × ((now : ℕ) (db : PaymentDb) → dispatch parse_uuid now p db ≡ (status, db)))
      ⊎ ((event : WebhookEvent) × (p ≡ parsed event))
unfolding dispatch
Parsed-cases parse_uuid invalid_json = inl (400, λ now db. refl)
Parsed-cases parse_uuid unrecognized = inl (200, λ now db. refl)
Parsed-cases parse_uuid (parsed event) = inr (event, refl)

module _ (parse_uuid : UuidText → Option ℕ) {Body Signature : Type 0}
    (verify : Body → Signature → Bool) (parse : Body → Parsed) where
  receive_verified :
      (now : ℕ) (body : Body) (signature : Signature) (event : WebhookEvent) (db : PaymentDb)
      → verify body signature ≡ true
      → parse body ≡ parsed event
      → receive parse_uuid verify parse now body (some signature) db
        ≡ process parse_uuid now event db
  unfolding receive dispatch
  receive_verified now body signature event db v p = rw (v, p) refl

  -- While PostgreSQL reads no UUID from the empty text: an event with a signature that verifies, not
  -- processed before. Either its handler throws: it is
  -- answered with 500 and changes nothing, no mark either. Or it is answered with 200, and the same
  -- event delivered again within seven days is answered with 200 and changes nothing: no second
  -- capture, refund, reactivation, event or job.
  pub receive_twice :
      (now later : ℕ) (body : Body) (signature : Signature) (event : WebhookEvent) (db : PaymentDb)
      → parse_uuid empty_text ≡ none
      → verify body signature ≡ true
      → parse body ≡ parsed event
      → already_processed now (event_key event) db.processed ≡ false
      → later < now + idempotency_ttl
      → let (status, after) = receive parse_uuid verify parse now body (some signature) db in
        ((handle parse_uuid now event db ≡ (false, db)) × (status ≡ 500) × (after ≡ db))
        ⊎ ((status ≡ 200)
            × (receive parse_uuid verify parse later body (some signature) after ≡ (200, after)))
  receive_twice now later body signature event db no_empty v p new soon =
      elim (handle-cases parse_uuid now event db no_empty) [
        | inl thrown ↦
            rw
              (
                receive_verified now body signature event db v p,
                process_once parse_uuid now event db new,
                thrown,
              )
              (inl (refl, refl, refl))
        | inr (db', handled) ↦
            rw
              (
                receive_verified now body signature event db v p,
                process_once parse_uuid now event db new,
                handled,
              )
              (inr (
                refl,
                receive_verified later body signature event _ v p
                    ∙ process_skips parse_uuid later event _ (marked now later event _ soon),
              ))
      ]

  -- While PostgreSQL reads no UUID from the empty text, a delivery changes the database only if it carries a signature that verifies, its body parses to
  -- a known event, and that event is not marked as processed; it is then processed and answered 200.
  pub receive_changes :
      (now : ℕ) (body : Body) (signature : Option Signature) (db : PaymentDb)
      → parse_uuid empty_text ≡ none
      → (receive parse_uuid verify parse now body signature db).1 ≢ db
      → (s : Signature) × (event : WebhookEvent) × (signature ≡ some s)
        × (verify body s ≡ true)
        × (parse body ≡ parsed event)
        × (already_processed now (event_key event) db.processed ≡ false)
        × (receive parse_uuid verify parse now body signature db
            ≡ (200, (process parse_uuid now event db).1))
  unfolding receive dispatch
  receive_changes now body none db no_empty h = absurd (h refl)
  receive_changes now body (some s) db no_empty h = elim (Bool-cases (verify body s)) [
    | inr forged ↦ absurd (h (rw forged refl))
    | inl fine ↦ elim (Parsed-cases parse_uuid (parse body)) [
      | inl (status, idle) ↦ absurd (h (rw (fine, idle now db) refl))
      | inr (event, known) ↦
          elim (Bool-cases (already_processed now (event_key event) db.processed)) [
            | inl old ↦
                absurd (h (rw (fine, known, process_skips parse_uuid now event db old) refl))
            | inr new ↦ elim (handle-cases parse_uuid now event db no_empty) [
              | inl thrown ↦
                  absurd
                    (h (rw (fine, known, process_once parse_uuid now event db new, thrown) refl))
              | inr (db', handled) ↦ (
                s,
                event,
                refl,
                fine,
                known,
                new,
                rw (fine, known, process_once parse_uuid now event db new, handled) refl,
              )
            ]
          ]
    ]
  ]
