-- ===== src/Webhook/Once.antt =====
-- What src/modules/webhook/workers/webhook-delivery.worker.ts does with an event while PostgreSQL
-- refuses the update of the delivery log.
use multi_tenant_collaborati.Common.{
  ℕ, ◌≡◌, refl, ◌∙◌, inl, inr, String, Bool, true, false, Option, none, some, List, [], ◌∷◌, ◌++◌,
  ==_refl, Bool-cases, Option-cases, ok, err, Result, if◌then◌else◌,
}
use multi_tenant_collaborati.Webhook.Row.{
  DeliveryStatus, delivered, failed, WebhookRow, WebhookDeliveryLogRow, Post, WebhookDb,
}
use multi_tenant_collaborati.Webhook.Repository.{
  SqlType, varchar, text, status_uses, find_webhook, find_delivery_log, new_delivery_log,
  update_delivery_log,
}
use multi_tenant_collaborati.Webhook.Service.{Url, is_private_ip}
use multi_tenant_collaborati.Webhook.Worker.{
  WebhookDeliveryJobData, Receiver, delivery_error, signed_post, deliver_webhook, attempt,
  is_success, settle, deliver_to, with_log, was_delivered, webhook_delivery_worker_job,
}
use multi_tenant_collaborati.Webhook.Delivered.{attempt-IsAttempt, deliver_to-run, with_log-keeps}

abbrev pub nothing : WebhookDb
nothing = record { webhooks = []; delivery_log = []; posts = []; followed = [] }

-- The calls of `axios.post` that an attempt makes, the newest first.
abbrev pub calls : Receiver → WebhookDeliveryJobData → WebhookRow → List Post
calls net job webhook = (attempt net job webhook nothing).1.posts

-- The row that the job works with is the one that is found for its webhook and event.
found_logged :
    (new_id now : ℕ) (job : WebhookDeliveryJobData) (existing : Option WebhookDeliveryLogRow)
    (db : WebhookDb)
    → find_delivery_log job.webhook_id job.event_id db.delivery_log ≡ existing
    → (row : WebhookDeliveryLogRow) × (find_delivery_log job.webhook_id job.event_id
          (with_log new_id now job existing db).1.delivery_log
        ≡ some row)
      × (row.id ≡ (with_log new_id now job existing db).0)
unfolding find_delivery_log
found_logged new_id now job none db e = (
  new_delivery_log new_id now job.webhook_id job.org_id job.event_id job.event_type,
  rw (==_refl job.webhook_id, ==_refl job.event_id) refl,
  refl,
)
found_logged new_id now job (some log) db e = (log, e, refl)

job-run :
    (net : Receiver) (new_id now : ℕ) (job : WebhookDeliveryJobData) (db : WebhookDb)
    (webhook : WebhookRow)
    → was_delivered (find_delivery_log job.webhook_id job.event_id db.delivery_log) ≡ false
    → find_webhook job.webhook_id job.org_id db.webhooks ≡ some webhook
    → (let (log, logged) =
          with_log new_id now job
            (find_delivery_log job.webhook_id job.event_id db.delivery_log)
            db in
        webhook_delivery_worker_job net new_id now job db
        ≡ deliver_to net now job log (some webhook) logged)
unfolding webhook_delivery_worker_job
job-run net new_id now job db webhook first found =
    let existing = find_delivery_log job.webhook_id job.event_id db.delivery_log in
    let (_, webhooks) = with_log-keeps new_id now job existing db in
    rw (first, webhooks, found) refl

update_delivery_log-refused :
    (accepts : List SqlType → Bool) (now log : ℕ) (status : DeliveryStatus) (code : Option ℕ)
    (rows : List WebhookDeliveryLogRow)
    → accepts status_uses ≡ false
    → update_delivery_log accepts now log status code rows ≡ none
unfolding update_delivery_log
update_delivery_log-refused accepts now log status code rows refused = rw refused refl

settle-refused :
    (accepts : List SqlType → Bool) (now log : ℕ) (answer : Result ℕ) (db : WebhookDb)
    → accepts status_uses ≡ false
    → settle accepts now log answer db ≡ (err delivery_error, db)
unfolding settle
settle-refused accepts now log (err e) db refused =
    rw (update_delivery_log-refused accepts now log failed none db.delivery_log refused) refl
settle-refused accepts now log (ok status) db refused =
    let status' = if is_success status then delivered else failed in
    rw
      (
        update_delivery_log-refused accepts now log status' (some status) db.delivery_log refused,
        update_delivery_log-refused accepts now log failed (some status) db.delivery_log refused,
      )
      refl

deliver_webhook_calls :
    (net : Receiver) (job : WebhookDeliveryJobData) (url : Url) (secret : String) (db : WebhookDb)
    → (deliver_webhook net job url secret db).1.posts
      ≡ (deliver_webhook net job url secret nothing).1.posts ++ db.posts
unfolding deliver_webhook
deliver_webhook_calls net job url secret db =
    elim (Option-cases (net.resolver.lookup url.hostname)) [
      | inl missing ↦ rw missing refl
      | inr (address, found) ↦ elim (Bool-cases (is_private_ip net.resolver address)) [
        | inl private ↦ rw (found, private) refl
        | inr public_ ↦
            elim (Option-cases (net.post (signed_post net job url.hostname secret address)).1) [
              | inl lost ↦ rw (found, public_, lost) refl
              | inr (status, answered) ↦ rw (found, public_, answered) refl
            ]
      ]
    ]

attempt_calls :
    (net : Receiver) (job : WebhookDeliveryJobData) (webhook : WebhookRow) (db : WebhookDb)
    → (attempt net job webhook db).1.posts ≡ (attempt net job webhook nothing).1.posts ++ db.posts
unfolding attempt
attempt_calls net job webhook db = elim (Option-cases (net.resolver.parse_url webhook.url)) [
  | inl bad ↦ rw bad refl
  | inr (url, parsed) ↦ elim (Option-cases (net.decrypt_secret webhook.secret_encrypted)) [
    | inl lost ↦ rw (parsed, lost) refl
    | inr (secret, known) ↦ rw (parsed, known) (deliver_webhook_calls net job url secret db)
  ]
]

-- The row of the event is not one that was delivered, also where the job wrote it.
logged_undelivered :
    (new_id now : ℕ) (job : WebhookDeliveryJobData) (existing : Option WebhookDeliveryLogRow)
    (db : WebhookDb)
    → find_delivery_log job.webhook_id job.event_id db.delivery_log ≡ existing
    → was_delivered existing ≡ false
    → was_delivered (
        find_delivery_log job.webhook_id job.event_id
          (with_log new_id now job existing db).1.delivery_log)
      ≡ false
unfolding find_delivery_log
logged_undelivered new_id now job none db e first =
    rw (==_refl job.webhook_id, ==_refl job.event_id) refl
logged_undelivered new_id now job (some log) db e first = rw e first

-- A run of the job of an active subscription for an event that is not marked as delivered.
record IsRun (net : Receiver) (new_id now : ℕ) (job : WebhookDeliveryJobData) (webhook : WebhookRow)
    (db : WebhookDb) : Type 0 where
  fails : (webhook_delivery_worker_job net new_id now job db).0 ≡ err delivery_error
  sends :
      (webhook_delivery_worker_job net new_id now job db).1.posts
      ≡ calls net job webhook ++ db.posts
  keeps : (webhook_delivery_worker_job net new_id now job db).1.webhooks ≡ db.webhooks
  unmarked :
      was_delivered (
        find_delivery_log job.webhook_id job.event_id
          (webhook_delivery_worker_job net new_id now job db).1.delivery_log)
      ≡ false

job-IsRun :
    (net : Receiver) (new_id now : ℕ) (job : WebhookDeliveryJobData) (db : WebhookDb)
    (webhook : WebhookRow)
    → net.accepts status_uses ≡ false
    → find_webhook job.webhook_id job.org_id db.webhooks ≡ some webhook
    → webhook.is_active ≡ true
    → was_delivered (find_delivery_log job.webhook_id job.event_id db.delivery_log) ≡ false
    → IsRun net new_id now job webhook db
job-IsRun net new_id now job db webhook refused found active first =
    let existing = find_delivery_log job.webhook_id job.event_id db.delivery_log in
    let (log, logged) = with_log new_id now job existing db in
    let (answer, after) = attempt net job webhook logged in
    let ((posts, _), webhooks) = with_log-keeps new_id now job existing db in
    let kept = attempt-IsAttempt net job webhook logged in
    let run : webhook_delivery_worker_job net new_id now job db ≡ (err delivery_error, after) =
      job-run net new_id now job db webhook first found
      ∙ deliver_to-run net now job log webhook logged active
      ∙ settle-refused net.accepts now log answer after refused in
    record {
      fails = rw run refl;
      sends = rw (run, attempt_calls net job webhook logged, posts) refl;
      keeps = rw (run, kept.webhooks, webhooks) refl;
      unmarked = rw (run, kept.log) (logged_undelivered new_id now job existing db refl first);
    }

-- While PostgreSQL finds no type for `$2` in the update of the delivery log, as it does not for one
-- that is used as a VARCHAR and as a text: the job of an active subscription, for an event that is not
-- marked as delivered, always ends with an error, whatever the receiver answers; the event stays
-- unmarked, and the same job run again makes the same calls of `axios.post` once more.
pub sent_again :
    (net : Receiver) (new_id new_id' now now' : ℕ) (job : WebhookDeliveryJobData) (db : WebhookDb)
    (webhook : WebhookRow)
    → net.accepts (varchar ∷ text ∷ []) ≡ false
    → find_webhook job.webhook_id job.org_id db.webhooks ≡ some webhook
    → webhook.is_active ≡ true
    → was_delivered (find_delivery_log job.webhook_id job.event_id db.delivery_log) ≡ false
    → (let (answer, after) = webhook_delivery_worker_job net new_id now job db in
        let (answer', again) = webhook_delivery_worker_job net new_id' now' job after in
        (answer ≡ err delivery_error)
        × (answer' ≡ err delivery_error)
        × (after.posts ≡ calls net job webhook ++ db.posts)
        × (again.posts ≡ calls net job webhook ++ (calls net job webhook ++ db.posts))
        × (was_delivered (find_delivery_log job.webhook_id job.event_id again.delivery_log)
            ≡ false))
sent_again net new_id new_id' now now' job db webhook refused found active first =
    let one = job-IsRun net new_id now job db webhook refused found active first in
    let after = (webhook_delivery_worker_job net new_id now job db).1 in
    let two =
      job-IsRun net new_id' now' job after webhook refused (rw one.keeps found) active
        one.unmarked in
    (one.fails, two.fails, one.sends, rw (two.sends, one.sends) refl, two.unmarked)
