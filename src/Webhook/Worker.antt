-- ===== src/Webhook/Worker.antt =====
-- src/modules/webhook/workers/webhook-delivery.worker.ts. The answer of the receiver, the decryption
-- of the secret and the signature are parameters.
use multi_tenant_collaborati.Common.{
  ℕ, String, Bool, false, ◌&&◌, Option, none, some, ◌∷◌, leb, ltb, if◌then◌else◌, Result, ok, err,
  List, ◌++◌, or_else, Action, or_throw, throw_if, modify, ◌>>=◌, ◌>>◌, AppError, app_error,
}
use multi_tenant_collaborati.Webhook.Row.{
  WebhookRow, DeliveryStatus, delivered, failed, WebhookDeliveryLogRow, Post, WebhookDb,
}
use multi_tenant_collaborati.Webhook.Repository.{
  SqlType, find_webhook, find_delivery_log, new_delivery_log, is_delivered, update_delivery_log,
}
use multi_tenant_collaborati.Webhook.Service.{Url, Resolver, is_private_ip}

pub record WebhookDeliveryJobData : Type 0 where
  pub webhook_id : ℕ
  pub org_id : ℕ
  pub event_id : ℕ
  pub event_type : String
  pub payload : String

-- `post` is `axios.post`, which follows redirects as its default is: the addresses to which they led
-- it, and the status of the last answer, or `none` on a time-out or a broken connection. `accepts` is
-- PostgreSQL's choice of a type for a parameter.
pub record Receiver : Type 0 where
  pub resolver : Resolver
  pub decrypt_secret : String → Option String
  pub sign : String → String → String
  pub post : Post → List String × Option ℕ
  pub accepts : List SqlType → Bool

-- An error of the attempt: BullMQ reads that it was thrown, not which it was.
abbrev pub delivery_error : AppError
delivery_error = app_error 500 "DELIVERY_FAILED"

abbrev pub signed_post : Receiver → WebhookDeliveryJobData → String → String → String → Post
signed_post net job host' secret address' = record {
  address = address';
  host = host';
  signature = net.sign job.payload secret;
  event_type = job.event_type;
  event_id = job.event_id;
}

unfoldable pub deliver_webhook :
    Receiver → WebhookDeliveryJobData → Url → String → Action WebhookDb ℕ
deliver_webhook net job url secret = do
  address ← or_throw (net.resolver.lookup url.hostname) delivery_error
  throw_if (is_private_ip net.resolver address) delivery_error
  let post = signed_post net job url.hostname secret address
  let (redirects, status) = net.post post
  modify (λ db. record db { posts = post ∷ db.posts; followed = redirects ++ db.followed })
  or_throw status delivery_error

-- The body of the `try`: what the receiver answered.
unfoldable pub attempt : Receiver → WebhookDeliveryJobData → WebhookRow → Action WebhookDb ℕ
attempt net job webhook = do
  url ← or_throw (net.resolver.parse_url webhook.url) delivery_error
  secret ← or_throw (net.decrypt_secret webhook.secret_encrypted) delivery_error
  deliver_webhook net job url secret

abbrev pub is_success : ℕ → Bool
is_success status = leb 200 status && ltb status 300

abbrev pub logged_rows : Option (List WebhookDeliveryLogRow) → WebhookDb → Option WebhookDb
logged_rows none db = none
logged_rows (some rows) db = some (record db { delivery_log = rows })

abbrev pub log_attempt :
    (List SqlType → Bool) → ℕ → ℕ → DeliveryStatus → Option ℕ → WebhookDb → Option WebhookDb
log_attempt accepts now log status' code db =
    logged_rows (update_delivery_log accepts now log status' code db.delivery_log) db

-- The `catch`: the attempt is logged as failed, if the database takes that, and the job throws.
abbrev pub caught :
    (List SqlType → Bool) → ℕ → ℕ → Option ℕ → WebhookDb → Result (Unit {0}) × WebhookDb
caught accepts now log code db =
    (err delivery_error, or_else (log_attempt accepts now log failed code db) db)

-- After the first update of the log: a status other than 2xx is thrown, and so logged a second time.
abbrev pub finish :
    (List SqlType → Bool) → ℕ → ℕ → ℕ → Option WebhookDb → WebhookDb → Result (Unit {0}) × WebhookDb
finish accepts now log status none db = caught accepts now log (some status) db
finish accepts now log status (some logged) db =
    if is_success status then (ok tt, logged) else caught accepts now log (some status) logged

unfoldable pub settle :
    (List SqlType → Bool) → ℕ → ℕ → Result ℕ → WebhookDb → Result (Unit {0}) × WebhookDb
settle accepts now log (err e) db = caught accepts now log none db
settle accepts now log (ok status) db =
    let status' = if is_success status then delivered else failed in
    finish accepts now log status (log_attempt accepts now log status' (some status) db) db

unfoldable pub deliver_to :
    Receiver → ℕ → WebhookDeliveryJobData → ℕ → Option WebhookRow → Action WebhookDb (Unit {0})
deliver_to net now job log none db = (ok tt, db)
deliver_to net now job log (some webhook) db =
    if webhook.is_active
    then (let (answer, after) = attempt net job webhook db in
        settle net.accepts now log answer after)
    else (ok tt, db)

-- `existing ?? await createDeliveryLog(…)`: the id of the log row.
abbrev pub with_log :
    ℕ → ℕ → WebhookDeliveryJobData → Option WebhookDeliveryLogRow → WebhookDb → ℕ × WebhookDb
with_log new_id now job none db = (
  new_id,
  record db {
    delivery_log =
        new_delivery_log new_id now job.webhook_id job.org_id job.event_id job.event_type
        ∷ db.delivery_log;
  },
)
with_log new_id now job (some log) db = (log.id, db)

abbrev pub was_delivered : Option WebhookDeliveryLogRow → Bool
was_delivered none = false
was_delivered (some log) = is_delivered log.status

unfoldable pub webhook_delivery_worker_job :
    Receiver → ℕ → ℕ → WebhookDeliveryJobData → Action WebhookDb (Unit {0})
webhook_delivery_worker_job net new_id now job db =
    let existing = find_delivery_log job.webhook_id job.event_id db.delivery_log in
    let (log, logged) = with_log new_id now job existing db in
    if was_delivered existing
    then (ok tt, db)
    else deliver_to net now job log (find_webhook job.webhook_id job.org_id logged.webhooks) logged
