-- ===== src/Webhook/Delivered.antt =====
-- Where src/modules/webhook/workers/webhook-delivery.worker.ts sends an event, and how often.
use text.Mathlib.Text.{◌==◌ as str_eq}
use text.Mathlib.TextEquality.{eq_iff}
use multi_tenant_collaborati.Common.{
  ℕ, ◌≡◌, refl, ap, inl, inr, String, Bool, true, false, ◌++◌, ◌⊎◌, Option, none, some, List, [],
  ◌∷◌, Memᴰ, Memᴰ-cons, arith, Bool-cases, Option-cases, ok, err, Result,
}
use multi_tenant_collaborati.Webhook.Row.{
  WebhookRow, failed, WebhookDeliveryLogRow, Post, WebhookDb,
}
use multi_tenant_collaborati.Webhook.Repository.{
  SqlType, find_webhook, find_delivery_log, update_delivery_log,
}
use multi_tenant_collaborati.Webhook.Service.{Url, Resolver, is_private_ip}
use multi_tenant_collaborati.Webhook.Worker.{
  WebhookDeliveryJobData, Receiver, signed_post, deliver_webhook, attempt, is_success, logged_rows,
  caught, finish, settle, deliver_to, with_log, was_delivered, webhook_delivery_worker_job,
}

-- The address of a call of `axios.post` is public unicast.
abbrev pub IsPublic : Receiver → Post → Type 0
IsPublic net p = net.resolver.range p.address ≡ some "unicast"

-- Every call went to a public address, and axios came to another address only where the receiver at a
-- public address redirected it there.
pub record AllChecked (net : Receiver) (db : WebhookDb) : Type 0 where
  pub direct : (p : Post) → Memᴰ p db.posts → IsPublic net p
  pub redirected :
      (address : String)
      → Memᴰ address db.followed
      → (p : Post) × IsPublic net p × Memᴰ address (net.post p).0

public_range :
    (net : Resolver) (address : String)
    → is_private_ip net address ≡ false
    → net.range address ≡ some "unicast"
unfolding is_private_ip
public_range net address open_ = elim (Option-cases (net.range address)) [
  | inl missing ↦ absurd (ground arith)
  | inr (r, e) ↦
      let same : str_eq r "unicast" ≡ true = ground arith in
      rw e (ap some ((eq_iff r "unicast").0 same))
]

-- A member of a list that was put before another is of one of the two.
mem-append : {A : Type 0} (x : A) (xs ys : List A) → Memᴰ x (xs ++ ys) → Memᴰ x xs ⊎ Memᴰ x ys
mem-append x [] ys m = inr m
mem-append x (y ∷ xs) ys m = elim ((Memᴰ-cons x y (xs ++ ys)).0 m) [
  | inl same ↦ inl ((Memᴰ-cons x y xs).1 (inl same))
  | inr later ↦ elim (mem-append x xs ys later) [
    | inl l ↦ inl ((Memᴰ-cons x y xs).1 (inr l))
    | inr r ↦ inr r
  ]
]

sent-AllChecked :
    (net : Receiver) (post : Post) (db : WebhookDb)
    → AllChecked net db
    → IsPublic net post
    → AllChecked net
        (record db { posts = post ∷ db.posts; followed = (net.post post).0 ++ db.followed })
sent-AllChecked net post db all public' = record {
  direct = λ p m. elim ((Memᴰ-cons p post db.posts).0 m) [
    | inl new ↦ rw new public'
    | inr old ↦ all.direct p old
  ];
  redirected = λ address m. elim (mem-append address (net.post post).0 db.followed m) [
    | inl new ↦ (post, public', new)
    | inr old ↦ all.redirected address old
  ];
}

-- What an attempt leaves alone, and where it sends.
pub record IsAttempt (net : Receiver) (db after : WebhookDb) : Type 0 where
  pub checked : AllChecked net db → AllChecked net after
  pub log : after.delivery_log ≡ db.delivery_log
  pub webhooks : after.webhooks ≡ db.webhooks

no-IsAttempt : {net : Receiver} {db : WebhookDb} → IsAttempt net db db
no-IsAttempt = record { checked = λ all. all; log = refl; webhooks = refl }

deliver_webhook-IsAttempt :
    (net : Receiver) (job : WebhookDeliveryJobData) (url : Url) (secret : String) (db : WebhookDb)
    → IsAttempt net db (deliver_webhook net job url secret db).1
unfolding deliver_webhook
deliver_webhook-IsAttempt net job url secret db =
    elim (Option-cases (net.resolver.lookup url.hostname)) [
      | inl missing ↦ rw missing no-IsAttempt
      | inr (address, found) ↦ elim (Bool-cases (is_private_ip net.resolver address)) [
        | inl private ↦ rw (found, private) no-IsAttempt
        | inr public_ ↦
            let post = signed_post net job url.hostname secret address in
            let sent : IsAttempt net db (record db {
              posts = post ∷ db.posts;
              followed = (net.post post).0 ++ db.followed;
            }) =
              record {
                checked = λ all.
                    sent-AllChecked net post db all (public_range net.resolver address public_);
                log = refl;
                webhooks = refl;
              } in
            elim (Option-cases (net.post post).1) [
              | inl lost ↦ rw (found, public_, lost) sent
              | inr (status, answered) ↦ rw (found, public_, answered) sent
            ]
      ]
    ]

pub attempt-IsAttempt :
    (net : Receiver) (job : WebhookDeliveryJobData) (webhook : WebhookRow) (db : WebhookDb)
    → IsAttempt net db (attempt net job webhook db).1
unfolding attempt
attempt-IsAttempt net job webhook db = elim (Option-cases (net.resolver.parse_url webhook.url)) [
  | inl bad ↦ rw bad no-IsAttempt
  | inr (url, parsed) ↦ elim (Option-cases (net.decrypt_secret webhook.secret_encrypted)) [
    | inl lost ↦ rw (parsed, lost) no-IsAttempt
    | inr (secret, known) ↦ rw (parsed, known) (deliver_webhook-IsAttempt net job url secret db)
  ]
]

-- Logging changes only the delivery log.
abbrev SameSent : WebhookDb → WebhookDb → Type 0
SameSent db after = (after.posts ≡ db.posts) × (after.followed ≡ db.followed)

caught-SameSent :
    (accepts : List SqlType → Bool) (now log : ℕ) (code : Option ℕ) (db : WebhookDb)
    → SameSent db (caught accepts now log code db).1
caught-SameSent accepts now log code db =
    elim (Option-cases (update_delivery_log accepts now log failed code db.delivery_log)) [
      | inl refused ↦ rw refused (refl, refl)
      | inr (rows, taken) ↦ rw taken (refl, refl)
    ]

finish-SameSent :
    (accepts : List SqlType → Bool) (now log status : ℕ) (db : WebhookDb)
    (rows : Option (List WebhookDeliveryLogRow))
    → SameSent db (finish accepts now log status (logged_rows rows db) db).1
finish-SameSent accepts now log status db none = caught-SameSent accepts now log (some status) db
finish-SameSent accepts now log status db (some rows) = elim (Bool-cases (is_success status)) [
  | inl success ↦ rw success (refl, refl)
  | inr other ↦ rw other (caught-SameSent accepts now log (some status) _)
]

settle-SameSent :
    (accepts : List SqlType → Bool) (now log : ℕ) (answer : Result ℕ) (db : WebhookDb)
    → SameSent db (settle accepts now log answer db).1
unfolding settle
settle-SameSent accepts now log (err e) db = caught-SameSent accepts now log none db
settle-SameSent accepts now log (ok status) db = finish-SameSent accepts now log status db _

SameSent-AllChecked :
    (net : Receiver) (db after : WebhookDb)
    → SameSent db after
    → AllChecked net db
    → AllChecked net after
SameSent-AllChecked net db after (posts, followed) all = record {
  direct = λ p m. all.direct p (rw posts at m);
  redirected = λ address m. all.redirected address (rw followed at m);
}

pub deliver_to-run :
    (net : Receiver) (now : ℕ) (job : WebhookDeliveryJobData) (log : ℕ) (webhook : WebhookRow)
    (db : WebhookDb)
    → webhook.is_active ≡ true
    → deliver_to net now job log (some webhook) db
      ≡ settle net.accepts now log (attempt net job webhook db).0 (attempt net job webhook db).1
unfolding deliver_to
deliver_to-run net now job log webhook db active = ground arith

deliver_to-inactive :
    (net : Receiver) (now : ℕ) (job : WebhookDeliveryJobData) (log : ℕ) (webhook : WebhookRow)
    (db : WebhookDb)
    → webhook.is_active ≡ false
    → deliver_to net now job log (some webhook) db ≡ (ok tt, db)
unfolding deliver_to
deliver_to-inactive net now job log webhook db inactive = ground arith

deliver_to-AllChecked :
    (net : Receiver) (now : ℕ) (job : WebhookDeliveryJobData) (log : ℕ)
    (webhook : Option WebhookRow) (db : WebhookDb)
    → AllChecked net db
    → AllChecked net (deliver_to net now job log webhook db).1
unfolding deliver_to
deliver_to-AllChecked net now job log none db all = all
deliver_to-AllChecked net now job log (some webhook) db all = elim (Bool-cases webhook.is_active) [
  | inl active ↦
      let (answer, after) = attempt net job webhook db in
      rw (deliver_to-run net now job log webhook db active) (
        SameSent-AllChecked net after _ (settle-SameSent net.accepts now log answer after)
          ((attempt-IsAttempt net job webhook db).checked all))
  | inr inactive ↦ rw (deliver_to-inactive net now job log webhook db inactive) all
]

pub with_log-keeps :
    (new_id now : ℕ) (job : WebhookDeliveryJobData) (existing : Option WebhookDeliveryLogRow)
    (db : WebhookDb)
    → SameSent db (with_log new_id now job existing db).1
      × ((with_log new_id now job existing db).1.webhooks ≡ db.webhooks)
with_log-keeps new_id now job none db = ((refl, refl), refl)
with_log-keeps new_id now job (some log) db = ((refl, refl), refl)

job-AllChecked :
    (net : Receiver) (new_id now : ℕ) (job : WebhookDeliveryJobData) (db : WebhookDb)
    → AllChecked net db
    → AllChecked net (webhook_delivery_worker_job net new_id now job db).1
unfolding webhook_delivery_worker_job
job-AllChecked net new_id now job db all =
    let existing = find_delivery_log job.webhook_id job.event_id db.delivery_log in
    let (log, logged) = with_log new_id now job existing db in
    let (same, _) = with_log-keeps new_id now job existing db in
    elim (Bool-cases (was_delivered existing)) [
      | inl before ↦ rw before all
      | inr first ↦ rw first (
          deliver_to-AllChecked net now job log
            (find_webhook job.webhook_id job.org_id logged.webhooks) logged
            (SameSent-AllChecked net db logged same all))
    ]

-- The jobs of a queue, each with the id and time of its run.
unfoldable pub run_jobs : Receiver → List (ℕ × ℕ × WebhookDeliveryJobData) → WebhookDb → WebhookDb
run_jobs net [] db = db
run_jobs net ((new_id, now, job) ∷ jobs) db =
    run_jobs net jobs (webhook_delivery_worker_job net new_id now job db).1

-- Whatever the subscriptions and the names they resolve to, no sequence of delivery jobs calls
-- `axios.post` with an address that is not public unicast, and axios comes to another address only
-- where the receiver at a public address redirects it there: that address is not checked.
pub run_jobs-AllChecked :
    (net : Receiver) (jobs : List (ℕ × ℕ × WebhookDeliveryJobData)) (db : WebhookDb)
    → AllChecked net db
    → AllChecked net (run_jobs net jobs db)
unfolding run_jobs
run_jobs-AllChecked net [] db all = all
run_jobs-AllChecked net ((new_id, now, job) ∷ jobs) db all =
    run_jobs-AllChecked net jobs _ (job-AllChecked net new_id now job db all)
