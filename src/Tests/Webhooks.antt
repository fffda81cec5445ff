-- ===== src/Tests/Webhooks.antt =====
-- A subscription to webhooks, and an event that is delivered to it.
use mathlib.Core.List.Memᴰ
use text.Mathlib.Text.{◌==◌ as str_eq}
use multi_tenant_collaborati.Common.{
  ◌≡◌, refl, Bool, true, false, none, some, List, [], ◌∷◌, ◌++◌, err, length, if◌then◌else◌,
}
use multi_tenant_collaborati.Webhook.Row.{WebhookRow, WebhookDb}
use multi_tenant_collaborati.Webhook.Repository.{SqlType, find_webhook, find_delivery_log}
use multi_tenant_collaborati.Webhook.Service.{is_private_ip}
use multi_tenant_collaborati.Webhook.Worker.{
  WebhookDeliveryJobData, Receiver, delivery_error, deliver_webhook, attempt, was_delivered,
  webhook_delivery_worker_job,
}
use multi_tenant_collaborati.Webhook.Delivered.{AllChecked, run_jobs, run_jobs-AllChecked}
use multi_tenant_collaborati.Webhook.Once.{calls, sent_again}

abbrev subscription : WebhookRow
subscription = record {
  id = 3;
  org_id = 1;
  url = "https://example.org/hook";
  secret_hash = "hash";
  secret_encrypted = "encrypted";
  secret_preview = "abcd";
  secret_key_version = 1;
  event_types = "task.created" ∷ [];
  is_active = true;
  created_by = 2;
  created_at = 0;
  updated_at = 0;
  deleted_at = none;
}

abbrev subscribed : WebhookDb
subscribed = record { webhooks = subscription ∷ []; delivery_log = []; posts = []; followed = [] }

-- A parameter has a type where it is used once.
abbrev one_type : List SqlType → Bool
one_type [] = false
one_type (t ∷ []) = true
one_type (t ∷ u ∷ ts) = false

-- Library code, PostgreSQL and the network, replaced: one host with a public address that redirects to
-- an address of a local network, which answers 200.
abbrev network : Receiver
network = record {
  resolver = record {
    parse_url = λ text. some (record { protocol = "https:"; hostname = "example.org" });
    lookup = λ host. some "93.184.216.34";
    range = λ address. if str_eq address "10.0.0.5" then some "private" else some "unicast";
  };
  decrypt_secret = λ text. some "secret";
  sign = λ payload secret. "signature";
  post = λ p. ("10.0.0.5" ∷ [], some 200);
  accepts = one_type;
}

abbrev delivery : WebhookDeliveryJobData
delivery = record {
  webhook_id = 3;
  org_id = 1;
  event_id = 50;
  event_type = "task.created";
  payload = "{}";
}

nothing_sent : AllChecked network subscribed
nothing_sent = record {
  direct = λ p m. absurd (Memᴰ.not-nil m);
  redirected = λ address m. absurd (Memᴰ.not-nil m);
}

run_jobs-AllChecked_example :
    AllChecked network (run_jobs network ((9, 5, delivery) ∷ (10, 6, delivery) ∷ []) subscribed)
run_jobs-AllChecked_example =
    run_jobs-AllChecked network ((9, 5, delivery) ∷ (10, 6, delivery) ∷ []) subscribed nothing_sent

subscription_found : find_webhook 3 1 subscribed.webhooks ≡ some subscription
unfolding find_webhook
subscription_found = refl

undelivered : was_delivered (find_delivery_log 3 50 subscribed.delivery_log) ≡ false
unfolding find_delivery_log
undelivered = refl

sent_again_example :
    let (answer, after) = webhook_delivery_worker_job network 9 5 delivery subscribed in
    let (answer', again) = webhook_delivery_worker_job network 10 6 delivery after in
    (answer ≡ err delivery_error)
    × (answer' ≡ err delivery_error)
    × (after.posts ≡ calls network delivery subscription ++ [])
    × (again.posts
        ≡ calls network delivery subscription ++ (calls network delivery subscription ++ []))
    × (was_delivered (find_delivery_log 3 50 again.delivery_log) ≡ false)
sent_again_example =
    sent_again network 9 10 5 6 delivery subscribed subscription refl subscription_found refl
      undelivered

-- The call is made: the event is sent again, and not only tried.
one_call : length (calls network delivery subscription) ≡ 1
unfolding attempt deliver_webhook is_private_ip
one_call = refl
