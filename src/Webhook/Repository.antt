-- ===== src/Webhook/Repository.antt =====
-- `WebhookRepository` of src/modules/webhook/webhook.repository.ts.
use multi_tenant_collaborati.Common.{
  ℕ, ◌+◌, String, Bool, true, false, ◌&&◌, Option, none, some, List, [], ◌∷◌, ◌==◌, if◌then◌else◌,
  is_none, select_first, select, update_where,
}
use multi_tenant_collaborati.Webhook.Row.{
  WebhookRow, DeliveryStatus, pending, delivered, WebhookDeliveryLogRow,
}

pub record CreateWebhookData : Type 0 where
  pub org_id : ℕ
  pub url : String
  pub secret_hash : String
  pub secret_encrypted : String
  pub secret_preview : String
  pub event_types : List String
  pub created_by : ℕ

-- The row that the insert writes; the other columns keep the table's defaults.
abbrev pub new_webhook : ℕ → ℕ → CreateWebhookData → WebhookRow
new_webhook new_id now d = record {
  id = new_id;
  org_id = d.org_id;
  url = d.url;
  secret_hash = d.secret_hash;
  secret_encrypted = d.secret_encrypted;
  secret_preview = d.secret_preview;
  secret_key_version = 1;
  event_types = d.event_types;
  is_active = true;
  created_by = d.created_by;
  created_at = now;
  updated_at = now;
  deleted_at = none;
}

abbrev pub is_webhook : ℕ → ℕ → WebhookRow → Bool
is_webhook id org w = w.id == id && w.org_id == org

abbrev pub is_live_webhook : ℕ → ℕ → WebhookRow → Bool
is_live_webhook id org w = is_webhook id org w && is_none w.deleted_at

unfoldable pub find_webhook : ℕ → ℕ → List WebhookRow → Option WebhookRow
find_webhook id org rows = select_first (is_live_webhook id org) rows

unfoldable pub webhooks_of_org : ℕ → List WebhookRow → List WebhookRow
webhooks_of_org org rows = select (λ w. w.org_id == org && is_none w.deleted_at) rows

unfoldable pub find_active_webhooks : ℕ → List WebhookRow → List WebhookRow
find_active_webhooks org rows =
    select (λ w. w.org_id == org && (w.is_active && is_none w.deleted_at)) rows

abbrev pub with_secret : ℕ → String → String → String → ℕ → WebhookRow → WebhookRow
with_secret now hash encrypted preview version w = record w {
  secret_hash = hash;
  secret_encrypted = encrypted;
  secret_preview = preview;
  secret_key_version = version;
  updated_at = now;
}

unfoldable pub update_secret :
    ℕ → ℕ → ℕ → String → String → String → ℕ → List WebhookRow → List WebhookRow
update_secret now id org hash encrypted preview version rows =
    update_where (is_live_webhook id org) (with_secret now hash encrypted preview version) rows

unfoldable pub soft_delete_webhook : ℕ → ℕ → ℕ → List WebhookRow → List WebhookRow
soft_delete_webhook now id org rows =
    update_where (is_webhook id org) (λ w. record w { deleted_at = some now; is_active = false })
      rows

unfoldable pub find_delivery_log : ℕ → ℕ → List WebhookDeliveryLogRow → Option WebhookDeliveryLogRow
find_delivery_log webhook event rows =
    select_first (λ l. l.webhook_id == webhook && l.event_id == event) rows

abbrev pub new_delivery_log : ℕ → ℕ → ℕ → ℕ → ℕ → String → WebhookDeliveryLogRow
new_delivery_log new_id now webhook org event type = record {
  id = new_id;
  webhook_id = webhook;
  org_id = org;
  event_id = event;
  event_type = type;
  status = pending;
  response_status_code = none;
  attempt_count = 0;
  delivered_at = none;
  created_at = now;
  updated_at = now;
}

abbrev pub is_delivered : DeliveryStatus → Bool
is_delivered delivered = true
is_delivered _ = false

abbrev pub attempted : ℕ → DeliveryStatus → Option ℕ → WebhookDeliveryLogRow → WebhookDeliveryLogRow
attempted now status' code l = record l {
  status = status';
  response_status_code = code;
  attempt_count = l.attempt_count + 1;
  updated_at = now;
  delivered_at = if is_delivered status' then some now else none;
}

-- The types that uses of a parameter ask of it.
pub data SqlType : Type 0 where
  varchar text : SqlType

-- The uses of `$2` in the statement of `updateDeliveryLog`: it is assigned to the VARCHAR column
-- `status`, and compared with the text 'delivered'.
abbrev pub status_uses : List SqlType
status_uses = varchar ∷ text ∷ []

-- `accepts` says whether PostgreSQL finds a type for a parameter with these uses; `none` is its error.
unfoldable pub update_delivery_log :
    (List SqlType → Bool)
    → ℕ
    → ℕ
    → DeliveryStatus
    → Option ℕ
    → List WebhookDeliveryLogRow
    → Option (List WebhookDeliveryLogRow)
update_delivery_log accepts now id status' code rows =
    if accepts status_uses
    then some (update_where (λ l. l.id == id) (attempted now status' code) rows)
    else none
