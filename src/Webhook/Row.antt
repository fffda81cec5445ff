-- ===== src/Webhook/Row.antt =====
-- The rows of src/modules/webhook/webhook.repository.ts, and the requests that were sent.
use multi_tenant_collaborati.Common.{ℕ, String, Bool, Option, List}

pub record WebhookRow : Type 0 where
  pub id : ℕ
  pub org_id : ℕ
  pub url : String
  pub secret_hash : String
  pub secret_encrypted : String
  pub secret_preview : String
  pub secret_key_version : ℕ
  pub event_types : List String
  pub is_active : Bool
  pub created_by : ℕ
  pub created_at : ℕ
  pub updated_at : ℕ
  pub deleted_at : Option ℕ

pub data DeliveryStatus : Type 0 where
  pending delivered failed exhausted : DeliveryStatus

-- `response_body` and `error_message` are never written.
pub record WebhookDeliveryLogRow : Type 0 where
  pub id : ℕ
  pub webhook_id : ℕ
  pub org_id : ℕ
  pub event_id : ℕ
  pub event_type : String
  pub status : DeliveryStatus
  pub response_status_code : Option ℕ
  pub attempt_count : ℕ
  pub delivered_at : Option ℕ
  pub created_at : ℕ
  pub updated_at : ℕ

-- A request to a resolved address, with its headers.
pub record Post : Type 0 where
  pub address : String
  pub host : String
  pub signature : String
  pub event_type : String
  pub event_id : ℕ

-- `posts` are the calls of `axios.post`, `followed` the addresses to which their redirects led axios.
pub record WebhookDb : Type 0 where
  pub webhooks : List WebhookRow
  pub delivery_log : List WebhookDeliveryLogRow
  pub posts : List Post
  pub followed : List String
