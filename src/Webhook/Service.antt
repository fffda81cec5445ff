-- ===== src/Webhook/Service.antt =====
-- src/modules/webhook/webhook.service.ts. Whether the feature is enabled, DNS, hashing and random
-- secrets are computed outside: arguments and parameters.
use text.Mathlib.Text.{◌==◌ as str_eq}
use multi_tenant_collaborati.Common.{
  ℕ, ◌+◌, String, Bool, true, not, ◌||◌, Option, none, some, List, ◌∷◌, Action, pure, gets,
  or_throw, throw_if, modify, ◌>>=◌, ◌>>◌, forbidden_error, not_found_error, unprocessable_error,
}
use multi_tenant_collaborati.Webhook.Row.{WebhookRow, WebhookDb}
use multi_tenant_collaborati.Webhook.Repository.{
  new_webhook, find_webhook, webhooks_of_org, update_secret, soft_delete_webhook,
}

pub record Url : Type 0 where
  pub protocol : String
  pub hostname : String

-- `new URL`, `dns.promises.lookup` and `ipaddr.parse(…).range()`, `none` where they throw.
pub record Resolver : Type 0 where
  pub parse_url : String → Option Url
  pub lookup : String → Option String
  pub range : String → Option String

abbrev pub is_not_unicast : Option String → Bool
is_not_unicast none = true
is_not_unicast (some range) = not (str_eq range "unicast")

unfoldable pub is_private_ip : Resolver → String → Bool
is_private_ip net address = is_not_unicast (net.range address)

abbrev pub is_private_host : Resolver → Option String → Bool
is_private_host net none = true
is_private_host net (some address) = is_not_unicast (net.range address)

abbrev pub is_blocked_url : Resolver → Option Url → Bool
is_blocked_url net none = true
is_blocked_url net (some url) =
    not (str_eq url.protocol "https:") || is_private_host net (net.lookup url.hostname)

unfoldable pub is_private_or_blocked_url : Resolver → String → Bool
is_private_or_blocked_url net text = is_blocked_url net (net.parse_url text)

-- What a new secret is stored as: its bcrypt hash, its encryption, and its last four characters.
pub record SecretForms : Type 0 where
  pub secret : String
  pub hash : String
  pub encrypted : String
  pub preview : String

-- The row that the source returns leaves out `secret_hash` and `secret_encrypted`.
unfoldable pub create :
    Resolver
    → Bool
    → ℕ
    → ℕ
    → ℕ
    → ℕ
    → String
    → List String
    → SecretForms
    → Action WebhookDb (WebhookRow × String)
create net enabled new_id now org user url' events forms = do
  throw_if (not enabled) (forbidden_error "FEATURE_NOT_ENABLED")
  throw_if (is_private_or_blocked_url net url') (unprocessable_error "INVALID_WEBHOOK_URL")
  let row = new_webhook new_id now (record {
    org_id = org;
    url = url';
    secret_hash = forms.hash;
    secret_encrypted = forms.encrypted;
    secret_preview = forms.preview;
    event_types = events;
    created_by = user;
  })
  modify (λ db. record db { webhooks = row ∷ db.webhooks })
  pure (row, forms.secret)

unfoldable pub rotate_secret : ℕ → ℕ → ℕ → SecretForms → Action WebhookDb String
rotate_secret now org id forms = do
  found ← gets (λ db. find_webhook id org db.webhooks)
  existing ← or_throw found not_found_error
  modify (λ db. record db {
    webhooks =
        update_secret now id org forms.hash forms.encrypted forms.preview
          (existing.secret_key_version + 1) db.webhooks;
  })
  pure forms.secret

unfoldable pub list_by_org : ℕ → WebhookDb → List WebhookRow
list_by_org org db = webhooks_of_org org db.webhooks

unfoldable pub remove : ℕ → ℕ → ℕ → Action WebhookDb (Unit {0})
remove now org id = do
  found ← gets (λ db. find_webhook id org db.webhooks)
  existing ← or_throw found not_found_error
  modify (λ db. record db { webhooks = soft_delete_webhook now id org db.webhooks })
