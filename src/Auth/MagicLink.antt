-- ===== src/Auth/MagicLink.antt =====
-- src/modules/auth/services/magic-link.service.ts. The keys `magic:` of Redis hold a user and an
-- organization by the hash of a token.
use multi_tenant_collaborati.Common.{
  ℕ, ◌+◌, ◌*◌, String, true, Option, none, some, List, ◌∷◌, Action, gets, or_throw, modify, ◌>>=◌,
  ◌>>◌, unauthorized_error, RedisEntry, redis_get, redis_set, redis_del, if◌then◌else◌,
}
use multi_tenant_collaborati.Organization.Membership.{member}
use multi_tenant_collaborati.Auth.Row.{UserRow, AuthDb}
use multi_tenant_collaborati.Auth.Repository.{find_user_by_id, find_user_by_email, update_user}
use multi_tenant_collaborati.Auth.Token.{Drawn, TokenPair, issue_token_pair}

pub record MagicLink : Type 0 where
  pub user_id : ℕ
  pub org_id : Option ℕ

-- The payload of `user.magic_link_requested`; the token itself is not in it.
pub record MagicLinkEvent : Type 0 where
  pub user_id : ℕ
  pub email : String
  pub token_hash : ℕ
  pub expires_at : ℕ
  pub org_id : Option ℕ

pub record MagicDb : Type 0 where
  pub auth : AuthDb
  pub links : List (RedisEntry MagicLink)
  pub outbox : List MagicLinkEvent

abbrev pub magic_link_ttl_seconds : ℕ
magic_link_ttl_seconds = 900

module _ (normalize : String → String) (hash_token : ℕ → ℕ) where
  abbrev pub store_link : ℕ → ℕ → String → Option ℕ → Option UserRow → MagicDb → MagicDb
  store_link now token email' org none db = db
  store_link now token email' org (some user) db = record db {
    links =
        redis_set (hash_token token) (record { user_id = user.id; org_id = org })
          (now + magic_link_ttl_seconds * 1000) db.links;
    outbox =
        (record {
          user_id = user.id;
          email = normalize email';
          token_hash = hash_token token;
          expires_at = now + 15 * 60 * 1000;
          org_id = org;
        })
        ∷ db.outbox;
  }

  -- `token` is what `generateMagicLinkToken` draws.
  unfoldable pub request_link : ℕ → ℕ → String → Option ℕ → MagicDb → MagicDb
  request_link now token email' org db =
      store_link now token email' org
        (find_user_by_email normalize (normalize email') db.auth.users) db

-- A step on the accounts within a request on the links as well.
abbrev pub on_auth : {A : Type 0} → Action AuthDb A → Action MagicDb A
on_auth m db = let (r, auth') = m db.auth in (r, record db { auth = auth' })

unfoldable pub verify_email : ℕ → UserRow → AuthDb → AuthDb
verify_email now user db = if user.email_verified then db else (record db {
  users =
      update_user user.id (λ u. record u { email_verified = true; email_verified_at = some now })
        db.users;
})

module _ (hash_token : ℕ → ℕ) (access_ttl : ℕ) where
  -- `orgId ?? ''` is `none` for a link without an organization.
  unfoldable pub verify_link : ℕ → Drawn → ℕ → ℕ → Action MagicDb TokenPair
  verify_link now drawn family token = do
    raw ← gets (λ db. redis_get now (hash_token token) db.links)
    link ← or_throw raw (unauthorized_error "INVALID_OR_EXPIRED_TOKEN")
    modify (λ db. record db { links = redis_del (hash_token token) db.links })
    found ← gets (λ db. find_user_by_id link.user_id db.auth.users)
    user ← or_throw found (unauthorized_error "USER_NOT_FOUND")
    modify (λ db. record db { auth = verify_email now user db.auth })
    on_auth (
        issue_token_pair hash_token access_ttl now drawn family link.user_id link.org_id member
          user.is_platform_admin none)
