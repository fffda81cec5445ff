-- ===== src/Auth/Row.antt =====
-- The rows of src/modules/auth/repositories/auth.repository.ts and the data that the auth services
-- write: ids, token ids (`jti`) and token hashes are numbers, dates milliseconds since the epoch.
use multi_tenant_collaborati.Common.{ℕ, String, Bool, Option, List, RedisEntry}
use multi_tenant_collaborati.Organization.Membership.{MembershipRow}
use multi_tenant_collaborati.Organization.Row.{OrgRow}

pub data UserStatus : Type 0 where
  active suspended deleted : UserStatus

pub record UserRow : Type 0 where
  pub id : ℕ
  pub email : String
  pub email_verified : Bool
  pub email_verified_at : Option ℕ
  pub password_hash : Option String
  pub name : String
  pub avatar_url : Option String
  pub phone : Option String
  pub totp_secret : Option String
  pub totp_enabled : Bool
  pub mfa_backup_codes : List String
  pub mfa_backup_codes_generated_at : Option ℕ
  pub is_platform_admin : Bool
  pub status : UserStatus
  pub failed_login_attempts : ℕ
  pub locked_until : Option ℕ
  pub last_login_at : Option ℕ
  pub password_changed_at : Option ℕ
  pub consent_tos_version : Option String
  pub consent_tos_at : Option ℕ
  pub privacy_policy_version : Option String
  pub deleted_at : Option ℕ
  pub created_at : ℕ
  pub updated_at : ℕ

pub record CreateUserData : Type 0 where
  pub email : String
  pub name : String
  pub password_hash : Option String
  pub email_verified : Option Bool
  pub avatar_url : Option String

-- `org_id` is `none` for a session without an organization.
pub record RefreshTokenRow : Type 0 where
  pub id : ℕ
  pub user_id : ℕ
  pub org_id : Option ℕ
  pub token_hash : ℕ
  pub family_id : ℕ
  pub last_access_token_jti : Option ℕ
  pub is_revoked : Bool
  pub revoked_at : Option ℕ
  pub expires_at : ℕ
  pub created_at : ℕ

pub record CreateRefreshTokenData : Type 0 where
  pub user_id : ℕ
  pub org_id : Option ℕ
  pub token_hash : ℕ
  pub family_id : ℕ
  pub last_access_token_jti : Option ℕ
  pub expires_at : ℕ

pub data Provider : Type 0 where
  email google saml magic_link : Provider

-- What an insert gives; the other columns keep the table's defaults.
pub record AuthProviderRow : Type 0 where
  pub user_id : ℕ
  pub provider : Provider
  pub provider_user_id : String
  pub org_id : Option ℕ

-- The columns that the statement writes; the others keep the table's defaults.
pub record UserPreferencesRow : Type 0 where
  pub user_id : ℕ
  pub updated_at : ℕ

-- The payload of the outbox event, by its event type, without the email address: a token is stored as
-- its hash.
pub data AuthEvent : Type 0 where
  email_verification_requested password_reset_requested :
      (user token_hash expires_at : ℕ) → AuthEvent

pub record AuditRow : Type 0 where
  pub org_id : Option ℕ
  pub actor_id : Option ℕ
  pub event_type : String
  pub entity_id : ℕ

-- What the middleware caches of a user.
pub record CachedUser : Type 0 where
  pub id : ℕ
  pub status : UserStatus
  pub password_changed_at : Option ℕ

-- The tables, and the keys of Redis by their prefixes: `email_verify:` and `pwd_reset:` hold users by
-- the hash of a token, `blacklist:token:` holds access tokens by id, `user:cache:` holds users by id.
pub record AuthDb : Type 0 where
  pub users : List UserRow
  pub refresh_tokens : List RefreshTokenRow
  pub providers : List AuthProviderRow
  pub preferences : List UserPreferencesRow
  pub organizations : List OrgRow
  pub memberships : List MembershipRow
  pub outbox : List AuthEvent
  pub audit : List AuditRow
  pub email_verify : List (RedisEntry ℕ)
  pub pwd_reset : List (RedisEntry ℕ)
  pub blacklist : List (RedisEntry (Unit {0}))
  pub user_cache : List (RedisEntry CachedUser)
