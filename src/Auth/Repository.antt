-- ===== src/Auth/Repository.antt =====
-- `AuthRepository` of src/modules/auth/repositories/auth.repository.ts. The services pass the fields
-- of `UpdateUserData` that they change as a function on rows.
use multi_tenant_collaborati.Common.{
  ℕ, ◌+◌, String, Bool, true, false, not, ◌&&◌, Option, none, some, List, [], ◌∷◌, ◌==◌,
  if◌then◌else◌, is_none, or_else, select_first, update_where, any,
}
use text.Mathlib.Text.{◌==◌ as str_eq}
use multi_tenant_collaborati.Auth.Row.{
  UserRow, active, CreateUserData, RefreshTokenRow, CreateRefreshTokenData, UserPreferencesRow,
}

-- `WHERE id = $1 AND deleted_at IS NULL`.
abbrev pub is_live_user : ℕ → UserRow → Bool
is_live_user id u = u.id == id && is_none u.deleted_at

unfoldable pub find_user_by_id : ℕ → List UserRow → Option UserRow
find_user_by_id id = select_first (is_live_user id)

module _ (normalize : String → String) where
  unfoldable pub find_user_by_email : String → List UserRow → Option UserRow
  find_user_by_email email' =
      select_first (λ u. str_eq u.email (normalize email') && is_none u.deleted_at)

  -- The row that the insert writes; `new_id`, `now` and the other fields are the table's defaults.
  abbrev pub new_user : ℕ → ℕ → CreateUserData → UserRow
  new_user new_id now d = record {
    id = new_id;
    email = normalize d.email;
    email_verified = or_else d.email_verified false;
    email_verified_at = none;
    password_hash = d.password_hash;
    name = d.name;
    avatar_url = d.avatar_url;
    phone = none;
    totp_secret = none;
    totp_enabled = false;
    mfa_backup_codes = [];
    mfa_backup_codes_generated_at = none;
    is_platform_admin = false;
    status = active;
    failed_login_attempts = 0;
    locked_until = none;
    last_login_at = none;
    password_changed_at = none;
    consent_tos_version = none;
    consent_tos_at = none;
    privacy_policy_version = none;
    deleted_at = none;
    created_at = now;
    updated_at = now;
  }

-- `UPDATE users SET … WHERE id = … AND deleted_at IS NULL`, with at least one field.
unfoldable pub update_user : ℕ → (UserRow → UserRow) → List UserRow → List UserRow
update_user id f = update_where (is_live_user id) f

unfoldable pub increment_failed_login_attempts : ℕ → List UserRow → List UserRow
increment_failed_login_attempts id =
    update_where (λ u. u.id == id)
      (λ u. record u { failed_login_attempts = u.failed_login_attempts + 1 })

unfoldable pub reset_failed_login_attempts : ℕ → List UserRow → List UserRow
reset_failed_login_attempts id =
    update_where (λ u. u.id == id)
      (λ u. record u { failed_login_attempts = 0; locked_until = none })

unfoldable pub lock_user : ℕ → ℕ → List UserRow → List UserRow
lock_user id until = update_where (λ u. u.id == id) (λ u. record u { locked_until = some until })

unfoldable pub find_refresh_token : ℕ → List RefreshTokenRow → Option RefreshTokenRow
find_refresh_token hash = select_first (λ t. t.token_hash == hash)

-- The row that the insert writes.
abbrev pub new_refresh_token : ℕ → ℕ → CreateRefreshTokenData → RefreshTokenRow
new_refresh_token new_id now d = record {
  id = new_id;
  user_id = d.user_id;
  org_id = d.org_id;
  token_hash = d.token_hash;
  family_id = d.family_id;
  last_access_token_jti = d.last_access_token_jti;
  is_revoked = false;
  revoked_at = none;
  expires_at = d.expires_at;
  created_at = now;
}

unfoldable pub update_refresh_token_jti : ℕ → ℕ → List RefreshTokenRow → List RefreshTokenRow
update_refresh_token_jti id jti =
    update_where (λ t. t.id == id) (λ t. record t { last_access_token_jti = some jti })

abbrev pub revoked : ℕ → RefreshTokenRow → RefreshTokenRow
revoked now t = record t { is_revoked = true; revoked_at = some now }

unfoldable pub revoke_refresh_token : ℕ → ℕ → List RefreshTokenRow → List RefreshTokenRow
revoke_refresh_token now id = update_where (λ t. t.id == id) (revoked now)

unfoldable pub revoke_token_family : ℕ → ℕ → List RefreshTokenRow → List RefreshTokenRow
revoke_token_family now family = update_where (λ t. t.family_id == family) (revoked now)

unfoldable pub revoke_all_user_tokens : ℕ → ℕ → List RefreshTokenRow → List RefreshTokenRow
revoke_all_user_tokens now user =
    update_where (λ t. t.user_id == user && not t.is_revoked) (revoked now)

-- `INSERT … ON CONFLICT (user_id) DO UPDATE SET updated_at = NOW()`.
unfoldable pub create_user_preferences : ℕ → ℕ → List UserPreferencesRow → List UserPreferencesRow
create_user_preferences now user rows =
    if any (λ r. r.user_id == user) rows
    then update_where (λ r. r.user_id == user) (λ r. record r { updated_at = now }) rows
    else record { user_id = user; updated_at = now } ∷ rows
