-- ===== src/Tests/Accounts.antt =====
-- A user with a session: logins, refreshes, a password reset and a logout.
use multi_tenant_collaborati.Common.{
  ℕ, String, ◌≡◌, ◌≢◌, refl, Bool, true, false, Option, none, some, [], ◌∷◌, Memᴰ, arith, ok, err,
  unauthorized_error, forbidden_error, redis_get,
}
use multi_tenant_collaborati.Auth.Row.{UserRow, active, RefreshTokenRow, AuthDb}
use multi_tenant_collaborati.Auth.Repository.{
  find_user_by_email, find_refresh_token, find_user_by_id,
}
use multi_tenant_collaborati.Auth.Token.{
  Claims, TokenPair, Drawn, refresh_token_pair, refresh_row, refresh_live, generate_access_token,
  issue_token_pair,
}
use multi_tenant_collaborati.Organization.Membership.{member}
use multi_tenant_collaborati.Auth.Account.{
  SafeUser, login, check_account, accept_login, login_role, lockout_attempts, is_locked,
  password_valid, confirm_password_reset, logout,
}
use multi_tenant_collaborati.Auth.Middleware.{authenticate, request_user}
use multi_tenant_collaborati.Auth.Login.{HasRole, lockout, login_sound}
use multi_tenant_collaborati.Auth.Rotation.{refresh_once}
use multi_tenant_collaborati.Auth.Reset.{
  password_reset_once, reset_ends_sessions, logout_ends_access,
}

abbrev pub user : UserRow
user = record {
  id = 7;
  email = "ada@example.org";
  email_verified = true;
  email_verified_at = none;
  password_hash = some "secret";
  name = "Ada";
  avatar_url = none;
  phone = none;
  totp_secret = none;
  totp_enabled = false;
  mfa_backup_codes = [];
  mfa_backup_codes_generated_at = none;
  is_platform_admin = false;
  status = active;
  failed_login_attempts = 4;
  locked_until = none;
  last_login_at = none;
  password_changed_at = none;
  consent_tos_version = none;
  consent_tos_at = none;
  privacy_policy_version = none;
  deleted_at = none;
  created_at = 0;
  updated_at = 0;
}

abbrev session : RefreshTokenRow
session = record {
  id = 1;
  user_id = 7;
  org_id = none;
  token_hash = 55;
  family_id = 2;
  last_access_token_jti = some 80;
  is_revoked = false;
  revoked_at = none;
  expires_at = 100000;
  created_at = 0;
}

abbrev pub accounts : AuthDb
accounts = record {
  users = user ∷ [];
  refresh_tokens = session ∷ [];
  providers = [];
  preferences = [];
  organizations = [];
  memberships = [];
  outbox = [];
  audit = [];
  email_verify = [];
  pwd_reset = record { key = 44; value = 7; expires_at = 9000 } ∷ [];
  blacklist = [];
  user_cache = [];
}

-- Library code, replaced: a token is its own hash, an address is in its normal form.
abbrev pub same_hash : ℕ → ℕ
same_hash n = n

abbrev pub same_text : String → String
same_text s = s

abbrev always_wrong : String → String → Bool
always_wrong password hash = false

abbrev pub drawn_next : Drawn
drawn_next = record { jti = 81; refresh_token = 56; row_id = 9 }

abbrev drawn_later : Drawn
drawn_later = record { jti = 82; refresh_token = 57; row_id = 10 }

session_found : find_refresh_token 55 accounts.refresh_tokens ≡ some session
unfolding find_refresh_token
session_found = refl

abbrev next_pair : TokenPair
next_pair = record {
  access_token = generate_access_token 900 5000 81 7 none member false none;
  refresh_token = 56;
  expires_in = 900;
}

refresh_succeeds : (refresh_token_pair same_hash 900 5000 drawn_next 55 accounts).0 ≡ ok next_pair
unfolding refresh_token_pair refresh_row refresh_live find_refresh_token find_user_by_id
refresh_succeeds = refl

refresh_once_example :
    let after = (refresh_token_pair same_hash 900 5000 drawn_next 55 accounts).1 in
    let (again, last) = refresh_token_pair same_hash 900 6000 drawn_later 55 after in
    (again ≡ err (unauthorized_error "TOKEN_FAMILY_REVOKED"))
    × ((x : RefreshTokenRow) → Memᴰ x last.refresh_tokens → x.family_id ≡ 2 → x.is_revoked ≡ true)
refresh_once_example =
    refresh_once same_hash 900 5000 6000 55 drawn_next drawn_later session accounts next_pair
      session_found refl (ground arith) refresh_succeeds

nothing_listed : redis_get 6000 81 accounts.blacklist ≡ none
unfolding redis_get
nothing_listed = refl

reset_token_found : redis_get 5000 44 accounts.pwd_reset ≡ some 7
unfolding redis_get
reset_token_found = refl

password_reset_once_example :
    let (r, after) = confirm_password_reset same_text same_hash 900 5000 44 "new" accounts in
    (r ≡ ok tt)
    × ((later : ℕ) (other_hash : String)
        → confirm_password_reset same_text same_hash 900 later 44 other_hash after
          ≡ (err (unauthorized_error "INVALID_OR_EXPIRED_TOKEN"), after))
    × ((x : RefreshTokenRow) → Memᴰ x after.refresh_tokens → x.user_id ≡ 7 → x.is_revoked ≡ true)
password_reset_once_example =
    password_reset_once same_text same_hash 900 5000 44 7 "new" accounts reset_token_found

abbrev old_claims : Claims
old_claims = generate_access_token 900 1000 80 7 none member false none

abbrev signed_by_us : ℕ → ℕ → Option Claims
signed_by_us now text = some old_claims

reset_ends_sessions_example :
    let after = (confirm_password_reset same_text same_hash 900 5000 44 "new" accounts).1 in
    (authenticate signed_by_us true 6000 (some 1) after).0 ≢ ok (request_user old_claims)
reset_ends_sessions_example =
    reset_ends_sessions same_text same_hash 900 signed_by_us 5000 6000 44 7 1 "new" true 1
      old_claims user accounts (request_user old_claims) reset_token_found refl refl refl refl refl
      (ground arith)

logout_ends_access_example :
    let after = logout same_text same_hash 900 5000 55 80 600 accounts in
    authenticate signed_by_us true 6000 (some 1) after
    ≡ (err (unauthorized_error "TOKEN_BLACKLISTED"), after)
logout_ends_access_example =
    logout_ends_access same_text same_hash 900 signed_by_us 5000 6000 55 80 600 1 old_claims
      accounts refl refl (ground arith)

user_found : find_user_by_email same_text "ada@example.org" accounts.users ≡ some user
unfolding find_user_by_email
user_found = refl

lockout_example :
    let (r, after) =
      login same_text same_hash 900 always_wrong 5000 drawn_next 3 "ada@example.org" "guess" none
        accounts in
    (r ≡ err (forbidden_error "ACCOUNT_LOCKED"))
    × (login same_text same_hash 900 always_wrong 6000 drawn_later 4 "ada@example.org" "secret" none
          after
        ≡ (err (forbidden_error "ACCOUNT_LOCKED"), after))
unfolding lockout_attempts
lockout_example =
    lockout same_text same_hash 900 always_wrong 5000 6000 drawn_next drawn_later 3 4
      "ada@example.org" "guess" "secret" none none user accounts user_found refl refl refl
      (ground arith) (ground arith)

abbrev always_right : String → String → Bool
always_right password hash = true

abbrev login_pair : TokenPair
login_pair = record {
  access_token = generate_access_token 900 5000 81 7 none member false none;
  refresh_token = 56;
  expires_in = 900;
}

abbrev safe_user : SafeUser
safe_user = record {
  id = 7;
  email = "ada@example.org";
  email_verified = true;
  name = "Ada";
  avatar_url = none;
  is_platform_admin = false;
  status = active;
  created_at = 0;
  updated_at = 0;
}

login_succeeds :
    (login same_text same_hash 900 always_right 5000 drawn_next 3 "ada@example.org" "secret" none
      accounts).0
    ≡ ok (login_pair, safe_user)
unfolding login check_account accept_login login_role issue_token_pair find_user_by_email
login_succeeds = refl

login_sound_example :
    (u : UserRow) × (find_user_by_email same_text "ada@example.org" accounts.users ≡ some u)
    × (u.email_verified ≡ true)
    × (is_locked 5000 u ≡ false)
    × (password_valid same_text same_hash 900 always_right "secret" u ≡ true)
    × (7 ≡ u.id)
    × HasRole same_text same_hash 900 always_right accounts u none member
login_sound_example =
    login_sound same_text same_hash 900 always_right 5000 drawn_next 3 "ada@example.org" "secret"
      none accounts login_pair safe_user login_succeeds
