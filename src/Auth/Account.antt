-- ===== src/Auth/Account.antt =====
-- src/modules/auth/services/auth.service.ts. Hashes, password checks and the normal form of an email
-- address are library code, so they are parameters; a random token and a new password's hash are
-- arguments.
use multi_tenant_collaborati.Common.{
  ℕ, ◌+◌, String, Bool, true, false, not, Option, none, some, List, ◌∷◌, if◌then◌else◌, ltb, leb,
  is_some, Action, pure, throw, gets, or_throw, throw_if, modify, ◌>>=◌, ◌>>◌, unauthorized_error,
  forbidden_error, conflict_error, redis_get, redis_set, redis_del,
}
use multi_tenant_collaborati.Organization.Membership.{Role, member}
use multi_tenant_collaborati.Organization.Row.{find_by_id, OrgRow}
use multi_tenant_collaborati.Auth.Row.{
  UserRow, UserStatus, AuditRow, Provider, AuthEvent, email_verification_requested,
  password_reset_requested, AuthDb,
}
use multi_tenant_collaborati.Auth.Repository.{
  find_user_by_email, new_user, update_user, increment_failed_login_attempts,
  reset_failed_login_attempts, lock_user, revoke_all_user_tokens, create_user_preferences,
}
use multi_tenant_collaborati.Auth.Token.{
  TokenPair, Drawn, active_role, issue_token_pair, revoke_tokens,
}

-- 30 minutes in milliseconds.
abbrev pub lock_duration_ms : ℕ
lock_duration_ms = 1800000

abbrev pub default_lockout_attempts : ℕ
default_lockout_attempts = 5

-- 24 hours and 1 hour, the life of the two kinds of one-time tokens, in milliseconds.
abbrev pub email_verify_ttl_ms : ℕ
email_verify_ttl_ms = 86400000

abbrev pub pwd_reset_ttl_ms : ℕ
pwd_reset_ttl_ms = 3600000

pub record SafeUser : Type 0 where
  pub id : ℕ
  pub email : String
  pub email_verified : Bool
  pub name : String
  pub avatar_url : Option String
  pub is_platform_admin : Bool
  pub status : UserStatus
  pub created_at : ℕ
  pub updated_at : ℕ

abbrev pub sanitize_user : UserRow → SafeUser
sanitize_user u = record {
  id = u.id;
  email = u.email;
  email_verified = u.email_verified;
  name = u.name;
  avatar_url = u.avatar_url;
  is_platform_admin = u.is_platform_admin;
  status = u.status;
  created_at = u.created_at;
  updated_at = u.updated_at;
}

abbrev pub write_outbox_event : AuthEvent → AuthDb → AuthDb
write_outbox_event event db = record db { outbox = event ∷ db.outbox }

abbrev pub persist_audit_log : AuditRow → AuthDb → AuthDb
persist_audit_log row db = record db { audit = row ∷ db.audit }

-- `UPDATE users …` as a step.
abbrev pub on_users : (List UserRow → List UserRow) → AuthDb → AuthDb
on_users f db = record db { users = f db.users }

-- The lockout threshold: the organization's if one is named and found, else five.
unfoldable pub lockout_attempts : Option ℕ → List OrgRow → ℕ
lockout_attempts none orgs = default_lockout_attempts
lockout_attempts (some org) orgs = elim (find_by_id org orgs) [
  | none ↦ default_lockout_attempts
  | some o ↦ o.account_lockout_attempts
]

abbrev pub is_locked : ℕ → UserRow → Bool
is_locked now u = elim u.locked_until [ none ↦ false | some until ↦ ltb now until ]

-- A wrong password: count it, and lock the account at the threshold.
unfoldable pub fail_login : ℕ → UserRow → Option ℕ → AuthDb → AuthDb
fail_login now u org db =
    let counted = on_users (increment_failed_login_attempts u.id) db in
    if leb (lockout_attempts org db.organizations) (u.failed_login_attempts + 1)
    then on_users (lock_user u.id (now + lock_duration_ms)) counted
    else counted

unfoldable pub refuse_login : {A : Type 0} → ℕ → UserRow → Option ℕ → Action AuthDb A
refuse_login now u org = do
  locks ← gets (λ db. leb (lockout_attempts org db.organizations) (u.failed_login_attempts + 1))
  modify (fail_login now u org)
  throw
      (if locks then forbidden_error "ACCOUNT_LOCKED" else unauthorized_error "INVALID_CREDENTIALS")

-- The role in the organization that the login names; `member` if it names none.
unfoldable pub login_role : UserRow → Option ℕ → Action AuthDb Role
login_role u none = pure member
login_role u (some org) = do
  role ← gets (λ db. active_role u.id org db.memberships)
  or_throw role (forbidden_error "NOT_ORG_MEMBER")

-- `user.locked_until && user.locked_until > new Date()`, and the checks before it.
unfoldable pub check_account : ℕ → UserRow → Action AuthDb (Unit {0})
check_account now u = do
  throw_if (not u.email_verified) (forbidden_error "EMAIL_NOT_VERIFIED")
  throw_if (is_locked now u) (forbidden_error "ACCOUNT_LOCKED")

unfoldable pub request_password_reset_for : ℕ → ℕ → Option UserRow → AuthDb → AuthDb
request_password_reset_for now hash none db = db
request_password_reset_for now hash (some u) db =
    write_outbox_event (password_reset_requested u.id hash (now + pwd_reset_ttl_ms))
      (record db { pwd_reset = redis_set hash u.id (now + pwd_reset_ttl_ms) db.pwd_reset })

unfoldable pub resend_verification_email : ℕ → ℕ → ℕ → AuthDb → AuthDb
resend_verification_email now hash user db =
    write_outbox_event (email_verification_requested user hash (now + email_verify_ttl_ms))
      (record db { email_verify = redis_set hash user (now + email_verify_ttl_ms) db.email_verify })

module _ (normalize : String → String) (hash_token : ℕ → ℕ) (access_ttl : ℕ) where
  unfoldable pub find_user_by_email_for_resend : String → List UserRow → Option ℕ
  find_user_by_email_for_resend email' users =
      elim (find_user_by_email normalize (normalize email') users) [
        | none ↦ none
        | some u ↦ if u.email_verified then none else some u.id
      ]

  -- `new_id` is the id of the inserted user and `token` the random token of its verification mail.
  unfoldable pub register : ℕ → ℕ → ℕ → String → String → String → Action AuthDb SafeUser
  register new_id now token email' password_hash' name' = do
    existing ← gets (λ db. find_user_by_email normalize (normalize email') db.users)
    throw_if (is_some existing) (conflict_error "EMAIL_ALREADY_EXISTS")
    let u : UserRow = new_user normalize new_id now (record {
      email = normalize email';
      name = name';
      password_hash = some password_hash';
      email_verified = some false;
      avatar_url = none;
    }) in
        modify (λ db. resend_verification_email now (hash_token token) u.id (record db {
          users = u ∷ db.users;
          preferences = create_user_preferences now u.id db.preferences;
          providers =
              record {
                user_id = u.id;
                provider = Provider.email;
                provider_user_id = normalize email';
                org_id = none;
              }
              ∷ db.providers;
        }))
        >> modify (
            persist_audit_log (record {
              org_id = none;
              actor_id = none;
              event_type = "user.registered";
              entity_id = u.id;
            }))
        >> pure (sanitize_user u)

  -- A right password: reset the counters, resolve the role, and issue the tokens.
  unfoldable pub accept_login :
      ℕ → Drawn → ℕ → UserRow → Option ℕ → Action AuthDb (TokenPair × SafeUser)
  accept_login now drawn family u org = do
    modify (on_users (reset_failed_login_attempts u.id))
    modify (on_users (update_user u.id (λ x. record x { last_login_at = some now })))
    role ← login_role u org
    tokens ←
        issue_token_pair hash_token access_ttl now drawn family u.id org role u.is_platform_admin
          none
    modify (
        persist_audit_log (record {
          org_id = org;
          actor_id = some u.id;
          event_type = "user.login";
          entity_id = u.id;
        }))
    pure (tokens, sanitize_user u)

  abbrev pub password_valid : (String → String → Bool) → String → UserRow → Bool
  password_valid verify_password password u = elim u.password_hash [
    | none ↦ false
    | some h ↦ verify_password password h
  ]

  unfoldable pub login :
      (String → String → Bool)
      → ℕ
      → Drawn
      → ℕ
      → String
      → String
      → Option ℕ
      → Action AuthDb (TokenPair × SafeUser)
  login verify_password now drawn family email' password org = do
    found ← gets (λ db. find_user_by_email normalize (normalize email') db.users)
    u ← or_throw found (unauthorized_error "INVALID_CREDENTIALS")
    check_account now u
    if password_valid verify_password password u
        then accept_login now drawn family u org
        else refuse_login now u org

  unfoldable pub verify_email : ℕ → ℕ → Action AuthDb (Unit {0})
  verify_email now token = do
    found ← gets (λ db. redis_get now (hash_token token) db.email_verify)
    user ← or_throw found (unauthorized_error "INVALID_OR_EXPIRED_TOKEN")
    modify (
        on_users (
          update_user user (λ u. record u { email_verified = true; email_verified_at = some now })))
    modify (λ db. record db { email_verify = redis_del (hash_token token) db.email_verify })
    modify (
        persist_audit_log (record {
          org_id = none;
          actor_id = some user;
          event_type = "user.email_verified";
          entity_id = user;
        }))

  -- The request succeeds whether or not there is such a user.
  unfoldable pub request_password_reset : ℕ → ℕ → String → AuthDb → AuthDb
  request_password_reset now token email' db =
      request_password_reset_for now (hash_token token)
        (find_user_by_email normalize (normalize email') db.users) db

  -- What a valid reset of the password of `user` writes.
  unfoldable pub reset_password : ℕ → ℕ → String → ℕ → AuthDb → AuthDb
  reset_password now hash new_hash user db =
      persist_audit_log
        (record {
          org_id = none;
          actor_id = some user;
          event_type = "user.password_reset";
          entity_id = user;
        })
        (record db {
          users =
              update_user user
                (λ u. record u { password_hash = some new_hash; password_changed_at = some now })
                db.users;
          user_cache = redis_del user db.user_cache;
          refresh_tokens = revoke_all_user_tokens now user db.refresh_tokens;
          pwd_reset = redis_del hash db.pwd_reset;
        })

  unfoldable pub confirm_password_reset : ℕ → ℕ → String → Action AuthDb (Unit {0})
  confirm_password_reset now token new_hash = do
    found ← gets (λ db. redis_get now (hash_token token) db.pwd_reset)
    user ← or_throw found (unauthorized_error "INVALID_OR_EXPIRED_TOKEN")
    modify (reset_password now (hash_token token) new_hash user)

  unfoldable pub logout : ℕ → ℕ → ℕ → ℕ → AuthDb → AuthDb
  logout now raw jti remaining_ttl = revoke_tokens hash_token access_ttl now raw jti remaining_ttl
