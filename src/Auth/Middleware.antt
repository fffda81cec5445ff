-- ===== src/Auth/Middleware.antt =====
-- src/shared/auth-middleware/jwt.middleware.ts. The verification of a signed token is library code, so
-- it is a parameter; `redis` says whether Redis answers during the request.
use multi_tenant_collaborati.Common.{
  ℕ, ◌+◌, ◌/◌, Bool, true, false, ◌&&◌, Option, none, some, List, ◌==◌, if◌then◌else◌, ltb, is_some,
  select_first, Action, pure, throw, gets, or_throw, throw_if, ◌>>=◌, ◌>>◌, unauthorized_error,
  redis_get, redis_set,
}
use multi_tenant_collaborati.Organization.Membership.{Role}
use multi_tenant_collaborati.Auth.Row.{UserRow, UserStatus, deleted, CachedUser, AuthDb}
use multi_tenant_collaborati.Auth.Token.{Claims}

-- 60 seconds, in milliseconds.
abbrev pub user_cache_ttl_ms : ℕ
user_cache_ttl_ms = 60000

-- `SELECT id, status, password_changed_at FROM users WHERE id = $1`: deleted users too.
unfoldable pub find_cached : ℕ → List UserRow → Option CachedUser
find_cached id users = elim (select_first (λ u. u.id == id) users) [
  | none ↦ none
  | some u ↦
      some (record { id = u.id; status = u.status; password_changed_at = u.password_changed_at })
]

abbrev pub cache_user : Bool → ℕ → ℕ → CachedUser → AuthDb → AuthDb
cache_user redis now id u db =
    if redis
    then record db { user_cache = redis_set id u (now + user_cache_ttl_ms) db.user_cache }
    else db

-- `resolveUser`: the cache, then the table.
unfoldable pub resolve_user : Bool → ℕ → ℕ → Action AuthDb CachedUser
resolve_user redis now id db = elim (if redis then redis_get now id db.user_cache else none) [
  | some u ↦ pure u db
  | none ↦ elim (find_cached id db.users) [
    | none ↦ throw (unauthorized_error "USER_NOT_FOUND") db
    | some u ↦ pure u (cache_user redis now id u db)
  ]
]

-- A failing Redis lets the request pass.
abbrev pub is_blacklisted : Bool → ℕ → ℕ → AuthDb → Bool
is_blacklisted redis now jti db = redis && is_some (redis_get now jti db.blacklist)

abbrev pub is_deleted : UserStatus → Bool
is_deleted deleted = true
is_deleted _ = false

-- `payload.iat < passwordChangedTs`, in seconds.
abbrev pub issued_before_change : Option ℕ → Option ℕ → Bool
issued_before_change (some iat) (some changed) = ltb iat (changed / 1000)
issued_before_change _ _ = false

-- `req.user`; the middleware reads `authTime`, which no token of this code carries.
pub record RequestUser : Type 0 where
  pub user_id : ℕ
  pub org_id : Option ℕ
  pub role : Role
  pub is_platform_admin : Bool
  pub jti : ℕ
  pub exp : ℕ
  pub mfa_verified_at : Option ℕ

abbrev pub request_user : Claims → RequestUser
request_user c = record {
  user_id = c.sub;
  org_id = c.org_id;
  role = c.role;
  is_platform_admin = c.is_platform_admin;
  jti = c.jti;
  exp = c.exp;
  mfa_verified_at = c.mfa_verified_at;
}

unfoldable pub admit_claims : Bool → ℕ → Claims → Action AuthDb RequestUser
admit_claims redis now c = do
  revoked ← gets (is_blacklisted redis now c.jti)
  throw_if revoked (unauthorized_error "TOKEN_BLACKLISTED")
  u ← resolve_user redis now c.sub
  throw_if (is_deleted u.status) (unauthorized_error "USER_DELETED")
  throw_if (issued_before_change c.iat u.password_changed_at)
      (unauthorized_error "SESSION_INVALIDATED")
  pure (request_user c)

module _ {Token : Type 0} (verify_token : ℕ → Token → Option Claims) where
  -- `bearer` is what follows `Bearer ` in the header.
  unfoldable pub authenticate : Bool → ℕ → Option Token → Action AuthDb RequestUser
  authenticate redis now bearer = do
    token ← or_throw bearer (unauthorized_error "MISSING_TOKEN")
    claims ← or_throw (verify_token now token) (unauthorized_error "INVALID_TOKEN")
    admit_claims redis now claims
