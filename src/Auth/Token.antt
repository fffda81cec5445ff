-- ===== src/Auth/Token.antt =====
-- src/modules/auth/services/jwt.service.ts and src/modules/auth/utils/token.ts. A hash is library code,
-- so it is a parameter; what the services draw at random is an argument.
use multi_tenant_collaborati.Common.{
  ℕ, ◌+◌, ◌*◌, ◌/◌, Bool, ◌&&◌, Option, none, some, List, ◌∷◌, ◌==◌, if◌then◌else◌, ltb,
  select_first, Action, pure, throw, gets, or_throw, throw_if, modify, ◌>>=◌, ◌>>◌,
  unauthorized_error, redis_set,
}
use multi_tenant_collaborati.Organization.Membership.{Role, member, MembershipRow, is_active}
use multi_tenant_collaborati.Auth.Row.{RefreshTokenRow, CreateRefreshTokenData, AuthDb}
use multi_tenant_collaborati.Auth.Repository.{
  find_user_by_id, find_refresh_token, new_refresh_token, update_refresh_token_jti,
  revoke_refresh_token, revoke_token_family,
}

-- The claims that an access token signs; `iat` and `exp` are in seconds.
pub record Claims : Type 0 where
  pub sub : ℕ
  pub org_id : Option ℕ
  pub role : Role
  pub is_platform_admin : Bool
  pub mfa_verified_at : Option ℕ
  pub jti : ℕ
  pub iat : Option ℕ
  pub exp : ℕ

pub record TokenPair : Type 0 where
  pub access_token : Claims
  pub refresh_token : ℕ
  pub expires_in : ℕ

-- What is drawn for a new pair: the id of the access token, the refresh token, and the id of its row.
pub record Drawn : Type 0 where
  pub jti : ℕ
  pub refresh_token : ℕ
  pub row_id : ℕ

-- 30 days in milliseconds.
abbrev pub refresh_token_ttl_ms : ℕ
refresh_token_ttl_ms = 2592000000

abbrev pub generate_access_token : ℕ → ℕ → ℕ → ℕ → Option ℕ → Role → Bool → Option ℕ → Claims
generate_access_token access_ttl now jti' user org role' admin mfa = record {
  sub = user;
  org_id = org;
  role = role';
  is_platform_admin = admin;
  mfa_verified_at = mfa;
  jti = jti';
  iat = some (now / 1000);
  exp = now / 1000 + access_ttl;
}

unfoldable pub blacklist_token : ℕ → ℕ → ℕ → AuthDb → AuthDb
blacklist_token now jti ttl_seconds db = record db {
  blacklist = redis_set jti tt (now + ttl_seconds * 1000) db.blacklist;
}

unfoldable pub create_refresh_token : ℕ → ℕ → CreateRefreshTokenData → AuthDb → AuthDb
create_refresh_token new_id now d db = record db {
  refresh_tokens = new_refresh_token new_id now d ∷ db.refresh_tokens;
}

-- `SELECT role FROM org_memberships WHERE user_id = $1 AND org_id = $2 AND status = 'active'`.
unfoldable pub active_role : ℕ → ℕ → List MembershipRow → Option Role
active_role user org rows =
    elim (select_first (λ m. m.user_id == user && (m.org_id == org && is_active m.status)) rows) [
      | none ↦ none
      | some m ↦ some m.role
    ]

-- The role of a refreshed token: `member` without an organization or without a membership there.
abbrev pub refreshed_role : ℕ → Option ℕ → List MembershipRow → Role
refreshed_role user none rows = member
refreshed_role user (some org) rows = elim (active_role user org rows) [
  | none ↦ member
  | some role ↦ role
]

abbrev pub token_family_revoked : ℕ → RefreshTokenRow → AuthDb → AuthDb
token_family_revoked now t db = record db {
  refresh_tokens = revoke_token_family now t.family_id db.refresh_tokens;
}

module _ (hash_token : ℕ → ℕ) (access_ttl : ℕ) where
  unfoldable pub issue_token_pair :
      ℕ → Drawn → ℕ → ℕ → Option ℕ → Role → Bool → Option ℕ → Action AuthDb TokenPair
  issue_token_pair now drawn family user org role admin mfa = do
    modify (
        create_refresh_token drawn.row_id now (record {
          user_id = user;
          org_id = org;
          token_hash = hash_token drawn.refresh_token;
          family_id = family;
          last_access_token_jti = some drawn.jti;
          expires_at = now + refresh_token_ttl_ms;
        }))
    pure (record {
      access_token = generate_access_token access_ttl now drawn.jti user org role admin mfa;
      refresh_token = drawn.refresh_token;
      expires_in = access_ttl;
    })

  -- A revoked token is used again: the family is revoked, and the access token that was issued with
  -- this row is blacklisted.
  unfoldable pub reuse_detected : ℕ → RefreshTokenRow → AuthDb → AuthDb
  reuse_detected now t db = elim t.last_access_token_jti [
    | none ↦ token_family_revoked now t db
    | some jti ↦ blacklist_token now jti access_ttl (token_family_revoked now t db)
  ]

  -- The row of the used token is revoked and the next one of its family is written.
  unfoldable pub rotate : ℕ → Drawn → RefreshTokenRow → AuthDb → AuthDb
  rotate now drawn t db =
      let next : CreateRefreshTokenData = record {
        user_id = t.user_id;
        org_id = t.org_id;
        token_hash = hash_token drawn.refresh_token;
        family_id = t.family_id;
        last_access_token_jti = some drawn.jti;
        expires_at = now + refresh_token_ttl_ms;
      } in
      record db {
        refresh_tokens = update_refresh_token_jti drawn.row_id drawn.jti (
            new_refresh_token drawn.row_id now next
            ∷ revoke_refresh_token now t.id db.refresh_tokens);
      }

  unfoldable pub refresh_live : ℕ → Drawn → RefreshTokenRow → Action AuthDb TokenPair
  refresh_live now drawn t = do
    throw_if (ltb t.expires_at now) (unauthorized_error "TOKEN_EXPIRED")
    found ← gets (λ db. find_user_by_id t.user_id db.users)
    user ← or_throw found (unauthorized_error "USER_NOT_FOUND")
    role ← gets (λ db. refreshed_role t.user_id t.org_id db.memberships)
    modify (rotate now drawn t)
    pure (record {
      access_token =
          generate_access_token access_ttl now drawn.jti t.user_id t.org_id role
            user.is_platform_admin none;
      refresh_token = drawn.refresh_token;
      expires_in = access_ttl;
    })

  unfoldable pub refresh_row : ℕ → Drawn → RefreshTokenRow → Action AuthDb TokenPair
  refresh_row now drawn t =
      if t.is_revoked
      then (modify (reuse_detected now t) >> throw (unauthorized_error "TOKEN_FAMILY_REVOKED"))
      else refresh_live now drawn t

  unfoldable pub refresh_token_pair : ℕ → Drawn → ℕ → Action AuthDb TokenPair
  refresh_token_pair now drawn raw = do
    found ← gets (λ db. find_refresh_token (hash_token raw) db.refresh_tokens)
    t ← or_throw found (unauthorized_error "TOKEN_NOT_FOUND")
    refresh_row now drawn t

  unfoldable pub revoke_found : ℕ → Option RefreshTokenRow → AuthDb → AuthDb
  revoke_found now none db = db
  revoke_found now (some t) db = record db {
    refresh_tokens = revoke_refresh_token now t.id db.refresh_tokens;
  }

  unfoldable pub revoke_tokens : ℕ → ℕ → ℕ → ℕ → AuthDb → AuthDb
  revoke_tokens now raw jti remaining_ttl db =
      blacklist_token now jti remaining_ttl
        (revoke_found now (find_refresh_token (hash_token raw) db.refresh_tokens) db)
