-- ===== src/Guard.antt =====
-- src/shared/auth-middleware: org-context.middleware.ts, org-status.middleware.ts and
-- require-role.middleware.ts, which a request passes after the authentication. `redis` says whether
-- Redis answers during the request; the clock is in milliseconds.
use multi_tenant_collaborati.Common.{
  ℕ, ◌+◌, Bool, true, false, not, ◌&&◌, ◌||◌, Option, none, some, List, [], ◌∷◌, ◌==◌,
  if◌then◌else◌, ltb, is_none, select_first, delete_where, Result, ok, err, Action, pure, throw,
  gets, or_throw, throw_if, modify, ◌>>=◌, ◌>>◌, unauthorized_error, forbidden_error,
}
use multi_tenant_collaborati.Organization.Membership.{
  Role, org_owner, org_admin, member, guest, MembershipRow, is_active,
}
use multi_tenant_collaborati.Organization.Row.{
  OrgRow, OrgStatus, active, suspended, offboarding, deleted, org_status_eq,
}
use multi_tenant_collaborati.Auth.Middleware.{RequestUser}
pub mod Access
pub mod Reactivation

-- `req.orgContext`, and what is cached of it.
pub record OrgContext : Type 0 where
  pub org_id : ℕ
  pub org_status : OrgStatus
  pub member_role : Role

-- The key `session:${userId}:${orgId}`.
pub record SessionEntry : Type 0 where
  pub user_id : ℕ
  pub org_id : ℕ
  pub context : OrgContext
  pub expires_at : ℕ

pub record GuardDb : Type 0 where
  pub organizations : List OrgRow
  pub memberships : List MembershipRow
  pub sessions : List SessionEntry

-- 30 seconds.
abbrev pub session_cache_ttl_ms : ℕ
session_cache_ttl_ms = 30000

abbrev pub is_session : ℕ → ℕ → SessionEntry → Bool
is_session user org e = e.user_id == user && e.org_id == org

unfoldable pub cached_context : Bool → ℕ → ℕ → ℕ → List SessionEntry → Option OrgContext
cached_context false now user org sessions = none
cached_context true now user org sessions =
    elim (select_first (λ e. is_session user org e && ltb now e.expires_at) sessions) [
      | none ↦ none
      | some e ↦ some e.context
    ]

unfoldable pub cache_context : Bool → ℕ → ℕ → ℕ → OrgContext → GuardDb → GuardDb
cache_context false now user org context db = db
cache_context true now user org context db = record db {
  sessions =
      record {
        user_id = user;
        org_id = org;
        context = context;
        expires_at = now + session_cache_ttl_ms;
      }
      ∷ delete_where (is_session user org) db.sessions;
}

-- `WHERE om.org_id = $1 AND om.user_id = $2 AND om.status = 'active' AND om.deleted_at IS NULL`.
abbrev pub is_active_membership : ℕ → ℕ → MembershipRow → Bool
is_active_membership user org m =
    m.org_id == org && (m.user_id == user && (is_active m.status && is_none m.deleted_at))

unfoldable pub find_active : ℕ → ℕ → List MembershipRow → Option MembershipRow
find_active user org rows = select_first (is_active_membership user org) rows

unfoldable pub find_any : ℕ → List OrgRow → Option OrgRow
find_any org rows = select_first (λ o. o.id == org) rows

-- The membership joined with its organization; without a row, the error says whether the organization
-- exists.
unfoldable pub query_context : ℕ → ℕ → Option MembershipRow → Option OrgRow → Result OrgContext
query_context user org m none = err (forbidden_error "ORG_DELETED")
query_context user org none (some o) =
    if org_status_eq o.status deleted
    then err (forbidden_error "ORG_DELETED")
    else err (forbidden_error "NOT_ORG_MEMBER")
query_context user org (some m) (some o) =
    if org_status_eq o.status deleted
    then err (forbidden_error "ORG_DELETED")
    else ok (record { org_id = org; org_status = o.status; member_role = m.role })

unfoldable pub fetch_context : Bool → ℕ → ℕ → ℕ → Action GuardDb OrgContext
fetch_context redis now user org db =
    elim (query_context user org (find_active user org db.memberships)
      (find_any org db.organizations)) [
        | ok context ↦ (ok context, cache_context redis now user org context db)
        | err e ↦ (err e, db)
      ]

unfoldable pub resolve_org_context : Bool → ℕ → ℕ → ℕ → Action GuardDb OrgContext
resolve_org_context redis now user org db = elim (cached_context redis now user org db.sessions) [
  | some context ↦ (ok context, db)
  | none ↦ fetch_context redis now user org db
]

-- `!req.user.isPlatformAdmin && req.user.orgId !== orgId`.
abbrev pub is_mismatch : RequestUser → ℕ → Bool
is_mismatch u org =
    not u.is_platform_admin && elim u.org_id [ none ↦ true | some own ↦ not (own == org) ]

-- `header` is the organization of `X-Org-ID`.
unfoldable pub org_context : Bool → ℕ → Option RequestUser → Option ℕ → Action GuardDb OrgContext
org_context redis now user header = do
  u ← or_throw user (unauthorized_error "MISSING_TOKEN")
  org ← or_throw header (unauthorized_error "MISSING_ORG_ID")
  throw_if (is_mismatch u org) (forbidden_error "ORG_MISMATCH")
  resolve_org_context redis now u.user_id org

-- `write` says whether the method is POST, PUT, PATCH or DELETE, `auth_path` whether the path starts
-- with `/api/v1/auth`.
unfoldable pub org_status : Bool → Bool → OrgStatus → Action GuardDb (Unit {0})
org_status write auth_path active = pure tt
org_status write auth_path deleted = throw (forbidden_error "ORG_DELETED")
org_status write auth_path offboarding = throw_if write (forbidden_error "ORG_OFFBOARDING")
org_status write auth_path suspended =
    throw_if (write && not auth_path) (forbidden_error "ORG_SUSPENDED")

abbrev pub role_eq : Role → Role → Bool
role_eq org_owner org_owner = true
role_eq org_admin org_admin = true
role_eq member member = true
role_eq guest guest = true
role_eq _ _ = false

-- `roles.includes(memberRole)`.
unfoldable pub includes_role : List Role → Role → Bool
includes_role [] role = false
includes_role (r ∷ rs) role = role_eq r role || includes_role rs role

unfoldable pub require_role : List Role → Role → Action GuardDb (Unit {0})
require_role roles role =
    throw_if (not (includes_role roles role)) (forbidden_error "INSUFFICIENT_ROLE")

-- The three middlewares in the order in which src/modules/webhook/webhook.router.ts composes them.
unfoldable pub guarded :
    Bool → ℕ → Option RequestUser → Option ℕ → Bool → Bool → List Role → Action GuardDb OrgContext
guarded redis now user header write auth_path roles = do
  context ← org_context redis now user header
  org_status write auth_path context.org_status
  require_role roles context.member_role
  pure context
