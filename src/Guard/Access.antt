-- ===== src/Guard/Access.antt =====
-- Who gets past the guards, and how long a cached answer counts.
use multi_tenant_collaborati.Common.{
  ℕ, ◌+◌, ◌<◌, ◌≡◌, refl, Bool, true, false, Option, none, some, List, ==_refl, arith, Bool-cases,
  Option-cases, ◌⊎◌, inl, inr, Result-cases, ok,
}
use multi_tenant_collaborati.Organization.Membership.{Role, MembershipRow}
use multi_tenant_collaborati.Organization.Row.{
  OrgRow, OrgStatus, active, suspended, offboarding, deleted,
}
use multi_tenant_collaborati.Auth.Middleware.{RequestUser}
use multi_tenant_collaborati.Guard.{
  OrgContext, GuardDb, session_cache_ttl_ms, cached_context, cache_context, find_active, find_any,
  query_context, fetch_context, resolve_org_context, is_mismatch, org_context, org_status,
  includes_role, require_role, guarded,
}

pub query_context_sound :
    (user org : ℕ) (m : Option MembershipRow) (o : Option OrgRow) (context : OrgContext)
    → query_context user org m o ≡ ok context
    → (row : MembershipRow) × (home : OrgRow) × (m ≡ some row)
      × (o ≡ some home)
      × (context.org_status ≡ home.status)
      × (context.member_role ≡ row.role)
      × (context.org_id ≡ org)
unfolding query_context
query_context_sound user org none none context e = absurd (ground arith)
query_context_sound user org (some m) none context e = absurd (ground arith)
query_context_sound user org none (some o) context e = absurd (ground arith)
query_context_sound user org (some m) (some o) context e =
    (m, o, refl, refl, ground arith, ground arith, ground arith)

pub fetched :
    (redis : Bool) (now user org : ℕ) (db : GuardDb) (context : OrgContext)
    → cached_context redis now user org db.sessions ≡ none
    → (resolve_org_context redis now user org db).0 ≡ ok context
    → query_context user org (find_active user org db.memberships) (find_any org db.organizations)
      ≡ ok context
unfolding resolve_org_context fetch_context
fetched redis now user org db context cold e = ground arith

pub org_status_write :
    (status : OrgStatus) (db : GuardDb)
    → (org_status true false status db).0 ≡ ok tt
    → status ≡ active
unfolding org_status
org_status_write active db e = refl
org_status_write suspended db e = absurd (ground arith)
org_status_write offboarding db e = absurd (ground arith)
org_status_write deleted db e = absurd (ground arith)

guarded_steps :
    (redis : Bool) (now org : ℕ) (u : RequestUser) (roles : List Role) (db : GuardDb)
    (context : OrgContext)
    → (guarded redis now (some u) (some org) true false roles db).0 ≡ ok context
    → (is_mismatch u org ≡ false)
      × ((resolve_org_context redis now u.user_id org db).0 ≡ ok context)
      × ((org_status true false context.org_status
            (resolve_org_context redis now u.user_id org db).1).0
          ≡ ok tt)
      × (includes_role roles context.member_role ≡ true)
unfolding guarded org_context require_role
guarded_steps redis now org u roles db context e =
    let rest = resolve_org_context redis now u.user_id org db in
    elim (Bool-cases (is_mismatch u org)) [
      | inl mismatch ↦ absurd (ground arith)
      | inr own ↦ elim (Result-cases rest.0) [
        | inr (x, bad) ↦ absurd (ground arith)
        | inl (c, fine) ↦ elim (Result-cases (org_status true false c.org_status rest.1).0) [
          | inr (x, bad) ↦ absurd (ground arith)
          | inl (done, passed) ↦ elim (Bool-cases (includes_role roles c.member_role)) [
            | inr excluded ↦ absurd (ground arith)
            | inl included ↦
                let same : c ≡ context = ground arith in
                (own, ground arith, rw (← same) passed, rw (← same) included)
          ]
        ]
      ]
    ]

-- A write request, outside the paths of `/api/v1/auth`, that passes the guards on a fresh look-up is
-- of a platform admin or names the organization of the token; the user has an active membership there
-- whose role is one of those required, and the organization is active.
pub guarded_write_sound :
    (redis : Bool) (now org : ℕ) (u : RequestUser) (roles : List Role) (db : GuardDb)
    (context : OrgContext)
    → cached_context redis now u.user_id org db.sessions ≡ none
    → (guarded redis now (some u) (some org) true false roles db).0 ≡ ok context
    → ((u.is_platform_admin ≡ true) ⊎ (u.org_id ≡ some org))
      × ((m : MembershipRow) × (find_active u.user_id org db.memberships ≡ some m)
          × (includes_role roles m.role ≡ true))
      × ((o : OrgRow) × (find_any org db.organizations ≡ some o) × (o.status ≡ active))
guarded_write_sound redis now org u roles db context cold e =
    let (own, resolved, passed, included) = guarded_steps redis now org u roles db context e in
    let (m, o, em, eo, es, er, same) =
      query_context_sound u.user_id org _ _ context
        (fetched redis now u.user_id org db context cold resolved) in
    (
      owner u org own,
      (m, em, ground arith),
      (o, eo, ground (arith, org_status_write context.org_status _ passed)),
    )
  where
    owner :
        (v : RequestUser) (target : ℕ)
        → is_mismatch v target ≡ false
        → (v.is_platform_admin ≡ true) ⊎ (v.org_id ≡ some target)
    owner v target h = elim (Option-cases v.org_id) [
      | inl missing ↦ inl (ground arith)
      | inr (own, has) ↦ elim (Bool-cases v.is_platform_admin) [
        | inl admin ↦ inl admin
        | inr plain ↦ inr (ground arith)
      ]
    ]

cached_after :
    (now later user org : ℕ) (context : OrgContext) (db : GuardDb)
    → later < now + session_cache_ttl_ms
    → cached_context true later user org (cache_context true now user org context db).sessions
      ≡ some context
unfolding cached_context cache_context
cached_after now later user org context db soon = ground (arith, ==_refl user, ==_refl org)

fetch_caches :
    (now user org : ℕ) (db : GuardDb) (context : OrgContext)
    → cached_context true now user org db.sessions ≡ none
    → (resolve_org_context true now user org db).0 ≡ ok context
    → (resolve_org_context true now user org db).1 ≡ cache_context true now user org context db
unfolding resolve_org_context fetch_context
fetch_caches now user org db context cold e = ground arith

cached_answer :
    (now user org : ℕ) (db : GuardDb) (context : OrgContext)
    → cached_context true now user org db.sessions ≡ some context
    → resolve_org_context true now user org db ≡ (ok context, db)
unfolding resolve_org_context
cached_answer now user org db context warm = ground arith

-- For thirty seconds after a look-up the same context is answered from Redis, whatever happens to the
-- organization and to the memberships meanwhile: a removed member keeps the role and a suspended
-- organization stays active for that long.
pub context_outlives_removal :
    (now later user org : ℕ) (db : GuardDb) (context : OrgContext) (organizations' : List OrgRow)
    (memberships' : List MembershipRow)
    → cached_context true now user org db.sessions ≡ none
    → (resolve_org_context true now user org db).0 ≡ ok context
    → later < now + session_cache_ttl_ms
    → let after = (resolve_org_context true now user org db).1 in
      let changed : GuardDb = record after {
        organizations = organizations';
        memberships = memberships';
      } in
      resolve_org_context true later user org changed ≡ (ok context, changed)
context_outlives_removal now later user org db context organizations' memberships' cold e soon =
    cached_answer later user org _ context (
      rw (fetch_caches now user org db context cold e)
        (cached_after now later user org context db soon))
