-- ===== src/Guard/Reactivation.antt =====
-- The route `POST /orgs/:orgId/reactivate` of src/modules/organization/organization.router.ts: the
-- guards, the check of the caller, and `reactivateOrg`.
use multi_tenant_collaborati.Common.{
  ℕ, ◌≡◌, ◌≢◌, Bool, true, false, not, ◌&&◌, Option, none, some, List, [], ◌∷◌, ◌==◌, if◌then◌else◌,
  arith, Bool-cases, Result-cases, inl, inr, ok, err, Action, pure, ◌>>=◌, ◌>>◌, forbidden_error,
}
use multi_tenant_collaborati.Organization.Membership.{org_owner, MembershipRow}
use multi_tenant_collaborati.Organization.Row.{OrgRow, active, find_by_id}
use multi_tenant_collaborati.Organization.Service.{OrgDb, get_org, reactivate_org}
use multi_tenant_collaborati.Auth.Middleware.{RequestUser}
use multi_tenant_collaborati.Guard.{
  OrgContext, SessionEntry, GuardDb, org_context, org_status, role_eq, find_any, cached_context,
  resolve_org_context,
}
use multi_tenant_collaborati.Guard.Access.{query_context_sound, fetched, org_status_write}

-- `orgMiddleware` before a write route: the context and the status.
unfoldable pub org_write_guard : Bool → ℕ → RequestUser → Option ℕ → Action GuardDb OrgContext
org_write_guard redis now u header = do
  context ← org_context redis now (some u) header
  org_status true false context.org_status
  pure context

unfoldable pub reactivate_if_owner : RequestUser → OrgContext → Action OrgDb (Unit {0})
reactivate_if_owner u context db =
    if not u.is_platform_admin && not (role_eq context.member_role org_owner)
    then (err (forbidden_error "INSUFFICIENT_ROLE"), db)
    else reactivate_org context.org_id (some u.user_id) db

-- The guards read the organizations that the handler writes.
unfoldable pub reactivate_route :
    Bool
    → ℕ
    → RequestUser
    → Option ℕ
    → List MembershipRow
    → List SessionEntry
    → Action OrgDb (Unit {0})
reactivate_route redis now u header members sessions db =
    elim (org_write_guard redis now u header
      (record { organizations = db.organizations; memberships = members; sessions = sessions })).0 [
        | err e ↦ (err e, db)
        | ok context ↦ reactivate_if_owner u context db
      ]

find_by_id-find_any :
    (org : ℕ) (rows : List OrgRow) (o : OrgRow)
    → find_any org rows ≡ some o
    → o.deleted_at ≡ none
    → find_by_id org rows ≡ some o
unfolding find_any find_by_id
find_by_id-find_any org [] o e live = absurd (ground arith)
find_by_id-find_any org (r ∷ rows) o e live = elim (Bool-cases (r.id == org)) [
  | inl hit ↦ ground arith
  | inr miss ↦ ground (arith, find_by_id-find_any org rows o (ground arith) live)
]

reactivate_active :
    (org : ℕ) (actor : Option ℕ) (o : OrgRow) (db : OrgDb)
    → find_by_id org db.organizations ≡ some o
    → o.status ≡ active
    → (reactivate_org org actor db).0 ≢ ok tt
unfolding reactivate_org get_org
reactivate_active org actor o db e a h = ground arith

org_write_guard_steps :
    (redis : Bool) (now org : ℕ) (u : RequestUser) (db : GuardDb) (context : OrgContext)
    → (org_write_guard redis now u (some org) db).0 ≡ ok context
    → ((resolve_org_context redis now u.user_id org db).0 ≡ ok context)
      × ((org_status true false context.org_status
            (resolve_org_context redis now u.user_id org db).1).0
          ≡ ok tt)
unfolding org_write_guard org_context
org_write_guard_steps redis now org u db context e =
    let rest = resolve_org_context redis now u.user_id org db in
    elim (Result-cases rest.0) [
      | inr (x, bad) ↦ absurd (ground arith)
      | inl (c, fine) ↦ elim (Result-cases (org_status true false c.org_status rest.1).0) [
        | inr (x, bad) ↦ absurd (ground arith)
        | inl (done, passed) ↦
            let same : c ≡ context = ground arith in (ground arith, rw (← same) passed)
      ]
    ]

-- No request to the route reactivates anything on a fresh look-up: if the organization of the header is
-- there and not deleted, the answer is an error, since the guard refuses a write to a suspended
-- organization and the service refuses one that is not suspended.
pub reactivate_route_fails :
    (redis : Bool) (now org : ℕ) (u : RequestUser) (members : List MembershipRow)
    (sessions : List SessionEntry) (o : OrgRow) (db : OrgDb)
    → find_any org db.organizations ≡ some o
    → o.deleted_at ≡ none
    → cached_context redis now u.user_id org sessions ≡ none
    → (reactivate_route redis now u (some org) members sessions db).0 ≢ ok tt
unfolding reactivate_route reactivate_if_owner
reactivate_route_fails redis now org u members sessions o db e live cold h =
    let guard : GuardDb = record {
      organizations = db.organizations;
      memberships = members;
      sessions = sessions;
    } in
    elim (Result-cases (org_write_guard redis now u (some org) guard).0) [
      | inr (x, bad) ↦ ground arith
      | inl (context, fine) ↦
          let (resolved, passed) = org_write_guard_steps redis now org u guard context fine in
          let (m, home, em, eo, es, er, same) =
            query_context_sound u.user_id org _ _ context
              (fetched redis now u.user_id org guard context cold resolved) in
          let is_active = org_status_write context.org_status _ passed in
          let refused =
            reactivate_active context.org_id (some u.user_id) o db
              (rw same (find_by_id-find_any org db.organizations o e live)) (ground arith) in
          ground arith
    ]
