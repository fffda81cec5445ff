-- ===== src/Tests/Guards.antt =====
-- A member of an organization in front of the guards.
use multi_tenant_collaborati.Common.{
  ◌≡◌, ◌≢◌, ◌⊎◌, refl, true, false, none, some, List, [], ◌∷◌, ok,
}
use multi_tenant_collaborati.Organization.Membership.{MembershipRow, Role, org_owner, org_admin}
use multi_tenant_collaborati.Organization.Row.{OrgRow, active, suspended}
use multi_tenant_collaborati.Auth.Middleware.{RequestUser}
use multi_tenant_collaborati.Guard.{
  OrgContext, GuardDb, cached_context, find_active, find_any, query_context, fetch_context,
  resolve_org_context, org_context, org_status, includes_role, require_role, guarded, cache_context,
}
use multi_tenant_collaborati.Guard.Access.{guarded_write_sound}
use multi_tenant_collaborati.Organization.Service.{OrgDb}
use multi_tenant_collaborati.Guard.Reactivation.{reactivate_route, reactivate_route_fails}
use multi_tenant_collaborati.Tests.Payments.{organization}
use multi_tenant_collaborati.Tests.Organizations.{owner}

abbrev tenancy : GuardDb
tenancy = record { organizations = organization ∷ []; memberships = owner ∷ []; sessions = [] }

abbrev caller : RequestUser
caller = record {
  user_id = 2;
  org_id = some 1;
  role = org_owner;
  is_platform_admin = false;
  jti = 80;
  exp = 900;
  mfa_verified_at = none;
}

abbrev owner_context : OrgContext
owner_context = record { org_id = 1; org_status = active; member_role = org_owner }

abbrev admins : List Role
admins = org_owner ∷ org_admin ∷ []

nothing_cached : cached_context true 5000 2 1 tenancy.sessions ≡ none
unfolding cached_context
nothing_cached = refl

owner_resolved : (resolve_org_context true 5000 2 1 tenancy).0 ≡ ok owner_context
unfolding resolve_org_context fetch_context query_context find_active find_any cached_context
owner_resolved = refl

owner_passes :
    (guarded true 5000 (some caller) (some 1) true false admins tenancy).0 ≡ ok owner_context
unfolding guarded org_context org_status require_role includes_role resolve_org_context
    fetch_context query_context find_active find_any cached_context cache_context
owner_passes = refl

guarded_write_sound_example :
    ((caller.is_platform_admin ≡ true) ⊎ (caller.org_id ≡ some 1))
    × ((m : MembershipRow) × (find_active 2 1 tenancy.memberships ≡ some m)
        × (includes_role admins m.role ≡ true))
    × ((o : OrgRow) × (find_any 1 tenancy.organizations ≡ some o) × (o.status ≡ active))
guarded_write_sound_example =
    guarded_write_sound true 5000 1 caller admins tenancy owner_context nothing_cached owner_passes

abbrev unpaid : OrgRow
unpaid = record organization { status = suspended }

abbrev unpaid_registry : OrgDb
unpaid_registry = record { organizations = unpaid ∷ []; outbox = []; audit = [] }

unpaid_found : find_any 1 unpaid_registry.organizations ≡ some unpaid
unfolding find_any
unpaid_found = refl

reactivate_route_fails_example :
    (reactivate_route true 5000 caller (some 1) (owner ∷ []) [] unpaid_registry).0 ≢ ok tt
reactivate_route_fails_example =
    reactivate_route_fails true 5000 1 caller (owner ∷ []) [] unpaid unpaid_registry unpaid_found
      refl nothing_cached
