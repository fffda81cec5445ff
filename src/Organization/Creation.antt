-- ===== src/Organization/Creation.antt =====
-- `createOrg` of src/modules/organization/services/organization.service.ts, with `create` and
-- `updateStorageUsed` of organization.repository.ts.
use text.Mathlib.Text.{◌==◌ as str_eq}
use multi_tenant_collaborati.Common.{
  ℕ, ◌+◌, String, Bool, false, Option, none, some, List, ◌∷◌, ◌==◌, leb, ◌&&◌, is_some, or_else,
  any, select_first, update_where, Action, pure, gets, throw_if, modify, ◌>>=◌, ◌>>◌, app_error,
  conflict_error,
}
use multi_tenant_collaborati.Organization.Row.{OrgRow, PlanTier, active, free, find_by_slug}
use multi_tenant_collaborati.Organization.Membership.{MembershipRow, org_owner, create_membership}
use multi_tenant_collaborati.Organization.Invitation.{
  PreferenceRow, seed_all, notification_event_types,
}
use multi_tenant_collaborati.Payment.Row.{SubscriptionRow}
use multi_tenant_collaborati.Payment.Repository.{new_subscription}

pub record CreateOrgData : Type 0 where
  pub name : String
  pub slug : String
  pub plan_tier : Option PlanTier
  pub timezone : Option String
  pub locale : Option String

-- The columns that the statement of `createOrg` gives; the others have the table's defaults.
pub record DefaultWorkspaceRow : Type 0 where
  pub id : ℕ
  pub org_id : ℕ
  pub name : String
  pub owner_user_id : ℕ

-- The payload of `org.created`.
pub record OrgCreated : Type 0 where
  pub org_id : ℕ
  pub name : String
  pub user_id : ℕ

pub record CreationDb : Type 0 where
  pub organizations : List OrgRow
  pub workspaces : List DefaultWorkspaceRow
  pub memberships : List MembershipRow
  pub notification_preferences : List PreferenceRow
  pub subscriptions : List SubscriptionRow
  pub outbox : List OrgCreated

-- The row of the insert, with the table's defaults.
unfoldable pub new_org : ℕ → ℕ → CreateOrgData → OrgRow
new_org new_id now d = record {
  id = new_id;
  name = d.name;
  slug = d.slug;
  status = active;
  plan_tier = or_else d.plan_tier free;
  plan_started_at = now;
  plan_expires_at = none;
  grace_period_ends_at = none;
  offboarding_started_at = none;
  deleted_at = none;
  max_members = 5;
  storage_quota_bytes = 1073741824;
  storage_used_bytes = 0;
  saml_enabled = false;
  saml_metadata_url = none;
  mfa_required = false;
  account_lockout_attempts = 5;
  retention_audit_days = 365;
  retention_chat_days = none;
  timezone = or_else d.timezone "UTC";
  locale = or_else d.locale "en-US";
  created_at = now;
  updated_at = now;
  version = 1;
}

-- What the transaction writes; the ids are those that the database generates.
unfoldable pub write_org : ℕ → ℕ → ℕ → ℕ → ℕ → OrgRow → CreationDb → CreationDb
write_org workspace_id membership_id subscription_id now user org db = record db {
  organizations = org ∷ db.organizations;
  workspaces =
      (record {
        id = workspace_id;
        org_id = org.id;
        name = "Default Workspace";
        owner_user_id = user;
      })
      ∷ db.workspaces;
  memberships =
      create_membership membership_id now
        (record {
          org_id = org.id;
          user_id = user;
          role = org_owner;
          invited_by = none;
          joined_at = some now;
        })
        db.memberships;
  notification_preferences =
      seed_all org.id user notification_event_types db.notification_preferences;
  subscriptions = new_subscription subscription_id now org.id free ∷ db.subscriptions;
}

-- The unique index on `slug` also holds the deleted organizations.
abbrev pub slug_taken : String → List OrgRow → Bool
slug_taken slug rows = any (λ o. str_eq o.slug slug) rows

unfoldable pub create_org : ℕ → ℕ → ℕ → ℕ → ℕ → ℕ → CreateOrgData → Action CreationDb OrgRow
create_org new_id workspace_id membership_id subscription_id now user d = do
  existing ← gets (λ db. find_by_slug d.slug db.organizations)
  throw_if (is_some existing) (conflict_error "SLUG_TAKEN")
  taken ← gets (λ db. slug_taken d.slug db.organizations)
  throw_if taken (app_error 409 "DUPLICATE_ENTRY")
  let org = new_org new_id now d
  modify (write_org workspace_id membership_id subscription_id now user org)
  modify (λ db. record db {
    outbox = (record { org_id = new_id; name = d.name; user_id = user }) ∷ db.outbox;
  })
  pure org

abbrev pub fits_quota : ℕ → ℕ → OrgRow → Bool
fits_quota org delta o = o.id == org && leb (o.storage_used_bytes + delta) o.storage_quota_bytes

-- `updateStorageUsed` with a `delta` that is not negative: the row, if it was updated.
unfoldable pub update_storage_used : ℕ → ℕ → List OrgRow → Option OrgRow × List OrgRow
update_storage_used org delta rows =
    let grow = λ (o : OrgRow). record o { storage_used_bytes = o.storage_used_bytes + delta } in
    (
      elim (select_first (fits_quota org delta) rows) [ none ↦ none | some o ↦ some (grow o) ],
      update_where (fits_quota org delta) grow rows,
    )
