-- ===== src/Organization/Row.antt =====
-- The rows of src/modules/organization/repositories/organization.repository.ts and the statements of
-- its `OrganizationRepository`.
use multi_tenant_collaborati.Common.{
  ℕ, ◌+◌, String, Bool, true, false, ◌&&◌, Option, none, some, List, ◌==◌, if◌then◌else◌, is_none,
  or_else, select_first, update_where,
}
use text.Mathlib.Text.{◌==◌ as str_eq}

pub data OrgStatus : Type 0 where
  active suspended offboarding deleted : OrgStatus

pub data PlanTier : Type 0 where
  free pro business enterprise : PlanTier

pub record OrgRow : Type 0 where
  pub id : ℕ
  pub name : String
  pub slug : String
  pub status : OrgStatus
  pub plan_tier : PlanTier
  pub plan_started_at : ℕ
  pub plan_expires_at : Option ℕ
  pub grace_period_ends_at : Option ℕ
  pub offboarding_started_at : Option ℕ
  pub deleted_at : Option ℕ
  pub max_members : ℕ
  pub storage_quota_bytes : ℕ
  pub storage_used_bytes : ℕ
  pub saml_enabled : Bool
  pub saml_metadata_url : Option String
  pub mfa_required : Bool
  pub account_lockout_attempts : ℕ
  pub retention_audit_days : ℕ
  pub retention_chat_days : Option ℕ
  pub timezone : String
  pub locale : String
  pub created_at : ℕ
  pub updated_at : ℕ
  pub version : ℕ

-- An absent field is `none`; a field that may be null too is `some none` where it is null.
pub record UpdateOrgData : Type 0 where
  pub name : Option String
  pub slug : Option String
  pub timezone : Option String
  pub locale : Option String
  pub mfa_required : Option Bool
  pub account_lockout_attempts : Option ℕ
  pub retention_chat_days : Option (Option ℕ)
  pub saml_enabled : Option Bool
  pub saml_metadata_url : Option (Option String)
  pub max_members : Option ℕ

abbrev pub org_status_eq : OrgStatus → OrgStatus → Bool
org_status_eq active active = true
org_status_eq suspended suspended = true
org_status_eq offboarding offboarding = true
org_status_eq deleted deleted = true
org_status_eq _ _ = false

-- `WHERE id = $1 AND deleted_at IS NULL`.
abbrev pub is_live_org : ℕ → OrgRow → Bool
is_live_org org_id o = o.id == org_id && is_none o.deleted_at

unfoldable pub find_by_id : ℕ → List OrgRow → Option OrgRow
find_by_id org_id rows = select_first (is_live_org org_id) rows

unfoldable pub find_by_slug : String → List OrgRow → Option OrgRow
find_by_slug slug rows = select_first (λ o. str_eq o.slug slug && is_none o.deleted_at) rows

-- `setClauses.length === 0`.
abbrev pub is_empty : UpdateOrgData → Bool
is_empty d =
    is_none d.name
    && (is_none d.slug
        && (is_none d.timezone
            && (is_none d.locale
                && (is_none d.mfa_required
                    && (is_none d.account_lockout_attempts
                        && (is_none d.retention_chat_days
                            && (is_none d.saml_enabled
                                && (is_none d.saml_metadata_url && is_none d.max_members))))))))

unfoldable pub apply_update : UpdateOrgData → OrgRow → OrgRow
apply_update d o = record o {
  name = or_else d.name o.name;
  slug = or_else d.slug o.slug;
  timezone = or_else d.timezone o.timezone;
  locale = or_else d.locale o.locale;
  mfa_required = or_else d.mfa_required o.mfa_required;
  account_lockout_attempts = or_else d.account_lockout_attempts o.account_lockout_attempts;
  retention_chat_days = or_else d.retention_chat_days o.retention_chat_days;
  saml_enabled = or_else d.saml_enabled o.saml_enabled;
  saml_metadata_url = or_else d.saml_metadata_url o.saml_metadata_url;
  max_members = or_else d.max_members o.max_members;
  version = o.version + 1;
}

abbrev pub at_version : ℕ → ℕ → OrgRow → Bool
at_version org_id expected o = o.id == org_id && (o.version == expected && is_none o.deleted_at)

-- The optimistic lock: the first updated row, and the table.
unfoldable pub update : ℕ → UpdateOrgData → ℕ → List OrgRow → Option OrgRow × List OrgRow
unfolding find_by_id apply_update
update org_id d expected rows = if is_empty d then (find_by_id org_id rows, rows) else (
  elim (select_first (at_version org_id expected) rows) [
    | none ↦ none
    | some o ↦ some (apply_update d o)
  ],
  update_where (at_version org_id expected) (apply_update d) rows,
)

-- `updateStatus`: the two optional columns are written where they are given.
unfoldable pub update_status : ℕ → OrgStatus → Option ℕ → Option ℕ → List OrgRow → List OrgRow
update_status org_id status started deleted_at' rows =
    update_where (is_live_org org_id)
      (λ o. record o {
        status = status;
        offboarding_started_at = elim started [ none ↦ o.offboarding_started_at | some t ↦ some t ];
        deleted_at = elim deleted_at' [ none ↦ o.deleted_at | some t ↦ some t ];
      })
      rows
