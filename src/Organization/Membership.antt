-- ===== src/Organization/Membership.antt =====
-- src/modules/organization/repositories/membership.repository.ts. A table is a list of rows, in
-- the order in which the database returns them; dates are milliseconds since the epoch.
use multi_tenant_collaborati.Common.{
  ℕ, Bool, true, false, ◌&&◌, Option, none, some, List, ◌∷◌, ◌==◌, if◌then◌else◌, is_none, or_else,
  select_first, select, oldest_first, update_where, any, length,
}

pub data Role : Type 0 where
  org_owner org_admin member guest : Role

pub data MembershipStatus : Type 0 where
  active suspended removed : MembershipStatus

pub record MembershipRow : Type 0 where
  pub id : ℕ
  pub org_id : ℕ
  pub user_id : ℕ
  pub role : Role
  pub status : MembershipStatus
  pub invited_by : Option ℕ
  pub joined_at : Option ℕ
  pub removed_at : Option ℕ
  pub deleted_at : Option ℕ
  pub created_at : ℕ
  pub updated_at : ℕ

pub record CreateMembershipData : Type 0 where
  pub org_id : ℕ
  pub user_id : ℕ
  pub role : Role
  pub invited_by : Option ℕ
  pub joined_at : Option ℕ

abbrev pub is_active : MembershipStatus → Bool
is_active active = true
is_active _ = false

-- `role === 'org_owner' || role === 'org_admin'`.
abbrev pub is_admin_role : Role → Bool
is_admin_role org_owner = true
is_admin_role org_admin = true
is_admin_role _ = false

-- `WHERE org_id = $1 AND user_id = $2 AND deleted_at IS NULL`.
abbrev pub is_member_row : ℕ → ℕ → MembershipRow → Bool
is_member_row org user m = m.org_id == org && (m.user_id == user && is_none m.deleted_at)

unfoldable pub find_membership : ℕ → ℕ → List MembershipRow → Option MembershipRow
find_membership org user rows = select_first (is_member_row org user) rows

-- The row that an insert writes; `new_id` and `now` are the database's defaults.
abbrev pub new_membership : ℕ → ℕ → CreateMembershipData → MembershipRow
new_membership new_id now d = record {
  id = new_id;
  org_id = d.org_id;
  user_id = d.user_id;
  role = d.role;
  status = active;
  invited_by = d.invited_by;
  joined_at = some (or_else d.joined_at now);
  removed_at = none;
  deleted_at = none;
  created_at = now;
  updated_at = now;
}

-- `ON CONFLICT (org_id, user_id) WHERE deleted_at IS NULL DO UPDATE SET …`.
abbrev pub reactivate : ℕ → CreateMembershipData → MembershipRow → MembershipRow
reactivate now d m = record m {
  role = d.role;
  status = active;
  deleted_at = none;
  joined_at = some (or_else d.joined_at now);
}

unfoldable pub create_membership :
    ℕ → ℕ → CreateMembershipData → List MembershipRow → List MembershipRow
create_membership new_id now d rows =
    if any (is_member_row d.org_id d.user_id) rows
    then update_where (is_member_row d.org_id d.user_id) (reactivate now d) rows
    else new_membership new_id now d ∷ rows

unfoldable pub update_role : ℕ → ℕ → Role → List MembershipRow → List MembershipRow
update_role org user role = update_where (is_member_row org user) (λ m. record m { role = role })

unfoldable pub remove_membership : ℕ → ℕ → ℕ → List MembershipRow → List MembershipRow
remove_membership now org user =
    update_where (is_member_row org user)
      (λ m. record m { status = removed; deleted_at = some now; removed_at = some now })

abbrev pub is_active_in : ℕ → MembershipRow → Bool
is_active_in org m = m.org_id == org && (is_active m.status && is_none m.deleted_at)

unfoldable pub count_active_members : ℕ → List MembershipRow → ℕ
count_active_members org rows = length (select (is_active_in org) rows)

unfoldable pub find_members_by_org : ℕ → List MembershipRow → List MembershipRow
find_members_by_org org rows =
    oldest_first (select (λ m. m.org_id == org && is_none m.deleted_at) rows)
