-- ===== src/Task/Bulk.antt =====
-- src/modules/task/bulk.service.ts with the bulk statements of task.repository.ts.
use multi_tenant_collaborati.Common.{
  ℕ, Bool, false, not, ◌&&◌, ◌||◌, Option, none, some, List, ◌==◌, ltb, if◌then◌else◌, is_none,
  length, contains, select, update_where, Action, pure, gets, throw_if, modify, ◌>>=◌, ◌>>◌,
  forbidden_error, unprocessable_error,
}
use multi_tenant_collaborati.Organization.Membership.{MembershipRow, find_membership, is_admin_role}
use multi_tenant_collaborati.Task.Row.{TaskRow, TaskStatus, TaskDb}
use multi_tenant_collaborati.Task.Repository.{is_done}

abbrev pub bulk_max : ℕ
bulk_max = 100

-- `WHERE org_id = … AND id IN (…) AND deleted_at IS NULL`.
abbrev pub in_bulk : ℕ → List ℕ → TaskRow → Bool
in_bulk org ids t = t.org_id == org && (contains t.id ids && is_none t.deleted_at)

abbrev pub with_status : ℕ → TaskStatus → TaskRow → TaskRow
with_status now status' t = record t {
  status = status';
  completed_at = if is_done status' then some now else t.completed_at;
}

-- The number of rows, and the table.
unfoldable pub bulk_update_rows : ℕ → ℕ → List ℕ → TaskStatus → List TaskRow → ℕ × List TaskRow
bulk_update_rows now org ids status' rows = (
  length (select (in_bulk org ids) rows),
  update_where (in_bulk org ids) (with_status now status') rows,
)

unfoldable pub bulk_soft_delete : ℕ → ℕ → List ℕ → List TaskRow → ℕ × List TaskRow
bulk_soft_delete now org ids rows = (
  length (select (in_bulk org ids) rows),
  update_where (in_bulk org ids) (λ t. record t { deleted_at = some now }) rows,
)

abbrev pub is_admin_or_owner : Option MembershipRow → Bool
is_admin_or_owner none = false
is_admin_or_owner (some m) = is_admin_role m.role

abbrev pub bad_size : List ℕ → Bool
bad_size ids = length ids == 0 || ltb bulk_max (length ids)

unfoldable pub check_bulk : ℕ → ℕ → List ℕ → Action TaskDb (Unit {0})
check_bulk org user ids = do
  throw_if (bad_size ids) (unprocessable_error "BULK_SIZE_INVALID")
  role ← gets (λ db. is_admin_or_owner (find_membership org user db.memberships))
  throw_if (not role) (forbidden_error "INSUFFICIENT_ROLE")

unfoldable pub bulk_update_status : ℕ → ℕ → ℕ → List ℕ → TaskStatus → Action TaskDb ℕ
bulk_update_status now org user ids status' = do
  check_bulk org user ids
  updated ← gets (λ db. (bulk_update_rows now org ids status' db.tasks).0)
  modify (λ db. record db { tasks = (bulk_update_rows now org ids status' db.tasks).1 })
  pure updated

unfoldable pub bulk_delete : ℕ → ℕ → ℕ → List ℕ → Action TaskDb ℕ
bulk_delete now org user ids = do
  check_bulk org user ids
  deleted ← gets (λ db. (bulk_soft_delete now org ids db.tasks).0)
  modify (λ db. record db { tasks = (bulk_soft_delete now org ids db.tasks).1 })
  pure deleted
