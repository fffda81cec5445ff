-- ===== src/Task/Assignees.antt =====
-- src/modules/task/task.repository.ts: the `task_assignees` table.
use multi_tenant_collaborati.Common.{
  ℕ, Bool, ◌&&◌, List, [], ◌∷◌, ◌==◌, if◌then◌else◌, any, select, delete_where,
}
use multi_tenant_collaborati.Task.Row.{TaskAssigneeRow}

abbrev is_assigned : ℕ → ℕ → TaskAssigneeRow → Bool
is_assigned task user a = a.task_id == task && a.user_id == user

-- `ON CONFLICT (task_id, user_id) DO NOTHING`.
unfoldable pub add_assignee : ℕ → ℕ → ℕ → ℕ → ℕ → List TaskAssigneeRow → List TaskAssigneeRow
add_assignee now task user org assigned_by rows =
    if any (is_assigned task user) rows
    then rows
    else record {
      task_id = task;
      user_id = user;
      org_id = org;
      assigned_at = now;
      assigned_by = assigned_by;
    }
      ∷ rows

unfoldable pub remove_assignee : ℕ → ℕ → List TaskAssigneeRow → List TaskAssigneeRow
remove_assignee task user rows = delete_where (is_assigned task user) rows

unfoldable pub get_assignees : ℕ → List TaskAssigneeRow → List TaskAssigneeRow
get_assignees task rows = select (λ a. a.task_id == task) rows

-- `for (const assigneeId of ids) await taskRepo.addAssignee(…)`.
unfoldable pub add_all : ℕ → ℕ → ℕ → ℕ → List ℕ → List TaskAssigneeRow → List TaskAssigneeRow
unfolding add_assignee
add_all now task org by [] rows = rows
add_all now task org by (u ∷ us) rows =
    add_all now task org by us (add_assignee now task u org by rows)

-- `for (const a of current) await taskRepo.removeAssignee(…)`.
unfoldable pub remove_all : ℕ → List TaskAssigneeRow → List TaskAssigneeRow → List TaskAssigneeRow
unfolding remove_assignee
remove_all task [] rows = rows
remove_all task (a ∷ as') rows = remove_all task as' (remove_assignee task a.user_id rows)
