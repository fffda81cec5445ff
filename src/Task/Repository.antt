-- ===== src/Task/Repository.antt =====
-- src/modules/task/task.repository.ts: the statements on the `tasks` table.
use multi_tenant_collaborati.Common.{
  ℕ, ◌+◌, Bool, true, false, ◌&&◌, Option, none, some, List, ◌∷◌, ◌==◌, if◌then◌else◌, is_none,
  or_else, ok, Action, or_throw, not_found_error, any, select_first, select, oldest_first,
  update_where,
}
use multi_tenant_collaborati.Task.Row.{
  TaskStatus, todo, in_progress, in_review, done, cancelled, TaskRow, CreateTaskData,
  UpdateTaskData, TaskDb,
}

-- `WHERE id = $1 AND deleted_at IS NULL`.
abbrev pub is_live_id : ℕ → TaskRow → Bool
is_live_id task_id t = t.id == task_id && is_none t.deleted_at

unfoldable pub find_by_id : ℕ → List TaskRow → Option TaskRow
find_by_id task_id rows = select_first (is_live_id task_id) rows

-- `if (!task || task.org_id !== orgId) throw new NotFoundError(…)`.
abbrev pub in_org : ℕ → Option TaskRow → Option TaskRow
in_org org none = none
in_org org (some t) = if t.org_id == org then some t else none

unfoldable pub find_in_org : ℕ → ℕ → Action TaskDb TaskRow
unfolding find_by_id
find_in_org org task_id db = or_throw (in_org org (find_by_id task_id db.tasks)) not_found_error db

-- A filter that is absent fits everything; a null board fits no board filter.
abbrev same_id : Option ℕ → ℕ → Bool
same_id none k = true
same_id (some j) k = j == k

abbrev same_board : Option ℕ → Option ℕ → Bool
same_board none b = true
same_board (some j) none = false
same_board (some j) (some b) = j == b

abbrev pub is_done : TaskStatus → Bool
is_done done = true
is_done _ = false

abbrev pub status_eq : TaskStatus → TaskStatus → Bool
status_eq todo todo = true
status_eq in_progress in_progress = true
status_eq in_review in_review = true
status_eq done done = true
status_eq cancelled cancelled = true
status_eq _ _ = false

abbrev status_fits : Option TaskStatus → TaskStatus → Bool
status_fits none s = true
status_fits (some t) s = status_eq t s

-- `findByOrg`: an absent filter is `none`.
unfoldable pub find_by_org :
    ℕ → Option ℕ → Option ℕ → Option TaskStatus → List TaskRow → List TaskRow
find_by_org org workspace board status rows = oldest_first (
    select
      (λ t.
        t.org_id == org
        && (is_none t.deleted_at
            && (same_id workspace t.workspace_id
                && (same_board board t.board_id && status_fits status t.status))))
      rows)

abbrev is_live_child : ℕ → ℕ → TaskRow → Bool
is_live_child org parent t = elim t.parent_task_id [
  | none ↦ false
  | some id ↦ id == parent && (t.org_id == org && is_none t.deleted_at)
]

-- `findChildren`.
unfoldable pub find_children : ℕ → ℕ → List TaskRow → List TaskRow
find_children org parent rows = oldest_first (select (is_live_child org parent) rows)

unfoldable pub new_task : ℕ → ℕ → CreateTaskData → TaskRow
new_task new_id now d = record {
  id = new_id;
  org_id = d.org_id;
  workspace_id = d.workspace_id;
  board_id = d.board_id;
  parent_task_id = d.parent_task_id;
  depth = d.depth;
  title = d.title;
  description = d.description;
  status = d.status;
  priority = d.priority;
  creator_id = d.creator_id;
  due_date = d.due_date;
  completed_at = none;
  is_recurring = d.is_recurring;
  recurrence_rule = d.recurrence_rule;
  recurrence_parent_id = d.recurrence_parent_id;
  template_id = d.template_id;
  labels = d.labels;
  attachments_count = 0;
  deleted_at = none;
  created_at = now;
  updated_at = now;
  version = 1;
}

unfoldable pub create : ℕ → ℕ → CreateTaskData → Action TaskDb TaskRow
unfolding new_task
create new_id now d db =
    let row = new_task new_id now d in (ok row, record db { tasks = row ∷ db.tasks })

-- `setClauses.length === 0`.
abbrev pub is_empty : UpdateTaskData → Bool
is_empty d =
    is_none d.title
    && (is_none d.description
        && (is_none d.status
            && (is_none d.priority
                && (is_none d.due_date
                    && (is_none d.board_id
                        && (is_none d.labels
                            && (is_none d.is_recurring && is_none d.recurrence_rule)))))))

abbrev sets_done : Option TaskStatus → Bool
sets_done none = false
sets_done (some s) = is_done s

-- The `SET` clauses; `completed_at` is written when the new status is `done`.
unfoldable pub apply_update : ℕ → UpdateTaskData → TaskRow → TaskRow
apply_update now d t = record t {
  title = or_else d.title t.title;
  description = or_else d.description t.description;
  status = or_else d.status t.status;
  completed_at = if sets_done d.status then some now else t.completed_at;
  priority = or_else d.priority t.priority;
  due_date = or_else d.due_date t.due_date;
  board_id = or_else d.board_id t.board_id;
  labels = or_else d.labels t.labels;
  is_recurring = or_else d.is_recurring t.is_recurring;
  recurrence_rule = or_else d.recurrence_rule t.recurrence_rule;
  version = t.version + 1;
}

-- `WHERE org_id = … AND id = … AND version = … AND deleted_at IS NULL`.
abbrev pub at_version : ℕ → ℕ → ℕ → TaskRow → Bool
at_version org task_id expected t =
    t.org_id == org && (t.id == task_id && (t.version == expected && is_none t.deleted_at))

-- `RETURNING *` gives the first updated row; with no clause the row is only read.
unfoldable pub update :
    ℕ → ℕ → ℕ → UpdateTaskData → ℕ → List TaskRow → Option TaskRow × List TaskRow
unfolding find_by_id apply_update
update now org task_id d expected rows = if is_empty d then (find_by_id task_id rows, rows) else (
  elim (select_first (at_version org task_id expected) rows) [
    | none ↦ none
    | some t ↦ some (apply_update now d t)
  ],
  update_where (at_version org task_id expected) (apply_update now d) rows,
)

abbrev pub soft_deleted : ℕ → TaskRow → TaskRow
soft_deleted now t = record t { deleted_at = some now }

-- `softDelete`: whether a row was deleted, and the table.
unfoldable pub soft_delete : ℕ → ℕ → ℕ → List TaskRow → Bool × List TaskRow
soft_delete now org task_id rows = (
  any (λ t. t.id == task_id && (t.org_id == org && is_none t.deleted_at)) rows,
  update_where (λ t. t.id == task_id && (t.org_id == org && is_none t.deleted_at))
      (soft_deleted now) rows,
)
