-- ===== src/Task/Service.antt =====
-- src/modules/task/task.service.ts. `now` is the clock of the request, and `new_id` the id that the
-- database generates. Lists of ids and fields that the request leaves out are `none`.
use multi_tenant_collaborati.Common.{
  ℕ, ◌+◌, String, Bool, true, false, not, ◌&&◌, Option, none, some, List, [], ◌∷◌, ◌==◌,
  if◌then◌else◌, is_some, or_else, ltb, ok, err, Action, pure, throw, gets, throw_if, modify, ◌>>=◌,
  ◌>>◌, unprocessable_error, forbidden_error, conflict_error,
}
use multi_tenant_collaborati.Organization.Membership.{MembershipRow, find_membership, is_admin_role}
use multi_tenant_collaborati.Task.Row.{
  TaskStatus, todo, in_progress, in_review, done, cancelled, Priority, medium, Json, TaskRow,
  CreateTaskData, UpdateTaskData, TaskEvent, task_created, task_updated, task_deleted, TaskDb,
}
use multi_tenant_collaborati.Task.Repository.{
  find_in_org, find_by_org, create, update, status_eq, is_done,
}
use multi_tenant_collaborati.Task.Assignees.{get_assignees, add_all, remove_all}
use multi_tenant_collaborati.Task.Subtasks.{cascade_soft_delete}

abbrev pub max_task_depth : ℕ
max_task_depth = 2

-- `ALLOWED_TRANSITIONS[from].includes(to)`.
unfoldable pub allowed_transition : TaskStatus → TaskStatus → Bool
allowed_transition todo in_progress = true
allowed_transition todo cancelled = true
allowed_transition todo _ = false
allowed_transition in_progress in_progress = false
allowed_transition in_progress _ = true
allowed_transition in_review in_progress = true
allowed_transition in_review done = true
allowed_transition in_review cancelled = true
allowed_transition in_review _ = false
allowed_transition done todo = true
allowed_transition done _ = false
allowed_transition cancelled todo = true
allowed_transition cancelled _ = false

pub record CreateTaskInput : Type 0 where
  pub workspace_id : ℕ
  pub board_id : Option ℕ
  pub parent_task_id : Option ℕ
  pub title : String
  pub description : Option Json
  pub status : Option TaskStatus
  pub priority : Option Priority
  pub due_date : Option ℕ
  pub is_recurring : Option Bool
  pub recurrence_rule : Option String
  pub template_id : Option ℕ
  pub labels : Option (List String)
  pub assignee_ids : List ℕ

pub record UpdateTaskInput : Type 0 where
  pub changes : UpdateTaskData
  pub assignee_ids : Option (List ℕ)
  pub version : ℕ

unfoldable pub write_outbox_event : ℕ → ℕ → ℕ → ℕ → TaskEvent → Action TaskDb (Unit {0})
write_outbox_event now org entity actor event = modify λ db. record db {
  outbox =
      record {
        org_id = org;
        entity_id = entity;
        actor_user_id = actor;
        payload = event;
        occurred_at = now;
      }
      ∷ db.outbox;
}

unfoldable pub write_activity_log :
    ℕ → ℕ → ℕ → String → Option UpdateTaskData → Action TaskDb (Unit {0})
write_activity_log org task actor action changes = modify λ db. record db {
  activity =
      record { org_id = org; actor_id = actor; action = action; task_id = task; changes = changes }
      ∷ db.activity;
}

-- The depth of a new task, or the refusal of its parent.
unfoldable pub depth_under : ℕ → Option ℕ → Action TaskDb ℕ
unfolding find_in_org
depth_under org none = pure 0
depth_under org (some parent_id) = do
  parent ← find_in_org org parent_id
  throw_if (ltb max_task_depth (parent.depth + 1)) (unprocessable_error "TASK_DEPTH_EXCEEDED")
  pure (parent.depth + 1)

-- Whether every assignee has a membership row in the organization.
unfoldable pub all_members : ℕ → List ℕ → List MembershipRow → Bool
unfolding find_membership
all_members org [] members = true
all_members org (u ∷ us) members =
    is_some (find_membership org u members) && all_members org us members

unfoldable pub create_data : ℕ → ℕ → ℕ → CreateTaskInput → CreateTaskData
create_data org user depth input = record {
  org_id = org;
  workspace_id = input.workspace_id;
  board_id = input.board_id;
  parent_task_id = input.parent_task_id;
  depth = depth;
  title = input.title;
  description = input.description;
  status = or_else input.status todo;
  priority = or_else input.priority medium;
  creator_id = user;
  due_date = input.due_date;
  is_recurring = or_else input.is_recurring false;
  recurrence_rule = input.recurrence_rule;
  recurrence_parent_id = none;
  template_id = input.template_id;
  labels = or_else input.labels [];
}

unfoldable pub create_task : ℕ → ℕ → ℕ → ℕ → CreateTaskInput → Action TaskDb TaskRow
unfolding depth_under create create_data write_outbox_event write_activity_log
create_task new_id now org user input = do
  depth ← depth_under org input.parent_task_id
  members ← gets (λ db. db.memberships)
  throw_if (not (all_members org input.assignee_ids members))
      (unprocessable_error "ASSIGNEE_NOT_IN_ORG")
  task ← create new_id now (create_data org user depth input)
  modify
      (λ db. record db { assignees = add_all now task.id org user input.assignee_ids db.assignees })
  write_outbox_event now org task.id user (task_created task.id org input.workspace_id input.title)
  write_activity_log org task.id user "task.created" none
  pure task

abbrev pub is_org_admin : Option MembershipRow → Bool
is_org_admin none = false
is_org_admin (some m) = is_admin_role m.role

-- `existing.creator_id !== userId && !isAdmin`.
unfoldable pub may_not_change : ℕ → ℕ → TaskRow → List MembershipRow → Bool
unfolding find_membership
may_not_change org user t members =
    not (t.creator_id == user) && not (is_org_admin (find_membership org user members))

-- `input.status && input.status !== existing.status && !allowed.includes(input.status)`.
unfoldable pub bad_transition : Option TaskStatus → TaskStatus → Bool
unfolding allowed_transition
bad_transition none from = false
bad_transition (some to) from = not (status_eq to from) && not (allowed_transition from to)

-- `taskRepo.update` and what its `null` means.
unfoldable pub update_row : ℕ → ℕ → ℕ → UpdateTaskInput → Action TaskDb TaskRow
unfolding update find_in_org
update_row now org task_id input db =
    let (found, rows) = update now org task_id input.changes input.version db.tasks in
    let db' = record db { tasks = rows } in
    elim found [
      | some t ↦ (ok t, db')
      | none ↦ (find_in_org org task_id >> throw (conflict_error "VERSION_CONFLICT")) db'
    ]

unfoldable pub replace_assignees : ℕ → ℕ → ℕ → ℕ → Option (List ℕ) → Action TaskDb (Unit {0})
unfolding get_assignees
replace_assignees now org task_id user none = pure tt
replace_assignees now org task_id user (some ids) = modify λ db. record db {
  assignees =
      add_all now task_id org user ids
        (remove_all task_id (get_assignees task_id db.assignees) db.assignees);
}

-- `input.status === 'done' && updated.is_recurring`.
abbrev pub spawns : Option TaskStatus → TaskRow → Bool
spawns none t = false
spawns (some s) t = is_done s && t.is_recurring

unfoldable pub enqueue_recurring : Bool → ℕ → ℕ → Action TaskDb (Unit {0})
enqueue_recurring spawn org task_id = modify λ db. record db {
  recurring_jobs =
      if spawn
      then record { parent_task_id = task_id; org_id = org } ∷ db.recurring_jobs
      else db.recurring_jobs;
}

-- What follows the write of the row: the assignees, the event, the log and the recurrence.
unfoldable pub follow_up : ℕ → ℕ → ℕ → ℕ → UpdateTaskInput → TaskRow → Action TaskDb TaskRow
unfolding replace_assignees write_outbox_event write_activity_log enqueue_recurring
follow_up now org task_id user input updated = do
  replace_assignees now org task_id user input.assignee_ids
  write_outbox_event now org task_id user (task_updated task_id org input.changes)
  write_activity_log org task_id user "task.updated" (some input.changes)
  enqueue_recurring (spawns input.changes.status updated) org task_id
  pure updated

unfoldable pub update_task : ℕ → ℕ → ℕ → ℕ → UpdateTaskInput → Action TaskDb TaskRow
update_task now org task_id user input = do
  existing ← find_in_org org task_id
  members ← gets (λ db. db.memberships)
  throw_if (may_not_change org user existing members) (forbidden_error "INSUFFICIENT_ROLE")
  throw_if (bad_transition input.changes.status existing.status)
      (unprocessable_error "INVALID_STATUS_TRANSITION")
  updated ← update_row now org task_id input
  follow_up now org task_id user input updated

unfoldable pub cascade : ℕ → ℕ → ℕ → Action TaskDb (Unit {0})
unfolding cascade_soft_delete
cascade now org task_id db = elim (cascade_soft_delete now org task_id db.tasks) [
  | some rows ↦ (ok tt, record db { tasks = rows })
  | none ↦ (err (unprocessable_error "QUERY_DOES_NOT_END"), db)
]

unfoldable pub persist_audit_log : ℕ → ℕ → String → ℕ → Action TaskDb (Unit {0})
persist_audit_log org actor event_type entity = modify λ db. record db {
  audit =
      record { org_id = org; actor_id = actor; event_type = event_type; entity_id = entity }
      ∷ db.audit;
}

unfoldable pub delete_task : ℕ → ℕ → ℕ → ℕ → Action TaskDb (Unit {0})
unfolding find_in_org may_not_change cascade write_outbox_event persist_audit_log
delete_task now org task_id user = do
  existing ← find_in_org org task_id
  members ← gets (λ db. db.memberships)
  throw_if (may_not_change org user existing members) (forbidden_error "INSUFFICIENT_ROLE")
  cascade now org task_id
  write_outbox_event now org task_id user (task_deleted task_id org)
  persist_audit_log org user "task.deleted" task_id

unfoldable pub get_task : ℕ → ℕ → Action TaskDb TaskRow
unfolding find_in_org
get_task org task_id = find_in_org org task_id

unfoldable pub list_tasks :
    ℕ → Option ℕ → Option ℕ → Option TaskStatus → Action TaskDb (List TaskRow)
unfolding find_by_org
list_tasks org workspace board status = gets (λ db. find_by_org org workspace board status db.tasks)
