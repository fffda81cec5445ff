-- ===== src/Task/Recurring.antt =====
-- src/modules/task/workers/recurring-task.worker.ts. The next date of a recurrence rule is library
-- code: a parameter, `none` where the rule does not parse, `some none` where it has no later date.
use multi_tenant_collaborati.Common.{
  ℕ, ◌/◌, String, Bool, false, ◌&&◌, Option, none, some, List, [], ◌∷◌, ◌==◌, if◌then◌else◌,
  is_none, any, map,
}
use multi_tenant_collaborati.Task.Row.{
  TaskRow, todo, TaskAssigneeRow, CreateTaskData, TaskDb, RecurringJob,
}
use multi_tenant_collaborati.Task.Repository.{find_by_id, new_task}
use multi_tenant_collaborati.Task.Assignees.{add_all, get_assignees}

-- The outbox event `task.created` of a spawned task, which has no actor.
pub record SpawnEvent : Type 0 where
  pub task_id : ℕ
  pub parent_task_id : ℕ
  pub org_id : ℕ

pub record SpawnDb : Type 0 where
  pub db : TaskDb
  pub events : List SpawnEvent

abbrev pub ms_per_day : ℕ
ms_per_day = 86400000

-- `due_date::date = $2::date`.
abbrev pub same_day : Option ℕ → ℕ → Bool
same_day none next = false
same_day (some due) next = due / ms_per_day == next / ms_per_day

abbrev pub is_id : Option ℕ → ℕ → Bool
is_id none id = false
is_id (some k) id = k == id

unfoldable pub has_child : ℕ → ℕ → List TaskRow → Bool
has_child parent next rows =
    any
      (λ t.
        is_id t.recurrence_parent_id parent && (same_day t.due_date next && is_none t.deleted_at))
      rows

abbrev pub child_data : ℕ → ℕ → TaskRow → CreateTaskData
child_data org next parent = record {
  org_id = org;
  workspace_id = parent.workspace_id;
  board_id = none;
  parent_task_id = none;
  depth = 0;
  title = parent.title;
  description = parent.description;
  status = todo;
  priority = parent.priority;
  creator_id = parent.creator_id;
  due_date = some next;
  is_recurring = false;
  recurrence_rule = none;
  recurrence_parent_id = some parent.id;
  template_id = none;
  labels = [];
}

abbrev pub user_ids : List TaskAssigneeRow → List ℕ
user_ids rows = map (λ (a : TaskAssigneeRow). a.user_id) rows

-- The inserts of the child, of its assignees and of its event.
unfoldable pub spawn : ℕ → ℕ → ℕ → ℕ → TaskRow → SpawnDb → SpawnDb
spawn new_id now org next parent s = record {
  db = record s.db {
    tasks = new_task new_id now (child_data org next parent) ∷ s.db.tasks;
    assignees =
        add_all now new_id org parent.creator_id (user_ids (get_assignees parent.id s.db.assignees))
          s.db.assignees;
  };
  events = (record { task_id = new_id; parent_task_id = parent.id; org_id = org }) ∷ s.events;
}

abbrev pub spawn_at : ℕ → ℕ → ℕ → TaskRow → Option (Option ℕ) → SpawnDb → SpawnDb
spawn_at new_id now org parent none s = s
spawn_at new_id now org parent (some none) s = s
spawn_at new_id now org parent (some (some next)) s =
    if has_child parent.id next s.db.tasks then s else spawn new_id now org next parent s

module _ (next_after : String → ℕ → Option (Option ℕ)) where
  abbrev pub next_of : ℕ → Option String → Option (Option ℕ)
  next_of now none = none
  next_of now (some rule) = next_after rule now

  abbrev pub spawn_from : ℕ → ℕ → ℕ → Option TaskRow → SpawnDb → SpawnDb
  spawn_from new_id now org none s = s
  spawn_from new_id now org (some parent) s =
      if parent.is_recurring
      then spawn_at new_id now org parent (next_of now parent.recurrence_rule) s
      else s

  unfoldable pub run_recurring_task_job : ℕ → ℕ → RecurringJob → SpawnDb → SpawnDb
  run_recurring_task_job new_id now job s =
      spawn_from new_id now job.org_id (find_by_id job.parent_task_id s.db.tasks) s
