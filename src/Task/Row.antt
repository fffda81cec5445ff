-- ===== src/Task/Row.antt =====
-- The rows of src/modules/task/task.repository.ts and the part of the database that the task
-- services use. Ids are only compared, so they are numbers; a JSON document is only stored, so it
-- is its text.
use multi_tenant_collaborati.Common.{ℕ, String, Bool, Option, List}
use multi_tenant_collaborati.Organization.Membership.{MembershipRow}

pub data TaskStatus : Type 0 where
  todo in_progress in_review done cancelled : TaskStatus

pub data Priority : Type 0 where
  low medium high urgent : Priority

abbrev pub Json : Type 0
Json = String

pub record TaskRow : Type 0 where
  pub id : ℕ
  pub org_id : ℕ
  pub workspace_id : ℕ
  pub board_id : Option ℕ
  pub parent_task_id : Option ℕ
  pub depth : ℕ
  pub title : String
  pub description : Option Json
  pub status : TaskStatus
  pub priority : Priority
  pub creator_id : ℕ
  pub due_date : Option ℕ
  pub completed_at : Option ℕ
  pub is_recurring : Bool
  pub recurrence_rule : Option String
  pub recurrence_parent_id : Option ℕ
  pub template_id : Option ℕ
  pub labels : List String
  pub attachments_count : ℕ
  pub deleted_at : Option ℕ
  pub created_at : ℕ
  pub updated_at : ℕ
  pub version : ℕ

pub record TaskAssigneeRow : Type 0 where
  pub task_id : ℕ
  pub user_id : ℕ
  pub org_id : ℕ
  pub assigned_at : ℕ
  pub assigned_by : ℕ

pub record TaskDependencyRow : Type 0 where
  pub id : ℕ
  pub org_id : ℕ
  pub blocking_task_id : ℕ
  pub blocked_task_id : ℕ
  pub created_by : ℕ
  pub created_at : ℕ

-- An absent field is `none`; where the field may be null too, a null is `some none`.
pub record CreateTaskData : Type 0 where
  pub org_id : ℕ
  pub workspace_id : ℕ
  pub board_id : Option ℕ
  pub parent_task_id : Option ℕ
  pub depth : ℕ
  pub title : String
  pub description : Option Json
  pub status : TaskStatus
  pub priority : Priority
  pub creator_id : ℕ
  pub due_date : Option ℕ
  pub is_recurring : Bool
  pub recurrence_rule : Option String
  pub recurrence_parent_id : Option ℕ
  pub template_id : Option ℕ
  pub labels : List String

pub record UpdateTaskData : Type 0 where
  pub title : Option String
  pub description : Option (Option Json)
  pub status : Option TaskStatus
  pub priority : Option Priority
  pub due_date : Option (Option ℕ)
  pub board_id : Option (Option ℕ)
  pub labels : Option (List String)
  pub is_recurring : Option Bool
  pub recurrence_rule : Option (Option String)

-- The JSON payload of the outbox event, by its event type.
pub data TaskEvent : Type 0 where
  task_created : (task org workspace : ℕ) (title : String) → TaskEvent
  task_updated : (task org : ℕ) (changes : UpdateTaskData) → TaskEvent
  task_deleted : (task org : ℕ) → TaskEvent

pub record OutboxRow : Type 0 where
  pub org_id : ℕ
  pub entity_id : ℕ
  pub actor_user_id : ℕ
  pub payload : TaskEvent
  pub occurred_at : ℕ

-- A row of the activity log: `changes` is `{}` for a creation.
pub record ActivityRow : Type 0 where
  pub org_id : ℕ
  pub actor_id : ℕ
  pub action : String
  pub task_id : ℕ
  pub changes : Option UpdateTaskData

pub record AuditRow : Type 0 where
  pub org_id : ℕ
  pub actor_id : ℕ
  pub event_type : String
  pub entity_id : ℕ

-- `enqueue('recurring-tasks', 'spawn-next-occurrence', …)`.
pub record RecurringJob : Type 0 where
  pub parent_task_id : ℕ
  pub org_id : ℕ

pub record TaskDb : Type 0 where
  pub tasks : List TaskRow
  pub assignees : List TaskAssigneeRow
  pub dependencies : List TaskDependencyRow
  pub memberships : List MembershipRow
  pub outbox : List OutboxRow
  pub activity : List ActivityRow
  pub audit : List AuditRow
  pub recurring_jobs : List RecurringJob
