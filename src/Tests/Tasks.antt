-- ===== src/Tests/Tasks.antt =====
-- A small workspace: a task with a subtask, a second task, and requests on them.
use multi_tenant_collaborati.Common.{
  ℕ, ◌≤◌, ◌≡◌, ◌≢◌, ◌⊎◌, inl, inr, ◌↔◌, refl, true, false, Option, none, some, List, [], ◌∷◌, Memᴰ,
  arith, ok,
}
use mathlib.Core.List.Memᴰ
use multi_tenant_collaborati.Organization.Membership.{find_membership}
use multi_tenant_collaborati.Task.Row.{TaskRow, TaskDb, todo, in_progress, medium, UpdateTaskData}
use multi_tenant_collaborati.Task.Repository.{find_by_id, find_in_org, apply_update, update}
use multi_tenant_collaborati.Task.Service.{
  CreateTaskInput, UpdateTaskInput, update_task, update_row, follow_up, delete_task, may_not_change,
  is_org_admin, allowed_transition, replace_assignees, bad_transition, enqueue_recurring,
}
use multi_tenant_collaborati.Task.Dependency.{
  would_create_cycle, add_dependency, check_dependency, insert_dependency, new_dependency,
}
use multi_tenant_collaborati.Task.Dependency.Graph.{Reach, here, step, Edge-nil, IsAcyclic}
use multi_tenant_collaborati.Task.Dependency.Search.{would_create_cycle_decides}
use multi_tenant_collaborati.Task.Dependency.Acyclic.{AllAcyclic}
use multi_tenant_collaborati.Task.Dependency.Allowed.{
  IsAllowed, add_dependency_iff, concurrent_dependencies_cycle,
}
use multi_tenant_collaborati.Task.Invariant.{IsWellFormed, IsParent}
use multi_tenant_collaborati.Task.Invariant.Create.{IsFresh}
use multi_tenant_collaborati.Task.Invariant.Cascade.{IsCascaded}
use multi_tenant_collaborati.Task.Invariant.Delete.{delete_task_cascades}
use multi_tenant_collaborati.Task.Workflow.{update_task_once, update_task_authorised}

abbrev pub task : ℕ → Option ℕ → ℕ → TaskRow
task number under level = record {
  id = number;
  org_id = 1;
  workspace_id = 3;
  board_id = none;
  parent_task_id = under;
  depth = level;
  title = "write";
  description = none;
  status = todo;
  priority = medium;
  creator_id = 7;
  due_date = none;
  completed_at = none;
  is_recurring = false;
  recurrence_rule = none;
  recurrence_parent_id = none;
  template_id = none;
  labels = [];
  attachments_count = 0;
  deleted_at = none;
  created_at = 1;
  updated_at = 1;
  version = 1;
}

abbrev pub world : TaskDb
world = record {
  tasks = task 11 (some 10) 1 ∷ task 10 none 0 ∷ [];
  assignees = [];
  dependencies = [];
  memberships = [];
  outbox = [];
  activity = [];
  audit = [];
  recurring_jobs = [];
}

in_two : (t a b : TaskRow) → Memᴰ t (a ∷ b ∷ []) → (t ≡ a) ⊎ (t ≡ b)
in_two t a b m = elim (Memᴰ.cases_cons m) [ inl e ↦ inl e | inr l ↦ inr (Memᴰ.eq_of_singleton l) ]

abbrev pub world_tasks : List TaskRow
world_tasks = world.tasks

world-IsParent :
    (t : TaskRow) (p : ℕ)
    → Memᴰ t world_tasks
    → t.parent_task_id ≡ some p
    → IsParent world_tasks p t
world-IsParent t p m e = elim (in_two t _ _ m) [
  | inl is_child ↦ record {
    row = task 10 none 0;
    listed = Memᴰ.tail (Memᴰ.head refl);
    live = refl;
    id = ground arith;
    org = ground arith;
    level = ground arith;
  }
  | inr is_root ↦ absurd (ground arith)
]

world_unique : (t u : TaskRow) → Memᴰ t world_tasks → Memᴰ u world_tasks → t.id ≡ u.id → t ≡ u
world_unique t u m k e = elim (in_two t _ _ m) [
  | inl a ↦ elim (in_two u _ _ k) [ inl b ↦ rw (a, b) refl | inr b ↦ absurd (ground arith) ]
  | inr a ↦ elim (in_two u _ _ k) [ inl b ↦ absurd (ground arith) | inr b ↦ rw (a, b) refl ]
]

world_bounded : (t : TaskRow) → Memᴰ t world_tasks → t.depth ≤ 2
world_bounded t m = elim (in_two t _ _ m) [ inl a ↦ ground arith | inr b ↦ ground arith ]

pub world-IsWellFormed : IsWellFormed world_tasks
world-IsWellFormed = record {
  unique = world_unique;
  bounded = λ t m live. world_bounded t m;
  nested = λ t p m live e. world-IsParent t p m e;
}

abbrev pub subtask_input : CreateTaskInput
subtask_input = record {
  workspace_id = 3;
  board_id = none;
  parent_task_id = some 11;
  title = "review";
  description = none;
  status = none;
  priority = none;
  due_date = none;
  is_recurring = none;
  recurrence_rule = none;
  template_id = none;
  labels = none;
  assignee_ids = [];
}

pub twelve-IsFresh : IsFresh 12 world_tasks
twelve-IsFresh t m e = elim (in_two t _ _ m) [ inl a ↦ ground arith | inr b ↦ ground arith ]

abbrev no_changes : UpdateTaskData
no_changes = record {
  title = none;
  description = none;
  status = none;
  priority = none;
  due_date = none;
  board_id = none;
  labels = none;
  is_recurring = none;
  recurrence_rule = none;
}

abbrev pub start_work : UpdateTaskInput
start_work = record {
  changes = record no_changes { status = some in_progress };
  assignee_ids = none;
  version = 1;
}

abbrev assign_nobody : UpdateTaskInput
assign_nobody = record { changes = no_changes; assignee_ids = some []; version = 1 }

abbrev started : TaskRow
started = apply_update 5 start_work.changes (task 10 none 0)

start_succeeds : (update_task 5 1 10 7 start_work world).0 ≡ ok started
unfolding update_task update_row update follow_up find_in_org find_by_id may_not_change
    bad_transition allowed_transition replace_assignees find_membership apply_update
    enqueue_recurring
start_succeeds = refl

update_task_once_example :
    (update_task 6 1 10 7 start_work (update_task 5 1 10 7 start_work world).1).0 ≢ ok started
update_task_once_example =
    update_task_once 5 6 1 10 7 7 start_work start_work world started started refl refl refl
      start_succeeds

update_task_authorised_example :
    (existing : TaskRow) × (find_by_id 10 world_tasks ≡ some existing)
    × (existing.org_id ≡ 1)
    × ((existing.creator_id ≡ 7) ⊎ (is_org_admin (find_membership 1 7 []) ≡ true))
    × ((in_progress ≡ existing.status) ⊎ (allowed_transition existing.status in_progress ≡ true))
unfolding apply_update
update_task_authorised_example =
    update_task_authorised 5 1 10 7 start_work world started world-IsWellFormed start_succeeds

root_found : find_in_org 1 10 world ≡ (ok (task 10 none 0), world)
unfolding find_in_org find_by_id
root_found = refl

root_owned : may_not_change 1 7 (task 10 none 0) [] ≡ false
unfolding may_not_change
root_owned = refl

delete_task_cascades_example :
    ((delete_task 5 1 10 7 world).0 ≡ ok tt)
    × IsCascaded 5 1 10 world_tasks (delete_task 5 1 10 7 world).1.tasks
delete_task_cascades_example =
    delete_task_cascades 5 1 10 7 (task 10 none 0) world world-IsWellFormed root_found root_owned

would_create_cycle_decides_example :
    (would_create_cycle 1 11 10 (new_dependency 40 5 1 10 11 7 ∷ []) ≡ some true)
      × Reach 1 (new_dependency 40 5 1 10 11 7 ∷ []) 10 11
    ⊎ (would_create_cycle 1 11 10 (new_dependency 40 5 1 10 11 7 ∷ []) ≡ some false)
      × (¬ Reach 1 (new_dependency 40 5 1 10 11 7 ∷ []) 10 11)
would_create_cycle_decides_example =
    would_create_cycle_decides 1 11 10 (new_dependency 40 5 1 10 11 7 ∷ [])

pub world-AllAcyclic : AllAcyclic world
world-AllAcyclic org u v e r = Edge-nil org u v e

abbrev linked : TaskDb
linked = record world { dependencies = new_dependency 40 5 1 10 11 7 ∷ [] }

no-Reach : {u v : ℕ} → u ≢ v → ¬ Reach 1 [] u v
no-Reach differ here = differ refl
no-Reach differ (step r e) = Edge-nil 1 _ _ e

ten_to_eleven : IsAllowed 1 10 11 world
unfolding find_by_id
ten_to_eleven = record {
  differ = ground arith;
  first = task 10 none 0;
  second = task 11 (some 10) 1;
  first_found = refl;
  second_found = refl;
  first_org = refl;
  second_org = refl;
  workspace = refl;
  free = no-Reach (ground arith);
}

eleven_to_ten : IsAllowed 1 11 10 world
unfolding find_by_id
eleven_to_ten = record {
  differ = ground arith;
  first = task 11 (some 10) 1;
  second = task 10 none 0;
  first_found = refl;
  second_found = refl;
  first_org = refl;
  second_org = refl;
  workspace = refl;
  free = no-Reach (ground arith);
}

linked_by_request :
    add_dependency 40 5 1 10 11 7 world ≡ (ok (new_dependency 40 5 1 10 11 7), linked)
linked_by_request = (add_dependency_iff 40 5 1 10 11 7 world).0.1 ten_to_eleven

add_dependency_iff_example :
    ((add_dependency 40 5 1 10 11 7 world ≡ (ok (new_dependency 40 5 1 10 11 7), linked))
      ↔ IsAllowed 1 10 11 world)
    × ((¬ IsAllowed 1 10 11 world) → (add_dependency 40 5 1 10 11 7 world).1 ≡ world)
add_dependency_iff_example = add_dependency_iff 40 5 1 10 11 7 world

concurrent_dependencies_cycle_example :
    let first = insert_dependency (new_dependency 40 5 1 10 11 7) world in
    let second = insert_dependency (new_dependency 41 5 1 11 10 8) first.1 in
    (check_dependency 1 10 11 world ≡ (ok tt, world))
    × (check_dependency 1 11 10 world ≡ (ok tt, world))
    × (¬ IsAcyclic 1 second.1.dependencies)
concurrent_dependencies_cycle_example =
    concurrent_dependencies_cycle 40 41 5 5 1 10 11 7 8 world ten_to_eleven eleven_to_ten
