-- ===== src/Tests/TaskRequests.antt =====
-- Sequences of requests on the small workspace of Tests/Tasks, and a recurring task.
use multi_tenant_collaborati.Common.{
  ℕ, String, ◌≡◌, refl, true, Option, none, some, List, [], ◌∷◌, Memᴰ, ok,
}
use multi_tenant_collaborati.Organization.Membership.{find_membership}
use multi_tenant_collaborati.Task.Row.{TaskRow, TaskDb, done, RecurringJob}
use multi_tenant_collaborati.Task.Repository.{find_by_id}
use multi_tenant_collaborati.Task.Dependency.Acyclic.{
  AllAcyclic, add_request, remove_request, serve_dependencies, serve_dependencies-AllAcyclic,
}
use multi_tenant_collaborati.Task.Invariant.{IsWellFormed}
use multi_tenant_collaborati.Task.Bulk.{check_bulk, bulk_delete}
use multi_tenant_collaborati.Task.Recurring.{SpawnDb, run_recurring_task_job}
use multi_tenant_collaborati.Task.Requests.{
  TaskRequest, create_request, update_request, delete_request, bulk_request, serve_all,
  serve_all-IsWellFormed,
}
use multi_tenant_collaborati.Task.Orphans.{bulk_delete_orphans}
use multi_tenant_collaborati.Task.Spawned.{spawn_once}
use multi_tenant_collaborati.Tests.Organizations.{owner}
use multi_tenant_collaborati.Tests.Tasks.{
  task, world, world-IsWellFormed, world-AllAcyclic, twelve-IsFresh, subtask_input, start_work,
}

-- The recurrence rule, replaced: always the day after.
abbrev next_day : String → ℕ → Option (Option ℕ)
next_day rule now = some (some 172800000)

abbrev start : SpawnDb
start = record { db = world; events = [] }

abbrev requests : List TaskRequest
requests =
    create_request 12 5 1 7 subtask_input
    ∷ update_request 6 1 10 7 start_work
    ∷ bulk_request 7 1 2 (10 ∷ 11 ∷ []) done
    ∷ delete_request 8 1 10 7
    ∷ []

serve_all-IsWellFormed_example : IsWellFormed (serve_all next_day requests start).db.tasks
serve_all-IsWellFormed_example =
    serve_all-IsWellFormed next_day requests start (twelve-IsFresh, (tt, (tt, (tt, tt))))
      world-IsWellFormed

serve_dependencies-AllAcyclic_example : AllAcyclic (
    serve_dependencies
      (add_request 40 5 1 10 11 7 ∷ add_request 41 5 1 11 10 7 ∷ remove_request 1 40 ∷ [])
      world)
serve_dependencies-AllAcyclic_example =
    serve_dependencies-AllAcyclic
      (add_request 40 5 1 10 11 7 ∷ add_request 41 5 1 11 10 7 ∷ remove_request 1 40 ∷ []) world
      world-AllAcyclic

abbrev owned : TaskDb
owned = record world { memberships = owner ∷ [] }

owner_may : check_bulk 1 2 (10 ∷ []) owned ≡ (ok tt, owned)
unfolding check_bulk find_membership
owner_may = refl

bulk_delete_orphans_example : ¬ IsWellFormed (bulk_delete 5 1 2 (10 ∷ []) owned).1.tasks
bulk_delete_orphans_example =
    bulk_delete_orphans 5 1 2 (10 ∷ []) owned (task 10 none 0) (task 11 (some 10) 1)
      world-IsWellFormed owner_may (Memᴰ.tail (Memᴰ.head refl)) refl (Memᴰ.head refl) refl refl refl

abbrev weekly : TaskRow
weekly = record (task 20 none 0) { is_recurring = true; recurrence_rule = some "FREQ=WEEKLY" }

abbrev recurring : SpawnDb
recurring = record { db = record world { tasks = weekly ∷ [] }; events = [] }

abbrev weekly_job : RecurringJob
weekly_job = record { parent_task_id = 20; org_id = 1 }

weekly_found : find_by_id 20 recurring.db.tasks ≡ some weekly
unfolding find_by_id
weekly_found = refl

spawn_once_example :
    let after = run_recurring_task_job next_day 21 5 weekly_job recurring in
    run_recurring_task_job next_day 22 6 weekly_job after ≡ after
spawn_once_example =
    spawn_once next_day 21 22 5 6 172800000 172800000 weekly_job recurring weekly "FREQ=WEEKLY"
      weekly_found refl refl refl refl refl refl
