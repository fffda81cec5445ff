-- ===== src/Task/Requests.antt =====
-- Any sequence of requests to src/modules/task that write the `tasks` table, but bulk deletions.
use multi_tenant_collaborati.Common.{
  ℕ, ◌≤◌, ◌≡◌, refl, sym, ◌⊎◌, inl, inr, String, Bool, true, false, Option, none, some, List, [],
  ◌∷◌, Memᴰ, Memᴰ-cons, arith, if◌then◌else◌, Bool-cases, update_where,
}
use multi_tenant_collaborati.Task.Row.{TaskRow, TaskStatus, TaskDb, RecurringJob}
use multi_tenant_collaborati.Task.Repository.{find_by_id, new_task}
use multi_tenant_collaborati.Task.Service.{
  CreateTaskInput, UpdateTaskInput, create_task, update_task, delete_task,
}
use multi_tenant_collaborati.Task.Bulk.{
  in_bulk, with_status, bulk_update_rows, check_bulk, bulk_update_status,
}
use multi_tenant_collaborati.Task.Recurring.{
  SpawnDb, has_child, child_data, spawn, spawn_at, next_of, spawn_from, run_recurring_task_job,
}
use multi_tenant_collaborati.Task.Invariant.{IsWellFormed, KeepsPlace, update_where-IsWellFormed}
use multi_tenant_collaborati.Task.Invariant.Create.{
  IsFresh, create_task-IsWellFormed, update_task-IsWellFormed,
}
use multi_tenant_collaborati.Task.Invariant.Delete.{delete_task-IsWellFormed}

-- A new task that hangs under no other.
top-IsWellFormed :
    (row : TaskRow) (rows : List TaskRow)
    → IsFresh row.id rows
    → row.depth ≤ 2
    → row.parent_task_id ≡ none
    → IsWellFormed rows
    → IsWellFormed (row ∷ rows)
top-IsWellFormed row rows fresh low top h = record {
  unique = λ t u m k e. elim ((Memᴰ-cons t row rows).0 m) [
    | inl et ↦ elim ((Memᴰ-cons u row rows).0 k) [
      | inl eu ↦ rw (et, eu) refl
      | inr ku ↦ absurd (fresh u ku (rw (← et) (sym e)))
    ]
    | inr mt ↦ elim ((Memᴰ-cons u row rows).0 k) [
      | inl eu ↦ absurd (fresh t mt (rw (← eu) e))
      | inr ku ↦ h.unique t u mt ku e
    ]
  ];
  bounded = λ t m live. elim ((Memᴰ-cons t row rows).0 m) [
    | inl et ↦ rw et low
    | inr mt ↦ h.bounded t mt live
  ];
  nested = λ t p m live e. elim ((Memᴰ-cons t row rows).0 m) [
    | inl et ↦ let under : row.parent_task_id ≡ some p = rw (← et) e in absurd (ground arith)
    | inr mt ↦
        let above = h.nested t p mt live e in
        record {
          row = above.row;
          listed = Memᴰ.tail above.listed;
          live = above.live;
          id = above.id;
          org = above.org;
          level = above.level;
        }
  ];
}

with_status-KeepsPlace : (now : ℕ) (status' : TaskStatus) → KeepsPlace (with_status now status')
with_status-KeepsPlace now status' = record {
  id = λ t. refl;
  org = λ t. refl;
  parent = λ t. refl;
  depth = λ t. refl;
  live = λ t. refl;
}

bulk_update_status-tasks :
    (now org user : ℕ) (ids : List ℕ) (status' : TaskStatus) (db : TaskDb)
    → ((bulk_update_status now org user ids status' db).1.tasks ≡ db.tasks)
      ⊎ ((bulk_update_status now org user ids status' db).1.tasks
          ≡ update_where (in_bulk org ids) (with_status now status') db.tasks)
unfolding bulk_update_status check_bulk bulk_update_rows
bulk_update_status-tasks now org user ids status' db = ground arith

bulk_update_status-IsWellFormed :
    (now org user : ℕ) (ids : List ℕ) (status' : TaskStatus) (db : TaskDb)
    → IsWellFormed db.tasks
    → IsWellFormed (bulk_update_status now org user ids status' db).1.tasks
bulk_update_status-IsWellFormed now org user ids status' db h =
    elim (bulk_update_status-tasks now org user ids status' db) [
      | inl same ↦ rw same h
      | inr changed ↦ rw changed (
          update_where-IsWellFormed (in_bulk org ids) (with_status now status')
            (with_status-KeepsPlace now status') db.tasks h)
    ]

spawn-IsWellFormed :
    (new_id now org next : ℕ) (parent : TaskRow) (s : SpawnDb)
    → IsFresh new_id s.db.tasks
    → IsWellFormed s.db.tasks
    → IsWellFormed (spawn new_id now org next parent s).db.tasks
unfolding spawn new_task
spawn-IsWellFormed new_id now org next parent s fresh h =
    top-IsWellFormed (new_task new_id now (child_data org next parent)) s.db.tasks fresh
      (omega arith) refl h

spawn_at-IsWellFormed :
    (new_id now org : ℕ) (parent : TaskRow) (next : Option (Option ℕ)) (s : SpawnDb)
    → IsFresh new_id s.db.tasks
    → IsWellFormed s.db.tasks
    → IsWellFormed (spawn_at new_id now org parent next s).db.tasks
spawn_at-IsWellFormed new_id now org parent none s fresh h = h
spawn_at-IsWellFormed new_id now org parent (some none) s fresh h = h
spawn_at-IsWellFormed new_id now org parent (some (some next)) s fresh h =
    elim (Bool-cases (has_child parent.id next s.db.tasks)) [
      | inl child ↦ rw child h
      | inr new ↦ rw new (spawn-IsWellFormed new_id now org next parent s fresh h)
    ]

spawn_if-IsWellFormed :
    (recurring : Bool) (new_id now org : ℕ) (parent : TaskRow) (next : Option (Option ℕ))
    (s : SpawnDb)
    → IsFresh new_id s.db.tasks
    → IsWellFormed s.db.tasks
    → IsWellFormed (if recurring then spawn_at new_id now org parent next s else s).db.tasks
spawn_if-IsWellFormed true new_id now org parent next s fresh h =
    spawn_at-IsWellFormed new_id now org parent next s fresh h
spawn_if-IsWellFormed false new_id now org parent next s fresh h = h

-- A request, with the id and the time that the database gives.
pub data TaskRequest : Type 0 where
  create_request : ℕ → ℕ → ℕ → ℕ → CreateTaskInput → TaskRequest
  update_request : ℕ → ℕ → ℕ → ℕ → UpdateTaskInput → TaskRequest
  delete_request : ℕ → ℕ → ℕ → ℕ → TaskRequest
  bulk_request : ℕ → ℕ → ℕ → List ℕ → TaskStatus → TaskRequest
  recurring_job : ℕ → ℕ → RecurringJob → TaskRequest

module _ (next_after : String → ℕ → Option (Option ℕ)) where
  spawn_from-IsWellFormed :
      (new_id now org : ℕ) (parent : Option TaskRow) (s : SpawnDb)
      → IsFresh new_id s.db.tasks
      → IsWellFormed s.db.tasks
      → IsWellFormed (spawn_from next_after new_id now org parent s).db.tasks
  spawn_from-IsWellFormed new_id now org none s fresh h = h
  spawn_from-IsWellFormed new_id now org (some parent) s fresh h =
      spawn_if-IsWellFormed parent.is_recurring new_id now org parent
        (next_of next_after now parent.recurrence_rule) s fresh h

  job-IsWellFormed :
      (new_id now : ℕ) (job : RecurringJob) (s : SpawnDb)
      → IsFresh new_id s.db.tasks
      → IsWellFormed s.db.tasks
      → IsWellFormed (run_recurring_task_job next_after new_id now job s).db.tasks
  unfolding run_recurring_task_job
  job-IsWellFormed new_id now job s fresh h =
      spawn_from-IsWellFormed new_id now job.org_id (find_by_id job.parent_task_id s.db.tasks) s
        fresh h

  unfoldable pub serve : TaskRequest → SpawnDb → SpawnDb
  serve (create_request new_id now org user input) s = record s {
    db = (create_task new_id now org user input s.db).1;
  }
  serve (update_request now org task_id user input) s = record s {
    db = (update_task now org task_id user input s.db).1;
  }
  serve (delete_request now org task_id user) s = record s {
    db = (delete_task now org task_id user s.db).1;
  }
  serve (bulk_request now org user ids status') s = record s {
    db = (bulk_update_status now org user ids status' s.db).1;
  }
  serve (recurring_job new_id now job) s = run_recurring_task_job next_after new_id now job s

  unfoldable pub serve_all : List TaskRequest → SpawnDb → SpawnDb
  unfolding serve
  serve_all [] s = s
  serve_all (r ∷ requests) s = serve_all requests (serve r s)

  -- The id that the database generates for a request belongs to no row.
  abbrev pub GivesFresh : TaskRequest → SpawnDb → Type 0
  GivesFresh (create_request new_id now org user input) s = IsFresh new_id s.db.tasks
  GivesFresh (recurring_job new_id now job) s = IsFresh new_id s.db.tasks
  GivesFresh _ s = Unit

  abbrev pub AllFresh : List TaskRequest → SpawnDb → Type 0
  AllFresh [] s = Unit
  AllFresh (r ∷ requests) s = GivesFresh r s × AllFresh requests (serve r s)

  serve-IsWellFormed :
      (r : TaskRequest) (s : SpawnDb)
      → GivesFresh r s
      → IsWellFormed s.db.tasks
      → IsWellFormed (serve r s).db.tasks
  unfolding serve
  serve-IsWellFormed (create_request new_id now org user input) s fresh h =
      create_task-IsWellFormed new_id now org user input s.db fresh h
  serve-IsWellFormed (update_request now org task_id user input) s fresh h =
      update_task-IsWellFormed now org task_id user input s.db h
  serve-IsWellFormed (delete_request now org task_id user) s fresh h =
      delete_task-IsWellFormed now org task_id user s.db h
  serve-IsWellFormed (bulk_request now org user ids status') s fresh h =
      bulk_update_status-IsWellFormed now org user ids status' s.db h
  serve-IsWellFormed (recurring_job new_id now job) s fresh h =
      job-IsWellFormed new_id now job s fresh h

  -- Any sequence of requests that create, update and delete tasks or set the status of many, and of
  -- jobs that spawn recurring tasks, keeps the table well formed, provided that the database generates
  -- ids that no row has: ids are unique, live tasks at most two levels deep, and each parent that a live
  -- task names is a live task of its organization one level up.
  pub serve_all-IsWellFormed :
      (requests : List TaskRequest) (s : SpawnDb)
      → AllFresh requests s
      → IsWellFormed s.db.tasks
      → IsWellFormed (serve_all requests s).db.tasks
  unfolding serve_all
  serve_all-IsWellFormed [] s fresh h = h
  serve_all-IsWellFormed (r ∷ requests) s (one, rest) h =
      serve_all-IsWellFormed requests (serve r s) rest (serve-IsWellFormed r s one h)
