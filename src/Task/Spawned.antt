-- ===== src/Task/Spawned.antt =====
-- What src/modules/task/workers/recurring-task.worker.ts does when its job runs again.
use multi_tenant_collaborati.Common.{
  ℕ, ◌/◌, ◌≡◌, refl, ◌∙◌, inl, inr, String, true, false, Option, none, some, List, [], ◌∷◌, arith,
  ◌==◌, ==_refl, if◌then◌else◌, Bool-cases,
}
use multi_tenant_collaborati.Task.Row.{TaskRow, RecurringJob}
use multi_tenant_collaborati.Task.Repository.{find_by_id, new_task}
use multi_tenant_collaborati.Task.Recurring.{
  SpawnDb, same_day, has_child, spawn, run_recurring_task_job,
}

same_day_cong :
    (due : Option ℕ) (next next' : ℕ)
    → next / 86400000 ≡ next' / 86400000
    → same_day due next' ≡ same_day due next
same_day_cong none next next' day = refl
same_day_cong (some due) next next' day = rw day refl

has_child_day :
    (parent next next' : ℕ) (rows : List TaskRow)
    → next / 86400000 ≡ next' / 86400000
    → has_child parent next' rows ≡ has_child parent next rows
unfolding has_child
has_child_day parent next next' [] day = refl
has_child_day parent next next' (t ∷ rows) day =
    rw (has_child_day parent next next' rows day, same_day_cong t.due_date next next' day) refl

has_child-spawn :
    (new_id now org next : ℕ) (parent : TaskRow) (s : SpawnDb)
    → has_child parent.id next (spawn new_id now org next parent s).db.tasks ≡ true
unfolding has_child spawn new_task
has_child-spawn new_id now org next parent s =
    rw (==_refl parent.id, ==_refl (next / 86400000)) refl

find_by_id-spawn :
    (id new_id now org next : ℕ) (parent : TaskRow) (s : SpawnDb)
    → (new_id == id) ≡ false
    → find_by_id id (spawn new_id now org next parent s).db.tasks ≡ find_by_id id s.db.tasks
unfolding find_by_id spawn new_task
find_by_id-spawn id new_id now org next parent s other = rw other refl

module _ (next_after : String → ℕ → Option (Option ℕ)) where
  job-spawns :
      (new_id now next : ℕ) (job : RecurringJob) (s : SpawnDb) (parent : TaskRow) (rule : String)
      → find_by_id job.parent_task_id s.db.tasks ≡ some parent
      → parent.is_recurring ≡ true
      → parent.recurrence_rule ≡ some rule
      → next_after rule now ≡ some (some next)
      → run_recurring_task_job next_after new_id now job s ≡ (
          if has_child parent.id next s.db.tasks
          then s
          else spawn new_id now job.org_id next parent s)
  unfolding run_recurring_task_job
  job-spawns new_id now next job s parent rule found recurring ruled date = ground arith

  -- The job of a recurring task, run again when the next date of the rule is still on the same day,
  -- spawns nothing more: one child for a task and a day.
  pub spawn_once :
      (new_id new_id' now now' next next' : ℕ) (job : RecurringJob) (s : SpawnDb) (parent : TaskRow)
      (rule : String)
      → find_by_id job.parent_task_id s.db.tasks ≡ some parent
      → parent.is_recurring ≡ true
      → parent.recurrence_rule ≡ some rule
      → next_after rule now ≡ some (some next)
      → next_after rule now' ≡ some (some next')
      → next / 86400000 ≡ next' / 86400000
      → (new_id == job.parent_task_id) ≡ false
      → (let after = run_recurring_task_job next_after new_id now job s in
          run_recurring_task_job next_after new_id' now' job after ≡ after)
  spawn_once new_id new_id' now now' next next' job s parent rule found recurring ruled date date'
        day other =
      let run = job-spawns new_id now next job s parent rule found recurring ruled date in
      elim (Bool-cases (has_child parent.id next s.db.tasks)) [
        | inl child ↦
            let again =
              job-spawns new_id' now' next' job s parent rule found recurring ruled date' in
            rw (run, child, again, has_child_day parent.id next next' s.db.tasks day, child) refl
        | inr new ↦
            let after = spawn new_id now job.org_id next parent s in
            let still =
              find_by_id-spawn job.parent_task_id new_id now job.org_id next parent s other
              ∙ found in
            let again =
              job-spawns new_id' now' next' job after parent rule still recurring ruled date' in
            rw
              (
                run,
                new,
                again,
                has_child_day parent.id next next' after.db.tasks day,
                has_child-spawn new_id now job.org_id next parent s,
              )
              refl
      ]
