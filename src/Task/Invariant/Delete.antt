-- ===== src/Task/Invariant/Delete.antt =====
-- What `deleteTask` does to the `tasks` table.
use multi_tenant_collaborati.Common.{ℕ, ◌≡◌, false, some, List, arith, ◌⊎◌, inl, inr, ok}
use multi_tenant_collaborati.Task.Row.{TaskRow, TaskDb}
use multi_tenant_collaborati.Task.Repository.{find_in_org}
use multi_tenant_collaborati.Task.Subtasks.{cascade_soft_delete}
use multi_tenant_collaborati.Task.Service.{delete_task, may_not_change}
use multi_tenant_collaborati.Task.Invariant.{IsWellFormed}
use multi_tenant_collaborati.Task.Invariant.Cascade.{IsCascaded, cascade_soft_delete_lem}

module _ (now org task_id user : ℕ) (db : TaskDb) where
  delete_task_cases :
      (rows' : List TaskRow)
      → cascade_soft_delete now org task_id db.tasks ≡ some rows'
      → ((delete_task now org task_id user db).1 ≡ db)
        ⊎ ((delete_task now org task_id user db).1.tasks ≡ rows')
  unfolding delete_task
  delete_task_cases rows' e = ground arith

  delete_task_done :
      (rows' : List TaskRow) (t : TaskRow)
      → cascade_soft_delete now org task_id db.tasks ≡ some rows'
      → find_in_org org task_id db ≡ (ok t, db)
      → may_not_change org user t db.memberships ≡ false
      → ((delete_task now org task_id user db).0 ≡ ok tt)
        × ((delete_task now org task_id user db).1.tasks ≡ rows')
  unfolding delete_task
  delete_task_done rows' t e f g = ground arith

-- `deleteTask` keeps the table well formed on every request: in particular no live subtask is left
-- under a deleted task.
pub delete_task-IsWellFormed :
    (now org task_id user : ℕ) (db : TaskDb)
    → IsWellFormed db.tasks
    → IsWellFormed (delete_task now org task_id user db).1.tasks
delete_task-IsWellFormed now org task_id user db wf =
    let (rows', e, c) = cascade_soft_delete_lem now org task_id db.tasks wf in
    elim (delete_task_cases now org task_id user db rows' e) [
      | inl same ↦ rw same wf
      | inr done ↦ rw done c.well_formed
    ]

-- A request to delete a task that exists in the organization, by its creator or an admin, succeeds on
-- a well-formed table. It deletes the task and every live task below it at any depth; every row
-- outside that subtree, of this or of another organization, stays as it was.
pub delete_task_cascades :
    (now org task_id user : ℕ) (t : TaskRow) (db : TaskDb)
    → IsWellFormed db.tasks
    → find_in_org org task_id db ≡ (ok t, db)
    → may_not_change org user t db.memberships ≡ false
    → ((delete_task now org task_id user db).0 ≡ ok tt)
      × IsCascaded now org task_id db.tasks (delete_task now org task_id user db).1.tasks
delete_task_cascades now org task_id user t db wf found allowed =
    let (rows', e, c) = cascade_soft_delete_lem now org task_id db.tasks wf in
    let (fine, same) = delete_task_done now org task_id user db rows' t e found allowed in
    (fine, rw same c)
