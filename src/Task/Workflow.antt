-- ===== src/Task/Workflow.antt =====
-- `updateTask`: who may change a task, which status follows which, the optimistic lock, and the next
-- occurrence of a recurring task.
use multi_tenant_collaborati.Common.{
  ℕ, ◌≡◌, ◌≢◌, sym, true, false, or_else, Option, none, some, arith, ◌⊎◌, inl, ok, >>=-ok, ◌∙◌,
}
use multi_tenant_collaborati.Organization.Membership.{find_membership}
use multi_tenant_collaborati.Task.Row.{TaskStatus, TaskRow, TaskDb}
use multi_tenant_collaborati.Task.Repository.{find_by_id, find_in_org, is_empty}
use multi_tenant_collaborati.Task.Service.{
  UpdateTaskInput, allowed_transition, bad_transition, may_not_change, is_org_admin, update_task,
  update_row, follow_up,
}
use multi_tenant_collaborati.Task.Invariant.{IsWellFormed}
use multi_tenant_collaborati.Task.Update.{
  select_first-update, update_row-rows, follow_up_lem, update_task-Accepted, update_row_stale,
  update_row_status, update_task_steps, update_row_empty, eq_of_status_eq,
}

-- Of two requests that change columns of one task at the same version, at most one succeeds: once
-- the first is answered with a row, the second, sent by anybody with any changes, never is.
pub update_task_once :
    (now now' org task_id user user' : ℕ) (first second : UpdateTaskInput) (db : TaskDb)
    (t u : TaskRow)
    → is_empty first.changes ≡ false
    → is_empty second.changes ≡ false
    → second.version ≡ first.version
    → (update_task now org task_id user first db).0 ≡ ok t
    → (update_task now' org task_id user' second (update_task now org task_id user first db).1).0
      ≢ ok u
update_task_once now now' org task_id user user' first second db t u full full' same e e' =
    let one = update_task-Accepted now org task_id user first db t e in
    let db' = (update_task now org task_id user first db).1 in
    let two = update_task-Accepted now' org task_id user' second db' u e' in
    let changed = update_row-rows now org task_id first db t full one.row in
    update_row_stale now' org task_id second db' u full'
      (rw (one.rows, changed, same)
        (select_first-update now org task_id first.version first.changes db.tasks))
      two.row

-- A row that `updateTask` returns comes from a task of the organization that the user created or
-- may administer as owner or admin, and its status is that of the task before or one to which the
-- table of transitions leads from there.
pub update_task_authorised :
    (now org task_id user : ℕ) (input : UpdateTaskInput) (db : TaskDb) (t : TaskRow)
    → IsWellFormed db.tasks
    → (update_task now org task_id user input db).0 ≡ ok t
    → (existing : TaskRow) × (find_by_id task_id db.tasks ≡ some existing)
      × (existing.org_id ≡ org)
      × ((existing.creator_id ≡ user)
          ⊎ (is_org_admin (find_membership org user db.memberships) ≡ true))
      × ((t.status ≡ existing.status) ⊎ (allowed_transition existing.status t.status ≡ true))
unfolding may_not_change bad_transition
update_task_authorised now org task_id user input db t wf e =
    let a = update_task-Accepted now org task_id user input db t e in
    let moved = update_row_status now org task_id input db a.existing t wf a.found a.row in
    (
      a.existing,
      a.found,
      a.own,
      may_change a.existing a.allowed,
      by_status input.changes.status a.existing.status t.status moved a.transition,
    )
  where
    may_change :
        (x : TaskRow)
        → may_not_change org user x db.memberships ≡ false
        → (x.creator_id ≡ user) ⊎ (is_org_admin (find_membership org user db.memberships) ≡ true)
    may_change x h = ground arith

    by_status :
        (wanted : Option TaskStatus) (from to : TaskStatus)
        → to ≡ or_else wanted from
        → bad_transition wanted from ≡ false
        → (to ≡ from) ⊎ (allowed_transition from to ≡ true)
    by_status none from to h k = inl h
    by_status (some w) from to h k = ground (arith, eq_of_status_eq w from)

-- A request without a changed column is answered whatever version it states, for a task of the
-- organization that the user may change, and puts the given users in place of the assignees: two
-- requests that differ only in the version do the same.
pub update_task_any_version :
    (now org task_id user v : ℕ) (input : UpdateTaskInput) (db : TaskDb) (existing : TaskRow)
    → is_empty input.changes ≡ true
    → find_in_org org task_id db ≡ (ok existing, db)
    → may_not_change org user existing db.memberships ≡ false
    → ((update_task now org task_id user input db).0 ≡ ok existing)
      × (update_task now org task_id user (record input { version = v }) db
          ≡ update_task now org task_id user input db)
unfolding bad_transition follow_up
update_task_any_version now org task_id user v input db existing empty f g =
    let still : bad_transition input.changes.status existing.status ≡ false = ground arith in
    let other : UpdateTaskInput = record input { version = v } in
    let one = update_task_steps now org task_id user input db existing f g still in
    let two = update_task_steps now org task_id user other db existing f g still in
    let row = update_row_empty now org task_id input db existing empty f in
    let row' = update_row_empty now org task_id other db existing empty f in
    let run =
      >>=-ok (update_row now org task_id input) (follow_up now org task_id user input) row in
    let run' =
      >>=-ok (update_row now org task_id other) (follow_up now org task_id user other) row' in
    (
      rw (one, run) (follow_up_lem now org task_id user input existing db).0,
      two ∙ run' ∙ sym run ∙ sym one,
    )
