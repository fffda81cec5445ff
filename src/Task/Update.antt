-- ===== src/Task/Update.antt =====
-- What a request has passed and written when `updateTask` answers it with a row.
use multi_tenant_collaborati.Common.{
  ℕ, ◌≡◌, ◌≢◌, refl, true, false, ◌==◌, or_else, none, some, List, [], ◌∷◌, arith, Bool-cases,
  Option-cases, ◌⊎◌, inl, inr, Result-cases, ok, err, AppError, not_found_error, ◌>>=◌,
  update_where, select_first, mem-select_first,
}
use multi_tenant_collaborati.Task.Row.{
  TaskStatus, todo, in_progress, in_review, done, cancelled, TaskRow, TaskDb, UpdateTaskData,
}
use multi_tenant_collaborati.Task.Repository.{
  find_by_id, find_in_org, update, apply_update, at_version, is_live_id, is_empty, status_eq,
}
use multi_tenant_collaborati.Task.Service.{
  UpdateTaskInput, bad_transition, may_not_change, update_task, update_row, follow_up,
}
use multi_tenant_collaborati.Task.Invariant.{IsWellFormed}

-- After an update no row is at the version that the update expected.
pub select_first-update :
    (now org task_id v : ℕ) (d : UpdateTaskData) (rows : List TaskRow)
    → select_first
        (at_version org task_id v)
        (update_where (at_version org task_id v) (apply_update now d) rows)
      ≡ none
unfolding apply_update
select_first-update now org task_id v d [] = refl
select_first-update now org task_id v d (t ∷ ts) = elim (Bool-cases (at_version org task_id v t)) [
  | inl hit ↦ ground (arith, select_first-update now org task_id v d ts)
  | inr miss ↦ ground (arith, select_first-update now org task_id v d ts)
]

pub update_row-rows :
    (now org task_id : ℕ) (input : UpdateTaskInput) (db : TaskDb) (t : TaskRow)
    → is_empty input.changes ≡ false
    → (update_row now org task_id input db).0 ≡ ok t
    → ((update_row now org task_id input db).1 ≡ record db {
      tasks =
          update_where
            (at_version org task_id input.version)
            (apply_update now input.changes)
            db.tasks;
    })
unfolding update_row update
update_row-rows now org task_id input db t full e = ground arith

pub find_in_org_cases :
    (org task_id : ℕ) (db : TaskDb)
    → ((e : AppError) × (find_in_org org task_id db ≡ (err e, db)))
      ⊎ ((t : TaskRow) × (find_in_org org task_id db ≡ (ok t, db))
          × (find_by_id task_id db.tasks ≡ some t)
          × (t.org_id ≡ org))
unfolding find_in_org
find_in_org_cases org task_id db = elim (Option-cases (find_by_id task_id db.tasks)) [
  | inl missing ↦ inl (not_found_error, ground arith)
  | inr (t, found) ↦ elim (Bool-cases (t.org_id == org)) [
    | inl mine ↦ inr (t, ground arith, found, ground arith)
    | inr other ↦ inl (not_found_error, ground arith)
  ]
]

-- What a request that `updateTask` answers with a row has passed and written.
pub record Accepted (now org task_id user : ℕ) (input : UpdateTaskInput) (db : TaskDb) (t : TaskRow)
    : Type 0 where
  pub existing : TaskRow
  pub found : find_by_id task_id db.tasks ≡ some existing
  pub own : existing.org_id ≡ org
  pub allowed : may_not_change org user existing db.memberships ≡ false
  pub transition : bad_transition input.changes.status existing.status ≡ false
  pub row : (update_row now org task_id input db).0 ≡ ok t
  pub rows :
      (update_task now org task_id user input db).1.tasks
      ≡ (update_row now org task_id input db).1.tasks

module _ (now org task_id user : ℕ) (input : UpdateTaskInput) where
  pub follow_up_lem :
      (t : TaskRow) (db : TaskDb)
      → ((follow_up now org task_id user input t db).0 ≡ ok t)
        × ((follow_up now org task_id user input t db).1.tasks ≡ db.tasks)
  unfolding follow_up
  follow_up_lem t db = ground arith

module _ (now org task_id user : ℕ) (input : UpdateTaskInput) (db : TaskDb) where
  pub update_task_steps :
      (existing : TaskRow)
      → find_in_org org task_id db ≡ (ok existing, db)
      → may_not_change org user existing db.memberships ≡ false
      → bad_transition input.changes.status existing.status ≡ false
      → update_task now org task_id user input db
        ≡ (update_row now org task_id input >>= follow_up now org task_id user input) db
  unfolding update_task
  update_task_steps existing f g h = ground arith

  bind_follow_up :
      (t : TaskRow)
      → ((update_row now org task_id input >>= follow_up now org task_id user input) db).0 ≡ ok t
      → ((update_row now org task_id input db).0 ≡ ok t)
        × (((update_row now org task_id input >>= follow_up now org task_id user input) db).1.tasks
            ≡ (update_row now org task_id input db).1.tasks)
  bind_follow_up t e = elim (Result-cases (update_row now org task_id input db).0) [
    | inl (u, succeeded) ↦
        let (same, kept) =
          follow_up_lem now org task_id user input u (update_row now org task_id input db).1 in
        (ground arith, ground arith)
    | inr (x, failed) ↦ absurd (ground arith)
  ]

  update_task_denied :
      (existing t : TaskRow)
      → find_in_org org task_id db ≡ (ok existing, db)
      → (may_not_change org user existing db.memberships ≡ true)
        ⊎ (bad_transition input.changes.status existing.status ≡ true)
      → (update_task now org task_id user input db).0 ≢ ok t
  unfolding update_task
  update_task_denied existing t f g e = ground arith

  update_task_missing :
      (e : AppError)
      → find_in_org org task_id db ≡ (err e, db)
      → (update_task now org task_id user input db).0 ≡ err e
  unfolding update_task
  update_task_missing e f = ground arith

  pub update_task-Accepted :
      (t : TaskRow)
      → (update_task now org task_id user input db).0 ≡ ok t
      → Accepted now org task_id user input db t
  update_task-Accepted t e = elim (find_in_org_cases org task_id db) [
    | inl (error, f) ↦ absurd (ground (arith, update_task_missing error f))
    | inr (existing, f, found, own) ↦
        elim (Bool-cases (may_not_change org user existing db.memberships)) [
          | inl g ↦ absurd (update_task_denied existing t f (inl g) e)
          | inr allowed ↦ elim (Bool-cases (bad_transition input.changes.status existing.status)) [
            | inl g ↦ absurd (update_task_denied existing t f (inr g) e)
            | inr fine ↦
                let steps = update_task_steps existing f allowed fine in
                let (row, rows) = bind_follow_up t (ground arith) in
                record {
                  existing = existing;
                  found = found;
                  own = own;
                  allowed = allowed;
                  transition = fine;
                  row = row;
                  rows = ground arith;
                }
          ]
        ]
  ]

pub update_row_stale :
    (now org task_id : ℕ) (input : UpdateTaskInput) (db : TaskDb) (t : TaskRow)
    → is_empty input.changes ≡ false
    → select_first (at_version org task_id input.version) db.tasks ≡ none
    → (update_row now org task_id input db).0 ≢ ok t
unfolding update_row update find_in_org
update_row_stale now org task_id input db t full none_left e = ground arith

pub update_row_status :
    (now org task_id : ℕ) (input : UpdateTaskInput) (db : TaskDb) (existing t : TaskRow)
    → IsWellFormed db.tasks
    → find_by_id task_id db.tasks ≡ some existing
    → (update_row now org task_id input db).0 ≡ ok t
    → t.status ≡ or_else input.changes.status existing.status
unfolding update_row update find_by_id apply_update
update_row_status now org task_id input db existing t wf found e =
    elim (Bool-cases (is_empty input.changes)) [
      | inl empty ↦ ground arith
      | inr full ↦
          elim (Option-cases (select_first (at_version org task_id input.version) db.tasks)) [
            | inl stale ↦ absurd (ground arith)
            | inr (x, hit) ↦
                let (mx, fx) =
                  mem-select_first (at_version org task_id input.version) db.tasks hit in
                let (me, fe) = mem-select_first (is_live_id task_id) db.tasks found in
                let same : x ≡ existing = wf.unique x existing mx me (ground arith) in ground arith
          ]
    ]

pub eq_of_status_eq : (a b : TaskStatus) → status_eq a b ≡ true → a ≡ b
eq_of_status_eq todo todo h = refl
eq_of_status_eq in_progress in_progress h = refl
eq_of_status_eq in_review in_review h = refl
eq_of_status_eq done done h = refl
eq_of_status_eq cancelled cancelled h = refl
eq_of_status_eq _ _ h = cc

pub update_row_empty :
    (now org task_id : ℕ) (input : UpdateTaskInput) (db : TaskDb) (existing : TaskRow)
    → is_empty input.changes ≡ true
    → find_in_org org task_id db ≡ (ok existing, db)
    → update_row now org task_id input db ≡ (ok existing, db)
unfolding update_row update find_in_org
update_row_empty now org task_id input db existing empty f =
    elim (Option-cases (find_by_id task_id db.tasks)) [
      | inl missing ↦ absurd (ground arith)
      | inr (t, found) ↦ ground arith
    ]
