-- ===== src/Task/Invariant/Create.antt =====
-- What `createTask` and `updateTask` do to the `tasks` table.
use multi_tenant_collaborati.Common.{
  ℕ, ◌+◌, ◌≤◌, ◌≡◌, ◌≢◌, refl, Option, none, some, List, ◌∷◌, Memᴰ, arith, Bool-cases, Option-cases,
  ◌⊎◌, inl, inr, ok, err, AppError, not_found_error, unprocessable_error, update_where,
  mem-select_first, Memᴰ-cons, ltb,
}
use multi_tenant_collaborati.Task.Row.{TaskRow, TaskDb, UpdateTaskData}
use multi_tenant_collaborati.Task.Repository.{
  find_by_id, find_in_org, in_org, new_task, update, apply_update, at_version, is_live_id,
}
use multi_tenant_collaborati.Task.Service.{
  follow_up, CreateTaskInput, UpdateTaskInput, create_data, create_task, depth_under,
  max_task_depth, update_task, update_row,
}
use multi_tenant_collaborati.Task.Invariant.{
  IsLive, IsWellFormed, KeepsPlace, update_where-IsWellFormed,
}

-- The generated id belongs to no row.
abbrev pub IsFresh : ℕ → List TaskRow → Type 0
IsFresh new_id rows = (t : TaskRow) → Memᴰ t rows → t.id ≢ new_id

-- What the check of the parent establishes.
record IsPlaced (rows : List TaskRow) (org : ℕ) (parent : Option ℕ) (depth : ℕ) : Type 0 where
  bounded : depth ≤ 2
  under :
      (p : ℕ)
      → parent ≡ some p
      → (q : TaskRow) × Memᴰ q rows
        × IsLive q
        × (q.id ≡ p)
        × (q.org_id ≡ org)
        × (depth ≡ q.depth + 1)

depth_under-IsPlaced :
    (org : ℕ) (parent : Option ℕ) (depth : ℕ) (db db' : TaskDb)
    → depth_under org parent db ≡ (ok depth, db')
    → IsPlaced db.tasks org parent depth
unfolding depth_under find_in_org find_by_id
depth_under-IsPlaced org none depth db db' e = record {
  bounded = ground arith;
  under = λ p h. absurd (ground arith);
}
depth_under-IsPlaced org (some k) depth db db' e = elim (Option-cases (find_by_id k db.tasks)) [
  | inl missing ↦ absurd (ground arith)
  | inr (q, found) ↦
      let (listed, fits) = mem-select_first (is_live_id k) db.tasks found in
      record {
        bounded = ground arith;
        under = λ p h. (q, listed, ground arith, ground arith, ground arith, ground arith);
      }
]

new_task-IsWellFormed :
    (new_id now org user depth : ℕ) (input : CreateTaskInput) (rows : List TaskRow)
    → IsFresh new_id rows
    → IsPlaced rows org input.parent_task_id depth
    → IsWellFormed rows
    → IsWellFormed (new_task new_id now (create_data org user depth input) ∷ rows)
unfolding new_task create_data
new_task-IsWellFormed new_id now org user depth input rows fresh placed h = record {
  unique = λ t u m k e. elim ((Memᴰ-cons t _ rows).0 m) [
    | inl et ↦ elim ((Memᴰ-cons u _ rows).0 k) [
      | inl eu ↦ rw (et, eu) refl
      | inr ku ↦ absurd (fresh u ku (ground arith))
    ]
    | inr mt ↦ elim ((Memᴰ-cons u _ rows).0 k) [
      | inl eu ↦ absurd (fresh t mt (ground arith))
      | inr ku ↦ h.unique t u mt ku e
    ]
  ];
  bounded = λ t m live. elim ((Memᴰ-cons t _ rows).0 m) [
    | inl et ↦ rw et placed.bounded
    | inr mt ↦ h.bounded t mt live
  ];
  nested = λ t p m live e. elim ((Memᴰ-cons t _ rows).0 m) [
    | inl et ↦
        let (q, listed, up, id, same, level) = placed.under p (ground arith) in
        record {
          row = q;
          listed = Memᴰ.tail listed;
          live = up;
          id = id;
          org = ground arith;
          level = ground arith;
        }
    | inr mt ↦
        let above = h.nested t p mt live e in
        record {
          row = above.row;
          listed = Memᴰ.tail above.listed;
          live = above.live;
          id = above.id;
          org = above.org;
          level = above.level;
        }
  ];
}

depth_under_cases :
    (org : ℕ) (parent : Option ℕ) (db : TaskDb)
    → ((e : AppError) × (depth_under org parent db ≡ (err e, db)))
      ⊎ ((depth : ℕ) × (depth_under org parent db ≡ (ok depth, db)))
unfolding depth_under find_in_org find_by_id
depth_under_cases org none db = inr (0, refl)
depth_under_cases org (some k) db = elim (Option-cases (in_org org (find_by_id k db.tasks))) [
  | inl missing ↦ inl (not_found_error, ground arith)
  | inr (q, found) ↦ elim (Bool-cases (ltb max_task_depth (q.depth + 1))) [
    | inl deep ↦ inl (unprocessable_error "TASK_DEPTH_EXCEEDED", ground arith)
    | inr fine ↦ inr (q.depth + 1, ground arith)
  ]
]

module _ (new_id now org user : ℕ) (input : CreateTaskInput) (db : TaskDb) where
  pub create_task_tasks :
      (depth : ℕ)
      → depth_under org input.parent_task_id db ≡ (ok depth, db)
      → ((create_task new_id now org user input db).1.tasks ≡ db.tasks)
        ⊎ ((create_task new_id now org user input db).1.tasks
            ≡ new_task new_id now (create_data org user depth input) ∷ db.tasks)
  unfolding create_task
  create_task_tasks depth e = ground arith

  create_task_refused :
      (e : AppError)
      → depth_under org input.parent_task_id db ≡ (err e, db)
      → (create_task new_id now org user input db).1.tasks ≡ db.tasks
  unfolding create_task
  create_task_refused e h = ground arith

-- Whatever the request asks for, `createTask` keeps the table well formed, provided that the
-- database generates an id that no row has: depths stay at most two, and a subtask hangs under a live
-- task of its own organization.
pub create_task-IsWellFormed :
    (new_id now org user : ℕ) (input : CreateTaskInput) (db : TaskDb)
    → IsFresh new_id db.tasks
    → IsWellFormed db.tasks
    → IsWellFormed (create_task new_id now org user input db).1.tasks
create_task-IsWellFormed new_id now org user input db fresh h =
    elim (depth_under_cases org input.parent_task_id db) [
      | inl (e, refused) ↦ rw (create_task_refused new_id now org user input db e refused) h
      | inr (depth, found) ↦ elim (create_task_tasks new_id now org user input db depth found) [
        | inl same ↦ rw same h
        | inr grown ↦ rw grown (
            new_task-IsWellFormed new_id now org user depth input db.tasks fresh
              (depth_under-IsPlaced org input.parent_task_id depth db db found) h)
      ]
    ]

apply_update-KeepsPlace : (now : ℕ) (d : UpdateTaskData) → KeepsPlace (apply_update now d)
unfolding apply_update
apply_update-KeepsPlace now d = record {
  id = λ t. refl;
  org = λ t. refl;
  parent = λ t. refl;
  depth = λ t. refl;
  live = λ t. refl;
}

update_task_tasks :
    (now org task_id user : ℕ) (input : UpdateTaskInput) (db : TaskDb)
    → ((update_task now org task_id user input db).1.tasks ≡ db.tasks)
      ⊎ ((update_task now org task_id user input db).1.tasks
          ≡ update_where
              (at_version org task_id input.version)
              (apply_update now input.changes)
              db.tasks)
unfolding update_task update_row follow_up find_in_org update
update_task_tasks now org task_id user input db = ground arith

-- `updateTask` keeps the table well formed on every request.
pub update_task-IsWellFormed :
    (now org task_id user : ℕ) (input : UpdateTaskInput) (db : TaskDb)
    → IsWellFormed db.tasks
    → IsWellFormed (update_task now org task_id user input db).1.tasks
update_task-IsWellFormed now org task_id user input db h =
    elim (update_task_tasks now org task_id user input db) [
      | inl same ↦ rw same h
      | inr changed ↦ rw changed (
          update_where-IsWellFormed (at_version org task_id input.version)
            (apply_update now input.changes) (apply_update-KeepsPlace now input.changes) db.tasks h)
    ]
