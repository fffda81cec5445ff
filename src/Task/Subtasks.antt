-- ===== src/Task/Subtasks.antt =====
-- src/modules/task/task.repository.ts: `cascadeSoftDelete`, the recursive query over the subtasks and
-- the two updates of its transaction.
use multi_tenant_collaborati.Common.{
  ℕ, suc, zero, Bool, false, ◌&&◌, Option, none, some, List, [], ◌∷◌, ◌++◌, ◌==◌, if◌then◌else◌,
  is_none, contains, update_where,
}
use multi_tenant_collaborati.Task.Row.{TaskRow}
use multi_tenant_collaborati.Task.Repository.{soft_deleted}

abbrev pub parent_in : List ℕ → Option ℕ → Bool
parent_in parents none = false
parent_in parents (some p) = contains p parents

-- The ids of the live tasks of the org whose parent is in `parents`.
unfoldable pub children_of : ℕ → List ℕ → List TaskRow → List ℕ
children_of org parents [] = []
children_of org parents (t ∷ ts) =
    if t.org_id == org && (is_none t.deleted_at && parent_in parents t.parent_task_id)
    then t.id ∷ children_of org parents ts
    else children_of org parents ts

-- `WITH RECURSIVE … UNION ALL …`: each round joins the last round's rows with their children, until
-- a round is empty; `none` when the fuel runs out first.
unfoldable pub subtask_ids : ℕ → ℕ → List ℕ → List TaskRow → Option (List ℕ)
unfolding children_of
subtask_ids fuel org [] rows = some []
subtask_ids zero org (p ∷ ps) rows = none
subtask_ids (suc fuel) org (p ∷ ps) rows =
    elim (subtask_ids fuel org (children_of org (p ∷ ps) rows) rows) [
      | none ↦ none
      | some deeper ↦ some (p ∷ ps ++ deeper)
    ]

-- A round per level; a task is at most two levels below its root (`Invariant`).
abbrev pub max_rounds : ℕ
max_rounds = 3

-- `WHERE id IN (SELECT id FROM subtasks)`, then `WHERE id = $1 AND org_id = $2 AND deleted_at IS NULL`.
-- `none` when the recursive query does not end.
unfoldable pub cascade_soft_delete : ℕ → ℕ → ℕ → List TaskRow → Option (List TaskRow)
unfolding subtask_ids
cascade_soft_delete now org task_id rows =
    elim (subtask_ids max_rounds org (children_of org (task_id ∷ []) rows) rows) [
      | none ↦ none
      | some ids ↦ some (
          update_where (λ t. t.id == task_id && (t.org_id == org && is_none t.deleted_at))
            (soft_deleted now) (update_where (λ t. contains t.id ids) (soft_deleted now) rows))
    ]
