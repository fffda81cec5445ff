-- ===== src/Task/Dependency.antt =====
-- src/modules/task/dependency.service.ts: which task blocks which, and the search that refuses a
-- dependency that would close a cycle.
pub mod Graph
pub mod Search
pub mod Acyclic
pub mod Allowed
use multi_tenant_collaborati.Common.{
  ℕ, ◌+◌, zero, suc, Bool, true, false, not, ◌&&◌, ◌||◌, Option, none, some, List, [], ◌∷◌, ◌==◌,
  if◌then◌else◌, Result, ok, err, Action, throw, gets, throw_if, modify, ◌>>=◌, ◌>>◌, pure,
  not_found_error, unprocessable_error, length, contains, delete_where, select,
}
use multi_tenant_collaborati.Task.Row.{TaskRow, TaskDependencyRow, TaskDb}
use multi_tenant_collaborati.Task.Repository.{find_by_id, find_in_org}

-- `SELECT blocked_task_id … WHERE org_id = $1 AND blocking_task_id = $2`.
pub blocked_ids : ℕ → ℕ → List TaskDependencyRow → List ℕ
blocked_ids org current [] = []
blocked_ids org current (d ∷ ds) =
    if d.org_id == org && d.blocking_task_id == current
    then d.blocked_task_id ∷ blocked_ids org current ds
    else blocked_ids org current ds

-- `for (const row of rows) stack.push(row)`; the head of the list is the top of the stack.
pub push_all : List ℕ → List ℕ → List ℕ
push_all [] stack = stack
push_all (x ∷ xs) stack = push_all xs (x ∷ stack)

-- The `while` loop on fuel: `none` when the fuel runs out, which `Search` rules out.
pub search_loop : ℕ → ℕ → ℕ → List TaskDependencyRow → List ℕ → List ℕ → Option Bool
search_loop zero org target deps stack visited = none
search_loop (suc fuel) org target deps [] visited = some false
search_loop (suc fuel) org target deps (current ∷ stack) visited = elim (current == target) [
  | true ↦ some true
  | false ↦ elim (contains current visited) [
    | true ↦ search_loop fuel org target deps stack visited
    | false ↦
        search_loop fuel org target deps (push_all (blocked_ids org current deps) stack)
          (current ∷ visited)
  ]
]

-- Each round takes a task off the stack, and each dependency is pushed at most once.
pub would_create_cycle : ℕ → ℕ → ℕ → List TaskDependencyRow → Option Bool
unfolding search_loop
would_create_cycle org blocking blocked deps =
    search_loop (length deps + 2) org blocking deps (blocked ∷ []) []

-- A search that did not end would hang the request.
abbrev pub ends_with : Option Bool → Bool
ends_with (some found) = found
ends_with none = true

-- `insertDependency`: `new_id` and `now` are the database's defaults.
abbrev pub new_dependency : ℕ → ℕ → ℕ → ℕ → ℕ → ℕ → TaskDependencyRow
new_dependency new_id now org blocking blocked created_by = record {
  id = new_id;
  org_id = org;
  blocking_task_id = blocking;
  blocked_task_id = blocked;
  created_by = created_by;
  created_at = now;
}

pub insert_dependency : TaskDependencyRow → Action TaskDb TaskDependencyRow
insert_dependency row db = (ok row, record db { dependencies = row ∷ db.dependencies })

-- What `addDependency` reads and tests before it writes; other requests may run after each read.
pub check_dependency : ℕ → ℕ → ℕ → Action TaskDb (Unit {0})
unfolding would_create_cycle find_in_org
check_dependency org blocking_id blocked_id = do
  throw_if (blocking_id == blocked_id) (unprocessable_error "SELF_DEPENDENCY")
  blocking ← find_in_org org blocking_id
  blocked ← find_in_org org blocked_id
  throw_if (not (blocking.workspace_id == blocked.workspace_id))
      (unprocessable_error "CROSS_WORKSPACE_DEPENDENCY")
  deps ← gets (λ db. db.dependencies)
  throw_if (ends_with (would_create_cycle org blocking_id blocked_id deps))
      (unprocessable_error "DEPENDENCY_CYCLE")

pub add_dependency : ℕ → ℕ → ℕ → ℕ → ℕ → ℕ → Action TaskDb TaskDependencyRow
unfolding check_dependency insert_dependency
add_dependency new_id now org blocking_id blocked_id created_by = do
  check_dependency org blocking_id blocked_id
  insert_dependency (new_dependency new_id now org blocking_id blocked_id created_by)

-- `deleteDependency`: `DELETE … WHERE id = $1 AND org_id = $2`.
pub remove_dependency : ℕ → ℕ → Action TaskDb (Unit {0})
remove_dependency org dependency_id = modify λ db. record db {
  dependencies = delete_where (λ d. d.id == dependency_id && d.org_id == org) db.dependencies;
}

-- `findDependencies`.
pub list_dependencies : ℕ → ℕ → Action TaskDb (List TaskDependencyRow)
list_dependencies org task_id = gets λ db.
    select (λ d. d.org_id == org && (d.blocking_task_id == task_id || d.blocked_task_id == task_id))
      db.dependencies
