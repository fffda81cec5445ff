-- ===== src/Task/Dependency/Acyclic.antt =====
-- What `addDependency` and `removeDependency` do to the dependency graphs.
use multi_tenant_collaborati.Common.{
  ℕ, ◌≡◌, refl, Bool, false, ◌==◌, Bool-cases, ◌⊎◌, inl, inr, List, [], ◌∷◌, Memᴰ, arith,
  delete_where,
}
use multi_tenant_collaborati.Task.Row.{TaskDependencyRow, TaskDb}
use multi_tenant_collaborati.Task.Dependency.{
  would_create_cycle, ends_with, new_dependency, add_dependency, remove_dependency,
}
use multi_tenant_collaborati.Task.Dependency.Graph.{
  Edge, Reach, IsAcyclic, Edge-cons, Edge-tail, Reach-mono, IsAcyclic-cons, IsAcyclic-other,
}
use multi_tenant_collaborati.Task.Dependency.Search.{would_create_cycle_decides}

-- The search refuses the dependency exactly when a walk leads back.
pub not-Reach_of_accepted :
    (org blocking blocked : ℕ) (deps : List TaskDependencyRow)
    → ends_with (would_create_cycle org blocking blocked deps) ≡ false
    → ¬ Reach org deps blocked blocking
not-Reach_of_accepted org a b deps h = elim (would_create_cycle_decides org a b deps) [
  | inl (e, r) ↦ absurd (ground arith)
  | inr (e, free) ↦ free
]

pub add_dependency_cases :
    (new_id now org a b by : ℕ) (db : TaskDb)
    → ((add_dependency new_id now org a b by db).1 ≡ db)
      ⊎ ((add_dependency new_id now org a b by db).1.dependencies
          ≡ new_dependency new_id now org a b by ∷ db.dependencies)
        × (ends_with (would_create_cycle org a b db.dependencies) ≡ false)
unfolding add_dependency
add_dependency_cases new_id now org a b by db = ground arith

-- In no organization does a chain of dependencies lead from a task back to itself.
abbrev pub AllAcyclic : TaskDb → Type 0
AllAcyclic db = (org : ℕ) → IsAcyclic org db.dependencies

-- Whatever it is asked, `addDependency` keeps the dependencies of every organization acyclic.
pub add_dependency-AllAcyclic :
    (new_id now org blocking blocked by : ℕ) (db : TaskDb)
    → AllAcyclic db
    → AllAcyclic (add_dependency new_id now org blocking blocked by db).1
add_dependency-AllAcyclic new_id now org a b by db h o =
    elim (add_dependency_cases new_id now org a b by db) [
      | inl same ↦ rw same (h o)
      | inr (grown, free) ↦ rw grown (elim (Bool-cases (org == o)) [
        | inl mine ↦ IsAcyclic-cons o _ db.dependencies (h o) (
            let e : org ≡ o = ground arith in
            rw (← e) (not-Reach_of_accepted org a b db.dependencies free))
        | inr other ↦ IsAcyclic-other o _ db.dependencies (ground arith) (h o)
      ])
    ]

delete_where-Edge :
    (org : ℕ) (p : TaskDependencyRow → Bool) (ds : List TaskDependencyRow) (u v : ℕ)
    → Edge org (delete_where p ds) u v
    → Edge org ds u v
delete_where-Edge org p [] u v e = e
delete_where-Edge org p (d ∷ ds) u v e = elim (Bool-cases (p d)) [
  | inl gone ↦ Edge-tail org d ds u v (delete_where-Edge org p ds u v (rw gone at e))
  | inr kept ↦ elim (Edge-cons org d (delete_where p ds) u v (rw kept at e)) [
    | inl old ↦ Edge-tail org d ds u v (delete_where-Edge org p ds u v old)
    | inr (o, b, c) ↦ (d, Memᴰ.head refl, o, b, c)
  ]
]

-- `removeDependency` keeps the dependencies of every organization acyclic.
pub remove_dependency-AllAcyclic :
    (org dependency_id : ℕ) (db : TaskDb)
    → AllAcyclic db
    → AllAcyclic (remove_dependency org dependency_id db).1
unfolding remove_dependency
remove_dependency-AllAcyclic org dependency_id db h o u v e r =
    h o u v (delete_where-Edge o _ db.dependencies u v e)
      (Reach-mono o _ db.dependencies (delete_where-Edge o _ db.dependencies) r)

pub data DependencyRequest : Type 0 where
  add_request : (new_id now org blocking blocked by : ℕ) → DependencyRequest
  remove_request : (org dependency_id : ℕ) → DependencyRequest

unfoldable pub serve_dependencies : List DependencyRequest → TaskDb → TaskDb
serve_dependencies [] db = db
serve_dependencies (add_request new_id now org blocking blocked by ∷ requests) db =
    serve_dependencies requests (add_dependency new_id now org blocking blocked by db).1
serve_dependencies (remove_request org dependency_id ∷ requests) db =
    serve_dependencies requests (remove_dependency org dependency_id db).1

-- Any sequence of requests that add and remove dependencies keeps the dependencies of every
-- organization acyclic.
pub serve_dependencies-AllAcyclic :
    (requests : List DependencyRequest) (db : TaskDb)
    → AllAcyclic db
    → AllAcyclic (serve_dependencies requests db)
unfolding serve_dependencies
serve_dependencies-AllAcyclic [] db h = h
serve_dependencies-AllAcyclic (add_request new_id now org a b by ∷ requests) db h =
    serve_dependencies-AllAcyclic requests _ (add_dependency-AllAcyclic new_id now org a b by db h)
serve_dependencies-AllAcyclic (remove_request org id ∷ requests) db h =
    serve_dependencies-AllAcyclic requests _ (remove_dependency-AllAcyclic org id db h)
