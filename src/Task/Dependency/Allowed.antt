-- ===== src/Task/Dependency/Allowed.antt =====
-- When `addDependency` accepts a dependency, and what two requests at once can do.
use multi_tenant_collaborati.Common.{
  ℕ, ◌≡◌, refl, ◌≢◌, Option-cases, ◌⊎◌, inl, inr, ◌↔◌, some, ◌∷◌, Memᴰ, arith, ok,
}
use multi_tenant_collaborati.Task.Row.{TaskRow, TaskDb}
use multi_tenant_collaborati.Task.Repository.{find_by_id}
use multi_tenant_collaborati.Task.Dependency.{
  check_dependency, insert_dependency, new_dependency, add_dependency,
}
use multi_tenant_collaborati.Task.Dependency.Graph.{Reach, here, step, IsAcyclic}
use multi_tenant_collaborati.Task.Dependency.Search.{would_create_cycle_decides}
use multi_tenant_collaborati.Task.Dependency.Acyclic.{not-Reach_of_accepted}

-- When `addDependency` accepts: two different live tasks of the organization in one workspace, and
-- no chain of dependencies from the blocked one to the blocking one.
pub record IsAllowed (org blocking blocked : ℕ) (db : TaskDb) : Type 0 where
  pub differ : blocking ≢ blocked
  pub first : TaskRow
  pub second : TaskRow
  pub first_found : find_by_id blocking db.tasks ≡ some first
  pub second_found : find_by_id blocked db.tasks ≡ some second
  pub first_org : first.org_id ≡ org
  pub second_org : second.org_id ≡ org
  pub workspace : first.workspace_id ≡ second.workspace_id
  pub free : ¬ Reach org db.dependencies blocked blocking

module _ (new_id now org blocking blocked by : ℕ) (db : TaskDb) where
  accepted : TaskDb
  accepted = record db {
    dependencies = new_dependency new_id now org blocking blocked by ∷ db.dependencies;
  }

  add_dependency_allowed :
      IsAllowed org blocking blocked db
      → add_dependency new_id now org blocking blocked by db
        ≡ (ok (new_dependency new_id now org blocking blocked by), accepted)
  unfolding accepted add_dependency
  add_dependency_allowed h =
      elim (would_create_cycle_decides org blocking blocked db.dependencies) [
        | inl (e, r) ↦ absurd (h.free r)
        | inr (e, free) ↦ ground arith
      ]

  add_dependency_sound :
      add_dependency new_id now org blocking blocked by db
        ≡ (ok (new_dependency new_id now org blocking blocked by), accepted)
      → IsAllowed org blocking blocked db
  unfolding accepted add_dependency
  add_dependency_sound h = elim (Option-cases (find_by_id blocking db.tasks)) [
    | inl e ↦ absurd (ground arith)
    | inr (t, e) ↦ elim (Option-cases (find_by_id blocked db.tasks)) [
      | inl e' ↦ absurd (ground arith)
      | inr (u, e') ↦ record {
        differ = ground arith;
        first = t;
        second = u;
        first_found = e;
        second_found = e';
        first_org = ground arith;
        second_org = ground arith;
        workspace = ground arith;
        free = not-Reach_of_accepted org blocking blocked db.dependencies (ground arith);
      }
    ]
  ]

  add_dependency_grown :
      ((add_dependency new_id now org blocking blocked by db).1 ≡ db)
      ⊎ (add_dependency new_id now org blocking blocked by db
          ≡ (ok (new_dependency new_id now org blocking blocked by), accepted))
  unfolding accepted add_dependency
  add_dependency_grown = ground arith

  add_dependency_refused :
      ¬ IsAllowed org blocking blocked db
      → (add_dependency new_id now org blocking blocked by db).1 ≡ db
  add_dependency_refused denied = elim add_dependency_grown [
    | inl same ↦ same
    | inr grown ↦ absurd (denied (add_dependency_sound grown))
  ]

-- `addDependency` writes its one row and returns it exactly when the dependency is allowed: the two
-- tasks differ, are live tasks of the organization in one workspace, and no chain of dependencies
-- leads from the blocked task to the blocking one. In every other case it leaves the database as it
-- was.
pub add_dependency_iff :
    (new_id now org blocking blocked by : ℕ) (db : TaskDb)
    → ((add_dependency new_id now org blocking blocked by db ≡ (
      ok (new_dependency new_id now org blocking blocked by),
      record db {
        dependencies = new_dependency new_id now org blocking blocked by ∷ db.dependencies;
      },
    ))
        ↔ IsAllowed org blocking blocked db)
      × ((¬ IsAllowed org blocking blocked db)
          → (add_dependency new_id now org blocking blocked by db).1 ≡ db)
unfolding accepted
add_dependency_iff new_id now org blocking blocked by db = (
  (
    add_dependency_sound new_id now org blocking blocked by db,
    add_dependency_allowed new_id now org blocking blocked by db,
  ),
  add_dependency_refused new_id now org blocking blocked by db,
)

module _ (org blocking blocked : ℕ) (db : TaskDb) where
  check_dependency_allowed :
      IsAllowed org blocking blocked db → check_dependency org blocking blocked db ≡ (ok tt, db)
  unfolding check_dependency
  check_dependency_allowed h =
      elim (would_create_cycle_decides org blocking blocked db.dependencies) [
        | inl (e, r) ↦ absurd (h.free r)
        | inr (e, free) ↦ ground arith
      ]

-- Two requests for opposite dependencies, each allowed on its own: if both checks run before either
-- row is written, both pass, and the tasks then block each other.
pub concurrent_dependencies_cycle :
    (id id' now now' org a b by by' : ℕ) (db : TaskDb)
    → IsAllowed org a b db
    → IsAllowed org b a db
    → let first = insert_dependency (new_dependency id now org a b by) db in
      let second = insert_dependency (new_dependency id' now' org b a by') first.1 in
      (check_dependency org a b db ≡ (ok tt, db))
      × (check_dependency org b a db ≡ (ok tt, db))
      × (¬ IsAcyclic org second.1.dependencies)
unfolding insert_dependency
concurrent_dependencies_cycle id id' now now' org a b by by' db p q = (
  check_dependency_allowed org a b db p,
  check_dependency_allowed org b a db q,
  λ acyclic.
      acyclic a b (_, Memᴰ.tail (Memᴰ.head refl), refl, refl, refl)
        (step here (_, Memᴰ.head refl, refl, refl, refl)),
)
