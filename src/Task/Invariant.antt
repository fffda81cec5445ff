-- ===== src/Task/Invariant.antt =====
-- What the `tasks` table satisfies: primary keys, the bound on the depth, and live parents.
pub mod Create
pub mod Subtree
pub mod Marking
pub mod Cascade
pub mod Delete
use multi_tenant_collaborati.Common.{
  ℕ, suc, ◌+◌, ◌≤◌, ◌≡◌, refl, Bool, true, false, if◌then◌else◌, Option, none, some, List, ◌∷◌,
  Memᴰ, arith, Bool-cases, inl, inr, update_where, mem-update_where, update_where-mem,
}
use multi_tenant_collaborati.Task.Row.{TaskRow}

abbrev pub IsLive : TaskRow → Type 0
IsLive t = t.deleted_at ≡ none

-- `t` hangs under the live task `q` of its own organization, one level below it.
pub record IsParent (rows : List TaskRow) (p : ℕ) (t : TaskRow) : Type 0 where
  pub row : TaskRow
  pub listed : Memᴰ row rows
  pub live : IsLive row
  pub id : row.id ≡ p
  pub org : row.org_id ≡ t.org_id
  pub level : t.depth ≡ row.depth + 1

-- Ids are unique, a live task is at most two levels deep, and every parent that a live task names
-- is a live task of the same organization one level up.
pub record IsWellFormed (rows : List TaskRow) : Type 0 where
  pub unique : (t u : TaskRow) → Memᴰ t rows → Memᴰ u rows → t.id ≡ u.id → t ≡ u
  pub bounded : (t : TaskRow) → Memᴰ t rows → IsLive t → t.depth ≤ 2
  pub nested :
      (t : TaskRow) (p : ℕ) → Memᴰ t rows → IsLive t → t.parent_task_id ≡ some p → IsParent rows p t

-- The columns that place a task: an update that keeps them keeps the table well formed.
pub record KeepsPlace (f : TaskRow → TaskRow) : Type 0 where
  pub id : (t : TaskRow) → (f t).id ≡ t.id
  pub org : (t : TaskRow) → (f t).org_id ≡ t.org_id
  pub parent : (t : TaskRow) → (f t).parent_task_id ≡ t.parent_task_id
  pub depth : (t : TaskRow) → (f t).depth ≡ t.depth
  pub live : (t : TaskRow) → (f t).deleted_at ≡ t.deleted_at

module _ (p : TaskRow → Bool) (f : TaskRow → TaskRow) where
  abbrev pub updated : TaskRow → TaskRow
  updated t = if p t then f t else t

  pub update_where_unique :
      (rows : List TaskRow)
      → ((t : TaskRow) → (f t).id ≡ t.id)
      → ((t u : TaskRow) → Memᴰ t rows → Memᴰ u rows → t.id ≡ u.id → t ≡ u)
      → (t u : TaskRow) → Memᴰ t (update_where p f rows)
      → Memᴰ u (update_where p f rows)
      → t.id ≡ u.id
      → t ≡ u
  update_where_unique rows same unique t u m k e =
      let (x, mx, ex) = mem-update_where p f rows t m in
      let (y, my, ey) = mem-update_where p f rows u k in
      let xy : x ≡ y = unique x y mx my (ground (arith, same x, same y)) in rw (ex, ey, xy) refl

  module _ (keeps : KeepsPlace f) where
    updated-KeepsPlace : KeepsPlace updated
    updated-KeepsPlace = record {
      id = λ t. ground (arith, keeps.id t);
      org = λ t. ground (arith, keeps.org t);
      parent = λ t. ground (arith, keeps.parent t);
      depth = λ t. ground (arith, keeps.depth t);
      live = λ t. ground (arith, keeps.live t);
    }

    pub update_where-IsWellFormed :
        (rows : List TaskRow) → IsWellFormed rows → IsWellFormed (update_where p f rows)
    update_where-IsWellFormed rows h = record {
      unique = update_where_unique rows keeps.id h.unique;
      bounded = λ t m live.
          let (x, mx, ex) = mem-update_where p f rows t m in
          let at = updated-KeepsPlace in
          rw (ex, at.depth x) (h.bounded x mx (ground (arith, at.live x)));
      nested = λ t q m live e.
          let (x, mx, ex) = mem-update_where p f rows t m in
          let at = updated-KeepsPlace in
          let above = h.nested x q mx (ground (arith, at.live x)) (ground (arith, at.parent x)) in
          record {
            row = updated above.row;
            listed = update_where-mem p f rows above.row above.listed;
            live = ground (arith, at.live above.row, above.live);
            id = ground (arith, at.id above.row, above.id);
            org = ground (arith, at.org above.row, at.org x, above.org);
            level = ground (arith, at.depth above.row, at.depth x, above.level);
          };
    }
