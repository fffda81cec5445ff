-- ===== src/Task/Invariant/Cascade.antt =====
-- The two updates of `cascadeSoftDelete` together, over a well-formed table.
use multi_tenant_collaborati.Common.{
  ℕ, ◌≡◌, refl, sym, ◌∙◌, true, false, some, List, [], ◌∷◌, Memᴰ, arith, Bool-cases, ◌⊎◌, inl, inr,
  contains, mem_of_contains, contains_of_mem,
}
use mathlib.Core.List.Memᴰ
use multi_tenant_collaborati.Task.Row.{TaskRow}
use multi_tenant_collaborati.Task.Repository.{soft_deleted}
use multi_tenant_collaborati.Task.Subtasks.{
  children_of, subtask_ids, max_rounds, cascade_soft_delete,
}
use multi_tenant_collaborati.Task.Invariant.{IsLive, IsParent, IsWellFormed}
use multi_tenant_collaborati.Task.Invariant.Subtree.{
  IsOwn, Below, child, deeper, children_of_sound, children_of_complete, subtask_ids_level,
  subtask_ids_closed, subtask_ids-Below, subtask_ids_ends, IsDeep-root,
}
use multi_tenant_collaborati.Task.Invariant.Marking.{
  is_root, is_listed, both_deleted, below_deleted, both_deleted_cases, both_deleted_kept,
  both_deleted_gone, both_deleted_unique,
}

-- The task itself, or one below it.
abbrev pub InSubtree : List TaskRow → ℕ → ℕ → TaskRow → Type 0
InSubtree rows org root t = ((t.id ≡ root) × (t.org_id ≡ org)) ⊎ Below rows org root t.id

-- The table after the cascade: well formed, the subtree deleted, and the rest as it was.
pub record IsCascaded (now org root : ℕ) (rows rows' : List TaskRow) : Type 0 where
  pub well_formed : IsWellFormed rows'
  pub gone :
      (t : TaskRow)
      → Memᴰ t rows
      → IsLive t
      → InSubtree rows org root t
      → Memᴰ (soft_deleted now t) rows'
  pub kept : (t : TaskRow) → Memᴰ t rows → ¬ InSubtree rows org root t → Memᴰ t rows'

Below-IsOwn : (rows : List TaskRow) (org root i : ℕ) → Below rows org root i → IsOwn rows org i
Below-IsOwn rows org root i (child t under) = t
Below-IsOwn rows org root i (deeper b t under) = t

module _ (now org root : ℕ) (rows : List TaskRow) (wf : IsWellFormed rows) where
  module _ (ids : List ℕ)
      (answer : subtask_ids max_rounds org (children_of org (root ∷ []) rows) rows ≡ some ids) where
    after : List TaskRow
    after = both_deleted now org root ids rows

    Below-of-mem : (i : ℕ) → Memᴰ i ids → Below rows org root i
    Below-of-mem =
        subtask_ids-Below org rows root max_rounds (children_of org (root ∷ []) rows) ids
          (λ i m.
            let (t, p, under, up) = children_of_sound org (root ∷ []) rows i m in
            child t (rw (Memᴰ.eq_of_singleton up) at under))
          answer

    mem-of-child :
        (t : TaskRow)
        → Memᴰ t rows
        → IsLive t
        → t.org_id ≡ org
        → t.parent_task_id ≡ some root
        → Memᴰ t.id ids
    mem-of-child t m live o under =
        subtask_ids_level org rows max_rounds (children_of org (root ∷ []) rows) ids t.id answer
          (children_of_complete org (root ∷ []) rows t root m live o under (Memᴰ.head refl))

    mem-of-Below : (i : ℕ) → Below rows org root i → Memᴰ i ids
    mem-of-Below i (child t under) = rw (← t.id) (mem-of-child t.row t.listed t.live t.org under)
    mem-of-Below i (deeper {p} b t under) = rw (← t.id) (
        subtask_ids_closed org rows max_rounds (children_of org (root ∷ []) rows) ids t.row p answer
          t.listed t.live t.org under (mem-of-Below p b))

    kept_of_outside : (t : TaskRow) → Memᴰ t rows → ¬ InSubtree rows org root t → Memᴰ t after
    unfolding after is_listed is_root
    kept_of_outside t m out =
        both_deleted_kept now org root ids rows t m (not_listed (Bool-cases (contains t.id ids)))
          (ground (arith, λ (e : t.id ≡ root) (o : t.org_id ≡ org). out (inl (e, o))))
      where
        not_listed :
            (contains t.id ids ≡ true) ⊎ (contains t.id ids ≡ false) → contains t.id ids ≡ false
        not_listed (inl h) = absurd (out (inr (Below-of-mem t.id (mem_of_contains t.id ids h))))
        not_listed (inr h) = h

    gone_of_inside :
        (t : TaskRow)
        → Memᴰ t rows
        → IsLive t
        → InSubtree rows org root t
        → Memᴰ (soft_deleted now t) after
    unfolding after is_listed is_root
    gone_of_inside t m live (inl (e, o)) =
        both_deleted_gone now org root ids rows t m live (inr (ground arith))
    gone_of_inside t m live (inr b) =
        both_deleted_gone now org root ids rows t m live
          (inl (contains_of_mem t.id ids (mem-of-Below t.id b)))

    -- The parent of a task that stays has stayed.
    parent_stays :
        (x : TaskRow) (p : ℕ)
        → Memᴰ x rows
        → IsLive x
        → x.parent_task_id ≡ some p
        → contains x.id ids ≡ false
        → (above : IsParent rows p x) → ¬ InSubtree rows org root above.row
    parent_stays x p m live under kept above (inl (e, o)) =
        let root_parent : x.parent_task_id ≡ some root = ground (arith, above.id) in
        let listed = mem-of-child x m live (sym above.org ∙ o) root_parent in
        cc (contains_of_mem x.id ids listed)
    parent_stays x p m live under kept above (inr b) =
        let q = Below-IsOwn rows org root above.row.id b in
        let same : q.row ≡ above.row = wf.unique q.row above.row q.listed above.listed q.id in
        let same_org : x.org_id ≡ org = ground (arith, above.org, q.org, same) in
        let listed =
          subtask_ids_closed org rows max_rounds (children_of org (root ∷ []) rows) ids x p answer m
            live same_org under (rw above.id at (mem-of-Below above.row.id b)) in
        cc (contains_of_mem x.id ids listed)

    after-IsWellFormed : IsWellFormed after
    unfolding after is_listed
    after-IsWellFormed = record {
      unique = both_deleted_unique now org root ids rows wf;
      bounded = λ t m live.
          let (x, mx, e, how) = both_deleted_cases now org root ids rows t m in
          elim how [
            | inl (same, a, b) ↦ rw same (wf.bounded x mx (ground arith))
            | inr gone ↦ absurd (ground arith)
          ];
      nested = λ t p m live under.
          let (x, mx, e, how) = both_deleted_cases now org root ids rows t m in
          elim how [
            | inl (same, a, b) ↦
                let lx : IsLive x = ground arith in
                let ux : x.parent_task_id ≡ some p = ground arith in
                let above = wf.nested x p mx lx ux in
                record {
                  row = above.row;
                  listed =
                      kept_of_outside above.row above.listed (parent_stays x p mx lx ux a above);
                  live = above.live;
                  id = above.id;
                  org = ground (arith, above.org);
                  level = ground (arith, above.level);
                }
            | inr gone ↦ absurd (ground arith)
          ];
    }

  pub cascade_soft_delete_lem :
      (rows' : List TaskRow) × (cascade_soft_delete now org root rows ≡ some rows')
      × IsCascaded now org root rows rows'
  unfolding cascade_soft_delete both_deleted below_deleted is_root is_listed
  cascade_soft_delete_lem =
      let (ids, answer) =
        subtask_ids_ends org rows wf max_rounds 1 (children_of org (root ∷ []) rows)
          (IsDeep-root org rows wf root) (omega arith) in
      (
        both_deleted now org root ids rows,
        ground arith,
        record {
          well_formed = unfold after in after-IsWellFormed ids answer;
          gone = unfold after in gone_of_inside ids answer;
          kept = unfold after in kept_of_outside ids answer;
        },
      )
