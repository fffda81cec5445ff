-- ===== src/Task/Invariant/Marking.antt =====
-- The rows after the two updates of `cascadeSoftDelete`, for any list of ids.
use multi_tenant_collaborati.Common.{
  ℕ, ◌≡◌, refl, Bool, true, false, ◌&&◌, ◌==◌, is_none, some, List, Memᴰ, arith, Bool-cases, ◌⊎◌,
  inl, inr, contains, update_where, mem-update_where, update_where-mem,
}
use multi_tenant_collaborati.Task.Row.{TaskRow}
use multi_tenant_collaborati.Task.Repository.{soft_deleted}
use multi_tenant_collaborati.Task.Invariant.{IsLive, IsWellFormed, update_where_unique}

module _ (now org root : ℕ) (ids : List ℕ) (rows : List TaskRow) where
  unfoldable pub is_root : TaskRow → Bool
  is_root t = t.id == root && (t.org_id == org && is_none t.deleted_at)

  unfoldable pub is_listed : TaskRow → Bool
  is_listed t = contains t.id ids

  unfoldable pub below_deleted : List TaskRow
  below_deleted = update_where is_listed (soft_deleted now) rows

  unfoldable pub both_deleted : List TaskRow
  both_deleted = update_where is_root (soft_deleted now) below_deleted

  -- A row after the two updates: its row before, deleted or as it was.
  pub both_deleted_cases :
      (t : TaskRow)
      → Memᴰ t both_deleted
      → (x : TaskRow) × Memᴰ x rows
        × (t.id ≡ x.id)
        × ((t ≡ x) × (is_listed x ≡ false) × (is_root x ≡ false) ⊎ (t.deleted_at ≡ some now))
  unfolding both_deleted below_deleted is_root is_listed
  both_deleted_cases t m =
      let (y, my, ey) = mem-update_where is_root (soft_deleted now) below_deleted t m in
      let (x, mx, ex) = mem-update_where is_listed (soft_deleted now) rows y my in
      (x, mx, ground arith, ground arith)

  pub both_deleted_kept :
      (x : TaskRow) → Memᴰ x rows → is_listed x ≡ false → is_root x ≡ false → Memᴰ x both_deleted
  unfolding both_deleted below_deleted
  both_deleted_kept x m a b =
      let first = update_where-mem is_listed (soft_deleted now) rows x m in
      let second = update_where-mem is_root (soft_deleted now) below_deleted x (rw a at first) in
      rw b at second

  pub both_deleted_gone :
      (x : TaskRow)
      → Memᴰ x rows
      → IsLive x
      → (is_listed x ≡ true) ⊎ (is_root x ≡ true)
      → Memᴰ (soft_deleted now x) both_deleted
  unfolding both_deleted below_deleted is_root
  both_deleted_gone x m live h = elim (Bool-cases (is_listed x)) [
    | inl a ↦
        let first = update_where-mem is_listed (soft_deleted now) rows x m in
        let second =
          update_where-mem is_root (soft_deleted now) below_deleted (soft_deleted now x)
            (rw a at first) in
        let stays : is_root (soft_deleted now x) ≡ false = ground arith in rw stays at second
    | inr a ↦
        let first = update_where-mem is_listed (soft_deleted now) rows x m in
        let second = update_where-mem is_root (soft_deleted now) below_deleted x (rw a at first) in
        let hit : is_root x ≡ true = ground arith in rw hit at second
  ]

  pub both_deleted_unique :
      IsWellFormed rows
      → (t u : TaskRow) → Memᴰ t both_deleted
      → Memᴰ u both_deleted
      → t.id ≡ u.id
      → t ≡ u
  unfolding both_deleted below_deleted
  both_deleted_unique wf =
      update_where_unique is_root (soft_deleted now) below_deleted (λ t. refl)
        (update_where_unique is_listed (soft_deleted now) rows (λ t. refl) wf.unique)
