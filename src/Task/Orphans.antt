-- ===== src/Task/Orphans.antt =====
-- The subtasks that `bulkDelete` of src/modules/task/bulk.service.ts leaves under deleted tasks.
use multi_tenant_collaborati.Common.{
  ℕ, ◌≡◌, refl, ap, inl, inr, Bool, true, false, some, List, Memᴰ, arith, contains, Bool-cases, ok,
  mem-update_where, update_where-mem, update_where,
}
use multi_tenant_collaborati.Task.Row.{TaskRow, TaskDb}
use multi_tenant_collaborati.Task.Bulk.{in_bulk, bulk_soft_delete, check_bulk, bulk_delete}
use multi_tenant_collaborati.Task.Invariant.{IsLive, IsWellFormed}

bulk_delete-tasks :
    (now org user : ℕ) (ids : List ℕ) (db : TaskDb)
    → check_bulk org user ids db ≡ (ok tt, db)
    → (bulk_delete now org user ids db).1.tasks
      ≡ update_where (in_bulk org ids) (λ t. record t { deleted_at = some now }) db.tasks
unfolding bulk_delete bulk_soft_delete
bulk_delete-tasks now org user ids db passed = ground arith

abbrev gone : ℕ → TaskRow → TaskRow
gone now t = record t { deleted_at = some now }

clash : (p : TaskRow → Bool) (x y : TaskRow) → x ≡ y → p x ≡ false → p y ≡ true → ⊥
clash p x y same miss hit = let both : p x ≡ p y = ap p same in ground arith

-- A bulk deletion that passes its checks and names a live task of the organization, but not a live
-- subtask of it, leaves the table ill formed: the subtask hangs under a deleted task.
pub bulk_delete_orphans :
    (now org user : ℕ) (ids : List ℕ) (db : TaskDb) (task child : TaskRow)
    → IsWellFormed db.tasks
    → check_bulk org user ids db ≡ (ok tt, db)
    → Memᴰ task db.tasks
    → in_bulk org ids task ≡ true
    → Memᴰ child db.tasks
    → IsLive child
    → child.parent_task_id ≡ some task.id
    → contains child.id ids ≡ false
    → ¬ IsWellFormed (bulk_delete now org user ids db).1.tasks
bulk_delete_orphans now org user ids db task child h passed listed named there live under spared
      h' =
    let rows = bulk_delete-tasks now org user ids db passed in
    let kept : in_bulk org ids child ≡ false = ground arith in
    let there' : Memᴰ child (update_where (in_bulk org ids) (gone now) db.tasks) =
      rw kept at (update_where-mem (in_bulk org ids) (gone now) db.tasks child there) in
    let above = h'.nested child task.id (rw rows there') live under in
    let (x, mx, ex) =
      mem-update_where (in_bulk org ids) (gone now) db.tasks above.row (rw rows at above.listed) in
    elim (Bool-cases (in_bulk org ids x)) [
      | inl hit ↦
          let dead : above.row.deleted_at ≡ some now = rw (ex, hit) refl in
          let up = above.live in absurd (ground arith)
      | inr miss ↦
          let same : above.row ≡ x = rw miss at ex in
          let one : x ≡ task = h.unique x task mx listed (rw (← same) above.id) in
          absurd (clash (in_bulk org ids) x task one miss named)
    ]
