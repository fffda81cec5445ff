-- ===== src/FeatureFlag/Refines.antt =====
-- Each operation of src/modules/feature-flag/feature-flag.service.ts against the table of flags.
use multi_tenant_collaborati.Common.{
  ℕ, ◌≡◌, refl, ap, inl, inr, Bool, true, false, not, none, some, List, ◌∷◌, arith, ◌==◌, ==_refl,
  if◌then◌else◌, is_some, Bool-cases, Option-cases, select_first, update_where, delete_where,
  mem-select_first, select_first-none, update_where-IsUnique, delete_where-IsUnique, cons-IsUnique,
}
use multi_tenant_collaborati.FeatureFlag.{
  FeatureFlagRow, FlagState, CreateFlagData, UpdateFlagData, find_flag, new_flag, create_flag,
  coalesce_flag, flag_by_id, is_taken, invalidate_returned, update_flag, delete_flag,
}
use multi_tenant_collaborati.FeatureFlag.Coherence.{
  IsTable, IsCoherent, Apart, invalidate_flag-IsCoherent, same_flags-IsCoherent,
  find_flag-update_other, find_flag-delete_other, flag_by_id-update,
}

-- The statements' effects on the table alone.
abbrev pub updated_flags : ℕ → ℕ → UpdateFlagData → List FeatureFlagRow → List FeatureFlagRow
updated_flags now id change rows =
    update_where (λ row. row.id == id) (coalesce_flag now change) rows

abbrev pub deleted_flags : ℕ → List FeatureFlagRow → List FeatureFlagRow
deleted_flags id rows = delete_where (λ row. row.id == id) rows

abbrev pub created_flags : ℕ → ℕ → CreateFlagData → List FeatureFlagRow → List FeatureFlagRow
created_flags new_id now flag rows =
    if is_taken new_id flag.key rows then rows else new_flag new_id now flag ∷ rows

Apart-none :
    (key id : ℕ) (rows : List FeatureFlagRow) → flag_by_id id rows ≡ none → Apart key id rows
Apart-none key id rows e b m same = select_first-none _ rows b e m

Apart-other :
    (key id : ℕ) (rows : List FeatureFlagRow) (a : FeatureFlagRow)
    → IsTable rows
    → flag_by_id id rows ≡ some a
    → not (key == a.key) ≡ true
    → Apart key id rows
Apart-other key id rows a table e other b m same =
    let (in_table, hit) = mem-select_first (λ (row : FeatureFlagRow). row.id == id) rows e in
    elim (Bool-cases (b.id == id)) [
      | inl equal ↦
          let one : b ≡ a = table.by_id b a m in_table (ground arith) in
          let keys : b.key ≡ a.key = ap (λ (r : FeatureFlagRow). r.key) one in
          absurd (ground (arith, ==_refl a.key))
      | inr apart ↦ apart
    ]

pub update_flag-IsCoherent :
    (now id : ℕ) (change : UpdateFlagData) (s : FlagState)
    → IsTable s.flags
    → IsCoherent s
    → IsCoherent (update_flag now id change s).1
unfolding update_flag invalidate_returned
update_flag-IsCoherent now id change s table inv = elim (Option-cases (flag_by_id id s.flags)) [
  | inl e ↦
      rw (flag_by_id-update now id change s.flags, e)
        (same_flags-IsCoherent (updated_flags now id change s.flags) s
          (λ k _. find_flag-update_other k now id change s.flags (Apart-none k id s.flags e)) inv)
  | inr (a, e) ↦
      rw (flag_by_id-update now id change s.flags, e)
        (invalidate_flag-IsCoherent a.key (updated_flags now id change s.flags) s
          (λ k other.
            find_flag-update_other k now id change s.flags
              (Apart-other k id s.flags a table e other))
          inv)
]

pub delete_flag-IsCoherent :
    (id : ℕ) (s : FlagState) → IsTable s.flags → IsCoherent s → IsCoherent (delete_flag id s)
unfolding delete_flag invalidate_returned
delete_flag-IsCoherent id s table inv = elim (Option-cases (flag_by_id id s.flags)) [
  | inl e ↦ rw e (
      same_flags-IsCoherent (deleted_flags id s.flags) s
        (λ k _. find_flag-delete_other k id s.flags (Apart-none k id s.flags e)) inv)
  | inr (a, e) ↦ rw e (
      invalidate_flag-IsCoherent a.key (deleted_flags id s.flags) s
        (λ k other. find_flag-delete_other k id s.flags (Apart-other k id s.flags a table e other))
        inv)
]

find_flag-create_other :
    (k new_id now : ℕ) (flag : CreateFlagData) (rows : List FeatureFlagRow)
    → not (k == flag.key) ≡ true
    → find_flag k (new_flag new_id now flag ∷ rows) ≡ find_flag k rows
unfolding find_flag new_flag
find_flag-create_other k new_id now flag rows other = ground arith

pub create_flag-IsCoherent :
    (new_id now : ℕ) (flag : CreateFlagData) (s : FlagState)
    → IsCoherent s
    → IsCoherent (create_flag new_id now flag s).1
unfolding create_flag
create_flag-IsCoherent new_id now flag s inv =
    elim (Bool-cases (is_taken new_id flag.key s.flags)) [
      | inl taken ↦ rw taken inv
      | inr free ↦ rw free (
          invalidate_flag-IsCoherent flag.key (new_flag new_id now flag ∷ s.flags) s
            (λ k other. find_flag-create_other k new_id now flag s.flags other) inv)
    ]

select_first_free :
    (p : FeatureFlagRow → Bool) (rows : List FeatureFlagRow)
    → is_some (select_first p rows) ≡ false
    → select_first p rows ≡ none
select_first_free p rows free = ground arith

pub update_flag-IsTable :
    (now id : ℕ) (change : UpdateFlagData) (rows : List FeatureFlagRow)
    → IsTable rows
    → IsTable (updated_flags now id change rows)
update_flag-IsTable now id change rows table = record {
  by_id = update_where-IsUnique _ _ (coalesce_flag now change) rows (λ x. refl) table.by_id;
  by_key = update_where-IsUnique _ _ (coalesce_flag now change) rows (λ x. refl) table.by_key;
}

pub delete_flag-IsTable :
    (id : ℕ) (rows : List FeatureFlagRow) → IsTable rows → IsTable (deleted_flags id rows)
delete_flag-IsTable id rows table = record {
  by_id = delete_where-IsUnique _ _ rows table.by_id;
  by_key = delete_where-IsUnique _ _ rows table.by_key;
}

pub create_flag-IsTable :
    (new_id now : ℕ) (flag : CreateFlagData) (rows : List FeatureFlagRow)
    → IsTable rows
    → IsTable (created_flags new_id now flag rows)
unfolding new_flag
create_flag-IsTable new_id now flag rows table = elim (Bool-cases (is_taken new_id flag.key rows)) [
  | inl taken ↦ rw taken table
  | inr free ↦ rw free (record {
    by_id =
        cons-IsUnique _ (new_flag new_id now flag) rows
          (select_first_free (λ (row : FeatureFlagRow). row.id == new_id) rows (ground arith))
          table.by_id;
    by_key =
        cons-IsUnique _ (new_flag new_id now flag) rows
          (select_first_free (λ (row : FeatureFlagRow). row.key == flag.key) rows (ground arith))
          table.by_key;
  })
]
