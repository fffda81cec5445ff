-- ===== src/FeatureFlag/Coherence.antt =====
-- The caches of src/modules/feature-flag/feature-flag.service.ts against the table of flags.
use multi_tenant_collaborati.Common.{
  ℕ, ◌≡◌, refl, inl, inr, Bool, true, false, Option, none, some, List, [], ◌∷◌, Memᴰ, arith, ◌==◌,
  Bool-cases, IsUnique, not, update_where, delete_where,
}
use multi_tenant_collaborati.FeatureFlag.{
  FeatureFlagRow, CachedFlag, L1Entry, FlagState, UpdateFlagData, cached_flag, resolve_flag,
  find_flag, forget_l1, invalidate_flag, coalesce_flag, flag_by_id,
}
use mathlib.Core.Option

-- The flag for an organization as the table says it; one that is not in the table is off.
unfoldable pub flag_value : ℕ → Option FeatureFlagRow → Bool
unfolding resolve_flag
flag_value org none = false
flag_value org (some row) = resolve_flag (cached_flag row) org

-- The table's primary key and unique index.
pub record IsTable (rows : List FeatureFlagRow) : Type 0 where
  pub by_id : IsUnique (λ (row : FeatureFlagRow). row.id) rows
  pub by_key : IsUnique (λ (row : FeatureFlagRow). row.key) rows

-- What the caches hold is what the table says.
pub record IsCoherent (s : FlagState) : Type 0 where
  pub l2_fits :
      (key : ℕ) (flag : CachedFlag)
      → s.l2 key ≡ some flag
      → (row : FeatureFlagRow) × (find_flag key s.flags ≡ some row) × (cached_flag row ≡ flag)
  pub l1_fits :
      (org key : ℕ) (entry : L1Entry)
      → s.l1 org key ≡ some entry
      → entry.value ≡ flag_value org (find_flag key s.flags)

abbrev pub Agrees : (ℕ → Bool) → List FeatureFlagRow → List FeatureFlagRow → Type 0
Agrees at rows old = (k : ℕ) → at k ≡ true → find_flag k rows ≡ find_flag k old

-- A statement that changes no flag but those of one key leaves coherent caches, once that key is
-- invalidated.
pub invalidate_flag-IsCoherent :
    (key : ℕ) (rows : List FeatureFlagRow) (s : FlagState)
    → Agrees (λ (k : ℕ). not (k == key)) rows s.flags
    → IsCoherent s
    → IsCoherent (invalidate_flag key (record s { flags = rows }))
unfolding invalidate_flag forget_l1
invalidate_flag-IsCoherent key rows s agrees inv = record {
  l2_fits = λ k flag e. elim (Bool-cases (k == key)) [
    | inl same ↦ absurd (ground arith)
    | inr other ↦ rw (agrees k (ground arith)) (inv.l2_fits k flag (ground arith))
  ];
  l1_fits = λ org k entry e. elim (Bool-cases (k == key)) [
    | inl same ↦ absurd (ground arith)
    | inr other ↦ rw (agrees k (ground arith)) (inv.l1_fits org k entry (ground arith))
  ];
}

pub same_flags-IsCoherent :
    (rows : List FeatureFlagRow) (s : FlagState)
    → Agrees (λ _. true) rows s.flags
    → IsCoherent s
    → IsCoherent (record s { flags = rows })
same_flags-IsCoherent rows s agrees inv = record {
  l2_fits = λ k flag e. rw (agrees k refl) (inv.l2_fits k flag e);
  l1_fits = λ org k entry e. rw (agrees k refl) (inv.l1_fits org k entry e);
}

pub forget_l1-IsCoherent : (key : ℕ) (s : FlagState) → IsCoherent s → IsCoherent (forget_l1 key s)
unfolding forget_l1
forget_l1-IsCoherent key s inv = record {
  l2_fits = λ k flag e. inv.l2_fits k flag e;
  l1_fits = λ org k entry e. inv.l1_fits org k entry (ground arith);
}

-- The row of a key is another than the row of an id.
abbrev pub Apart : ℕ → ℕ → List FeatureFlagRow → Type 0
Apart key id rows = (b : FeatureFlagRow) → Memᴰ b rows → b.key ≡ key → (b.id == id) ≡ false

pub find_flag-update_other :
    (key now id : ℕ) (change : UpdateFlagData) (rows : List FeatureFlagRow)
    → Apart key id rows
    → find_flag key (update_where (λ row. row.id == id) (coalesce_flag now change) rows)
      ≡ find_flag key rows
unfolding find_flag
find_flag-update_other key now id change [] apart = refl
find_flag-update_other key now id change (x ∷ xs) apart = ground (
  arith,
  apart x (Memᴰ.head refl),
  find_flag-update_other key now id change xs (λ b m. apart b (Memᴰ.tail m)),
)

pub find_flag-delete_other :
    (key id : ℕ) (rows : List FeatureFlagRow)
    → Apart key id rows
    → find_flag key (delete_where (λ row. row.id == id) rows) ≡ find_flag key rows
unfolding find_flag
find_flag-delete_other key id [] apart = refl
find_flag-delete_other key id (x ∷ xs) apart = ground (
  arith,
  apart x (Memᴰ.head refl),
  find_flag-delete_other key id xs (λ b m. apart b (Memᴰ.tail m)),
)

pub flag_by_id-update :
    (now id : ℕ) (change : UpdateFlagData) (rows : List FeatureFlagRow)
    → flag_by_id id (update_where (λ row. row.id == id) (coalesce_flag now change) rows)
      ≡ Option.map (coalesce_flag now change) (flag_by_id id rows)
flag_by_id-update now id change [] = refl
flag_by_id-update now id change (x ∷ xs) = ground (arith, flag_by_id-update now id change xs)
