-- ===== src/FeatureFlag/Answers.antt =====
-- What src/modules/feature-flag/feature-flag.service.ts answers, whatever the caches hold.
use multi_tenant_collaborati.Common.{
  ℕ, ◌≡◌, refl, sym, ap, ◌∙◌, ◌⊎◌, inl, inr, Bool, true, false, Option, none, some, List, [], ◌∷◌,
  Memᴰ, Memᴰ-cons, arith, ◌==◌, ==_refl, Bool-cases, Option-cases, IsUnique,
}
use multi_tenant_collaborati.FeatureFlag.{
  FeatureFlagRow, CachedFlag, FlagState, cached_flag, resolve_flag, hset, hset_all,
  load_flags_into_redis, find_flag, fresh_l1, from_row, from_db, from_l2, from_l1, is_enabled,
  set_l1,
}
use multi_tenant_collaborati.FeatureFlag.Coherence.{flag_value, IsTable, IsCoherent}

-- An answer that the table gives may be kept in the process.
set_l1-IsCoherent :
    (now org key : ℕ) (answer : Bool) (s : FlagState)
    → answer ≡ flag_value org (find_flag key s.flags)
    → IsCoherent s
    → IsCoherent (set_l1 now org key answer s)
set_l1-IsCoherent now org key answer s right inv = record {
  l2_fits = inv.l2_fits;
  l1_fits = λ o k entry e. elim (Bool-cases (o == org)) [
    | inl same_org ↦ elim (Bool-cases (k == key)) [
      | inl same ↦
          let eo : o ≡ org = ground arith in
          let ek : k ≡ key = ground arith in rw (eo, ek) ground arith
      | inr other ↦ inv.l1_fits o k entry (ground arith)
    ]
    | inr other ↦ inv.l1_fits o k entry (ground arith)
  ];
}

hset-IsCoherent :
    (row : FeatureFlagRow) (key : ℕ) (s : FlagState)
    → find_flag key s.flags ≡ some row
    → IsCoherent s
    → IsCoherent (record s { l2 = hset key (cached_flag row) s.l2 })
hset-IsCoherent row key s found inv = record {
  l2_fits = λ k flag e. elim (Bool-cases (k == key)) [
    | inl same ↦ let ek : k ≡ key = ground arith in (row, rw ek found, ground arith)
    | inr other ↦ inv.l2_fits k flag (ground arith)
  ];
  l1_fits = inv.l1_fits;
}

-- The answer is the table's, and the caches stay coherent.
abbrev pub IsRight : ℕ → ℕ → FlagState → Bool × FlagState → Type 0
IsRight org key s (answer, after) =
    (answer ≡ flag_value org (find_flag key s.flags)) × (after.flags ≡ s.flags) × IsCoherent after

from_row-IsRight :
    (now org key : ℕ) (found : Option FeatureFlagRow) (s : FlagState)
    → find_flag key s.flags ≡ found
    → IsCoherent s
    → IsRight org key s (from_row now org key found s)
unfolding from_row flag_value
from_row-IsRight now org key none s e inv =
    let right = ap (flag_value org) e in
    (sym right, refl, set_l1-IsCoherent now org key false s (sym right) inv)
from_row-IsRight now org key (some row) s e inv =
    let right = ap (flag_value org) e in
    let answer = resolve_flag (cached_flag row) org in
    (
      sym right,
      refl,
      hset-IsCoherent row key (set_l1 now org key answer s) e
          (set_l1-IsCoherent now org key answer s (sym right) inv),
    )

l2_answer :
    (org key : ℕ) (flag : CachedFlag) (row : FeatureFlagRow) (s : FlagState)
    → find_flag key s.flags ≡ some row
    → cached_flag row ≡ flag
    → resolve_flag flag org ≡ flag_value org (find_flag key s.flags)
unfolding flag_value
l2_answer org key flag row s found fits =
    sym (ap (λ (c : CachedFlag). resolve_flag c org) fits) ∙ sym (ap (flag_value org) found)

from_l2-IsRight :
    (cached : Option CachedFlag) (now org key : ℕ) (s : FlagState)
    → s.l2 key ≡ cached
    → IsCoherent s
    → IsRight org key s (from_l2 cached true now org key s)
unfolding from_l2 from_db
from_l2-IsRight none now org key s e inv =
    from_row-IsRight now org key (find_flag key s.flags) s refl inv
from_l2-IsRight (some flag) now org key s e inv =
    let (row, found, fits) = inv.l2_fits key flag e in
    let right = l2_answer org key flag row s found fits in
    (right, refl, set_l1-IsCoherent now org key (resolve_flag flag org) s right inv)

from_l1-IsRight :
    (fresh : Option Bool) (now org key : ℕ) (s : FlagState)
    → fresh_l1 now (s.l1 org key) ≡ fresh
    → IsCoherent s
    → IsRight org key s (from_l1 fresh true now org key s)
unfolding from_l1
from_l1-IsRight none now org key s e inv = from_l2-IsRight (s.l2 key) now org key s refl inv
from_l1-IsRight (some answer) now org key s e inv = elim (Option-cases (s.l1 org key)) [
  | inl missing ↦ absurd (ground (arith))
  | inr (entry, held) ↦
      let kept : entry.value ≡ answer = ground arith in
      (sym kept ∙ inv.l1_fits org key entry held, refl, inv)
]

pub is_enabled-IsRight :
    (now org key : ℕ) (s : FlagState)
    → IsCoherent s
    → IsRight org key s (is_enabled true now org key s)
unfolding is_enabled
is_enabled-IsRight now org key s inv =
    from_l1-IsRight (fresh_l1 now (s.l1 org key)) now org key s refl inv

past_second :
    {a x y : FeatureFlagRow} {rows : List FeatureFlagRow}
    → Memᴰ a (x ∷ rows)
    → Memᴰ a (x ∷ y ∷ rows)
past_second m = elim ((Memᴰ-cons _ _ _).0 m) [
  | inl e ↦ Memᴰ.head e
  | inr l ↦ Memᴰ.tail (Memᴰ.tail l)
]

-- Loading all flags gives a key the flag of its row, and leaves a key without a row alone.
hset_all_lem :
    (rows : List FeatureFlagRow) (l2 : ℕ → Option CachedFlag) (key : ℕ) (row : FeatureFlagRow)
    → IsUnique (λ (r : FeatureFlagRow). r.key) (row ∷ rows)
    → row.key ≡ key
    → l2 key ≡ some (cached_flag row)
    → hset_all rows l2 key ≡ some (cached_flag row)
unfolding hset_all
hset_all_lem [] l2 key row unique same held = held
hset_all_lem (x ∷ xs) l2 key row unique same held = elim (Bool-cases (key == x.key)) [
  | inl hit ↦
      let one : x ≡ row =
        unique x row (Memᴰ.tail (Memᴰ.head refl)) (Memᴰ.head refl) (ground arith) in
      hset_all_lem xs (hset x.key (cached_flag x) l2) key row
        (λ a b ma mb. unique a b (past_second ma) (past_second mb)) same
        (rw hit (ap (λ (r : FeatureFlagRow). some (cached_flag r)) one))
  | inr miss ↦
      hset_all_lem xs (hset x.key (cached_flag x) l2) key row
        (λ a b ma mb. unique a b (past_second ma) (past_second mb)) same (rw miss held)
]

hset_all_fits :
    (rows : List FeatureFlagRow) (l2 : ℕ → Option CachedFlag) (key : ℕ) (flag : CachedFlag)
    → IsUnique (λ (r : FeatureFlagRow). r.key) rows
    → hset_all rows l2 key ≡ some flag
    → (l2 key ≡ some flag)
      ⊎ ((row : FeatureFlagRow) × (find_flag key rows ≡ some row) × (cached_flag row ≡ flag))
unfolding hset_all find_flag
hset_all_fits [] l2 key flag unique e = inl e
hset_all_fits (x ∷ xs) l2 key flag unique e = elim (Bool-cases (key == x.key)) [
  | inl hit ↦
      let same : x.key ≡ key = ground arith in
      let held = hset_all_lem xs (hset x.key (cached_flag x) l2) key x unique same (rw hit refl) in
      inr (x, ground (arith, ==_refl key), ground arith)
  | inr miss ↦
      elim (hset_all_fits xs (hset x.key (cached_flag x) l2) key flag
        (λ a b ma mb. unique a b (Memᴰ.tail ma) (Memᴰ.tail mb)) e) [
          | inl held ↦ inl (ground arith)
          | inr (row, found, fits) ↦ inr (row, ground arith, fits)
        ]
]

pub load_flags-IsCoherent :
    (s : FlagState) → IsTable s.flags → IsCoherent s → IsCoherent (load_flags_into_redis s)
unfolding load_flags_into_redis
load_flags-IsCoherent s table inv = record {
  l2_fits = λ key flag e. elim (hset_all_fits s.flags s.l2 key flag table.by_key e) [
    | inl held ↦ inv.l2_fits key flag held
    | inr fits ↦ fits
  ];
  l1_fits = inv.l1_fits;
}
