-- ===== src/Common/Lists.antt =====
-- Lists measured by native numbers, and tables as lists of rows: what `SELECT`, `UPDATE` and
-- `DELETE` with a `WHERE` do.
use Prim.Native.Nat.{ℕ, zero, suc, ◌+◌}
use mathlib.Core.Path.{◌≡◌, refl, sym}
use mathlib.Core.Logic.{◌↔◌, ◌⊎◌, ⊎_elim, inl, inr}
use mathlib.Core.Bool.{Bool, true, false, ◌||◌}
use mathlib.Core.Option.{Option, none, some}
use mathlib.Core.List.{List, [], ◌∷◌, ◌++◌, Memᴰ}
use mathlib.Core.List.Memᴰ
use native.Mathlib.Omega.{arith}
use multi_tenant_collaborati.Common.Tests.{if◌then◌else◌, ◌==◌, Bool-cases}

module _ {ℓ} {A : Type ℓ} where
  abbrev pub length : List A → ℕ
  length [] = 0
  length (_ ∷ xs) = suc (length xs)

  -- `SELECT * … WHERE p LIMIT 1`: the first row that fits.
  abbrev pub select_first : (A → Bool) → List A → Option A
  select_first p [] = none
  select_first p (x ∷ xs) = if p x then some x else select_first p xs

  -- `SELECT * … WHERE p`.
  abbrev pub select : (A → Bool) → List A → List A
  select p [] = []
  select p (x ∷ xs) = if p x then x ∷ select p xs else select p xs

  -- `ORDER BY created_at ASC`, where the rows stand with the newest first, as the inserts put them.
  abbrev pub oldest_first : List A → List A
  oldest_first [] = []
  oldest_first (x ∷ xs) = oldest_first xs ++ (x ∷ [])

  -- `LIMIT n`.
  abbrev pub limit_rows : ℕ → List A → List A
  limit_rows n [] = []
  limit_rows zero (x ∷ xs) = []
  limit_rows (suc n) (x ∷ xs) = x ∷ limit_rows n xs

  -- `OFFSET n`.
  abbrev pub skip_rows : ℕ → List A → List A
  skip_rows n [] = []
  skip_rows zero (x ∷ xs) = x ∷ xs
  skip_rows (suc n) (x ∷ xs) = skip_rows n xs

  -- `UPDATE … SET f WHERE p`.
  abbrev pub update_where : (A → Bool) → (A → A) → List A → List A
  update_where p f [] = []
  update_where p f (x ∷ xs) = (if p x then f x else x) ∷ update_where p f xs

  -- `DELETE … WHERE p`.
  abbrev pub delete_where : (A → Bool) → List A → List A
  delete_where p [] = []
  delete_where p (x ∷ xs) = if p x then delete_where p xs else x ∷ delete_where p xs

  -- `some`, and `EXISTS`.
  abbrev pub any : (A → Bool) → List A → Bool
  any p [] = false
  any p (x ∷ xs) = p x || any p xs

  pub length-append : (xs ys : List A) → length (xs ++ ys) ≡ length xs + length ys
  length-append [] ys = omega arith
  length-append (x ∷ xs) ys = omega (arith, length-append xs ys)

  pub List-cases : (xs : List A) → (xs ≡ []) ⊎ ((x : A) × (rest : List A) × (xs ≡ x ∷ rest))
  List-cases [] = inl refl
  List-cases (x ∷ xs) = inr (x, xs, refl)

  pub Memᴰ-cons : (a x : A) (xs : List A) → Memᴰ a (x ∷ xs) ↔ ((a ≡ x) ⊎ Memᴰ a xs)
  Memᴰ-cons a x xs = (Memᴰ.cases_cons, ⊎_elim Memᴰ.head Memᴰ.tail)

-- `ids.includes(id)`.
abbrev pub contains : ℕ → List ℕ → Bool
contains a [] = false
contains a (x ∷ xs) = x == a || contains a xs

pub mem_of_contains : (a : ℕ) (xs : List ℕ) → contains a xs ≡ true → Memᴰ a xs
mem_of_contains a [] h = absurd (ground arith)
mem_of_contains a (x ∷ xs) h = elim (Bool-cases (x == a)) [
  | inl same ↦ Memᴰ.head (ground arith)
  | inr other ↦ Memᴰ.tail (mem_of_contains a xs (ground arith))
]

pub contains_of_mem : (a : ℕ) (xs : List ℕ) → Memᴰ a xs → contains a xs ≡ true
contains_of_mem a [] m = absurd (Memᴰ.not-nil m)
contains_of_mem a (x ∷ xs) m = elim ((Memᴰ-cons a x xs).0 m) [
  | inl same ↦ ground arith
  | inr later ↦ ground (arith, contains_of_mem a xs later)
]

module _ {ℓ} {A : Type ℓ} where
  -- The row that a query returns is in the table and fits.
  pub mem-select_first :
      (p : A → Bool) (xs : List A) {a : A} → select_first p xs ≡ some a → Memᴰ a xs × (p a ≡ true)
  mem-select_first p [] e = absurd (ground arith)
  mem-select_first p (x ∷ xs) e = elim (Bool-cases (p x)) [
    | inl hit ↦ let same : x ≡ _ = ground arith in (Memᴰ.head (sym same), rw (← same) hit)
    | inr miss ↦ let (m, h) = mem-select_first p xs (rw miss at e) in (Memᴰ.tail m, h)
  ]

  -- Each row after an update comes from one row before it.
  pub mem-update_where :
      (p : A → Bool) (f : A → A) (xs : List A) (y : A)
      → Memᴰ y (update_where p f xs)
      → (x : A) × Memᴰ x xs × (y ≡ (if p x then f x else x))
  mem-update_where p f [] y m = absurd (Memᴰ.not-nil m)
  mem-update_where p f (x ∷ xs) y m = elim (Memᴰ.cases_cons m) [
    | inl e ↦ (x, Memᴰ.head refl, e)
    | inr l ↦ let (w, k, e) = mem-update_where p f xs y l in (w, Memᴰ.tail k, e)
  ]

  pub update_where-mem :
      (p : A → Bool) (f : A → A) (xs : List A) (x : A)
      → Memᴰ x xs
      → Memᴰ (if p x then f x else x) (update_where p f xs)
  update_where-mem p f [] x m = absurd (Memᴰ.not-nil m)
  update_where-mem p f (w ∷ xs) x m = elim (Memᴰ.cases_cons m) [
    | inl e ↦ Memᴰ.head (rw e refl)
    | inr l ↦ Memᴰ.tail (update_where-mem p f xs x l)
  ]

  -- A query whose test an update does not change finds the updated row.
  pub select_first-update_where :
      (q p : A → Bool) (f : A → A) (xs : List A) (a : A)
      → ((x : A) → q (f x) ≡ q x)
      → select_first q xs ≡ some a
      → select_first q (update_where p f xs) ≡ some (if p a then f a else a)
  select_first-update_where q p f [] a keeps e = absurd (ground arith)
  select_first-update_where q p f (x ∷ xs) a keeps e =
      ground (arith, keeps x, select_first-update_where q p f xs a keeps)

  pub select_first-update_hit :
      (q p : A → Bool) (f : A → A) (xs : List A) (a : A)
      → ((x : A) → q (f x) ≡ q x)
      → select_first q xs ≡ some a
      → p a ≡ true
      → select_first q (update_where p f xs) ≡ some (f a)
  select_first-update_hit q p f xs a keeps e hit =
      let found = select_first-update_where q p f xs a keeps e in rw hit at found

  pub mem-delete_where :
      (p : A → Bool) (xs : List A) (a : A) → Memᴰ a (delete_where p xs) → Memᴰ a xs
  mem-delete_where p [] a m = absurd (Memᴰ.not-nil m)
  mem-delete_where p (x ∷ xs) a m = elim (Bool-cases (p x)) [
    | inl hit ↦ Memᴰ.tail (mem-delete_where p xs a (rw hit at m))
    | inr miss ↦ elim (Memᴰ.cases_cons (rw miss at m)) [
      | inl e ↦ Memᴰ.head e
      | inr l ↦ Memᴰ.tail (mem-delete_where p xs a l)
    ]
  ]

  -- A query without a result: no row fits.
  pub select_first-none :
      (p : A → Bool) (xs : List A) (a : A) → select_first p xs ≡ none → Memᴰ a xs → p a ≡ false
  select_first-none p [] a e m = absurd (Memᴰ.not-nil m)
  select_first-none p (x ∷ xs) a e m = elim (Bool-cases (p x)) [
    | inl hit ↦ absurd (ground arith)
    | inr miss ↦ elim (Memᴰ.cases_cons m) [
      | inl same ↦ rw same miss
      | inr later ↦ select_first-none p xs a (rw miss at e) later
    ]
  ]
