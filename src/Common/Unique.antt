-- ===== src/Common/Unique.antt =====
-- A unique index: two rows of a table with the same key are one row.
use Prim.Native.Nat.{ℕ}
use mathlib.Core.Path.{◌≡◌, refl, sym, ap, ◌∙◌}
use mathlib.Core.Logic.{inl, inr}
use mathlib.Core.Bool.{Bool}
use mathlib.Core.Option.{none}
use mathlib.Core.List.{List, ◌∷◌, Memᴰ}
use native.Mathlib.Omega.{arith}
use multi_tenant_collaborati.Common.Tests.{if◌then◌else◌, ◌==◌, ==_refl, Bool-cases}
use multi_tenant_collaborati.Common.Lists.{
  select_first, update_where, delete_where, Memᴰ-cons, mem-update_where, mem-delete_where,
  select_first-none,
}

module _ {A : Type 0} (key : A → ℕ) where
  abbrev pub IsUnique : List A → Type 0
  IsUnique rows = (a b : A) → Memᴰ a rows → Memᴰ b rows → key a ≡ key b → a ≡ b

  pub delete_where-IsUnique :
      (p : A → Bool) (rows : List A) → IsUnique rows → IsUnique (delete_where p rows)
  delete_where-IsUnique p rows u a b ma mb e =
      u a b (mem-delete_where p rows a ma) (mem-delete_where p rows b mb) e

  updated_key :
      (p : A → Bool) (f : A → A) (x : A) → key (f x) ≡ key x → key (if p x then f x else x) ≡ key x
  updated_key p f x keeps = elim (Bool-cases (p x)) [
    | inl hit ↦ rw hit keeps
    | inr miss ↦ rw miss refl
  ]

  -- An update that does not write the key.
  pub update_where-IsUnique :
      (p : A → Bool) (f : A → A) (rows : List A)
      → ((x : A) → key (f x) ≡ key x)
      → IsUnique rows
      → IsUnique (update_where p f rows)
  update_where-IsUnique p f rows keeps u a b ma mb e =
      let (x, mx, ex) = mem-update_where p f rows a ma in
      let (y, my, ey) = mem-update_where p f rows b mb in
      let kx : key a ≡ key x = ap key ex ∙ updated_key p f x (keeps x) in
      let ky : key b ≡ key y = ap key ey ∙ updated_key p f y (keeps y) in
      let same : x ≡ y = u x y mx my (sym kx ∙ (e ∙ ky)) in
      ex ∙ (ap (λ (z : A). if p z then f z else z) same ∙ sym ey)

  -- An insert of a row whose key no row has.
  pub cons-IsUnique :
      (row : A) (rows : List A)
      → select_first (λ (x : A). key x == key row) rows ≡ none
      → IsUnique rows
      → IsUnique (row ∷ rows)
  cons-IsUnique row rows free u a b ma mb e = elim ((Memᴰ-cons a row rows).0 ma) [
    | inl ea ↦ elim ((Memᴰ-cons b row rows).0 mb) [
      | inl eb ↦ ea ∙ sym eb
      | inr lb ↦
          let miss = select_first-none (λ (x : A). key x == key row) rows b free lb in
          let same : key b ≡ key row = sym e ∙ ap key ea in
          absurd (ground (arith, ==_refl (key row)))
    ]
    | inr la ↦ elim ((Memᴰ-cons b row rows).0 mb) [
      | inl eb ↦
          let miss = select_first-none (λ (x : A). key x == key row) rows a free la in
          let same : key a ≡ key row = e ∙ ap key eb in absurd (ground (arith, ==_refl (key row)))
      | inr lb ↦ u a b la lb e
    ]
  ]
