-- ===== src/Task/Dependency/Graph.antt =====
-- The dependencies of an organization as a graph, and walks in it.
use multi_tenant_collaborati.Common.{
  ℕ, ◌≡◌, refl, sym, ◌≢◌, ◌&&◌, ◌==◌, Bool-cases, ◌⊎◌, inl, inr, List, [], ◌∷◌, Memᴰ, arith,
  Memᴰ-cons,
}
use multi_tenant_collaborati.Task.Row.{TaskDependencyRow}
use multi_tenant_collaborati.Task.Dependency.{blocked_ids}
use mathlib.Core.List.Memᴰ

-- Some row of the organization says that `u` blocks `v`.
abbrev pub Edge : ℕ → List TaskDependencyRow → ℕ → ℕ → Type 0
Edge org deps u v =
    (d : TaskDependencyRow) × Memᴰ d deps
    × (d.org_id ≡ org)
    × (d.blocking_task_id ≡ u)
    × (d.blocked_task_id ≡ v)

pub data Reach (org : ℕ) (deps : List TaskDependencyRow) (source : ℕ) : ℕ → Type 0 where
  here : Reach org deps source source
  step : {u v : ℕ} → Reach org deps source u → Edge org deps u v → Reach org deps source v

-- No task blocks itself, directly or through others.
abbrev pub IsAcyclic : ℕ → List TaskDependencyRow → Type 0
IsAcyclic org deps = (u v : ℕ) → Edge org deps u v → ¬ Reach org deps v u

module _ (org : ℕ) where
  pub Edge-nil : (u v : ℕ) → ¬ Edge org [] u v
  Edge-nil u v (d, m, o, b, c) = Memᴰ.not-nil m

  pub Edge-tail :
      (d : TaskDependencyRow) (ds : List TaskDependencyRow) (u v : ℕ)
      → Edge org ds u v
      → Edge org (d ∷ ds) u v
  Edge-tail d ds u v (r, m, o, b, c) = (r, Memᴰ.tail m, o, b, c)

  pub Edge-cons :
      (d : TaskDependencyRow) (ds : List TaskDependencyRow) (u v : ℕ)
      → Edge org (d ∷ ds) u v
      → Edge org ds u v ⊎ ((d.org_id ≡ org) × (d.blocking_task_id ≡ u) × (d.blocked_task_id ≡ v))
  Edge-cons d ds u v (r, m, o, b, c) = elim ((Memᴰ-cons r d ds).0 m) [
    | inl e ↦ inr (ground arith, ground arith, ground arith)
    | inr t ↦ inl (r, t, o, b, c)
  ]

  -- What the query returns is exactly the successors in the graph.
  pub blocked_ids_sound :
      (u v : ℕ) (ds : List TaskDependencyRow) → Memᴰ v (blocked_ids org u ds) → Edge org ds u v
  unfolding blocked_ids
  blocked_ids_sound u v [] m = absurd (Memᴰ.not-nil m)
  blocked_ids_sound u v (d ∷ ds) m =
      elim (Bool-cases (d.org_id == org && d.blocking_task_id == u)) [
        | inl hit ↦ elim ((Memᴰ-cons v d.blocked_task_id (blocked_ids org u ds)).0 (rw hit at m)) [
          | inl e ↦ (d, Memᴰ.head refl, ground arith, ground arith, sym e)
          | inr t ↦ Edge-tail d ds u v (blocked_ids_sound u v ds t)
        ]
        | inr miss ↦ Edge-tail d ds u v (blocked_ids_sound u v ds (rw miss at m))
      ]

  pub blocked_ids_complete :
      (u v : ℕ) (ds : List TaskDependencyRow) → Edge org ds u v → Memᴰ v (blocked_ids org u ds)
  unfolding blocked_ids
  blocked_ids_complete u v [] e = absurd (Edge-nil u v e)
  blocked_ids_complete u v (d ∷ ds) e =
      elim (Bool-cases (d.org_id == org && d.blocking_task_id == u)) [
        | inl hit ↦ rw hit (elim (Edge-cons d ds u v e) [
          | inl old ↦ Memᴰ.tail (blocked_ids_complete u v ds old)
          | inr (o, b, c) ↦ Memᴰ.head (sym c)
        ])
        | inr miss ↦ rw miss (elim (Edge-cons d ds u v e) [
          | inl old ↦ blocked_ids_complete u v ds old
          | inr (o, b, c) ↦ absurd (ground arith)
        ])
      ]

  abbrev Split : TaskDependencyRow → List TaskDependencyRow → ℕ → ℕ → Type 0
  Split d ds x y =
      Reach org ds x y ⊎ (Reach org ds x d.blocking_task_id × Reach org ds d.blocked_task_id y)

  step_cases :
      (d : TaskDependencyRow) (ds : List TaskDependencyRow) (x u y : ℕ)
      → Split d ds x u
      → Edge org ds u y ⊎ ((d.org_id ≡ org) × (d.blocking_task_id ≡ u) × (d.blocked_task_id ≡ y))
      → Split d ds x y
  step_cases d ds x u y (inl p) (inl e) = inl (step p e)
  step_cases d ds x u y (inr (p, q)) (inl e) = inr (p, step q e)
  step_cases d ds x u y (inl p) (inr (o, b, c)) = inr (rw b p, rw c here)
  step_cases d ds x u y (inr (p, q)) (inr (o, b, c)) = inr (p, rw c here)

  pub Reach-trans :
      (ds : List TaskDependencyRow) {x y z : ℕ}
      → Reach org ds x y
      → Reach org ds y z
      → Reach org ds x z
  Reach-trans ds p here = p
  Reach-trans ds p (step q e) = step (Reach-trans ds p q) e

  pub Reach-mono :
      (ds es : List TaskDependencyRow) {x y : ℕ}
      → ((u v : ℕ) → Edge org ds u v → Edge org es u v)
      → Reach org ds x y
      → Reach org es x y
  Reach-mono ds es f here = here
  Reach-mono ds es f (step {u} {v} p e) = step (Reach-mono ds es f p) (f u _ e)

  -- Walks after one row is added.
  pub Reach-cons :
      (d : TaskDependencyRow) (ds : List TaskDependencyRow) (x y : ℕ)
      → Reach org (d ∷ ds) x y
      → Reach org ds x y ⊎ (Reach org ds x d.blocking_task_id × Reach org ds d.blocked_task_id y)
  Reach-cons d ds x y here = inl here
  Reach-cons d ds x y (step {u} {v} p e) =
      step_cases d ds x u y (Reach-cons d ds x u p) (Edge-cons d ds u y e)

  -- A row that no walk back already answers keeps the graph acyclic.
  pub IsAcyclic-cons :
      (d : TaskDependencyRow) (ds : List TaskDependencyRow)
      → IsAcyclic org ds
      → ¬ Reach org ds d.blocked_task_id d.blocking_task_id
      → IsAcyclic org (d ∷ ds)
  IsAcyclic-cons d ds h free u v e r = elim (Edge-cons d ds u v e) [
    | inl old ↦ elim (Reach-cons d ds v u r) [
      | inl p ↦ h u v old p
      | inr (p, q) ↦ free (Reach-trans ds (step q old) p)
    ]
    | inr (o, b, c) ↦ elim (Reach-cons d ds v u r) [
      | inl p ↦ free (rw (c, b) p)
      | inr (p, q) ↦ free (rw c p)
    ]
  ]

  -- A row of another organization adds no edge to this one.
  pub IsAcyclic-other :
      (d : TaskDependencyRow) (ds : List TaskDependencyRow)
      → d.org_id ≢ org
      → IsAcyclic org ds
      → IsAcyclic org (d ∷ ds)
  IsAcyclic-other d ds ne h u v e r = h u v (old_edge u v e) (Reach-mono (d ∷ ds) ds old_edge r)
    where
      old_edge : (x y : ℕ) → Edge org (d ∷ ds) x y → Edge org ds x y
      old_edge x y e' = elim (Edge-cons d ds x y e') [
        | inl old ↦ old
        | inr (o, b, c) ↦ absurd (ne o)
      ]
