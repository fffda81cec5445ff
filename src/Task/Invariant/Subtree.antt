-- ===== src/Task/Invariant/Subtree.antt =====
-- The recursive query of `cascadeSoftDelete` against the tasks below a task.
use multi_tenant_collaborati.Common.{
  ℕ, zero, suc, ◌+◌, ◌≤◌, ◌≡◌, refl, sym, Bool, true, ◌&&◌, ◌==◌, is_none, some, List, [], ◌∷◌,
  ◌++◌, Memᴰ, ◌∙◌, ap, arith, Bool-cases, Option-cases, inl, inr, mem_of_contains, contains_of_mem,
  Memᴰ-cons,
}
use mathlib.Core.List.Memᴰ
use multi_tenant_collaborati.Task.Row.{TaskRow}
use multi_tenant_collaborati.Task.Subtasks.{children_of, parent_in, subtask_ids}
use multi_tenant_collaborati.Task.Invariant.{IsLive, IsWellFormed}

-- A live row of the organization with this id.
pub record IsOwn (rows : List TaskRow) (o i : ℕ) : Type 0 where
  pub row : TaskRow
  pub listed : Memᴰ row rows
  pub live : IsLive row
  pub org : row.org_id ≡ o
  pub id : row.id ≡ i

-- The ids of the live tasks below `root`, through live tasks of the organization.
pub data Below (rows : List TaskRow) (org root : ℕ) : ℕ → Type 0 where
  child : {i : ℕ} (t : IsOwn rows org i) → t.row.parent_task_id ≡ some root → Below rows org root i
  deeper :
      {p i : ℕ}
      → Below rows org root p
      → (t : IsOwn rows org i) → t.row.parent_task_id ≡ some p
      → Below rows org root i

module _ (org : ℕ) where
  IsOwn-tail : (t : TaskRow) (ts : List TaskRow) (i : ℕ) → IsOwn ts org i → IsOwn (t ∷ ts) org i
  IsOwn-tail t ts i o = record {
    row = o.row;
    listed = Memᴰ.tail o.listed;
    live = o.live;
    org = o.org;
    id = o.id;
  }

  is_child : List ℕ → TaskRow → Bool
  is_child level t = t.org_id == org && (is_none t.deleted_at && parent_in level t.parent_task_id)

  pub children_of_sound :
      (level : List ℕ) (rows : List TaskRow) (i : ℕ)
      → Memᴰ i (children_of org level rows)
      → (t : IsOwn rows org i) × (p : ℕ) × (t.row.parent_task_id ≡ some p) × Memᴰ p level
  unfolding children_of is_child IsOwn-tail
  children_of_sound level [] i m = absurd (Memᴰ.not-nil m)
  children_of_sound level (t ∷ ts) i m = elim (Bool-cases (is_child level t)) [
    | inl hit ↦ elim ((Memᴰ-cons i t.id (children_of org level ts)).0 (rw hit at m)) [
      | inl e ↦ elim (Option-cases t.parent_task_id) [
        | inl orphan ↦ absurd (ground arith)
        | inr (p, under) ↦ (
          record {
            row = t;
            listed = Memᴰ.head refl;
            live = ground arith;
            org = ground arith;
            id = sym e;
          },
          p,
          under,
          mem_of_contains p level (ground arith),
        )
      ]
      | inr l ↦
          let (o, p, under, k) = children_of_sound level ts i l in
          (IsOwn-tail t ts i o, p, under, k)
    ]
    | inr miss ↦
        let (o, p, under, k) = children_of_sound level ts i (rw miss at m) in
        (IsOwn-tail t ts i o, p, under, k)
  ]

  pub children_of_complete :
      (level : List ℕ) (rows : List TaskRow) (t : TaskRow) (p : ℕ)
      → Memᴰ t rows
      → IsLive t
      → t.org_id ≡ org
      → t.parent_task_id ≡ some p
      → Memᴰ p level
      → Memᴰ t.id (children_of org level rows)
  unfolding children_of is_child
  children_of_complete level [] t p m live o under k = absurd (Memᴰ.not-nil m)
  children_of_complete level (r ∷ rs) t p m live o under k = elim ((Memᴰ-cons t r rs).0 m) [
    | inl e ↦
        let hit : is_child level r ≡ true =
          ground (arith, contains_of_mem p level k, e, live, o, under) in
        rw hit (Memᴰ.head (ground arith))
    | inr l ↦
        let later = children_of_complete level rs t p l live o under k in
        elim (Bool-cases (is_child level r)) [
          | inl hit ↦ rw hit (Memᴰ.tail later)
          | inr miss ↦ rw miss later
        ]
  ]

  module _ (rows : List TaskRow) where
    subtask_ids-cons :
        (fuel p : ℕ) (ps all : List ℕ)
        → subtask_ids (suc fuel) org (p ∷ ps) rows ≡ some all
        → (rest : List ℕ) × (subtask_ids fuel org (children_of org (p ∷ ps) rows) rows ≡ some rest)
          × (all ≡ (p ∷ ps) ++ rest)
    unfolding subtask_ids
    subtask_ids-cons fuel p ps all e =
        elim (Option-cases (subtask_ids fuel org (children_of org (p ∷ ps) rows) rows)) [
          | inl stuck ↦ absurd (ground arith)
          | inr (rest, more) ↦ (rest, more, ground arith)
        ]

    pub subtask_ids_level :
        (fuel : ℕ) (level all : List ℕ) (i : ℕ)
        → subtask_ids fuel org level rows ≡ some all
        → Memᴰ i level
        → Memᴰ i all
    unfolding subtask_ids
    subtask_ids_level fuel [] all i e m = absurd (Memᴰ.not-nil m)
    subtask_ids_level zero (p ∷ ps) all i e m = absurd (ground arith)
    subtask_ids_level (suc fuel) (p ∷ ps) all i e m =
        let (rest, more, same) = subtask_ids-cons fuel p ps all e in
        rw same (Memᴰ.append_left rest m)

    -- The answer holds the children of each id that it holds.
    pub subtask_ids_closed :
        (fuel : ℕ) (level all : List ℕ) (t : TaskRow) (p : ℕ)
        → subtask_ids fuel org level rows ≡ some all
        → Memᴰ t rows
        → IsLive t
        → t.org_id ≡ org
        → t.parent_task_id ≡ some p
        → Memᴰ p all
        → Memᴰ t.id all
    unfolding subtask_ids
    subtask_ids_closed fuel [] all t p e m live o under k =
        let none_found : [] ≡ all = ground arith in absurd (Memᴰ.not-nil {a = p} (rw none_found k))
    subtask_ids_closed zero (q ∷ qs) all t p e m live o under k = absurd (ground arith)
    subtask_ids_closed (suc fuel) (q ∷ qs) all t p e m live o under k =
        let (rest, more, same) = subtask_ids-cons fuel q qs all e in
        elim (Memᴰ.append_cases (q ∷ qs) (rw same at k)) [
          | inl here ↦ rw same (
              Memᴰ.append_right (q ∷ qs) (
                subtask_ids_level fuel (children_of org (q ∷ qs) rows) rest t.id more
                  (children_of_complete (q ∷ qs) rows t p m live o under here)))
          | inr later ↦ rw same (
              Memᴰ.append_right (q ∷ qs) (
                subtask_ids_closed fuel (children_of org (q ∷ qs) rows) rest t p more m live o under
                  later))
        ]

    -- A level whose ids all lie below the root gives an answer that lies below it.
    pub subtask_ids-Below :
        (root fuel : ℕ) (level all : List ℕ)
        → ((i : ℕ) → Memᴰ i level → Below rows org root i)
        → subtask_ids fuel org level rows ≡ some all
        → (i : ℕ) → Memᴰ i all
        → Below rows org root i
    unfolding subtask_ids
    subtask_ids-Below root fuel [] all h e i k =
        let none_found : [] ≡ all = ground arith in absurd (Memᴰ.not-nil {a = i} (rw none_found k))
    subtask_ids-Below root zero (q ∷ qs) all h e i k = absurd (ground arith)
    subtask_ids-Below root (suc fuel) (q ∷ qs) all h e i k =
        let (rest, more, same) = subtask_ids-cons fuel q qs all e in
        elim (Memᴰ.append_cases (q ∷ qs) (rw same at k)) [
          | inl here ↦ h i here
          | inr later ↦
              subtask_ids-Below root fuel (children_of org (q ∷ qs) rows) rest
                (λ j m.
                  let (t, p, under, up) = children_of_sound (q ∷ qs) rows j m in
                  deeper (h p up) t under)
                more i later
        ]

    module _ (wf : IsWellFormed rows) where
      -- Every id of the level is that of a task at least `k` levels deep.
      abbrev IsDeep : ℕ → List ℕ → Type 0
      IsDeep k level = (i : ℕ) → Memᴰ i level → (t : IsOwn rows org i) × (k ≤ t.row.depth)

      IsDeep-children :
          (k : ℕ) (level : List ℕ) → IsDeep k level → IsDeep (suc k) (children_of org level rows)
      IsDeep-children k level h i m =
          let (t, p, under, up) = children_of_sound level rows i m in
          let above = wf.nested t.row p t.listed t.live under in
          let (q, deep) = h p up in
          let same : above.row ≡ q.row =
            wf.unique above.row q.row above.listed q.listed (above.id ∙ sym q.id) in
          (t, omega (arith, above.level, ap (λ (r : TaskRow). r.depth) same))

      -- With unique ids and depths of at most two the query ends within the rounds.
      pub subtask_ids_ends :
          (fuel k : ℕ) (level : List ℕ)
          → IsDeep k level
          → 3 ≤ k + fuel
          → (all : List ℕ) × (subtask_ids fuel org level rows ≡ some all)
      unfolding subtask_ids
      subtask_ids_ends fuel k [] h enough = ([], refl)
      subtask_ids_ends zero k (p ∷ ps) h enough =
          let (t, deep) = h p (Memᴰ.head refl) in
          absurd (omega (arith, wf.bounded t.row t.listed t.live))
      subtask_ids_ends (suc fuel) k (p ∷ ps) h enough =
          let (rest, more) =
            subtask_ids_ends fuel (suc k) (children_of org (p ∷ ps) rows)
              (IsDeep-children k (p ∷ ps) h) (omega arith) in
          ((p ∷ ps) ++ rest, rw (more, subtask_ids) refl)

      pub IsDeep-root : (root : ℕ) → IsDeep 1 (children_of org (root ∷ []) rows)
      IsDeep-root root i m =
          let (t, p, under, up) = children_of_sound (root ∷ []) rows i m in
          let above = wf.nested t.row p t.listed t.live under in (t, omega (arith, above.level))
