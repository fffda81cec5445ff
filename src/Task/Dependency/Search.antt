-- ===== src/Task/Dependency/Search.antt =====
-- The depth-first search of `wouldCreateCycle` against walks in the graph of dependencies.
use multi_tenant_collaborati.Common.{
  ℕ, zero, suc, ◌+◌, ◌≤◌, ◌<◌, ◌≡◌, refl, Bool, true, false, not, ◌&&◌, ◌==◌, if◌then◌else◌,
  Bool-cases, ◌⊎◌, inl, inr, some, List, [], ◌∷◌, Memᴰ, arith, length, contains, Memᴰ-cons,
  mem_of_contains,
}
use mathlib.Core.List.Memᴰ
use multi_tenant_collaborati.Task.Row.{TaskDependencyRow}
use multi_tenant_collaborati.Task.Dependency.{
  blocked_ids, push_all, search_loop, would_create_cycle,
}
use multi_tenant_collaborati.Task.Dependency.Graph.{
  Edge, Reach, here, step, blocked_ids_sound, blocked_ids_complete,
}

-- The rows that a later round may still push.
abbrev pending : ℕ → List ℕ → List TaskDependencyRow → ℕ
pending org visited [] = 0
pending org visited (d ∷ ds) =
    if d.org_id == org && not (contains d.blocking_task_id visited)
    then suc (pending org visited ds)
    else pending org visited ds

pending_visit :
    (org c : ℕ) (visited : List ℕ) (ds : List TaskDependencyRow)
    → contains c visited ≡ false
    → pending org (c ∷ visited) ds + length (blocked_ids org c ds) ≡ pending org visited ds
unfolding blocked_ids
pending_visit org c visited [] h = omega arith
pending_visit org c visited (d ∷ ds) h = ground (arith, pending_visit org c visited ds h)

pending-le-length :
    (org : ℕ) (visited : List ℕ) (ds : List TaskDependencyRow) → pending org visited ds ≤ length ds
pending-le-length org visited [] = omega arith
pending-le-length org visited (d ∷ ds) = ground (arith, pending-le-length org visited ds)

length-push_all : (xs stack : List ℕ) → length (push_all xs stack) ≡ length xs + length stack
unfolding push_all
length-push_all [] stack = omega arith
length-push_all (x ∷ xs) stack = omega (arith, length-push_all xs (x ∷ stack))

mem-push_all : (v : ℕ) (xs stack : List ℕ) → Memᴰ v (push_all xs stack) → Memᴰ v xs ⊎ Memᴰ v stack
unfolding push_all
mem-push_all v [] stack m = inr m
mem-push_all v (x ∷ xs) stack m = elim (mem-push_all v xs (x ∷ stack) m) [
  | inl l ↦ inl (Memᴰ.tail l)
  | inr r ↦ elim ((Memᴰ-cons v x stack).0 r) [ inl e ↦ inl (Memᴰ.head e) | inr s ↦ inr s ]
]

push_all-mem : (v : ℕ) (xs stack : List ℕ) → Memᴰ v xs ⊎ Memᴰ v stack → Memᴰ v (push_all xs stack)
unfolding push_all
push_all-mem v [] stack (inl m) = absurd (Memᴰ.not-nil m)
push_all-mem v [] stack (inr m) = m
push_all-mem v (x ∷ xs) stack (inr m) = push_all-mem v xs (x ∷ stack) (inr (Memᴰ.tail m))
push_all-mem v (x ∷ xs) stack (inl m) = elim ((Memᴰ-cons v x xs).0 m) [
  | inl e ↦ push_all-mem v xs (x ∷ stack) (inr (Memᴰ.head e))
  | inr l ↦ push_all-mem v xs (x ∷ stack) (inl l)
]

module _ (org target : ℕ) (deps : List TaskDependencyRow) where
  search_hit :
      (fuel c : ℕ) (stack visited : List ℕ)
      → (c == target) ≡ true
      → search_loop (suc fuel) org target deps (c ∷ stack) visited ≡ some true
  unfolding search_loop
  search_hit fuel c stack visited h = ground arith

  search_old :
      (fuel c : ℕ) (stack visited : List ℕ)
      → (c == target) ≡ false
      → contains c visited ≡ true
      → search_loop (suc fuel) org target deps (c ∷ stack) visited
        ≡ search_loop fuel org target deps stack visited
  unfolding search_loop
  search_old fuel c stack visited h k = ground arith

  search_new :
      (fuel c : ℕ) (stack visited : List ℕ)
      → (c == target) ≡ false
      → contains c visited ≡ false
      → search_loop (suc fuel) org target deps (c ∷ stack) visited
        ≡ search_loop fuel org target deps (push_all (blocked_ids org c deps) stack) (c ∷ visited)
  unfolding search_loop
  search_new fuel c stack visited h k = ground arith

  search_loop_ends :
      (fuel : ℕ) (stack visited : List ℕ)
      → length stack + pending org visited deps < fuel
      → (found : Bool) × (search_loop fuel org target deps stack visited ≡ some found)
  unfolding search_loop
  search_loop_ends zero stack visited h = absurd (omega arith)
  search_loop_ends (suc fuel) [] visited h = (false, refl)
  search_loop_ends (suc fuel) (c ∷ stack) visited h = elim (Bool-cases (c == target)) [
    | inl hit ↦ (true, search_hit fuel c stack visited hit)
    | inr miss ↦ elim (Bool-cases (contains c visited)) [
      | inl old ↦
          rw (search_old fuel c stack visited miss old)
            (search_loop_ends fuel stack visited (omega arith))
      | inr new ↦ rw (search_new fuel c stack visited miss new) (
          search_loop_ends fuel (push_all (blocked_ids org c deps) stack) (c ∷ visited) (
            omega (
              arith,
              length-push_all (blocked_ids org c deps) stack,
              pending_visit org c visited deps new,
            )))
    ]
  ]

  -- A task that is reported was reached.
  search_loop_sound :
      (source fuel : ℕ) (stack visited : List ℕ)
      → ((v : ℕ) → Memᴰ v stack → Reach org deps source v)
      → search_loop fuel org target deps stack visited ≡ some true
      → Reach org deps source target
  unfolding search_loop
  search_loop_sound source zero stack visited h e = absurd (ground arith)
  search_loop_sound source (suc fuel) [] visited h e = absurd (ground arith)
  search_loop_sound source (suc fuel) (c ∷ stack) visited h e = elim (Bool-cases (c == target)) [
    | inl hit ↦ let same : c ≡ target = ground arith in rw (← same) (h c (Memᴰ.head refl))
    | inr miss ↦ elim (Bool-cases (contains c visited)) [
      | inl old ↦
          search_loop_sound source fuel stack visited (λ v m. h v (Memᴰ.tail m))
            (rw (search_old fuel c stack visited miss old) at e)
      | inr new ↦
          search_loop_sound source fuel (push_all (blocked_ids org c deps) stack) (c ∷ visited)
            (λ v m. elim (mem-push_all v (blocked_ids org c deps) stack m) [
              | inl n ↦ step (h c (Memᴰ.head refl)) (blocked_ids_sound org c v deps n)
              | inr s ↦ h v (Memᴰ.tail s)
            ])
            (rw (search_new fuel c stack visited miss new) at e)
    ]
  ]

  -- What was visited is not the target, and its successors are visited or wait on the stack.
  record Closed (source : ℕ) (stack visited : List ℕ) : Type 0 where
    start : Memᴰ source visited ⊎ Memᴰ source stack
    apart : (v : ℕ) → Memᴰ v visited → ¬ (v ≡ target)
    closed : (u v : ℕ) → Memᴰ u visited → Edge org deps u v → Memᴰ v visited ⊎ Memᴰ v stack

  Closed-skip :
      (source c : ℕ) (stack visited : List ℕ)
      → Memᴰ c visited
      → Closed source (c ∷ stack) visited
      → Closed source stack visited
  Closed-skip source c stack visited old k = record {
    start = drop_head source k.start;
    apart = k.apart;
    closed = λ u v m e. drop_head v (k.closed u v m e);
  }
    where
      drop_head : (v : ℕ) → Memᴰ v visited ⊎ Memᴰ v (c ∷ stack) → Memᴰ v visited ⊎ Memᴰ v stack
      drop_head v (inl m) = inl m
      drop_head v (inr m) = elim ((Memᴰ-cons v c stack).0 m) [
        | inl e ↦ inl (rw e old)
        | inr s ↦ inr s
      ]

  Closed-visit :
      (source c : ℕ) (stack visited : List ℕ)
      → ¬ (c ≡ target)
      → Closed source (c ∷ stack) visited
      → Closed source (push_all (blocked_ids org c deps) stack) (c ∷ visited)
  Closed-visit source c stack visited ne k = record {
    start = move source k.start;
    apart = λ v m. elim ((Memᴰ-cons v c visited).0 m) [
      | inl e ↦ λ t. ne (rw (← e) t)
      | inr old ↦ k.apart v old
    ];
    closed = λ u v m e. elim ((Memᴰ-cons u c visited).0 m) [
      | inl same ↦ inr (
          push_all-mem v (blocked_ids org c deps) stack
            (inl (blocked_ids_complete org c v deps (rw same at e))))
      | inr old ↦ move v (k.closed u v old e)
    ];
  }
    where
      move :
          (v : ℕ)
          → Memᴰ v visited ⊎ Memᴰ v (c ∷ stack)
          → Memᴰ v (c ∷ visited) ⊎ Memᴰ v (push_all (blocked_ids org c deps) stack)
      move v (inl m) = inl (Memᴰ.tail m)
      move v (inr m) = elim ((Memᴰ-cons v c stack).0 m) [
        | inl e ↦ inl (Memᴰ.head e)
        | inr s ↦ inr (push_all-mem v (blocked_ids org c deps) stack (inr s))
      ]

  Reach-visited :
      (source v : ℕ) (visited : List ℕ)
      → Closed source [] visited
      → Reach org deps source v
      → Memᴰ v visited
  Reach-visited source v visited k here = elim k.start [
    | inl m ↦ m
    | inr m ↦ absurd (Memᴰ.not-nil m)
  ]
  Reach-visited source v visited k (step {u} {v = w} p e) =
      elim (k.closed u v (Reach-visited source u visited k p) e) [
        | inl m ↦ m
        | inr m ↦ absurd (Memᴰ.not-nil m)
      ]

  -- A search that reports nothing has seen all that can be reached.
  search_loop_complete :
      (source fuel : ℕ) (stack visited : List ℕ)
      → Closed source stack visited
      → search_loop fuel org target deps stack visited ≡ some false
      → ¬ Reach org deps source target
  unfolding search_loop
  search_loop_complete source zero stack visited k e = absurd (ground arith)
  search_loop_complete source (suc fuel) [] visited k e =
      λ p. k.apart target (Reach-visited source target visited k p) refl
  search_loop_complete source (suc fuel) (c ∷ stack) visited k e = elim (Bool-cases (c == target)) [
    | inl hit ↦ absurd (ground arith)
    | inr miss ↦ elim (Bool-cases (contains c visited)) [
      | inl old ↦
          search_loop_complete source fuel stack visited
            (Closed-skip source c stack visited (mem_of_contains c visited old) k)
            (rw (search_old fuel c stack visited miss old) at e)
      | inr new ↦
          search_loop_complete source fuel (push_all (blocked_ids org c deps) stack) (c ∷ visited)
            (Closed-visit source c stack visited (ground arith) k)
            (rw (search_new fuel c stack visited miss new) at e)
    ]
  ]

-- For every dependency table the search of `wouldCreateCycle` ends, with `true` if the blocked
-- task leads to the blocking one along dependencies of the organization, and with `false` only if
-- no chain of dependencies leads there.
pub would_create_cycle_decides :
    (org blocking blocked : ℕ) (deps : List TaskDependencyRow)
    → (would_create_cycle org blocking blocked deps ≡ some true) × Reach org deps blocked blocking
      ⊎ (would_create_cycle org blocking blocked deps ≡ some false)
        × (¬ Reach org deps blocked blocking)
unfolding would_create_cycle
would_create_cycle_decides org blocking blocked deps = by_result (
    search_loop_ends org blocking deps (length deps + 2) (blocked ∷ []) []
      (omega (arith, pending-le-length org [] deps)))
  where
    by_result :
        (found : Bool) × (search_loop (length deps + 2) org blocking deps (blocked ∷ []) []
            ≡ some found)
        → (search_loop (length deps + 2) org blocking deps (blocked ∷ []) [] ≡ some true)
            × Reach org deps blocked blocking
          ⊎ (search_loop (length deps + 2) org blocking deps (blocked ∷ []) [] ≡ some false)
            × (¬ Reach org deps blocked blocking)
    by_result (true, e) = inl (
      e,
      search_loop_sound org blocking deps blocked (length deps + 2) (blocked ∷ []) []
          (λ v m. rw (Memᴰ.eq_of_singleton m) here) e,
    )
    by_result (false, e) = inr (
      e,
      search_loop_complete org blocking deps blocked (length deps + 2) (blocked ∷ []) []
          (record {
            start = inr (Memᴰ.head refl);
            apart = λ v m. absurd (Memᴰ.not-nil m);
            closed = λ u v m e'. absurd (Memᴰ.not-nil m);
          })
          e,
    )
