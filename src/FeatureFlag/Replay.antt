-- ===== src/FeatureFlag/Replay.antt =====
-- Any sequence of operations of src/modules/feature-flag/feature-flag.service.ts against the table.
use multi_tenant_collaborati.Common.{
  ℕ, ◌≡◌, refl, ap, Bool, true, Option, none, some, List, [], ◌∷◌, arith,
}
use multi_tenant_collaborati.FeatureFlag.{
  FeatureFlagRow, FlagState, CreateFlagData, UpdateFlagData, load_flags_into_redis, find_flag,
  is_enabled, forget_l1, invalidate_flag, create_flag, update_flag, delete_flag,
  invalidate_returned,
}
use multi_tenant_collaborati.FeatureFlag.Coherence.{
  flag_value, IsTable, IsCoherent, forget_l1-IsCoherent,
}
use multi_tenant_collaborati.FeatureFlag.Refines.{
  updated_flags, deleted_flags, created_flags, update_flag-IsCoherent, delete_flag-IsCoherent,
  create_flag-IsCoherent, update_flag-IsTable, delete_flag-IsTable, create_flag-IsTable,
}
use multi_tenant_collaborati.FeatureFlag.Answers.{is_enabled-IsRight, load_flags-IsCoherent}

-- What the process is asked to do; `reload` is the safety net's interval, `message` an invalidation
-- that another process has published.
pub data FlagOp : Type 0 where
  ask : ℕ → ℕ → FlagOp
  create : ℕ → CreateFlagData → FlagOp
  update : ℕ → UpdateFlagData → FlagOp
  delete : ℕ → FlagOp
  reload : FlagOp
  message : ℕ → FlagOp

-- An operation at a time: what it answers, if it is a question, and the state after it.
unfoldable pub step : ℕ → FlagOp → FlagState → Option Bool × FlagState
step now (ask org key) s =
    let (answer, after) = is_enabled true now org key s in (some answer, after)
step now (create new_id flag) s = (none, (create_flag new_id now flag s).1)
step now (update id change) s = (none, (update_flag now id change s).1)
step now (delete id) s = (none, delete_flag id s)
step now reload s = (none, load_flags_into_redis s)
step now (message key) s = (none, forget_l1 key s)

-- The same without caches.
unfoldable pub step_on_table : ℕ → FlagOp → List FeatureFlagRow → Option Bool × List FeatureFlagRow
unfolding find_flag flag_value
step_on_table now (ask org key) rows = (some (flag_value org (find_flag key rows)), rows)
step_on_table now (create new_id flag) rows = (none, created_flags new_id now flag rows)
step_on_table now (update id change) rows = (none, updated_flags now id change rows)
step_on_table now (delete id) rows = (none, deleted_flags id rows)
step_on_table now reload rows = (none, rows)
step_on_table now (message key) rows = (none, rows)

unfoldable pub answers : List (ℕ × FlagOp) → FlagState → List (Option Bool)
unfolding step
answers [] s = []
answers ((now, op) ∷ ops) s = (step now op s).0 ∷ answers ops (step now op s).1

unfoldable pub answers_on_table : List (ℕ × FlagOp) → List FeatureFlagRow → List (Option Bool)
unfolding step_on_table
answers_on_table [] rows = []
answers_on_table ((now, op) ∷ ops) rows =
    (step_on_table now op rows).0 ∷ answers_on_table ops (step_on_table now op rows).1

create_flag-flags :
    (new_id now : ℕ) (flag : CreateFlagData) (s : FlagState)
    → (create_flag new_id now flag s).1.flags ≡ created_flags new_id now flag s.flags
unfolding create_flag invalidate_flag forget_l1
create_flag-flags new_id now flag s = ground arith

invalidate_returned-flags :
    (row : Option FeatureFlagRow) (s : FlagState) → (invalidate_returned row s).flags ≡ s.flags
unfolding invalidate_returned invalidate_flag forget_l1
invalidate_returned-flags none s = refl
invalidate_returned-flags (some row) s = refl

update_flag-flags :
    (now id : ℕ) (change : UpdateFlagData) (s : FlagState)
    → (update_flag now id change s).1.flags ≡ updated_flags now id change s.flags
unfolding update_flag
update_flag-flags now id change s = invalidate_returned-flags _ _

delete_flag-flags : (id : ℕ) (s : FlagState) → (delete_flag id s).flags ≡ deleted_flags id s.flags
unfolding delete_flag
delete_flag-flags id s = invalidate_returned-flags _ _

load_flags-flags : (s : FlagState) → (load_flags_into_redis s).flags ≡ s.flags
unfolding load_flags_into_redis
load_flags-flags s = refl

forget_l1-flags : (key : ℕ) (s : FlagState) → (forget_l1 key s).flags ≡ s.flags
unfolding forget_l1
forget_l1-flags key s = refl

-- One operation answers as the table does and changes the table as the statement does.
record IsFaithful (now : ℕ) (op : FlagOp) (s : FlagState) : Type 0 where
  answer : (step now op s).0 ≡ (step_on_table now op s.flags).0
  flags : (step now op s).1.flags ≡ (step_on_table now op s.flags).1
  table : IsTable (step now op s).1.flags
  coherent : IsCoherent (step now op s).1

step-IsFaithful :
    (now : ℕ) (op : FlagOp) (s : FlagState) → IsTable s.flags → IsCoherent s → IsFaithful now op s
unfolding step step_on_table
step-IsFaithful now (ask org key) s table inv =
    let (right, same, coherent) = is_enabled-IsRight now org key s inv in
    record { answer = ap some right; flags = same; table = rw same table; coherent = coherent }
step-IsFaithful now (create new_id flag) s table inv =
    let same = create_flag-flags new_id now flag s in
    record {
      answer = refl;
      flags = same;
      table = rw same (create_flag-IsTable new_id now flag s.flags table);
      coherent = create_flag-IsCoherent new_id now flag s inv;
    }
step-IsFaithful now (update id change) s table inv =
    let same = update_flag-flags now id change s in
    record {
      answer = refl;
      flags = same;
      table = rw same (update_flag-IsTable now id change s.flags table);
      coherent = update_flag-IsCoherent now id change s table inv;
    }
step-IsFaithful now (delete id) s table inv =
    let same = delete_flag-flags id s in
    record {
      answer = refl;
      flags = same;
      table = rw same (delete_flag-IsTable id s.flags table);
      coherent = delete_flag-IsCoherent id s table inv;
    }
step-IsFaithful now reload s table inv = record {
  answer = refl;
  flags = load_flags-flags s;
  table = rw (load_flags-flags s) table;
  coherent = load_flags-IsCoherent s table inv;
}
step-IsFaithful now (message key) s table inv = record {
  answer = refl;
  flags = forget_l1-flags key s;
  table = rw (forget_l1-flags key s) table;
  coherent = forget_l1-IsCoherent key s inv;
}

answers_right :
    (ops : List (ℕ × FlagOp)) (s : FlagState)
    → IsTable s.flags
    → IsCoherent s
    → answers ops s ≡ answers_on_table ops s.flags
unfolding answers answers_on_table
answers_right [] s table inv = refl
answers_right ((now, op) ∷ ops) s table inv =
    let one = step-IsFaithful now op s table inv in
    let rest = answers_right ops (step now op s).1 one.table one.coherent in
    rw (one.answer, rest, one.flags) refl

abbrev pub no_caches : List FeatureFlagRow → FlagState
no_caches rows = record { flags = rows; l2 = λ _. none; l1 = λ _ _. none }

-- From empty caches over a table with unique ids and keys, a process that makes all the changes
-- itself, while Redis and the database answer, gives after any sequence of operations and at any
-- times exactly the answers that the table alone gives; a flag that is not in it is off.
pub caches_invisible :
    (ops : List (ℕ × FlagOp)) (rows : List FeatureFlagRow)
    → IsTable rows
    → answers ops (no_caches rows) ≡ answers_on_table ops rows
caches_invisible ops rows table = answers_right ops (no_caches rows) table (record {
  l2_fits = λ key flag e. absurd (ground arith);
  l1_fits = λ org key entry e. absurd (ground arith);
})
