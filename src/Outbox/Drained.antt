-- ===== src/Outbox/Drained.antt =====
-- How fast src/shared/events/outbox-poller.ts empties the outbox, and what its lock costs.
use multi_tenant_collaborati.Common.{
  limit_rows, ℕ, zero, suc, ◌+◌, ◌-◌, ◌*◌, ◌<◌, ◌≤◌, ◌≡◌, refl, inl, inr, true, false, some, List,
  [], ◌∷◌, Memᴰ, arith, mem-update_where, if◌then◌else◌, Bool-cases, List-cases, contains, ==_refl,
  length, select,
}
use multi_tenant_collaborati.Outbox.{
  OutboxEventRow, PollerState, Outside, row_ids, next_batch, is_pending, is_due, publish_all,
  mark_published, publish_batch, poll_events, poll_cycle, is_held, lock_ttl_seconds,
}
use multi_tenant_collaborati.Outbox.Sent.{published_at_time}

-- Nothing fails.
abbrev pub all_up : Outside
all_up = record {
  lock_fails = false;
  select_fails = false;
  publish_fails = λ _. false;
  update_fails = false;
}

unfoldable pub pending_count : List OutboxEventRow → ℕ
pending_count [] = 0
pending_count (row ∷ rows) = (if is_pending row then 1 else 0) + pending_count rows

pending_count-mark_more :
    (now id : ℕ) (ids : List ℕ) (rows : List OutboxEventRow)
    → pending_count (mark_published now (id ∷ ids) rows)
      ≤ pending_count (mark_published now ids rows)
unfolding pending_count mark_published
pending_count-mark_more now id ids [] = omega arith
pending_count-mark_more now id ids (x ∷ rows) =
    ground (arith, pending_count-mark_more now id ids rows)

pending_count-mark_none :
    (now : ℕ) (rows : List OutboxEventRow)
    → pending_count (mark_published now [] rows) ≡ pending_count rows
unfolding pending_count mark_published
pending_count-mark_none now [] = refl
pending_count-mark_none now (x ∷ rows) = ground (arith, pending_count-mark_none now rows)

mark_published-cons :
    (now : ℕ) (ids : List ℕ) (x : OutboxEventRow) (rows : List OutboxEventRow)
    → pending_count (mark_published now ids (x ∷ rows))
      ≡ (if contains x.id ids then 0 else if is_pending x then 1 else 0)
        + pending_count (mark_published now ids rows)
unfolding pending_count mark_published
mark_published-cons now ids x rows = ground arith

pending_count-cons :
    (x : OutboxEventRow) (rows : List OutboxEventRow)
    → pending_count (x ∷ rows) ≡ (if is_pending x then 1 else 0) + pending_count rows
unfolding pending_count
pending_count-cons x rows = refl

-- Each event of a batch is one pending row less.
abbrev Marks : ℕ → List OutboxEventRow → List OutboxEventRow → Type 0
Marks now rows events =
    pending_count (mark_published now (row_ids events) rows) + length events ≤ pending_count rows

Marks-none : (now : ℕ) (rows : List OutboxEventRow) → Marks now rows []
Marks-none now rows = omega (arith, pending_count-mark_none now rows)

Marks-due :
    (now : ℕ) (x : OutboxEventRow) (rows events : List OutboxEventRow)
    → is_pending x ≡ true
    → Marks now rows events
    → Marks now (x ∷ rows) (x ∷ events)
Marks-due now x rows events due h = ground (
  arith,
  ==_refl x.id,
  mark_published-cons now (x.id ∷ row_ids events) x rows,
  pending_count-cons x rows,
  pending_count-mark_more now x.id (row_ids events) rows,
)

Marks-other :
    (now : ℕ) (x : OutboxEventRow) (rows events : List OutboxEventRow)
    → Marks now rows events
    → Marks now (x ∷ rows) events
Marks-other now x rows events h =
    ground (arith, mark_published-cons now (row_ids events) x rows, pending_count-cons x rows)

Marks-batch :
    (n now : ℕ) (rows : List OutboxEventRow)
    → Marks now rows (limit_rows n (select (is_due now) rows))
Marks-batch n now [] = Marks-none now []
Marks-batch zero now (x ∷ rows) = elim (List-cases (select (is_due now) (x ∷ rows))) [
  | inl e ↦ rw e (Marks-none now (x ∷ rows))
  | inr (y, ys, e) ↦ rw e (Marks-none now (x ∷ rows))
]
Marks-batch (suc n) now (x ∷ rows) = elim (Bool-cases (is_due now x)) [
  | inl due ↦ rw due (
      Marks-due now x rows (limit_rows n (select (is_due now) rows)) (ground arith)
        (Marks-batch n now rows))
  | inr other ↦ rw other (Marks-other now x rows _ (Marks-batch (suc n) now rows))
]

-- Every pending event is old enough to be published at `now`.
abbrev pub AllDue : ℕ → List OutboxEventRow → Type 0
AllDue now rows =
    (row : OutboxEventRow) → Memᴰ row rows → is_pending row ≡ true → row.occurred_at + 100 < now

AllDue-later : (a b : ℕ) (rows : List OutboxEventRow) → a ≤ b → AllDue a rows → AllDue b rows
AllDue-later a b rows le h row m p = omega (arith, h row m p)

mark_published-AllDue :
    (now t : ℕ) (ids : List ℕ) (rows : List OutboxEventRow)
    → AllDue now rows
    → AllDue now (mark_published t ids rows)
unfolding mark_published
mark_published-AllDue now t ids rows h row m p =
    let (old, in_table, is) =
      mem-update_where (λ x. contains x.id ids) (published_at_time t) rows row m in
    elim (Bool-cases (contains old.id ids)) [
      | inl marked ↦ absurd (ground arith)
      | inr other ↦ ground (arith, h old in_table)
    ]

length-select_due :
    (now : ℕ) (rows : List OutboxEventRow)
    → AllDue now rows
    → length (select (is_due now) rows) ≡ pending_count rows
unfolding pending_count
length-select_due now [] h = refl
length-select_due now (x ∷ rows) h =
    let one = h x (Memᴰ.head refl) in
    let rest = length-select_due now rows (λ row m. h row (Memᴰ.tail m)) in
    elim (Bool-cases (is_pending x)) [
      | inl is ↦
          let due : is_due now x ≡ true = ground (arith, one is) in
          rw (due, is) (omega (arith, rest))
      | inr not_pending ↦
          let skip : is_due now x ≡ false = ground arith in
          rw (skip, not_pending) (omega (arith, rest))
    ]

length-limit_rows :
    (n : ℕ) (rows : List OutboxEventRow)
    → length rows ≤ length (limit_rows n rows) + (length rows - n)
length-limit_rows n [] = omega arith
length-limit_rows zero (x ∷ rows) = omega arith
length-limit_rows (suc n) (x ∷ rows) = omega (arith, length-limit_rows n rows)

publish_all-all_up : (ids channel : List ℕ) → (publish_all (λ _. false) ids channel).0 ≡ true
unfolding publish_all
publish_all-all_up [] channel = refl
publish_all-all_up (x ∷ ids) channel = publish_all-all_up ids (x ∷ channel)

-- A cycle on a free lock in which nothing fails: the rows after it.
poll_events-rows :
    (now batch : ℕ) (events : List OutboxEventRow) (s : PollerState)
    → Marks now s.rows events
    → AllDue now s.rows
    → (let after = (poll_events all_up now batch events s).1 in
        (pending_count after.rows + length events ≤ pending_count s.rows)
        × AllDue now after.rows
        × (after.lock ≡ s.lock))
unfolding poll_events publish_batch
poll_events-rows now batch [] s marks h = (omega arith, h, refl)
poll_events-rows now batch (event ∷ events) s marks h =
    let ids = row_ids (event ∷ events) in
    rw (publish_all-all_up ids s.channel) (marks, mark_published-AllDue now now ids s.rows h, refl)

poll_cycle-drains :
    (now batch : ℕ) (s : PollerState)
    → is_held now s.lock ≡ false
    → AllDue now s.rows
    → (let after = (poll_cycle all_up now batch s).1 in
        (pending_count after.rows ≤ pending_count s.rows - batch)
        × AllDue now after.rows
        × (after.lock ≡ some (now + 10000)))
unfolding poll_cycle next_batch
poll_cycle-drains now batch s free h =
    let events = limit_rows batch (select (is_due now) s.rows) in
    let locked = record s { lock = some (now + lock_ttl_seconds * 1000) } in
    let (fewer, due, lock) =
      poll_events-rows now batch events locked (Marks-batch batch now s.rows) h in
    rw free (
      omega (
        arith,
        fewer,
        length-limit_rows batch (select (is_due now) s.rows),
        length-select_due now s.rows h,
      ),
      due,
      lock,
    )

-- Cycles at these times.
unfoldable pub poll_cycles : ℕ → List ℕ → PollerState → PollerState
poll_cycles batch [] s = s
poll_cycles batch (now ∷ times) s = poll_cycles batch times (poll_cycle all_up now batch s).1

-- The first time is after `free`, and each next one at least ten seconds after the one before.
abbrev pub IsSpaced : ℕ → List ℕ → Type 0
IsSpaced free [] = Unit
IsSpaced free (now ∷ times) = (free ≤ now) × IsSpaced (now + 10000) times

-- Cycles at least ten seconds apart, the first with the lock free and all pending events due, in
-- which nothing fails, leave at most the pending events that exceed a batch for each cycle: enough
-- cycles leave none.
pub poll_cycles-drain :
    (batch free : ℕ) (times : List ℕ) (s : PollerState)
    → IsSpaced free times
    → ((now : ℕ) → free ≤ now → is_held now s.lock ≡ false)
    → AllDue free s.rows
    → pending_count (poll_cycles batch times s).rows ≤ pending_count s.rows - length times * batch
unfolding poll_cycles
poll_cycles-drain batch free [] s spaced unlocked h = omega arith
poll_cycles-drain batch free (now ∷ times) s (le, spaced) unlocked h =
    let (fewer, due, lock) =
      poll_cycle-drains now batch s (unlocked now le) (AllDue-later free now s.rows le h) in
    let rest =
      poll_cycles-drain batch (now + 10000) times (poll_cycle all_up now batch s).1 spaced
        (λ t later. rw lock (ground arith)) (AllDue-later now (now + 10000) _ (omega arith) due) in
    omega (arith, fewer, rest)
