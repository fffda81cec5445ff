-- ===== src/Outbox.antt =====
-- src/shared/events/outbox-poller.ts: events of the outbox table, published to Redis. The rows stand
-- in the order of their creation; the clock is in milliseconds.
pub mod Sent
pub mod Drained
pub mod Lock
use multi_tenant_collaborati.Common.{
  ℕ, zero, suc, ◌+◌, ◌-◌, ◌*◌, ◌^◌, min, Bool, true, false, ◌&&◌, Option, none, some, List, [], ◌∷◌,
  ltb, leb, if◌then◌else◌, length, contains, select, limit_rows, update_where,
}

pub data OutboxStatus : Type 0 where
  pending : OutboxStatus
  published : OutboxStatus
  failed : OutboxStatus

pub record OutboxEventRow : Type 0 where
  pub id : ℕ
  pub status : OutboxStatus
  pub occurred_at : ℕ
  pub published_at : Option ℕ

-- The lock of Redis with the time when it expires, the table, and the ids of the events that were
-- published to the channel, the latest first.
pub record PollerState : Type 0 where
  pub lock : Option ℕ
  pub rows : List OutboxEventRow
  pub channel : List ℕ

abbrev pub full_batch_delay_ms : ℕ
full_batch_delay_ms = 10

abbrev pub partial_batch_delay_ms : ℕ
partial_batch_delay_ms = 5000

abbrev pub max_backoff_ms : ℕ
max_backoff_ms = 60000

abbrev pub lock_ttl_seconds : ℕ
lock_ttl_seconds = 10

-- What fails outside: Redis at the lock, the query for events, Redis at the publication of an event,
-- the update or its commit.
pub record Outside : Type 0 where
  pub lock_fails : Bool
  pub select_fails : Bool
  pub publish_fails : ℕ → Bool
  pub update_fails : Bool

abbrev pub is_held : ℕ → Option ℕ → Bool
is_held now none = false
is_held now (some expires_at) = ltb now expires_at

abbrev pub is_pending : OutboxEventRow → Bool
is_pending row = elim row.status [ pending ↦ true | _ ↦ false ]

-- `status = 'pending' AND occurred_at < NOW() - INTERVAL '100ms'`.
abbrev pub is_due : ℕ → OutboxEventRow → Bool
is_due now row = is_pending row && ltb (row.occurred_at + 100) now

abbrev pub row_ids : List OutboxEventRow → List ℕ
row_ids [] = []
row_ids (row ∷ rows) = row.id ∷ row_ids rows

unfoldable pub next_batch : ℕ → ℕ → List OutboxEventRow → List OutboxEventRow
next_batch now batch rows = limit_rows batch (select (is_due now) rows)

-- Publishes the events in turn up to the first failure: whether all were published, and the channel.
unfoldable pub publish_all : (ℕ → Bool) → List ℕ → List ℕ → Bool × List ℕ
publish_all fails [] channel = (true, channel)
publish_all fails (id ∷ ids) channel =
    let rest = publish_all fails ids (id ∷ channel) in if fails id then (false, channel) else rest

unfoldable pub mark_published : ℕ → List ℕ → List OutboxEventRow → List OutboxEventRow
mark_published now ids rows =
    update_where (λ row. contains row.id ids)
      (λ row. record row { status = published; published_at = some now }) rows

-- The transaction, once the lock is taken. A failure is caught: the rows stay as they were.
unfoldable pub publish_batch :
    Outside → ℕ → ℕ → List OutboxEventRow → PollerState → Bool × PollerState
unfolding publish_all mark_published
publish_batch outside now batch events s =
    let (all, channel) = publish_all outside.publish_fails (row_ids events) s.channel in
    if all
    then if outside.update_fails then (false, record s { channel = channel }) else (
      leb batch (length events),
      record s { rows = mark_published now (row_ids events) s.rows; channel = channel },
    )
    else (false, record s { channel = channel })

unfoldable pub poll_events :
    Outside → ℕ → ℕ → List OutboxEventRow → PollerState → Bool × PollerState
unfolding publish_batch
poll_events outside now batch [] s = (false, s)
poll_events outside now batch (event ∷ events) s =
    publish_batch outside now batch (event ∷ events) s

-- `SET lock NX EX 10`; the lock is never deleted. `none` is a rejected promise.
unfoldable pub poll_cycle : Outside → ℕ → ℕ → PollerState → Option Bool × PollerState
unfolding poll_events next_batch
poll_cycle outside now batch s =
    let locked = record s { lock = some (now + lock_ttl_seconds * 1000) } in
    let events = if outside.select_fails then [] else next_batch now batch s.rows in
    let (is_full, after) = poll_events outside now batch events locked in
    if outside.lock_fails
    then (none, s)
    else if is_held now s.lock
    then (some false, s)
    else (some is_full, after)

-- `consecutiveErrors` after a cycle.
abbrev pub errors_after : Option Bool → ℕ → ℕ
errors_after none errors = suc errors
errors_after (some _) errors = 0

-- The wait before the next cycle, from the cycle's answer and the errors counted with it.
unfoldable pub next_delay : Option Bool → ℕ → ℕ
next_delay (some true) errors = full_batch_delay_ms
next_delay answer errors =
    if ltb 0 errors
    then min (partial_batch_delay_ms * 2 ^ (errors - 1)) max_backoff_ms
    else partial_batch_delay_ms

-- One turn of the loop, with a cycle that begins at `now` and takes `took`: the time of the next turn,
-- which is scheduled when the cycle has ended, the errors and the state.
unfoldable pub loop : Outside → ℕ → ℕ → ℕ → ℕ → PollerState → ℕ × ℕ × PollerState
unfolding poll_cycle next_delay
loop outside now took batch errors s =
    let (answer, after) = poll_cycle outside now batch s in
    let counted = errors_after answer errors in
    (now + took + next_delay answer counted, counted, after)
