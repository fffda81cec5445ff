-- ===== src/Outbox/Lock.antt =====
-- What the lock of src/shared/events/outbox-poller.ts costs the poller that took it.
use multi_tenant_collaborati.Common.{
  ℕ, ◌+◌, ◌<◌, ◌≡◌, refl, inl, inr, true, false, some, List, [], ◌∷◌, arith, Bool-cases,
}
use multi_tenant_collaborati.Outbox.{
  OutboxEventRow, PollerState, Outside, publish_batch, poll_events, poll_cycle, next_delay, is_held,
  loop, publish_all, row_ids,
}

-- A cycle while the lock is held.
poll_cycle-held :
    (outside : Outside) (now batch : ℕ) (s : PollerState)
    → outside.lock_fails ≡ false
    → is_held now s.lock ≡ true
    → poll_cycle outside now batch s ≡ (some false, s)
unfolding poll_cycle
poll_cycle-held outside now batch s up held = rw (up, held) refl

loop-held :
    (outside : Outside) (now took batch errors : ℕ) (s : PollerState)
    → outside.lock_fails ≡ false
    → is_held now s.lock ≡ true
    → loop outside now took batch errors s ≡ (now + took + 5000, 0, s)
unfolding loop next_delay
loop-held outside now took batch errors s up held =
    rw (poll_cycle-held outside now batch s up held) refl

publish_batch-lock :
    (outside : Outside) (now batch : ℕ) (events : List OutboxEventRow) (s : PollerState)
    → (publish_batch outside now batch events s).1.lock ≡ s.lock
unfolding publish_batch
publish_batch-lock outside now batch events s =
    elim (Bool-cases (publish_all outside.publish_fails (row_ids events) s.channel).0) [
      | inl all ↦ elim (Bool-cases outside.update_fails) [
        | inl failing ↦ rw (all, failing) refl
        | inr done ↦ rw (all, done) refl
      ]
      | inr stopped ↦ rw stopped refl
    ]

poll_events-lock :
    (outside : Outside) (now batch : ℕ) (events : List OutboxEventRow) (s : PollerState)
    → (poll_events outside now batch events s).1.lock ≡ s.lock
unfolding poll_events
poll_events-lock outside now batch [] s = refl
poll_events-lock outside now batch (event ∷ events) s =
    publish_batch-lock outside now batch (event ∷ events) s

-- A cycle that finds the lock free holds it for ten seconds.
poll_cycle-lock :
    (outside : Outside) (now batch : ℕ) (s : PollerState)
    → outside.lock_fails ≡ false
    → is_held now s.lock ≡ false
    → (poll_cycle outside now batch s).1.lock ≡ some (now + 10000)
unfolding poll_cycle
poll_cycle-lock outside now batch s up free = rw (up, free) (poll_events-lock outside now batch _ _)

loop-full :
    (outside : Outside) (now took batch errors : ℕ) (s : PollerState)
    → (poll_cycle outside now batch s).0 ≡ some true
    → loop outside now took batch errors s
      ≡ (now + took + 10, 0, (poll_cycle outside now batch s).1)
unfolding loop next_delay
loop-full outside now took batch errors s full = rw full refl

-- After a cycle that published a full batch, the next two turns of the loop find the poller's own lock
-- and do nothing, if the first two cycles together take less than 4.99 seconds: one is ten
-- milliseconds after the end of the first cycle, the other five seconds after the end of the second.
-- The next batch waits for more than ten seconds.
pub full_batch_waits :
    (outside : Outside) (now took took' took'' batch errors : ℕ) (s : PollerState)
    → outside.lock_fails ≡ false
    → is_held now s.lock ≡ false
    → (poll_cycle outside now batch s).0 ≡ some true
    → took + took' < 4990
    → (let after = (poll_cycle outside now batch s).1 in
        let second = now + took + 10 in
        let third = second + took' + 5000 in
        (loop outside now took batch errors s ≡ (second, 0, after))
        × (loop outside second took' batch 0 after ≡ (third, 0, after))
        × (loop outside third took'' batch 0 after ≡ (third + took'' + 5000, 0, after)))
full_batch_waits outside now took took' took'' batch errors s up free full short =
    let after = (poll_cycle outside now batch s).1 in
    let lock = poll_cycle-lock outside now batch s up free in
    (
      loop-full outside now took batch errors s full,
      loop-held outside (now + took + 10) took' batch 0 after up (rw lock (ground arith)),
      loop-held outside (now + took + 10 + took' + 5000) took'' batch 0 after up
          (rw lock (ground arith)),
    )
