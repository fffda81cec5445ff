-- ===== src/Outbox/Sent.antt =====
-- What src/shared/events/outbox-poller.ts marks as published was published before.
use mathlib.Core.List.Memᴰ
use multi_tenant_collaborati.Common.{
  ℕ, ◌≤◌, ◌≡◌, ap, ◌⊎◌, inl, inr, Bool, true, false, Option, none, some, List, [], ◌∷◌, Memᴰ,
  Memᴰ-cons, arith, Bool-cases, contains, mem-update_where,
}
use multi_tenant_collaborati.Outbox.{
  pending, published, OutboxEventRow, PollerState, Outside, row_ids, publish_all, mark_published,
  publish_batch, poll_events, poll_cycle, next_delay, is_held,
}

publish_all-keeps :
    (fails : ℕ → Bool) (ids channel : List ℕ) (id : ℕ)
    → contains id channel ≡ true
    → contains id (publish_all fails ids channel).1 ≡ true
unfolding publish_all
publish_all-keeps fails [] channel id h = h
publish_all-keeps fails (x ∷ ids) channel id h =
    ground (arith, publish_all-keeps fails ids (x ∷ channel) id)

publish_all-sends :
    (fails : ℕ → Bool) (ids channel : List ℕ) (id : ℕ)
    → (publish_all fails ids channel).0 ≡ true
    → contains id ids ≡ true
    → contains id (publish_all fails ids channel).1 ≡ true
unfolding publish_all
publish_all-sends fails [] channel id all h = absurd (ground arith)
publish_all-sends fails (x ∷ ids) channel id all h = elim (Bool-cases (fails x)) [
  | inl failing ↦ absurd (ground arith)
  | inr taken ↦ ground (
    arith,
    publish_all-keeps fails ids (x ∷ channel) id,
    publish_all-sends fails ids (x ∷ channel) id,
  )
]

-- Every event that is marked as published is in the channel.
abbrev pub AllSent : PollerState → Type 0
AllSent s =
    (row : OutboxEventRow)
    → Memᴰ row s.rows
    → row.status ≡ published
    → contains row.id s.channel ≡ true

abbrev pub published_at_time : ℕ → OutboxEventRow → OutboxEventRow
published_at_time now row = record row { status = published; published_at = some now }

marked-AllSent :
    (now : ℕ) (ids channel : List ℕ) (rows : List OutboxEventRow) (row : OutboxEventRow)
    → ((old : OutboxEventRow)
        → Memᴰ old rows
        → old.status ≡ published
        → contains old.id channel ≡ true)
    → ((id : ℕ) → contains id ids ≡ true → contains id channel ≡ true)
    → Memᴰ row (mark_published now ids rows)
    → row.status ≡ published
    → contains row.id channel ≡ true
unfolding mark_published
marked-AllSent now ids channel rows row inv sent m e =
    let (old, in_table, is) =
      mem-update_where (λ x. contains x.id ids) (published_at_time now) rows row m in
    elim (Bool-cases (contains old.id ids)) [
      | inl marked ↦ ground (arith, sent old.id)
      | inr other ↦ ground (arith, inv old in_table)
    ]

publish_batch-AllSent :
    (outside : Outside) (now batch : ℕ) (events : List OutboxEventRow) (s : PollerState)
    → AllSent s
    → AllSent (publish_batch outside now batch events s).1
unfolding publish_batch
publish_batch-AllSent outside now batch events s inv row m e =
    let ids = row_ids events in
    let fails = outside.publish_fails in
    let channel = (publish_all fails ids s.channel).1 in
    let kept = λ (old : OutboxEventRow) (w : Memᴰ old s.rows) (h : old.status ≡ published).
      publish_all-keeps fails ids s.channel old.id (inv old w h) in
    elim (Bool-cases (publish_all fails ids s.channel).0) [
      | inl all ↦ elim (Bool-cases outside.update_fails) [
        | inl failing ↦ rw (all, failing) (kept row (rw (all, failing) at m) e)
        | inr done ↦
            rw (all, done)
              (marked-AllSent now ids channel s.rows row kept
                (λ id h. publish_all-sends fails ids s.channel id all h) (rw (all, done) at m) e)
      ]
      | inr stopped ↦ rw stopped (kept row (rw stopped at m) e)
    ]

poll_events-AllSent :
    (outside : Outside) (now batch : ℕ) (events : List OutboxEventRow) (s : PollerState)
    → AllSent s
    → AllSent (poll_events outside now batch events s).1
unfolding poll_events
poll_events-AllSent outside now batch [] s inv = inv
poll_events-AllSent outside now batch (event ∷ events) s inv =
    publish_batch-AllSent outside now batch (event ∷ events) s inv

poll_cycle-AllSent :
    (outside : Outside) (now batch : ℕ) (s : PollerState)
    → AllSent s
    → AllSent (poll_cycle outside now batch s).1
unfolding poll_cycle
poll_cycle-AllSent outside now batch s inv = elim (Bool-cases outside.lock_fails) [
  | inl failing ↦ rw failing inv
  | inr up ↦ elim (Bool-cases (is_held now s.lock)) [
    | inl held ↦ rw (up, held) inv
    | inr free ↦ rw (up, free) (poll_events-AllSent outside now batch _ _ inv)
  ]
]

-- A poller's cycle, or a service's insert of a pending event.
pub data OutboxStep : Type 0 where
  cycle : Outside → ℕ → ℕ → OutboxStep
  insert : ℕ → ℕ → OutboxStep

abbrev pub append_row : OutboxEventRow → List OutboxEventRow → List OutboxEventRow
append_row row [] = row ∷ []
append_row row (x ∷ rows) = x ∷ append_row row rows

unfoldable pub run : List OutboxStep → PollerState → PollerState
run [] s = s
run (cycle outside now batch ∷ steps) s = run steps (poll_cycle outside now batch s).1
run (insert id occurred_at ∷ steps) s = run steps (record s {
  rows =
      append_row
        (record { id = id; status = pending; occurred_at = occurred_at; published_at = none })
        s.rows;
})

mem-append_row :
    (row a : OutboxEventRow) (rows : List OutboxEventRow)
    → Memᴰ a (append_row row rows)
    → (a ≡ row) ⊎ Memᴰ a rows
mem-append_row row a [] m =
    inl (elim ((Memᴰ-cons a row []).0 m) [ inl e ↦ e | inr l ↦ absurd (Memᴰ.not-nil l) ])
mem-append_row row a (x ∷ rows) m = elim ((Memᴰ-cons a x (append_row row rows)).0 m) [
  | inl e ↦ inr (Memᴰ.head e)
  | inr l ↦ elim (mem-append_row row a rows l) [ inl e ↦ inl e | inr k ↦ inr (Memᴰ.tail k) ]
]

-- After any sequence of inserts and cycles, from any number of pollers and with any failures of
-- Redis and the database in them, every event that is marked as published was published.
pub run-AllSent : (steps : List OutboxStep) (s : PollerState) → AllSent s → AllSent (run steps s)
unfolding run
run-AllSent [] s inv = inv
run-AllSent (cycle outside now batch ∷ steps) s inv =
    run-AllSent steps (poll_cycle outside now batch s).1
      (poll_cycle-AllSent outside now batch s inv)
run-AllSent (insert id occurred_at ∷ steps) s inv = run-AllSent steps _ (λ row m e.
    elim (mem-append_row _ row s.rows m) [
      | inl new ↦
          let fresh : row.status ≡ pending = ap (λ (r : OutboxEventRow). r.status) new in
          absurd (ground arith)
      | inr old ↦ inv row old e
    ])

-- The wait before the next cycle is never longer than a minute.
pub next_delay_bounded : (answer : Option Bool) (errors : ℕ) → next_delay answer errors ≤ 60000
unfolding next_delay
next_delay_bounded (some true) errors = omega arith
next_delay_bounded (some false) errors = ground arith
next_delay_bounded none errors = ground arith
