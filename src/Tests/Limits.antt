-- ===== src/Tests/Limits.antt =====
-- A rate limiter, a feature flag and an outbox at concrete times.
use mathlib.Core.List.Memᴰ
use multi_tenant_collaborati.Common.{
  ℕ, inl, inr, ◌-◌, ◌*◌, ◌≤◌, ◌≡◌, refl, true, none, some, List, [], ◌∷◌, arith, length,
}
use multi_tenant_collaborati.RateLimit.{RateLimiter, replies, command_errors, rejected}
use multi_tenant_collaborati.RateLimit.Window.{
  no_requests, count_in_window, allowed_times, requested_times, window_limited,
}
use multi_tenant_collaborati.FeatureFlag.{CreateFlagData, UpdateFlagData}
use multi_tenant_collaborati.FeatureFlag.Coherence.{IsTable}
use multi_tenant_collaborati.FeatureFlag.Refines.{created_flags, create_flag-IsTable}
use multi_tenant_collaborati.FeatureFlag.Replay.{
  FlagOp, ask, update, reload, answers, answers_on_table, no_caches, caches_invisible,
}
use multi_tenant_collaborati.Outbox.{
  OutboxEventRow, pending, PollerState, poll_cycle, loop, next_batch, poll_events, publish_batch,
  publish_all, mark_published,
}
use multi_tenant_collaborati.Outbox.Sent.{AllSent, OutboxStep, cycle, insert, run, run-AllSent}
use multi_tenant_collaborati.Outbox.Drained.{
  all_up, pending_count, AllDue, poll_cycles, poll_cycles-drain,
}
use multi_tenant_collaborati.Outbox.Lock.{full_batch_waits}

abbrev two_a_second : RateLimiter
two_a_second = record { limit = 2; window_ms = 1000 }

abbrev burst : List (ℕ × ℕ)
burst = (7, 10) ∷ (8, 11) ∷ (7, 12) ∷ (7, 13) ∷ (7, 1011) ∷ []

window_limited_example :
    (count_in_window 1000 1011 (allowed_times two_a_second replies 7 burst no_requests []) ≤ 2)
    × (count_in_window 1000 1011 (allowed_times two_a_second rejected 7 burst no_requests []) ≤ 2)
    × (allowed_times two_a_second command_errors 7 burst no_requests []
        ≡ requested_times 7 burst [])
window_limited_example = window_limited two_a_second 7 burst (omega arith) (omega arith) 1011

abbrev webhooks_flag : CreateFlagData
webhooks_flag = record {
  key = 4;
  is_globally_enabled = none;
  description = none;
  enabled_org_ids = some (1 ∷ []);
  disabled_org_ids = none;
}

no_rows-IsTable : IsTable []
no_rows-IsTable = record {
  by_id = λ a b ma mb e. absurd (Memᴰ.not-nil ma);
  by_key = λ a b ma mb e. absurd (Memᴰ.not-nil ma);
}

abbrev disable : UpdateFlagData
disable = record {
  is_globally_enabled = none;
  enabled_org_ids = some [];
  disabled_org_ids = none;
  description = none;
}

abbrev flag_ops : List (ℕ × FlagOp)
flag_ops = (5, ask 1 4) ∷ (6, update 9 disable) ∷ (7, ask 1 4) ∷ (8, reload) ∷ (9, ask 2 6) ∷ []

caches_invisible_example :
    answers flag_ops (no_caches (created_flags 9 5 webhooks_flag []))
    ≡ answers_on_table flag_ops (created_flags 9 5 webhooks_flag [])
caches_invisible_example =
    caches_invisible flag_ops (created_flags 9 5 webhooks_flag [])
      (create_flag-IsTable 9 5 webhooks_flag [] no_rows-IsTable)

abbrev event : ℕ → OutboxEventRow
event n = record { id = n; status = pending; occurred_at = n; published_at = none }

abbrev backlog : PollerState
backlog = record { lock = none; rows = event 1 ∷ event 2 ∷ event 3 ∷ []; channel = [] }

backlog-AllSent : AllSent backlog
backlog-AllSent row m e = elim (Memᴰ.cases_cons m) [
  | inl a ↦ absurd (ground arith)
  | inr l ↦ elim (Memᴰ.cases_cons l) [
    | inl a ↦ absurd (ground arith)
    | inr k ↦ let last = Memᴰ.eq_of_singleton k in absurd (ground arith)
  ]
]

abbrev outbox_steps : List OutboxStep
outbox_steps = cycle all_up 500 2 ∷ insert 4 501 ∷ cycle all_up 11000 2 ∷ []

run-AllSent_example : AllSent (run outbox_steps backlog)
run-AllSent_example = run-AllSent outbox_steps backlog backlog-AllSent

backlog-AllDue : AllDue 500 backlog.rows
backlog-AllDue row m p = elim (Memᴰ.cases_cons m) [
  | inl a ↦ ground arith
  | inr l ↦ elim (Memᴰ.cases_cons l) [
    | inl a ↦ ground arith
    | inr k ↦ let last = Memᴰ.eq_of_singleton k in ground arith
  ]
]

poll_cycles-drain_example :
    pending_count (poll_cycles 2 (500 ∷ 10500 ∷ []) backlog).rows
    ≤ pending_count backlog.rows - length {A = ℕ} (500 ∷ 10500 ∷ []) * 2
poll_cycles-drain_example =
    poll_cycles-drain 2 500 (500 ∷ 10500 ∷ []) backlog (omega arith) (λ now le. refl) backlog-AllDue

full_cycle : (poll_cycle all_up 500 2 backlog).0 ≡ some true
unfolding poll_cycle poll_events publish_batch publish_all next_batch mark_published
full_cycle = refl

full_batch_waits_example :
    let after = (poll_cycle all_up 500 2 backlog).1 in
    (loop all_up 500 30 2 0 backlog ≡ (540, 0, after))
    × (loop all_up 540 20 2 0 after ≡ (5560, 0, after))
    × (loop all_up 5560 10 2 0 after ≡ (10570, 0, after))
full_batch_waits_example =
    full_batch_waits all_up 500 30 20 10 2 0 backlog refl refl full_cycle (omega arith)
