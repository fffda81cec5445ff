-- ===== src/Tests/Requests.antt =====
-- A counter behind the idempotency middleware.
use multi_tenant_collaborati.Common.{ℕ, ◌+◌, ◌≡◌, refl, none, some, [], arith}
use multi_tenant_collaborati.Idempotency.{IdempotencyRecord, Response, middleware}
use multi_tenant_collaborati.Idempotency.Replay.{replay}

abbrev count_up : ℕ → Response × ℕ
count_up n = (record { status = 201; body = "created" }, n + 1)

replay_example :
    let (r, rows', s') = middleware count_up 10 3 [] 0 in
    (r ≡ (count_up 0).0) × (s' ≡ 1) × (middleware count_up 20 3 rows' s' ≡ (r, rows', s'))
replay_example = replay count_up 10 20 3 [] 0 refl (ground arith)

abbrev old_key : IdempotencyRecord
old_key = record { key_hash = 3; response_status = some 201; response_body = none; expires_at = 5 }
