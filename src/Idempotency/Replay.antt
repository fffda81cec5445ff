-- ===== src/Idempotency/Replay.antt =====
-- A repeated request: answered from the stored response, or run again.
use multi_tenant_collaborati.Common.{
  String, ℕ, ◌+◌, ◌≤◌, ◌<◌, ◌≡◌, refl, false, none, some, List, [], ◌∷◌, ◌==◌, ==_refl, arith, any,
  select_first,
}
use multi_tenant_collaborati.Idempotency.{
  IdempotencyRecord, cached, ttl_ms, is_current, insert_key, check_and_store, save_response,
  Response, run_handler, answer, middleware,
}

find_nothing :
    (now key : ℕ) (rows : List IdempotencyRecord)
    → any (λ r. r.key_hash == key) rows ≡ false
    → select_first (is_current now key) rows ≡ none
find_nothing now key [] e = refl
find_nothing now key (r ∷ rows) e = ground (arith, find_nothing now key rows (ground arith))

any-save_response :
    (key status : ℕ) (body : String) (rows : List IdempotencyRecord)
    → any (λ r. r.key_hash == key) (save_response key status body rows)
      ≡ any (λ r. r.key_hash == key) rows
unfolding save_response
any-save_response key status body [] = refl
any-save_response key status body (r ∷ rows) =
    ground (arith, any-save_response key status body rows)

module _ {S : Type 0} (handler : S → Response × S) where
  first_request :
      (now key : ℕ) (rows : List IdempotencyRecord) (s : S)
      → any (λ r. r.key_hash == key) rows ≡ false
      → middleware handler now key rows s ≡ run_handler handler key (insert_key now key rows) s
  unfolding middleware check_and_store answer
  first_request now key rows s new = let unused = find_nothing now key rows new in ground arith

  stored_response :
      (now later key : ℕ) (rows : List IdempotencyRecord) (r : Response)
      → any (λ x. x.key_hash == key) rows ≡ false
      → later < now + ttl_ms
      → check_and_store later key (save_response key r.status r.body (insert_key now key rows))
        ≡ (cached r.status r.body, save_response key r.status r.body (insert_key now key rows))
  unfolding check_and_store save_response insert_key
  stored_response now later key rows r new soon = ground (arith, ==_refl key)

  -- A request with a key that was never used runs its handler, and the same request sent again within
  -- 24 hours gets the same response without running the handler again: nothing changes.
  pub replay :
      (now later key : ℕ) (rows : List IdempotencyRecord) (s : S)
      → any (λ r. r.key_hash == key) rows ≡ false
      → later < now + ttl_ms
      → let (r, rows', s') = middleware handler now key rows s in
        (r ≡ (handler s).0)
        × (s' ≡ (handler s).1)
        × (middleware handler later key rows' s' ≡ (r, rows', s'))
  unfolding run_handler middleware answer
  replay now later key rows s new soon =
      rw (first_request now key rows s new)
        (refl, refl, rw (stored_response now later key rows (handler s).0 new soon) refl)

  expired_request :
      (now key : ℕ) (old : IdempotencyRecord) (rest : List IdempotencyRecord) (s : S)
      → old.key_hash ≡ key
      → any (λ r. r.key_hash == key) rest ≡ false
      → old.expires_at ≤ now
      → middleware handler now key (old ∷ rest) s ≡ run_handler handler key (old ∷ rest) s
  unfolding middleware check_and_store answer insert_key
  expired_request now key old rest s k new gone =
      let unused = find_nothing now key rest new in ground arith

  save_response_head :
      (key status : ℕ) (body : String) (old : IdempotencyRecord) (rest : List IdempotencyRecord)
      → old.key_hash ≡ key
      → save_response key status body (old ∷ rest)
        ≡ record old { response_status = some status; response_body = some body }
          ∷ save_response key status body rest
  unfolding save_response
  save_response_head key status body old rest k = ground arith

  -- A key whose record has expired, and was not cleaned up yet, protects nothing: the request runs its
  -- handler, and sent again at any later time it runs the handler again.
  pub expired_key_runs_again :
      (now later key : ℕ) (old : IdempotencyRecord) (rest : List IdempotencyRecord) (s : S)
      → old.key_hash ≡ key
      → any (λ r. r.key_hash == key) rest ≡ false
      → old.expires_at ≤ now
      → now ≤ later
      → let (r, rows', s') = middleware handler now key (old ∷ rest) s in
        let (r2, rows2, s2) = middleware handler later key rows' s' in
        (s' ≡ (handler s).1) × (r2 ≡ (handler s').0) × (s2 ≡ (handler s').1)
  unfolding run_handler
  expired_key_runs_again now later key old rest s k new gone order =
      let r = (handler s).0 in
      rw
        (
          expired_request now key old rest s k new gone,
          save_response_head key r.status r.body old rest k,
        )
        (refl, rw (again r) refl, rw (again r) refl)
    where
      again :
          (r : Response)
          → middleware handler later key
              (record old { response_status = some r.status; response_body = some r.body }
                ∷ save_response key r.status r.body rest)
              (handler s).1
            ≡ run_handler handler key
                (record old { response_status = some r.status; response_body = some r.body }
                  ∷ save_response key r.status r.body rest)
                (handler s).1
      again r =
          expired_request later key
            (record old { response_status = some r.status; response_body = some r.body }) _
            (handler s).1 k (rw (any-save_response key r.status r.body rest) new)
            (omega (arith, gone, order))
