-- ===== src/Idempotency.antt =====
-- src/shared/idempotency/idempotency.service.ts and idempotency.middleware.ts: a mutating request that
-- is sent twice with the same `Idempotency-Key`. A key is hashed by library code, so its hash is an
-- argument; a body is its JSON text; the clock is in milliseconds.
use multi_tenant_collaborati.Common.{
  ℕ, ◌+◌, String, Bool, true, false, ◌&&◌, Option, none, some, List, [], ◌∷◌, ◌==◌, if◌then◌else◌,
  ltb, any, select_first, update_where,
}
pub mod Replay

pub record IdempotencyRecord : Type 0 where
  pub key_hash : ℕ
  pub response_status : Option ℕ
  pub response_body : Option String
  pub expires_at : ℕ

-- 24 hours.
abbrev pub ttl_ms : ℕ
ttl_ms = 86400000

-- `IdempotencyResult`, with the conflict that the service throws.
pub data IdempotencyResult : Type 0 where
  cached : (status : ℕ) (body : String) → IdempotencyResult
  in_progress fresh : IdempotencyResult

abbrev pub is_current : ℕ → ℕ → IdempotencyRecord → Bool
is_current now key r = r.key_hash == key && ltb now r.expires_at

abbrev pub completed : IdempotencyRecord → IdempotencyResult
completed r = elim r.response_status [
  | none ↦ in_progress
  | some status ↦ elim r.response_body [ none ↦ in_progress | some body ↦ cached status body ]
]

-- `INSERT … ON CONFLICT (key_hash) DO NOTHING`.
unfoldable pub insert_key : ℕ → ℕ → List IdempotencyRecord → List IdempotencyRecord
insert_key now key rows =
    if any (λ r. r.key_hash == key) rows
    then rows
    else record {
      key_hash = key;
      response_status = none;
      response_body = none;
      expires_at = now + ttl_ms;
    }
      ∷ rows

unfoldable pub check_and_store :
    ℕ → ℕ → List IdempotencyRecord → IdempotencyResult × List IdempotencyRecord
check_and_store now key rows = elim (select_first (is_current now key) rows) [
  | some r ↦ (completed r, rows)
  | none ↦ (fresh, insert_key now key rows)
]

unfoldable pub save_response : ℕ → ℕ → String → List IdempotencyRecord → List IdempotencyRecord
save_response key status body =
    update_where (λ r. r.key_hash == key)
      (λ r. record r { response_status = some status; response_body = some body })

pub record Response : Type 0 where
  pub status : ℕ
  pub body : String

module _ {S : Type 0} (handler : S → Response × S) where
  unfoldable pub run_handler :
      ℕ → List IdempotencyRecord → S → Response × List IdempotencyRecord × S
  run_handler key rows s =
      let (r, s') = handler s in (r, save_response key r.status r.body rows, s')

  unfoldable pub answer :
      ℕ → IdempotencyResult → List IdempotencyRecord → S → Response × List IdempotencyRecord × S
  answer key (cached status' body') rows s = (record { status = status'; body = body' }, rows, s)
  answer key in_progress rows s =
      (record { status = 409; body = "IDEMPOTENCY_IN_PROGRESS" }, rows, s)
  answer key fresh rows s = run_handler key rows s

  -- The middleware around a route's handler, for an authenticated POST, PUT or PATCH with a key.
  unfoldable pub middleware :
      ℕ → ℕ → List IdempotencyRecord → S → Response × List IdempotencyRecord × S
  middleware now key rows s =
      let (result, rows') = check_and_store now key rows in answer key result rows' s
