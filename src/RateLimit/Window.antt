-- ===== src/RateLimit/Window.antt =====
-- How many requests of one key src/shared/redis/rate-limiter.ts lets through in a window.
use multi_tenant_collaborati.Common.{
  ℕ, ◌+◌, ◌≤◌, ◌<◌, ◌≡◌, refl, inl, inr, Bool, true, false, ◌&&◌, List, [], ◌∷◌, ◌++◌, none, arith,
  ◌==◌, ltb, leb, if◌then◌else◌, or_else, Bool-cases, length, select, redis_get, redis_set, ==_refl,
  redis_get-set_other,
}
use multi_tenant_collaborati.RateLimit.{
  Exec, replies, command_errors, rejected, LimitStores, RateLimiter, in_window, check_limit,
  check_limit_redis, check_limit_fallback,
}

-- The stores when the process starts and Redis is empty.
abbrev pub no_requests : LimitStores
no_requests = record { redis = []; fallback = λ _. none }

-- How many of the times fall in the window of `window_ms` that ends with `end`.
unfoldable pub count_in_window : ℕ → ℕ → List ℕ → ℕ
count_in_window window_ms end times =
    length (select (λ (ts : ℕ). leb ts end && ltb end (ts + window_ms)) times)

-- Requests, as keys with times, in the order of their arrival.
abbrev pub InOrder : ℕ → List (ℕ × ℕ) → Type 0
InOrder last [] = Unit
InOrder last ((_, now) ∷ requests) = (last ≤ now) × InOrder now requests

-- The times, newest first, at which a request of `key` was allowed, after those in `past`.
unfoldable pub allowed_times : RateLimiter → Exec → ℕ → List (ℕ × ℕ) → LimitStores → List ℕ → List ℕ
allowed_times limiter exec key [] stores past = past
allowed_times limiter exec key ((k, now) ∷ requests) stores past =
    let (answer, after) = check_limit exec k limiter.limit limiter.window_ms now stores in
    allowed_times limiter exec key requests after
      (if k == key && answer.allowed then now ∷ past else past)

-- The times, newest first, of the requests of `key`, after those in `past`.
unfoldable pub requested_times : ℕ → List (ℕ × ℕ) → List ℕ → List ℕ
requested_times key [] past = past
requested_times key ((k, now) ∷ requests) past =
    requested_times key requests (if k == key then now ∷ past else past)

-- The pipeline either replied or was rejected: the requests are counted.
abbrev counted : Bool → Exec
counted true = replies
counted false = rejected

in_window-later :
    (w now t : ℕ) (xs : List ℕ) → now ≤ t → in_window w t (in_window w now xs) ≡ in_window w t xs
unfolding in_window
in_window-later w now t [] le = refl
in_window-later w now t (x ∷ xs) le = ground (arith, in_window-later w now t xs le)

length-in_window_snoc :
    (w t now : ℕ) (xs : List ℕ)
    → length (in_window w t (xs ++ (now ∷ [])))
      ≡ length (in_window w t xs) + (if ltb t (now + w) then 1 else 0)
unfolding in_window
length-in_window_snoc w t now [] = ground arith
length-in_window_snoc w t now (x ∷ xs) = ground (arith, length-in_window_snoc w t now xs)

in_window_shrinks :
    (w now t : ℕ) (xs : List ℕ) → now ≤ t → length (in_window w t xs) ≤ length (in_window w now xs)
unfolding in_window
in_window_shrinks w now t [] le = omega arith
in_window_shrinks w now t (x ∷ xs) le = ground (arith, in_window_shrinks w now t xs le)

count_in_window-le : (w t : ℕ) (xs : List ℕ) → count_in_window w t xs ≤ length (in_window w t xs)
unfolding in_window count_in_window
count_in_window-le w t [] = omega arith
count_in_window-le w t (x ∷ xs) = ground (arith, count_in_window-le w t xs)

abbrev UpTo : ℕ → List ℕ → Type 0
UpTo last [] = Unit
UpTo last (x ∷ xs) = (x ≤ last) × UpTo last xs

UpTo-later : (a b : ℕ) (xs : List ℕ) → a ≤ b → UpTo a xs → UpTo b xs
UpTo-later a b [] le h = tt
UpTo-later a b (x ∷ xs) le (h, hs) = (omega arith, UpTo-later a b xs le hs)

in_window_over :
    (w last t : ℕ) (xs : List ℕ) → UpTo last xs → last + w ≤ t → length (in_window w t xs) ≡ 0
unfolding in_window
in_window_over w last t [] h le = refl
in_window_over w last t (x ∷ xs) (h, hs) le = ground (arith, in_window_over w last t xs hs le)

-- The times that a store holds for a key when a request comes at `s`.
unfoldable stored : Bool → ℕ → ℕ → LimitStores → List ℕ
stored true key s stores = or_else (redis_get s key stores.redis) []
stored false key s stores = or_else (stores.fallback key) []

allowed-check_limit :
    (up : Bool) (key limit w now : ℕ) (stores : LimitStores)
    → (check_limit (counted up) key limit w now stores).0.allowed
      ≡ ltb (length (in_window w now (stored up key now stores))) limit
unfolding check_limit check_limit_redis check_limit_fallback stored
allowed-check_limit true key limit w now stores = refl
allowed-check_limit false key limit w now stores = refl

stored_other :
    (up : Bool) (k key limit w now s : ℕ) (stores : LimitStores)
    → (k == key) ≡ false
    → stored up key s (check_limit (counted up) k limit w now stores).1 ≡ stored up key s stores
unfolding check_limit check_limit_redis check_limit_fallback stored
stored_other true k key limit w now s stores other =
    rw (redis_get-set_other s key k _ (now + w) stores.redis (ground arith)) refl
stored_other false k key limit w now s stores other = ground arith

length-in_window_cons :
    (w t now : ℕ) (xs : List ℕ)
    → length (in_window w t (now ∷ xs))
      ≡ length (in_window w t xs) + (if ltb t (now + w) then 1 else 0)
unfolding in_window
length-in_window_cons w t now xs = ground arith

-- What Redis holds of a key at `s`, after a request at `now`.
stored_redis :
    (key limit w now s : ℕ) (stores : LimitStores)
    → stored true key s (check_limit replies key limit w now stores).1 ≡ (
        if ltb s (now + w)
        then in_window w now (stored true key now stores) ++ (now ∷ [])
        else or_else (redis_get s key (redis_set key [] 0 stores.redis)) [])
unfolding check_limit check_limit_redis stored redis_get redis_set
stored_redis key limit w now s stores = ground (arith, ==_refl key)

stored_fallback :
    (key limit w now s : ℕ) (stores : LimitStores)
    → stored false key s (check_limit rejected key limit w now stores).1 ≡ (
        if ltb (length (in_window w now (stored false key now stores))) limit
        then in_window w now (stored false key now stores) ++ (now ∷ [])
        else stored false key now stores)
unfolding check_limit check_limit_fallback stored
stored_fallback key limit w now s stores = ground (arith, ==_refl key)

-- The recorded times that are still in the window at `t` are no more than those in the store.
abbrev Covers : Bool → ℕ → ℕ → ℕ → LimitStores → List ℕ → Type 0
Covers up key w last stores past =
    (s t : ℕ)
    → last ≤ s
    → s ≤ t
    → length (in_window w t past) ≤ length (in_window w t (stored up key s stores))

stored-Covers :
    (up : Bool) (key limit w last now : ℕ) (stores : LimitStores) (past : List ℕ)
    → UpTo last past
    → last ≤ now
    → Covers up key w last stores past
    → Covers up key w now
        (check_limit (counted up) key limit w now stores).1
        (if (check_limit (counted up) key limit w now stores).0.allowed then now ∷ past else past)
stored-Covers true key limit w last now stores past older le covers s t le_s le_t =
    let more = length-in_window_cons w t now past in
    elim (Bool-cases (ltb s (now + w))) [
      | inl live ↦
          rw (stored_redis key limit w now s stores, live) ground
            (
              arith,
              covers now t le (omega arith),
              more,
              length-in_window_snoc w t now (in_window w now (stored true key now stores)),
              in_window-later w now t (stored true key now stores) (omega arith),
            )
      | inr gone ↦
          let all =
            in_window_over w now t past (UpTo-later last now past le older) (ground arith) in
          ground (arith, more, all)
    ]
stored-Covers false key limit w last now stores past older le covers s t le_s le_t =
    rw (stored_fallback key limit w now s stores, allowed-check_limit false key limit w now stores)
      ground
      (
        arith,
        covers now t le (omega arith),
        length-in_window_cons w t now past,
        length-in_window_snoc w t now (in_window w now (stored false key now stores)),
        in_window-later w now t (stored false key now stores) (omega arith),
      )

count_in_window_cons :
    (w t now : ℕ) (xs : List ℕ)
    → count_in_window w t (now ∷ xs)
      ≡ count_in_window w t xs + (if leb now t && ltb t (now + w) then 1 else 0)
unfolding count_in_window
count_in_window_cons w t now xs = ground arith

-- One more allowed time keeps every window within the limit.
record IsLimited (up : Bool) (key limit w last : ℕ) (stores : LimitStores) (past : List ℕ)
    : Type 0 where
  older : UpTo last past
  covers : Covers up key w last stores past
  limited : (t : ℕ) → count_in_window w t past ≤ limit

check_limit_limited :
    (up : Bool) (key limit w last now : ℕ) (stores : LimitStores) (past : List ℕ)
    → last ≤ now
    → IsLimited up key limit w last stores past
    → (t : ℕ)
    → count_in_window w t
        (if (check_limit (counted up) key limit w now stores).0.allowed then now ∷ past else past)
      ≤ limit
check_limit_limited up key limit w last now stores past le inv t =
    rw (allowed-check_limit up key limit w now stores) elim (Bool-cases (leb now t)) [
      | inl after ↦ ground (
        arith,
        inv.limited t,
        inv.covers now now le (omega arith),
        in_window_shrinks w now t past (ground arith),
        count_in_window-le w t past,
        count_in_window_cons w t now past,
      )
      | inr before ↦ ground (arith, inv.limited t, count_in_window_cons w t now past)
    ]

check_limit_older :
    (up : Bool) (key limit w last now : ℕ) (stores : LimitStores) (past : List ℕ)
    → last ≤ now
    → UpTo last past
    → UpTo now
        (if (check_limit (counted up) key limit w now stores).0.allowed then now ∷ past else past)
check_limit_older up key limit w last now stores past le older =
    elim (Bool-cases (check_limit (counted up) key limit w now stores).0.allowed) [
      | inl allowed ↦ rw allowed (omega arith, UpTo-later last now past le older)
      | inr refused ↦ rw refused (UpTo-later last now past le older)
    ]

check_limit-IsLimited :
    (up : Bool) (key k limit w last now : ℕ) (stores : LimitStores) (past : List ℕ)
    → last ≤ now
    → IsLimited up key limit w last stores past
    → (let after = check_limit (counted up) k limit w now stores in
        IsLimited up key limit w now after.1
          (if k == key && after.0.allowed then now ∷ past else past))
check_limit-IsLimited up key k limit w last now stores past le inv = elim (Bool-cases (k == key)) [
  | inl same ↦
      let e : k ≡ key = ground arith in
      rw (e, ==_refl key)
        (record {
          older = check_limit_older up key limit w last now stores past le inv.older;
          covers = stored-Covers up key limit w last now stores past inv.older le inv.covers;
          limited = check_limit_limited up key limit w last now stores past le inv;
        })
  | inr other ↦ record {
    older = rw other (ground (arith, UpTo-later last now past le inv.older));
    covers = λ s t le_s le_t.
        rw (stored_other up k key limit w now s stores other, other)
          (ground (arith, inv.covers s t (omega arith) le_t));
    limited = λ t. rw other (ground (arith, inv.limited t));
  }
]

allowed_times_limited :
    (limiter : RateLimiter) (up : Bool) (key last : ℕ) (requests : List (ℕ × ℕ))
    (stores : LimitStores) (past : List ℕ)
    → InOrder last requests
    → IsLimited up key limiter.limit limiter.window_ms last stores past
    → (t : ℕ)
    → count_in_window limiter.window_ms t
        (allowed_times limiter (counted up) key requests stores past)
      ≤ limiter.limit
unfolding allowed_times
allowed_times_limited limiter up key last [] stores past order inv t = inv.limited t
allowed_times_limited limiter up key last ((k, now) ∷ requests) stores past (le, order) inv t =
    allowed_times_limited limiter up key now requests _ _ order
      (check_limit-IsLimited up key k limiter.limit limiter.window_ms last now stores past le inv) t

no_requests-IsLimited : {up : Bool} {key limit w : ℕ} → IsLimited up key limit w 0 no_requests []
unfolding in_window count_in_window
no_requests-IsLimited = record {
  older = tt;
  covers = λ s t le_s le_t. omega arith;
  limited = λ t. omega arith;
}

allowed_times_open :
    (limiter : RateLimiter) (key : ℕ) (requests : List (ℕ × ℕ)) (stores : LimitStores)
    (past : List ℕ)
    → 0 < limiter.limit
    → allowed_times limiter command_errors key requests stores past
      ≡ requested_times key requests past
unfolding allowed_times requested_times check_limit
allowed_times_open limiter key [] stores past some_allowed = refl
allowed_times_open limiter key ((k, now) ∷ requests) stores past some_allowed =
    elim (Bool-cases (k == key)) [
      | inl same ↦
          ground (arith, allowed_times_open limiter key requests stores (now ∷ past) some_allowed)
      | inr other ↦ ground (arith, allowed_times_open limiter key requests stores past some_allowed)
    ]

-- For requests in the order of their times, to any keys, from empty stores and with a limit that is
-- not 0. While Redis replies to all of them, and while all pipelines are rejected, at most `limit`
-- requests of a key are allowed in any window of the limiter. While the commands of all pipelines
-- fail, every request is allowed.
pub window_limited :
    (limiter : RateLimiter) (key : ℕ) (requests : List (ℕ × ℕ))
    → InOrder 0 requests
    → 0 < limiter.limit
    → (end : ℕ)
    → (count_in_window limiter.window_ms end
          (allowed_times limiter replies key requests no_requests [])
        ≤ limiter.limit)
      × (count_in_window limiter.window_ms end
            (allowed_times limiter rejected key requests no_requests [])
          ≤ limiter.limit)
      × (allowed_times limiter command_errors key requests no_requests []
          ≡ requested_times key requests [])
window_limited limiter key requests order some_allowed end = (
  allowed_times_limited limiter true key 0 requests no_requests [] order no_requests-IsLimited end,
  allowed_times_limited limiter false key 0 requests no_requests [] order no_requests-IsLimited end,
  allowed_times_open limiter key requests no_requests [] some_allowed,
)
