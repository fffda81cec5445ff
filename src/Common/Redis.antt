-- ===== src/Common/Redis.antt =====
-- Keys of Redis that expire: `SET key value EX ttl`, `GET` and `DEL`. The clock is in milliseconds.
use Prim.Native.Nat.{ℕ, ◌<◌}
use mathlib.Core.Path.{◌≡◌, refl}
use mathlib.Core.Logic.{◌≢◌}
use mathlib.Core.Bool.{◌&&◌}
use mathlib.Core.Option.{Option, none, some}
use mathlib.Core.List.{List, [], ◌∷◌}
use native.Mathlib.Omega.{arith}
use multi_tenant_collaborati.Common.Tests.{if◌then◌else◌, ◌==◌, ==_refl, ltb}
use multi_tenant_collaborati.Common.Lists.{delete_where}

pub record RedisEntry (A : Type 0) : Type 0 where
  pub key : ℕ
  pub value : A
  pub expires_at : ℕ

module _ {A : Type 0} where
  unfoldable pub redis_get : ℕ → ℕ → List (RedisEntry A) → Option A
  redis_get now k [] = none
  redis_get now k (e ∷ es) =
      if e.key == k && ltb now e.expires_at then some e.value else redis_get now k es

  unfoldable pub redis_del : ℕ → List (RedisEntry A) → List (RedisEntry A)
  redis_del k = delete_where (λ e. e.key == k)

  unfoldable pub redis_set : ℕ → A → ℕ → List (RedisEntry A) → List (RedisEntry A)
  unfolding redis_del
  redis_set k a expiry es = record { key = k; value = a; expires_at = expiry } ∷ redis_del k es

  pub redis_get-set :
      (now k : ℕ) (a : A) (expiry : ℕ) (es : List (RedisEntry A))
      → now < expiry
      → redis_get now k (redis_set k a expiry es) ≡ some a
  unfolding redis_get redis_set
  redis_get-set now k a expiry es soon = ground (arith, ==_refl k)

  pub redis_get-del :
      (now k : ℕ) (es : List (RedisEntry A)) → redis_get now k (redis_del k es) ≡ none
  unfolding redis_get redis_del
  redis_get-del now k [] = refl
  redis_get-del now k (e ∷ es) = ground (arith, redis_get-del now k es)

  redis_get-del_other :
      (now k j : ℕ) (es : List (RedisEntry A))
      → k ≢ j
      → redis_get now k (redis_del j es) ≡ redis_get now k es
  unfolding redis_get redis_del
  redis_get-del_other now k j [] other = refl
  redis_get-del_other now k j (e ∷ es) other = ground (arith, redis_get-del_other now k j es other)

  pub redis_get-set_other :
      (now k j : ℕ) (a : A) (expiry : ℕ) (es : List (RedisEntry A))
      → k ≢ j
      → redis_get now k (redis_set j a expiry es) ≡ redis_get now k es
  unfolding redis_get redis_set
  redis_get-set_other now k j a expiry es other =
      ground (arith, redis_get-del_other now k j es other)
