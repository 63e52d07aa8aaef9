-- ===== src/Redis.antt =====
-- uam-backend/src/config/redis.ts: the cache helpers over a Redis server that is not modelled.
use routiq.Base.{ℕ, zero, suc, String, Bool, Option, none, some, if◌then◌else◌}
use routiq.Breaker.Call.{CallResult, ok, failed}

-- The cache pool behind the breaker, as `runCacheCommand` hands it over. The state is all that can
-- change between two commands: the server's keys, the connection, the breaker and the time.
pub record Redis : Type 1 where
  pub State : Type 0
  -- `isRedisAvailable()`
  pub available : State → Bool
  pub get : String → State → State × CallResult (Option String)
  pub setex : String → ℕ → String → State → State × CallResult (Unit {0})
  pub set : String → String → State → State × CallResult (Unit {0})
  pub del : String → State → State × CallResult (Unit {0})

module _ (R : Redis) where
  open R use {State, available, get, setex, set, del}

  -- `res.ok ? res.value : null`
  abbrev pub value_or_null : CallResult (Option String) → Option String
  value_or_null (ok v) = v
  value_or_null (failed outcome) = none

  unfoldable pub cache_get : String → State → State × Option String
  cache_get key s =
      let (s', reply) = get key s in if available s then (s', value_or_null reply) else (s, none)

  -- `ttl` is `none` or 0 for a key that does not expire; a failure is ignored
  unfoldable pub cache_set : String → String → Option ℕ → State → State
  cache_set key value ttl s =
      if available s
      then elim ttl [
        | none ↦ (set key value s).0
        | some t ↦ elim t [ zero ↦ (set key value s).0 | suc n ↦ (setex key (suc n) value s).0 ]
      ]
      else s

  unfoldable pub cache_del : String → State → State
  cache_del key s = if available s then (del key s).0 else s
