-- ===== src/RateLimit/Robust/Shared.antt =====
-- The keys and the expiry that uam-backend/src/robustRateLimiter.ts writes to Redis: the pipeline of
-- INCR, EXPIREAT and GET, and the deletion of `resetLimit`. Redis is a parameter.
use Prim.Native.String
use routiq.Base.{ℕ, ◌+◌, ◌*◌, ◌/◌, ◌<◌, ◌≡◌, ◌≢◌, String, Bool, if◌then◌else◌}
use routiq.RateLimit.Robust.{
  RateLimitResult, LimiterConfig, Reply, Limiter, PipelineReply, first_result,
  distributed_rate_limit, reset_limit,
}

-- A server that keeps counters. `pipeline now key secs` runs INCR, EXPIREAT at `secs` and GET on
-- `key`; `del key` tells whether the deletion came back.
pub record Counters : Type 1 where
  pub State : Type 0
  pub pipeline : ℕ → String → ℕ → State → State × PipelineReply
  pub del : String → State → State × Bool

unfoldable pub redis_key : LimiterConfig → String → String
redis_key c client = String.◌++◌ c.key_prefix (String.◌++◌ ":" client)

-- `Math.ceil((Date.now() + windowMs) / 1000)`
unfoldable pub expiry_secs : ℕ → LimiterConfig → ℕ
expiry_secs now c = (now + c.window_ms + 999) / 1_000

unfoldable pub reset_key : String → String
reset_key client = String.◌++◌ "rate_limit:" client

module _ (r : Counters) where
  unfoldable pub shared_rate_limit :
      ℕ → String → r.State → Limiter → r.State × Limiter × Reply RateLimitResult
  shared_rate_limit now client s l =
      let (s', reply) = r.pipeline now (redis_key l.config client) (expiry_secs now l.config) s in
      let (l', answered) = distributed_rate_limit now reply client l in (s', l', answered)

  unfoldable pub shared_reset : String → r.State → Limiter → r.State × Limiter × Reply Bool
  shared_reset client s l =
      let (s', deleted) = r.del (reset_key client) s in
      let (l', answered) = reset_limit deleted client l in
      (if l.fallback then s else s', l', answered)

-- The documented behaviour: INCR on a key that has not expired adds one and EXPIREAT sets its expiry
-- anew, INCR on an absent key counts from zero, and DEL touches no other key. `Kept k n t s` says
-- that `s` counts `n` at `k` until the second `t`.
pub record IsRedisCounters (r : Counters) : Type 1 where
  pub Kept : String → ℕ → ℕ → r.State → Type 0
  pub counts_on :
      (k : String) (now secs n t : ℕ) (s : r.State)
      → now < t * 1_000
      → Kept k n t s
      → (s' : r.State) × (r.pipeline now k secs s ≡ (s', first_result (n + 1)))
        × Kept k (n + 1) secs s'
  pub del_other :
      (k j : String) (n t : ℕ) (s : r.State) → j ≢ k → Kept k n t s → Kept k n t (r.del j s).0
