-- ===== src/Breaker/Circuit/Invariant.antt =====
-- The invariant of the breaker, kept by every operation.
use routiq.Base.{ℕ, ◌+◌, ◌≤◌, ◌<◌, ◌≡◌, arith, max, length, All}
use routiq.Breaker.Config.{Config}
use routiq.Breaker.Config.Bounds.{IsClamped}
use routiq.Breaker.Window.{
  RedisCallOutcome, success, redis_error, timeout, circuit_open, concurrency_rejected,
}
use routiq.Breaker.Window.Counts.{IsConsistent}
use routiq.Breaker.Circuit.{
  CircuitState, closed, opened, half_open, Env, CircuitBreaker, trip_open, check_statistical_open,
  on_success, on_timeout, on_redis_error, after, effective_cooldown,
}

-- `Math.floor(Math.random() * n)` lies below a positive `n`.
abbrev pub IsRandom : Env → Type 0
IsRandom env = (n : ℕ) → 0 < n → env.random n < n

-- What the state of the machine says of the counters.
abbrev pub InState : CircuitState → CircuitBreaker → Type 0
InState closed b =
    (b.consecutive_fail < b.config.consecutive_fail_open)
    × (b.consecutive_timeout < b.config.consecutive_timeout_open)
    × (b.circuit_half_open_total ≤ b.circuit_open_total)
InState opened b =
    (b.config.open_cooldown_ms ≤ b.cooldown_ms)
    × (b.cooldown_ms ≤ b.config.open_cooldown_ms + b.config.cooldown_jitter_ms)
    × (b.circuit_half_open_total < b.circuit_open_total)
InState half_open b = b.circuit_half_open_total ≤ b.circuit_open_total

pub record IsValid (b : CircuitBreaker) : Type 0 where
  pub clamped : IsClamped b.config
  pub ring : length b.window ≡ b.config.window_secs
  pub buckets : All IsConsistent b.window
  pub slots : b.inflight ≤ max b.config.max_inflight b.config.half_open_probes
  pub probes : b.probes_dispatched ≤ b.config.half_open_probes
  pub requests : b.requests_total ≡ b.success_total + b.errors_total + b.timeouts_total
  pub in_state : InState b.state b

pub effective_cooldown_bounds :
    (env : Env) (c : Config)
    → IsRandom env
    → (c.open_cooldown_ms ≤ effective_cooldown env c)
      × (effective_cooldown env c ≤ c.open_cooldown_ms + c.cooldown_jitter_ms)
unfolding effective_cooldown
effective_cooldown_bounds env c h = ground (arith, h c.cooldown_jitter_ms)

trip_open-InState :
    (env : Env) (b : CircuitBreaker)
    → IsRandom env
    → b.circuit_half_open_total ≤ b.circuit_open_total
    → (b.state ≡ opened → InState opened b)
    → InState (trip_open env b).state (trip_open env b)
unfolding trip_open
trip_open-InState env b r h k = ground (arith, effective_cooldown_bounds env b.config r)

check_statistical_open-InState :
    (env : Env) (b : CircuitBreaker)
    → IsRandom env
    → InState b.state b
    → InState (check_statistical_open env b).state (check_statistical_open env b)
unfolding check_statistical_open
check_statistical_open-InState env b r h = ground (arith, trip_open-InState env b r)

pub after-InState :
    (outcome : RedisCallOutcome) (env : Env) (b : CircuitBreaker)
    → IsRandom env
    → InState b.state b
    → 1 ≤ b.config.consecutive_fail_open
    → 1 ≤ b.config.consecutive_timeout_open
    → InState (after outcome env b).state (after outcome env b)
unfolding after on_success on_timeout on_redis_error
after-InState success env b r h f t = ground (arith, effective_cooldown_bounds env b.config r)
after-InState timeout env b r h f t = ground (arith, effective_cooldown_bounds env b.config r)
after-InState redis_error env b r h f t = ground (arith, effective_cooldown_bounds env b.config r)
after-InState circuit_open env b r h f t = h
after-InState concurrency_rejected env b r h f t = h
