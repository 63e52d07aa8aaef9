-- ===== src/Breaker/Circuit/Run.antt =====
-- Runs of the breaker: any interleaving of attempts to acquire, releases and resets.
pub mod Outage
use routiq.Base.{
  ℕ, suc, ◌+◌, ◌≤◌, ◌<◌, ◌≡◌, ◌≢◌, refl, List, [], ◌∷◌, arith, All, Option, none, some,
}
use routiq.Breaker.Config.{RawConfig, Config}
use routiq.Breaker.Window.{
  RedisCallOutcome, success, redis_error, timeout, circuit_open, concurrency_rejected,
}
use routiq.Breaker.Circuit.{
  CircuitState, closed, opened, half_open, Env, CircuitBreaker, new_breaker, acquire, release,
  reset, acquire_in, acquire_half_open, start_half_open, trip_open, settle, after, on_success,
  on_timeout, on_redis_error, probe_success, check_statistical_open,
}
use routiq.Breaker.Circuit.Invariant.{IsValid, IsRandom}
use routiq.Breaker.Circuit.Kept.{
  IsSettled, acquire-IsValid, release-IsValid, reset-IsValid, new_breaker-IsValid,
}

pub data Op : Type 0 where
  acquires : Env → Op
  releases : Env → RedisCallOutcome → ℕ → Op
  resets : Op

unfoldable pub perform : Op → CircuitBreaker → CircuitBreaker
perform (acquires env) b = (acquire env b).0
perform (releases env outcome us) b = release env outcome us b
perform resets b = reset b

unfoldable pub run : List Op → CircuitBreaker → CircuitBreaker
unfolding perform
run [] b = b
run (op ∷ ops) b = run ops (perform op b)

abbrev pub one_if_none {ℓ} : {A : Type ℓ} → Option A → ℕ
one_if_none none = 1
one_if_none (some a) = 0

abbrev pub admits : Op → CircuitBreaker → ℕ
admits (acquires env) b = one_if_none (acquire env b).1
admits _ b = 0

-- how many calls the run admits
unfoldable pub admitted : List Op → CircuitBreaker → ℕ
admitted [] b = 0
admitted (op ∷ ops) b = admits op b + admitted ops (perform op b)

abbrev pub IsProper : Op → Type 0
IsProper (acquires env) = IsRandom env
IsProper (releases env outcome us) = IsRandom env × IsSettled outcome
IsProper resets = Unit

pub perform-IsValid :
    (op : Op) (b : CircuitBreaker) → IsProper op → IsValid b → IsValid (perform op b)
unfolding perform
perform-IsValid (acquires env) b r v = acquire-IsValid env b r v
perform-IsValid (releases env outcome us) b (r, s) v = release-IsValid env outcome us b r s v
perform-IsValid resets b r v = reset-IsValid b v

pub run-IsValid :
    (ops : List Op) (b : CircuitBreaker) → All IsProper ops → IsValid b → IsValid (run ops b)
unfolding run
run-IsValid [] b h v = v
run-IsValid (op ∷ ops) b (p, h) v = run-IsValid ops (perform op b) h (perform-IsValid op b p v)

-- A new breaker is well formed after any run of attempts, releases and resets, whatever its
-- configuration, where random numbers are below their bound and releases have one of the outcomes
-- SUCCESS, REDIS_ERROR and TIMEOUT: the configuration is in range, the ring has its length and its
-- buckets are consistent, slots and probes are bounded, the totals of the outcomes add up to the
-- requests, and the counters are as the state says.
pub run-new_breaker-IsValid :
    (c : RawConfig) (ops : List Op) → All IsProper ops → IsValid (run ops (new_breaker c))
run-new_breaker-IsValid c ops h = run-IsValid ops (new_breaker c) h (new_breaker-IsValid c)

-- The operations that neither succeed nor reset.
abbrev pub IsUnlucky : Op → Type 0
IsUnlucky (releases env success us) = ⊥
IsUnlucky resets = ⊥
IsUnlucky _ = Unit

abbrev pub failures : List Op → ℕ
failures [] = 0
failures (releases env redis_error us ∷ ops) = suc (failures ops)
failures (releases env timeout us ∷ ops) = suc (failures ops)
failures (_ ∷ ops) = failures ops

abbrev pub fails : Op → ℕ
fails op = failures (op ∷ [])

acquire-consecutive_fail :
    (s : CircuitState) (env : Env) (b : CircuitBreaker)
    → ((acquire_in s env b).0.consecutive_fail ≡ b.consecutive_fail)
      × ((acquire_in s env b).0.config ≡ b.config)
unfolding acquire_in acquire_half_open start_half_open trip_open
acquire-consecutive_fail closed env b = ground arith
acquire-consecutive_fail opened env b = ground arith
acquire-consecutive_fail half_open env b = ground arith

perform-consecutive_fail :
    (op : Op) (b : CircuitBreaker)
    → IsUnlucky op
    → (b.consecutive_fail + fails op ≤ (perform op b).consecutive_fail)
      × ((perform op b).config ≡ b.config)
unfolding perform acquire release settle after on_timeout on_redis_error
perform-consecutive_fail (acquires env) b h = ground (arith, acquire-consecutive_fail b.state env b)
perform-consecutive_fail (releases env success us) b h = absurd h
perform-consecutive_fail (releases env redis_error us) b h = ground arith
perform-consecutive_fail (releases env timeout us) b h = ground arith
perform-consecutive_fail (releases env circuit_open us) b h = ground arith
perform-consecutive_fail (releases env concurrency_rejected us) b h = ground arith
perform-consecutive_fail resets b h = absurd h
