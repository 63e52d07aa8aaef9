-- ===== src/Breaker/Circuit/Moves.antt =====
-- What each operation of the breaker does to its state, on every branch.
use routiq.Base.{ℕ, ◌+◌, ◌*◌, ◌≤◌, ◌<◌, ◌≡◌, refl, ◌↔◌, ◌⊎◌, Option, none, some, arith}
use routiq.Breaker.Config.{Config}
use routiq.Breaker.Window.{
  RedisCallOutcome, success, redis_error, timeout, circuit_open, concurrency_rejected, WindowStats,
  percentile_us, error_rate,
}
use routiq.Breaker.Circuit.{
  CircuitState, closed, opened, half_open, Env, CircuitBreaker, trip_open, acquire_half_open,
  start_half_open, acquire_in, acquire, stats_of, settle, probe_success, on_success, on_timeout,
  on_redis_error, after, release,
}

-- When a call may proceed, by state.
abbrev pub Admits : CircuitState → Env → CircuitBreaker → Type 0
Admits closed env b = b.inflight < b.config.max_inflight
Admits opened env b =
    (b.opened_at_ms + b.cooldown_ms ≤ env.now)
    × (0 < b.config.half_open_max_ms)
    × (0 < b.config.half_open_probes)
    × (b.inflight < b.config.half_open_probes)
Admits half_open env b =
    (env.now < b.half_open_started_at_ms + b.config.half_open_max_ms)
    × (b.probes_dispatched < b.config.half_open_probes)
    × (b.inflight < b.config.half_open_probes)

acquire_in-Admits :
    (s : CircuitState) (env : Env) (b : CircuitBreaker)
    → ((acquire_in s env b).1 ≡ none) ↔ Admits s env b
unfolding acquire_in acquire_half_open start_half_open
acquire_in-Admits closed env b = ground arith
acquire_in-Admits opened env b = ground arith
acquire_in-Admits half_open env b = ground arith

-- A call may proceed exactly when its state admits it: CLOSED below the concurrency limit; OPEN
-- after the cooldown and HALF_OPEN before its deadline, both with a probe and a slot left.
pub acquire-Admits_iff :
    (env : Env) (b : CircuitBreaker) → ((acquire env b).1 ≡ none) ↔ Admits b.state env b
unfolding acquire
acquire-Admits_iff env b = acquire_in-Admits b.state env b

-- What an answered attempt does to the slots and to the count of rejections.
abbrev pub Accounted : CircuitBreaker → CircuitBreaker × Option RedisCallOutcome → Type 0
Accounted b (b', none) =
    (b'.inflight ≡ b.inflight + 1) × (b'.circuit_rejected_total ≡ b.circuit_rejected_total)
Accounted b (b', some outcome) =
    (b'.inflight ≡ b.inflight)
    × (b'.circuit_rejected_total ≡ b.circuit_rejected_total + 1)
    × ((outcome ≡ circuit_open) ⊎ (outcome ≡ concurrency_rejected))

acquire_in-Accounted :
    (s : CircuitState) (env : Env) (b : CircuitBreaker) → Accounted b (acquire_in s env b)
unfolding acquire_in acquire_half_open start_half_open trip_open
acquire_in-Accounted closed env b = ground arith
acquire_in-Accounted opened env b = ground arith
acquire_in-Accounted half_open env b = ground arith

-- In every state, an attempt that is let through takes one slot and counts no rejection; one that is
-- rejected takes none, counts one rejection and gives CIRCUIT_OPEN or CONCURRENCY_REJECTED.
pub acquire-Accounted : (env : Env) (b : CircuitBreaker) → Accounted b (acquire env b)
unfolding acquire
acquire-Accounted env b = acquire_in-Accounted b.state env b

-- The edges of the state machine that calls take; `reset` alone leads anywhere else.
pub data Edge : CircuitState → CircuitState → Type 0 where
  stays : (s : CircuitState) → Edge s s
  trips : Edge closed opened
  probes : Edge opened half_open
  relapses : Edge half_open opened
  recovers : Edge half_open closed

-- A state is among the allowed successors of another.
abbrev MayBecome : CircuitState → CircuitState → Type 0
MayBecome closed half_open = ⊥
MayBecome opened closed = ⊥
MayBecome _ _ = Unit

Edge-of_MayBecome : (s t : CircuitState) → MayBecome s t → Edge s t
Edge-of_MayBecome closed closed h = stays closed
Edge-of_MayBecome closed opened h = trips
Edge-of_MayBecome closed half_open h = absurd h
Edge-of_MayBecome opened closed h = absurd h
Edge-of_MayBecome opened opened h = stays opened
Edge-of_MayBecome opened half_open h = probes
Edge-of_MayBecome half_open closed h = recovers
Edge-of_MayBecome half_open opened h = relapses
Edge-of_MayBecome half_open half_open h = stays half_open

acquire_in-MayBecome :
    (s : CircuitState) (env : Env) (b : CircuitBreaker)
    → b.state ≡ s
    → MayBecome s (acquire_in s env b).0.state
unfolding acquire_in acquire_half_open start_half_open trip_open
acquire_in-MayBecome closed env b e = ground arith
acquire_in-MayBecome opened env b e = ground arith
acquire_in-MayBecome half_open env b e = tt

-- An attempt to acquire leaves the state, or moves it along an edge: CLOSED to OPEN, OPEN to
-- HALF_OPEN, HALF_OPEN to OPEN or HALF_OPEN to CLOSED; never CLOSED to HALF_OPEN or OPEN to CLOSED.
pub acquire-Edge : (env : Env) (b : CircuitBreaker) → Edge b.state (acquire env b).0.state
unfolding acquire
acquire-Edge env b = Edge-of_MayBecome b.state _ (acquire_in-MayBecome b.state env b refl)

after-MayBecome :
    (outcome : RedisCallOutcome) (env : Env) (b : CircuitBreaker)
    → MayBecome b.state (after outcome env b).state
unfolding after on_success on_timeout on_redis_error
after-MayBecome success env b = ground arith
after-MayBecome timeout env b = ground arith
after-MayBecome redis_error env b = ground arith
after-MayBecome circuit_open env b = ground arith
after-MayBecome concurrency_rejected env b = ground arith

-- So does a release, with any outcome: a breaker that is OPEN or CLOSED never jumps over HALF_OPEN.
pub release-Edge :
    (env : Env) (outcome : RedisCallOutcome) (us : ℕ) (b : CircuitBreaker)
    → Edge b.state (release env outcome us b).state
unfolding release settle
release-Edge env outcome us b =
    Edge-of_MayBecome b.state _ (after-MayBecome outcome env (settle env outcome us b))

-- The recovery thresholds, with the fractions multiplied out.
abbrev pub IsHealthy : Config → WindowStats → Type 0
IsHealthy c s =
    (percentile_us s 99 * c.p99_us_recovery.bottom ≤ c.p99_us_recovery.top * 1)
    × ((error_rate s).top * c.error_rate_recovery.bottom
        ≤ c.error_rate_recovery.top * (error_rate s).bottom)

-- What a HALF_OPEN breaker needs to close: a success that completes the required run, and a
-- window, the success counted in, whose p99 and error rate meet the recovery thresholds.
abbrev pub Recovers : Env → RedisCallOutcome → ℕ → CircuitBreaker → Type 0
Recovers env outcome us b =
    (outcome ≡ success)
    × (b.config.recovery_successes ≤ b.half_open_successes + 1)
    × IsHealthy b.config (stats_of env (settle env outcome us b))

release_in-closes :
    (outcome : RedisCallOutcome) (env : Env) (us : ℕ) (b : CircuitBreaker)
    → b.state ≡ half_open
    → ((release env outcome us b).state ≡ closed) ↔ Recovers env outcome us b
unfolding release settle after on_success on_timeout on_redis_error probe_success trip_open
release_in-closes success env us b e = ground arith
release_in-closes timeout env us b e = ground arith
release_in-closes redis_error env us b e = ground arith
release_in-closes circuit_open env us b e = ground arith
release_in-closes concurrency_rejected env us b e = ground arith

-- A HALF_OPEN breaker closes exactly when a success completes the recovery.
pub release_closes_iff :
    (env : Env) (outcome : RedisCallOutcome) (us : ℕ) (b : CircuitBreaker)
    → b.state ≡ half_open
    → ((release env outcome us b).state ≡ closed) ↔ Recovers env outcome us b
release_closes_iff env outcome us b e = release_in-closes outcome env us b e
