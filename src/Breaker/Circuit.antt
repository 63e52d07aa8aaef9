-- ===== src/Breaker/Circuit.antt =====
-- The class `CircuitBreaker`: CLOSED -> OPEN -> HALF_OPEN -> CLOSED.
pub mod Moves
pub mod Run
pub mod Invariant
pub mod Kept
use routiq.Base.{
  ℕ, ◌+◌, ◌-◌, ◌%◌, Bool, true, false, ◌&&◌, ◌||◌, Option, none, some, leb, ltb, if◌then◌else◌,
}
use routiq.Base.Ratio.{leb_ratio, whole, Ratio}
use routiq.Breaker.Config.{Config, RawConfig, clamp_config}
use routiq.Breaker.Window.{
  RedisCallOutcome, success, redis_error, timeout, circuit_open, concurrency_rejected,
  RollingWindow, WindowStats, new_window, record_outcome, aggregate, reset_window, error_rate,
  timeout_rate, percentile_us,
}

pub data CircuitState : Type 0 where
  closed opened half_open : CircuitState

abbrev pub state_value : CircuitState → ℕ
state_value closed = 0
state_value opened = 1
state_value half_open = 2

-- What an operation reads of the outside: `Date.now()`, and `Math.floor(Math.random() * n)`.
pub record Env : Type 0 where
  pub now : ℕ
  pub random : ℕ → ℕ

pub record CircuitBreaker : Type 0 where
  pub config : Config
  pub state : CircuitState
  pub opened_at_ms : ℕ
  pub cooldown_ms : ℕ
  pub consecutive_fail : ℕ
  pub consecutive_timeout : ℕ
  pub probes_dispatched : ℕ
  pub half_open_successes : ℕ
  pub half_open_started_at_ms : ℕ
  pub inflight : ℕ
  pub window : RollingWindow
  pub requests_total : ℕ
  pub success_total : ℕ
  pub errors_total : ℕ
  pub timeouts_total : ℕ
  pub circuit_open_total : ℕ
  pub circuit_half_open_total : ℕ
  pub circuit_rejected_total : ℕ

-- the constructor
unfoldable pub new_breaker : RawConfig → CircuitBreaker
new_breaker c =
    let config = clamp_config c in
    record {
      config = config;
      state = closed;
      opened_at_ms = 0;
      cooldown_ms = 0;
      consecutive_fail = 0;
      consecutive_timeout = 0;
      probes_dispatched = 0;
      half_open_successes = 0;
      half_open_started_at_ms = 0;
      inflight = 0;
      window = new_window config.window_secs;
      requests_total = 0;
      success_total = 0;
      errors_total = 0;
      timeouts_total = 0;
      circuit_open_total = 0;
      circuit_half_open_total = 0;
      circuit_rejected_total = 0;
    }

abbrev pub is_opened : CircuitState → Bool
is_opened opened = true
is_opened _ = false

abbrev pub is_half_open : CircuitState → Bool
is_half_open half_open = true
is_half_open _ = false

unfoldable pub is_closed : CircuitBreaker → Bool
is_closed b = elim b.state [ closed ↦ true | _ ↦ false ]

-- the window over the configured seconds
abbrev pub stats_of : Env → CircuitBreaker → WindowStats
stats_of env b = aggregate env.now b.config.window_secs b.window

-- `p50Us`, `p95Us` and `p99Us`
unfoldable pub p50_us : Env → CircuitBreaker → ℕ
p50_us env b = percentile_us (stats_of env b) 50

unfoldable pub p95_us : Env → CircuitBreaker → ℕ
p95_us env b = percentile_us (stats_of env b) 95

unfoldable pub p99_us : Env → CircuitBreaker → ℕ
p99_us env b = percentile_us (stats_of env b) 99

-- the method `errorRate`
unfoldable pub rolling_error_rate : Env → CircuitBreaker → Ratio
rolling_error_rate env b = error_rate (stats_of env b)

-- the jittered cooldown of `tripOpen`
unfoldable pub effective_cooldown : Env → Config → ℕ
effective_cooldown env c =
    c.open_cooldown_ms + (if ltb 0 c.cooldown_jitter_ms then env.random c.cooldown_jitter_ms else 0)

unfoldable pub trip_open : Env → CircuitBreaker → CircuitBreaker
trip_open env b = if is_opened b.state then b else record b {
  state = opened;
  opened_at_ms = env.now;
  cooldown_ms = effective_cooldown env b.config;
  circuit_open_total = b.circuit_open_total + 1;
}

-- `this.circuitRejectedTotal += 1; return outcome`
abbrev pub reject : CircuitBreaker → RedisCallOutcome → CircuitBreaker × Option RedisCallOutcome
reject b outcome =
    (record b { circuit_rejected_total = b.circuit_rejected_total + 1 }, some outcome)

unfoldable pub acquire_half_open : Env → CircuitBreaker → CircuitBreaker × Option RedisCallOutcome
unfolding trip_open
acquire_half_open env b =
    if leb (b.half_open_started_at_ms + b.config.half_open_max_ms) env.now
    then reject (if is_half_open b.state then trip_open env b else b) circuit_open
    else if leb b.config.half_open_probes b.probes_dispatched
    then reject b circuit_open
    else if leb b.config.half_open_probes b.inflight
    then reject b concurrency_rejected
    else (record b { probes_dispatched = b.probes_dispatched + 1; inflight = b.inflight + 1 }, none)

-- the move OPEN -> HALF_OPEN
unfoldable pub start_half_open : Env → CircuitBreaker → CircuitBreaker
start_half_open env b = record b {
  state = half_open;
  probes_dispatched = 0;
  half_open_successes = 0;
  half_open_started_at_ms = env.now;
  circuit_half_open_total = b.circuit_half_open_total + 1;
}

-- `none` is the source's `null`: proceed
acquire_in : CircuitState → Env → CircuitBreaker → CircuitBreaker × Option RedisCallOutcome
acquire_in closed env b =
    if leb b.config.max_inflight b.inflight
    then reject b concurrency_rejected
    else (record b { inflight = b.inflight + 1 }, none)
acquire_in opened env b =
    if leb (b.opened_at_ms + b.cooldown_ms) env.now
    then acquire_half_open env (start_half_open env b)
    else reject b circuit_open
acquire_in half_open env b = acquire_half_open env b

unfoldable pub acquire : Env → CircuitBreaker → CircuitBreaker × Option RedisCallOutcome
unfolding acquire_in
acquire env b = acquire_in b.state env b

-- the test of `checkStatisticalOpen`
unfoldable pub is_degraded : Config → WindowStats → Bool
is_degraded c s =
    leb_ratio c.error_rate_open (error_rate s)
    || leb_ratio c.timeout_rate_open (timeout_rate s)
    || leb c.p99_us_open (percentile_us s 99)

unfoldable pub check_statistical_open : Env → CircuitBreaker → CircuitBreaker
unfolding is_degraded
check_statistical_open env b =
    if ltb (stats_of env b).total b.config.min_samples
    then b
    else if is_degraded b.config (stats_of env b)
    then trip_open env b
    else b

-- the recovery test of `release`
unfoldable pub is_recovered : Config → WindowStats → Bool
is_recovered c s =
    leb_ratio (whole (percentile_us s 99)) c.p99_us_recovery
    && leb_ratio (error_rate s) c.error_rate_recovery

-- the first lines of `release`
unfoldable pub settle : Env → RedisCallOutcome → ℕ → CircuitBreaker → CircuitBreaker
settle env outcome us b = record b {
  inflight = b.inflight - 1;
  window = record_outcome env.now outcome us b.window;
  requests_total = b.requests_total + 1;
}

-- the branch SUCCESS of `release`
unfoldable pub probe_success : Env → CircuitBreaker → CircuitBreaker
unfolding is_recovered
probe_success env b =
    let b' = record b { half_open_successes = b.half_open_successes + 1 } in
    if leb b'.config.recovery_successes b'.half_open_successes
      && is_recovered b'.config (stats_of env b')
    then record b' { state = closed }
    else b'

unfoldable pub on_success : Env → CircuitBreaker → CircuitBreaker
unfolding probe_success check_statistical_open
on_success env b =
    let b' = record b {
      success_total = b.success_total + 1;
      consecutive_fail = 0;
      consecutive_timeout = 0;
    } in
    if is_half_open b'.state then probe_success env b' else check_statistical_open env b'

-- the branch TIMEOUT of `release`
unfoldable pub on_timeout : Env → CircuitBreaker → CircuitBreaker
unfolding trip_open check_statistical_open
on_timeout env b =
    let b' = record b {
      timeouts_total = b.timeouts_total + 1;
      consecutive_fail = b.consecutive_fail + 1;
      consecutive_timeout = b.consecutive_timeout + 1;
    } in
    if is_half_open b'.state
    then trip_open env b'
    else if leb b'.config.consecutive_timeout_open b'.consecutive_timeout
        || leb b'.config.consecutive_fail_open b'.consecutive_fail
    then trip_open env b'
    else check_statistical_open env b'

-- the branch REDIS_ERROR of `release`
unfoldable pub on_redis_error : Env → CircuitBreaker → CircuitBreaker
unfolding trip_open check_statistical_open
on_redis_error env b =
    let b' = record b {
      errors_total = b.errors_total + 1;
      consecutive_fail = b.consecutive_fail + 1;
    } in
    if is_half_open b'.state
    then trip_open env b'
    else if leb b'.config.consecutive_fail_open b'.consecutive_fail
    then trip_open env b'
    else check_statistical_open env b'

-- by outcome; CIRCUIT_OPEN and CONCURRENCY_REJECTED change nothing more
pub after : RedisCallOutcome → Env → CircuitBreaker → CircuitBreaker
after success env b = on_success env b
after timeout env b = on_timeout env b
after redis_error env b = on_redis_error env b
after _ env b = b

unfoldable pub release : Env → RedisCallOutcome → ℕ → CircuitBreaker → CircuitBreaker
unfolding settle after on_success on_timeout on_redis_error
release env outcome us b = after outcome env (settle env outcome us b)

unfoldable pub reset : CircuitBreaker → CircuitBreaker
reset b = record b {
  state = closed;
  consecutive_fail = 0;
  consecutive_timeout = 0;
  probes_dispatched = 0;
  half_open_successes = 0;
  half_open_started_at_ms = 0;
  inflight = 0;
  window = reset_window b.window;
}
