-- ===== src/Breaker/Config.antt =====
-- The breaker's configuration: the environment's values, and `clampConfig`.
pub mod Bounds
use routiq.Base.{ℕ, ◌*◌, String, Option, none, some, min, max, leb, ltb, str_eq, if◌then◌else◌}
use routiq.Base.Int.{ℤ, pos, pos_part}
use routiq.Base.Ratio.{Ratio, whole}

-- A finite number read from the environment, as a signed fraction.
pub record Real : Type 0 where
  pub top : ℤ
  pub bottom : ℕ

-- `CircuitBreakerConfig` as it is read, before any range check
pub record RawConfig : Type 0 where
  pub window_secs : ℤ
  pub min_samples : ℤ
  pub consecutive_fail_open : ℤ
  pub consecutive_timeout_open : ℤ
  pub error_rate_open : Real
  pub timeout_rate_open : Real
  pub p99_us_open : ℤ
  pub p99_us_recovery : Real
  pub error_rate_recovery : Real
  pub open_cooldown_ms : ℤ
  pub cooldown_jitter_ms : ℤ
  pub half_open_probes : ℤ
  pub recovery_successes : ℤ
  pub max_inflight : ℤ
  pub half_open_max_ms : ℤ
  pub operation_timeout_ms : ℤ

-- `CircuitBreakerConfig` of a running breaker
pub record Config : Type 0 where
  pub window_secs : ℕ
  pub min_samples : ℕ
  pub consecutive_fail_open : ℕ
  pub consecutive_timeout_open : ℕ
  pub error_rate_open : Ratio
  pub timeout_rate_open : Ratio
  pub p99_us_open : ℕ
  pub p99_us_recovery : Ratio
  pub error_rate_recovery : Ratio
  pub open_cooldown_ms : ℕ
  pub cooldown_jitter_ms : ℕ
  pub half_open_probes : ℕ
  pub recovery_successes : ℕ
  pub max_inflight : ℕ
  pub half_open_max_ms : ℕ
  pub operation_timeout_ms : ℕ

-- `!raw`: unset or empty; then `Number.isFinite`, where the parser's `none` is "not finite"
unfoldable pub env_or {ℓ} : {A : Type ℓ} → (String → Option A) → Option String → A → A
env_or parse none fallback = fallback
env_or parse (some raw) fallback =
    if str_eq raw "" then fallback else elim (parse raw) [ none ↦ fallback | some n ↦ n ]

module _ (env : String → Option String) (parse_int : String → Option ℤ) where
  unfoldable pub int_env : String → ℕ → ℤ
  unfolding env_or
  int_env name fallback = env_or parse_int (env name) (pos fallback)

module _ (env : String → Option String) (parse_float : String → Option Real) where
  unfoldable pub float_env : String → ℕ → ℕ → Real
  unfolding env_or
  float_env name top bottom =
      env_or parse_float (env name) (record { top = pos top; bottom = bottom })

unfoldable pub default_circuit_breaker_config :
    (String → Option String) → (String → Option ℤ) → (String → Option Real) → RawConfig
unfolding int_env float_env
default_circuit_breaker_config env parse_int parse_float =
    let int = int_env env parse_int in
    let float = float_env env parse_float in
    record {
      window_secs = int "REDIS_CB_WINDOW_SECS" 10;
      min_samples = int "REDIS_CB_MIN_SAMPLES" 20;
      consecutive_fail_open = int "REDIS_CB_CONSECUTIVE_FAIL_OPEN" 5;
      consecutive_timeout_open = int "REDIS_CB_CONSECUTIVE_TIMEOUT_OPEN" 3;
      error_rate_open = float "REDIS_CB_ERROR_RATE_OPEN" 5 10;
      timeout_rate_open = float "REDIS_CB_TIMEOUT_RATE_OPEN" 4 10;
      p99_us_open = int "REDIS_CB_P99_US_OPEN" 250_000;
      p99_us_recovery = float "REDIS_CB_P99_US_RECOVERY" 50_000 1;
      error_rate_recovery = float "REDIS_CB_ERROR_RATE_RECOVERY" 1 10;
      open_cooldown_ms = int "REDIS_CB_OPEN_COOLDOWN_MS" 5_000;
      cooldown_jitter_ms = int "REDIS_CB_COOLDOWN_JITTER_MS" 2_000;
      half_open_probes = int "REDIS_CB_HALF_OPEN_PROBES" 3;
      recovery_successes = int "REDIS_CB_RECOVERY_SUCCESSES" 3;
      max_inflight = int "REDIS_CB_MAX_INFLIGHT" 32;
      half_open_max_ms = int "REDIS_CB_HALF_OPEN_MAX_MS" 10_000;
      operation_timeout_ms = int "REDIS_CB_OPERATION_TIMEOUT_MS" 5_000;
    }

-- `Math.min(hi, Math.max(lo, n))`; below 0 the larger of the two is `lo`
unfoldable pub clamp : ℕ → ℕ → ℤ → ℕ
clamp lo hi n = min hi (max lo (pos_part n))

-- the same on a fraction
unfoldable pub clamp_real : ℕ → ℕ → Real → Ratio
clamp_real lo hi x =
    let t = pos_part x.top in
    if leb t (lo * x.bottom)
    then whole lo
    else if leb (hi * x.bottom) t
    then whole hi
    else record { top = t; bottom = x.bottom }

unfoldable pub clamp_config : RawConfig → Config
unfolding clamp clamp_real
clamp_config c =
    let probes = clamp 1 20 c.half_open_probes in
    let successes = clamp 1 20 c.recovery_successes in
    record {
      window_secs = clamp 1 60 c.window_secs;
      min_samples = clamp 5 1_000 c.min_samples;
      consecutive_fail_open = clamp 1 100 c.consecutive_fail_open;
      consecutive_timeout_open = clamp 1 100 c.consecutive_timeout_open;
      error_rate_open = clamp_real 0 1 c.error_rate_open;
      timeout_rate_open = clamp_real 0 1 c.timeout_rate_open;
      p99_us_open = clamp 1_000 60_000_000 c.p99_us_open;
      p99_us_recovery = clamp_real 1_000 60_000_000 c.p99_us_recovery;
      error_rate_recovery = clamp_real 0 1 c.error_rate_recovery;
      open_cooldown_ms = clamp 100 300_000 c.open_cooldown_ms;
      cooldown_jitter_ms = clamp 0 60_000 c.cooldown_jitter_ms;
      half_open_probes = probes;
      recovery_successes = if ltb probes successes then probes else successes;
      max_inflight = clamp 1 10_000 c.max_inflight;
      half_open_max_ms = clamp 1_000 600_000 c.half_open_max_ms;
      operation_timeout_ms = clamp 100 60_000 c.operation_timeout_ms;
    }
