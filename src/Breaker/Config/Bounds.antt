-- ===== src/Breaker/Config/Bounds.antt =====
-- The ranges of a clamped configuration (`clampConfig`).
use routiq.Base.{ℕ, ◌*◌, ◌≤◌, ◌≡◌, arith}
use routiq.Base.Int.{ℤ, pos}
use routiq.Base.Ratio.{Ratio}
use routiq.Breaker.Config.{Real, RawConfig, Config, clamp, clamp_real, clamp_config}

-- A fraction between two whole numbers, with a positive denominator.
pub record Within (lo hi : ℕ) (r : Ratio) : Type 0 where
  pub positive : 1 ≤ r.bottom
  pub above : lo * r.bottom ≤ r.top
  pub below : r.top ≤ hi * r.bottom

-- The ranges that the breaker relies on.
pub record IsClamped (c : Config) : Type 0 where
  pub window : (1 ≤ c.window_secs) × (c.window_secs ≤ 60)
  pub samples : (5 ≤ c.min_samples) × (c.min_samples ≤ 1_000)
  pub fails : (1 ≤ c.consecutive_fail_open) × (c.consecutive_fail_open ≤ 100)
  pub timeouts : (1 ≤ c.consecutive_timeout_open) × (c.consecutive_timeout_open ≤ 100)
  pub error_rate : Within 0 1 c.error_rate_open
  pub timeout_rate : Within 0 1 c.timeout_rate_open
  pub p99 : (1_000 ≤ c.p99_us_open) × (c.p99_us_open ≤ 60_000_000)
  pub p99_back : Within 1_000 60_000_000 c.p99_us_recovery
  pub error_back : Within 0 1 c.error_rate_recovery
  pub cooldown : (100 ≤ c.open_cooldown_ms) × (c.open_cooldown_ms ≤ 300_000)
  pub jitter : c.cooldown_jitter_ms ≤ 60_000
  pub probes : (1 ≤ c.half_open_probes) × (c.half_open_probes ≤ 20)
  pub successes : (1 ≤ c.recovery_successes) × (c.recovery_successes ≤ c.half_open_probes)
  pub inflight : (1 ≤ c.max_inflight) × (c.max_inflight ≤ 10_000)
  pub half_open : (1_000 ≤ c.half_open_max_ms) × (c.half_open_max_ms ≤ 600_000)
  pub deadline : (100 ≤ c.operation_timeout_ms) × (c.operation_timeout_ms ≤ 60_000)

clamp_bounds : (lo hi : ℕ) (n : ℤ) → lo ≤ hi → (lo ≤ clamp lo hi n) × (clamp lo hi n ≤ hi)
unfolding clamp
clamp_bounds lo hi n h = omega arith

clamp_real-Within : (lo hi : ℕ) (x : Real) → lo ≤ hi → Within lo hi (clamp_real lo hi x)
unfolding clamp_real
clamp_real-Within lo hi x h = grind arith

successes_bounds :
    (c : RawConfig)
    → (1 ≤ (clamp_config c).recovery_successes)
      × ((clamp_config c).recovery_successes ≤ (clamp_config c).half_open_probes)
unfolding clamp_config
successes_bounds c =
    ground (arith, clamp_bounds 1 20 c.half_open_probes, clamp_bounds 1 20 c.recovery_successes)

-- Whatever the environment holds, every field of the clamped configuration is in its range, and
-- the successes that recovery needs are at most the probes that HALF_OPEN admits.
pub clamp_config-IsClamped : (c : RawConfig) → IsClamped (clamp_config c)
unfolding clamp_config
clamp_config-IsClamped c = record {
  window = clamp_bounds 1 60 c.window_secs (omega arith);
  samples = clamp_bounds 5 1_000 c.min_samples (omega arith);
  fails = clamp_bounds 1 100 c.consecutive_fail_open (omega arith);
  timeouts = clamp_bounds 1 100 c.consecutive_timeout_open (omega arith);
  error_rate = clamp_real-Within 0 1 c.error_rate_open (omega arith);
  timeout_rate = clamp_real-Within 0 1 c.timeout_rate_open (omega arith);
  p99 = clamp_bounds 1_000 60_000_000 c.p99_us_open (omega arith);
  p99_back = clamp_real-Within 1_000 60_000_000 c.p99_us_recovery (omega arith);
  error_back = clamp_real-Within 0 1 c.error_rate_recovery (omega arith);
  cooldown = clamp_bounds 100 300_000 c.open_cooldown_ms (omega arith);
  jitter = (clamp_bounds 0 60_000 c.cooldown_jitter_ms (omega arith)).1;
  probes = clamp_bounds 1 20 c.half_open_probes (omega arith);
  successes = successes_bounds c;
  inflight = clamp_bounds 1 10_000 c.max_inflight (omega arith);
  half_open = clamp_bounds 1_000 600_000 c.half_open_max_ms (omega arith);
  deadline = clamp_bounds 100 60_000 c.operation_timeout_ms (omega arith);
}

-- A running configuration, read back as raw values.
abbrev pub raw_real : Ratio → Real
raw_real r = record { top = pos r.top; bottom = r.bottom }

abbrev pub raw : Config → RawConfig
raw c = record {
  window_secs = pos c.window_secs;
  min_samples = pos c.min_samples;
  consecutive_fail_open = pos c.consecutive_fail_open;
  consecutive_timeout_open = pos c.consecutive_timeout_open;
  error_rate_open = raw_real c.error_rate_open;
  timeout_rate_open = raw_real c.timeout_rate_open;
  p99_us_open = pos c.p99_us_open;
  p99_us_recovery = raw_real c.p99_us_recovery;
  error_rate_recovery = raw_real c.error_rate_recovery;
  open_cooldown_ms = pos c.open_cooldown_ms;
  cooldown_jitter_ms = pos c.cooldown_jitter_ms;
  half_open_probes = pos c.half_open_probes;
  recovery_successes = pos c.recovery_successes;
  max_inflight = pos c.max_inflight;
  half_open_max_ms = pos c.half_open_max_ms;
  operation_timeout_ms = pos c.operation_timeout_ms;
}

clamp_idem : (lo hi : ℕ) (n : ℤ) → lo ≤ hi → clamp lo hi (pos (clamp lo hi n)) ≡ clamp lo hi n
unfolding clamp
clamp_idem lo hi n h = omega arith

clamp_real_idem :
    (lo hi : ℕ) (x : Real)
    → lo ≤ hi
    → clamp_real lo hi (raw_real (clamp_real lo hi x)) ≡ clamp_real lo hi x
unfolding clamp_real
clamp_real_idem lo hi x h = ground arith

clamp_of_bounds : (lo hi n : ℕ) → lo ≤ n → n ≤ hi → clamp lo hi (pos n) ≡ n
unfolding clamp
clamp_of_bounds lo hi n h k = omega arith

clamp_config_successes :
    (c : RawConfig) {probes successes : ℕ}
    → successes ≤ probes
    → clamp 1 20 c.half_open_probes ≡ probes
    → clamp 1 20 c.recovery_successes ≡ successes
    → (clamp_config c).recovery_successes ≡ successes
unfolding clamp_config
clamp_config_successes c h p q = ground arith

module _ (c : RawConfig) where
  probes_idem :
      clamp 1 20 (pos (clamp_config c).half_open_probes) ≡ (clamp_config c).half_open_probes
  unfolding clamp_config
  probes_idem = clamp_idem 1 20 c.half_open_probes (omega arith)

  successes_clamped :
      clamp 1 20 (pos (clamp_config c).recovery_successes) ≡ (clamp_config c).recovery_successes
  successes_clamped =
      let b = successes_bounds c in
      let p = (clamp_config-IsClamped c).probes in
      clamp_of_bounds 1 20 (clamp_config c).recovery_successes b.0 (omega arith)

  successes_idem :
      (clamp_config (raw (clamp_config c))).recovery_successes ≡ (clamp_config c).recovery_successes
  successes_idem =
      let b = successes_bounds c in
      let p = probes_idem in
      let s = successes_clamped in clamp_config_successes (raw (clamp_config c)) b.1 p s

  -- Clamping a clamped configuration changes nothing.
  pub clamp_config_idem : clamp_config (raw (clamp_config c)) ≡ clamp_config c
  unfolding clamp_config
  clamp_config_idem = λ i. record {
    window_secs = clamp_idem 1 60 c.window_secs (omega arith) i;
    min_samples = clamp_idem 5 1_000 c.min_samples (omega arith) i;
    consecutive_fail_open = clamp_idem 1 100 c.consecutive_fail_open (omega arith) i;
    consecutive_timeout_open = clamp_idem 1 100 c.consecutive_timeout_open (omega arith) i;
    error_rate_open = clamp_real_idem 0 1 c.error_rate_open (omega arith) i;
    timeout_rate_open = clamp_real_idem 0 1 c.timeout_rate_open (omega arith) i;
    p99_us_open = clamp_idem 1_000 60_000_000 c.p99_us_open (omega arith) i;
    p99_us_recovery = clamp_real_idem 1_000 60_000_000 c.p99_us_recovery (omega arith) i;
    error_rate_recovery = clamp_real_idem 0 1 c.error_rate_recovery (omega arith) i;
    open_cooldown_ms = clamp_idem 100 300_000 c.open_cooldown_ms (omega arith) i;
    cooldown_jitter_ms = clamp_idem 0 60_000 c.cooldown_jitter_ms (omega arith) i;
    half_open_probes = probes_idem i;
    recovery_successes = successes_idem i;
    max_inflight = clamp_idem 1 10_000 c.max_inflight (omega arith) i;
    half_open_max_ms = clamp_idem 1_000 600_000 c.half_open_max_ms (omega arith) i;
    operation_timeout_ms = clamp_idem 100 60_000 c.operation_timeout_ms (omega arith) i;
  }
