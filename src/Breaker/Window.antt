-- ===== src/Breaker/Window.antt =====
-- `RollingWindow` and `percentileUs`: one-second buckets in a ring, each with a latency histogram.
pub mod Counts
pub mod History
pub mod Percentile
use routiq.Base.{
  ℕ, zero, suc, ◌+◌, ◌*◌, ◌/◌, ◌%◌, Bool, true, false, ◌||◌, List, [], ◌∷◌, map, min, max, length,
  modify, replicate, leb, ltb, ◌==◌, if◌then◌else◌,
}
use routiq.Base.Ratio.{Ratio}

pub data RedisCallOutcome : Type 0 where
  success redis_error timeout circuit_open concurrency_rejected : RedisCallOutcome

abbrev pub hist_bands : ℕ
hist_bands = 18

-- upper bounds in microseconds; the last band is open-ended
abbrev pub hist_bounds_us : List ℕ
hist_bounds_us =
    500 ∷ 1_000 ∷ 2_000 ∷ 4_000 ∷ 8_000 ∷ 16_000 ∷ 32_000 ∷ 64_000 ∷ 100_000 ∷ 150_000 ∷ 200_000
    ∷ 300_000 ∷ 400_000 ∷ 500_000 ∷ 750_000 ∷ 1_000_000 ∷ 2_000_000 ∷ []

abbrev pub max_window_buckets : ℕ
max_window_buckets = 64

abbrev pub max_safe_integer : ℕ
max_safe_integer = 9_007_199_254_740_991

pub record TimeBucket : Type 0 where
  pub ts : ℕ
  pub total : ℕ
  pub errors : ℕ
  pub timeouts : ℕ
  pub latency_sum : ℕ
  pub hist : List ℕ

pub record WindowStats : Type 0 where
  pub total : ℕ
  pub errors : ℕ
  pub timeouts : ℕ
  pub hist : List ℕ

abbrev pub RollingWindow : Type 0
RollingWindow = List TimeBucket

-- a bucket of second `ts` with nothing in it
abbrev pub fresh : ℕ → TimeBucket
fresh ts = record {
  ts = ts;
  total = 0;
  errors = 0;
  timeouts = 0;
  latency_sum = 0;
  hist = replicate hist_bands 0;
}

-- the constructor
unfoldable pub new_window : ℕ → RollingWindow
new_window size = replicate (min max_window_buckets (max 1 size)) (fresh 0)

-- `nowSecs`
abbrev pub secs : ℕ → ℕ
secs now_ms = now_ms / 1000

-- the index of the first bound that the latency does not pass, or the number of bounds
unfoldable pub band_of : List ℕ → ℕ → ℕ
band_of [] us = 0
band_of (b ∷ bounds) us = if leb us b then 0 else suc (band_of bounds us)

-- the bucket of second `ts`: one of another second is emptied
unfoldable pub renew : ℕ → TimeBucket → TimeBucket
renew ts b = if b.ts == ts then b else fresh ts

-- the counters of `record`
unfoldable pub count_in : RedisCallOutcome → ℕ → TimeBucket → TimeBucket
unfolding band_of
count_in outcome us b = record b {
  total = b.total + 1;
  errors = elim outcome [ redis_error ↦ b.errors + 1 | _ ↦ b.errors ];
  timeouts = elim outcome [ timeout ↦ b.timeouts + 1 | _ ↦ b.timeouts ];
  latency_sum = b.latency_sum + us;
  hist = modify b.hist (band_of hist_bounds_us us) suc;
}

-- `record` at the time `now_ms`
unfoldable pub record_outcome : ℕ → RedisCallOutcome → ℕ → RollingWindow → RollingWindow
unfolding renew count_in
record_outcome now_ms outcome us w =
    let ts = secs now_ms in modify w (ts % length w) (λ b. count_in outcome us (renew ts b))

abbrev pub add_hist : List ℕ → List ℕ → List ℕ
add_hist [] hs = []
add_hist (g ∷ gs) [] = g ∷ gs
add_hist (g ∷ gs) (h ∷ hs) = (g + h) ∷ add_hist gs hs

abbrev pub no_stats : WindowStats
no_stats = record { total = 0; errors = 0; timeouts = 0; hist = replicate hist_bands 0 }

abbrev pub add_bucket : WindowStats → TimeBucket → WindowStats
add_bucket s b = record {
  total = s.total + b.total;
  errors = s.errors + b.errors;
  timeouts = s.timeouts + b.timeouts;
  hist = add_hist s.hist b.hist;
}

-- `b.ts < nowTs - windowSecs || b.ts > nowTs`, with the negative cutoff of an early clock
abbrev pub outside : ℕ → ℕ → ℕ → Bool
outside now_ts window_secs ts = ltb (ts + window_secs) now_ts || ltb now_ts ts

-- the loop of `aggregate`
unfoldable pub aggregate_from : ℕ → ℕ → WindowStats → RollingWindow → WindowStats
aggregate_from now_ts window_secs s [] = s
aggregate_from now_ts window_secs s (b ∷ w) =
    aggregate_from now_ts window_secs
      (if outside now_ts window_secs b.ts then s else add_bucket s b) w

unfoldable pub aggregate : ℕ → ℕ → RollingWindow → WindowStats
unfolding aggregate_from
aggregate now_ms window_secs w = aggregate_from (secs now_ms) window_secs no_stats w

unfoldable pub reset_window : RollingWindow → RollingWindow
reset_window w = map (λ b. fresh 0) w

unfoldable pub error_rate : WindowStats → Ratio
error_rate s =
    if s.total == 0
    then record { top = 0; bottom = 1 }
    else record { top = s.errors; bottom = s.total }

unfoldable pub timeout_rate : WindowStats → Ratio
timeout_rate s =
    if s.total == 0
    then record { top = 0; bottom = 1 }
    else record { top = s.timeouts; bottom = s.total }

-- the loop of `percentileUs`
unfoldable pub percentile_from : ℕ → ℕ → List ℕ → List ℕ → ℕ
percentile_from target cumulative [] bounds = max_safe_integer
percentile_from target cumulative (h ∷ hist) [] =
    if leb target (cumulative + h)
    then max_safe_integer
    else percentile_from target (cumulative + h) hist []
percentile_from target cumulative (h ∷ hist) (b ∷ bounds) =
    if leb target (cumulative + h) then b else percentile_from target (cumulative + h) hist bounds

-- `Math.ceil(total * pct / 100)`
abbrev pub rank_of : ℕ → ℕ → ℕ
rank_of total pct = (total * pct + 99) / 100

unfoldable pub percentile_us : WindowStats → ℕ → ℕ
percentile_us s pct =
    if s.total == 0 then 0 else percentile_from (rank_of s.total pct) 0 s.hist hist_bounds_us
