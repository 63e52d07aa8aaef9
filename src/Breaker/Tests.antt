-- ===== src/Breaker/Tests.antt =====
-- Runs of the breaker at concrete inputs, and its theorems at inputs that meet their hypotheses.
use routiq.Base.{
  ℕ, ◌+◌, ◌≤◌, ◌≡◌, ◌≢◌, refl, String, none, some, List, [], ◌∷◌, All, leb→le, ltb→lt,
}
use routiq.Breaker.Config.{RawConfig, default_circuit_breaker_config, clamp_config, clamp}
use routiq.Breaker.Window.{
  success, redis_error, timeout, percentile_us, aggregate, new_window, record_outcome, WindowStats,
  hist_bounds_us,
}
use routiq.Breaker.Window.Counts.{AreConsistent, aggregate-AreConsistent}
use routiq.Breaker.Window.Percentile.{histogram, IsPercentile}
use routiq.Breaker.Window.History.{Event, replay, recent}
use routiq.Breaker.Window.History.Measures.{Describes, latencies}
use routiq.Breaker.Window.History.Refines.{aggregate-replay, percentile_us-replay}
use routiq.Breaker.Circuit.{
  Env, CircuitBreaker, new_breaker, acquire, release, opened, closed, half_open, effective_cooldown,
  acquire_half_open, start_half_open,
}
use routiq.Breaker.Circuit.Invariant.{IsRandom, IsValid}
use routiq.Breaker.Circuit.Run.{
  acquires, releases, run, Op, IsProper, run-new_breaker-IsValid, admitted, failures,
}
use routiq.Breaker.Circuit.Run.Outage.{
  failures_trip, InOutage, outage_admits_none, probes_bounded, Stays,
}
use routiq.Breaker.Call.{classify_redis_error, deadline, fulfilled}
use routiq.Breaker.Call.Laws.{
  Item, other, ends, run_items, effects, first_result, pending, settles_once, System, here, next,
  begins, joined, slots_accounted,
}

abbrev defaults : RawConfig
unfolding default_circuit_breaker_config
defaults = default_circuit_breaker_config (λ name. none) (λ s. none) (λ s. none)

abbrev at : ℕ → Env
at t = record { now = t; random = λ n. 0 }

at-IsRandom : (t : ℕ) → IsRandom (at t)
at-IsRandom t n h = h

abbrev error_at : ℕ → Op
error_at t = releases (at t) redis_error 10

abbrev failing : List Op
failing =
    error_at 1_000_000
    ∷ error_at 1_000_000
    ∷ error_at 1_000_000
    ∷ error_at 1_000_000
    ∷ error_at 1_000_000
    ∷ []

abbrev started : CircuitBreaker
started = new_breaker defaults

abbrev outage : CircuitBreaker
outage = run failing started

failing-IsProper : All IsProper failing
failing-IsProper =
    let r = at-IsRandom 1_000_000 in ((r, tt), ((r, tt), ((r, tt), ((r, tt), ((r, tt), tt)))))

-- the outage, and a first probe after its cooldown
abbrev to_probing : List Op
to_probing =
    error_at 1_000_000
    ∷ error_at 1_000_000
    ∷ error_at 1_000_000
    ∷ error_at 1_000_000
    ∷ error_at 1_000_000
    ∷ acquires (at 1_010_000)
    ∷ []

abbrev probing : CircuitBreaker
probing = run to_probing started

to_probing-IsProper : All IsProper to_probing
to_probing-IsProper =
    let r = at-IsRandom 1_000_000 in
    ((r, tt), ((r, tt), ((r, tt), ((r, tt), ((r, tt), (at-IsRandom 1_010_000, tt))))))

started-IsValid : IsValid started
unfolding run
started-IsValid = run-new_breaker-IsValid defaults [] tt

outage-IsValid : IsValid outage
outage-IsValid = run-new_breaker-IsValid defaults failing failing-IsProper

five_errors_open : outage.state ≡ opened
unfolding defaults new_breaker run clamp_config release new_window record_outcome aggregate
    percentile_us
five_errors_open = refl

probe_half_open : probing.state ≡ half_open
unfolding defaults new_breaker run clamp_config acquire release new_window record_outcome aggregate
    percentile_us effective_cooldown acquire_half_open start_half_open
probe_half_open = refl

outage-InOutage : InOutage 1_005_000 outage
unfolding defaults new_breaker run clamp_config release new_window record_outcome aggregate
    percentile_us effective_cooldown
outage-InOutage = (refl, refl)

classify_timeouts :
    classify_redis_error
      (λ s. s)
      (record { message = some "connect ETIMEDOUT timeout"; text = ""; code = none })
    ≡ timeout
unfolding classify_redis_error
classify_timeouts = refl

abbrev outage_stats : WindowStats
outage_stats = aggregate 1_000_000 10 outage.window

outage_stats-AreConsistent : AreConsistent outage_stats
outage_stats-AreConsistent =
    aggregate-AreConsistent 1_000_000 10 outage.window outage-IsValid.buckets

abbrev three : WindowStats
three = record {
  total = 3;
  errors = 0;
  timeouts = 0;
  hist = histogram hist_bounds_us (100 ∷ 700 ∷ 9_000 ∷ []);
}

abbrev early : Event
early = record { at = 3_000; outcome = redis_error; us = 900 }

abbrev late : Event
late = record { at = 5_200; outcome = success; us = 400 }

aggregate-replay_example :
    Describes (aggregate 5_500 2 (replay 2 (late ∷ early ∷ []))) (recent 5 2 (late ∷ early ∷ []))
aggregate-replay_example =
    aggregate-replay 2 5_500 late (early ∷ []) (leb→le 1 2 refl) (leb→le 2 64 refl)
      ((leb→le 3_000 5_200 refl, tt), (tt, tt)) refl

percentile_us-replay_example :
    IsPercentile 99
      (latencies (recent 5 2 (late ∷ early ∷ [])))
      (percentile_us (aggregate 5_500 2 (replay 2 (late ∷ early ∷ []))) 99)
percentile_us-replay_example =
    percentile_us-replay 2 5_500 99 late (early ∷ []) (leb→le 1 2 refl) (leb→le 2 64 refl)
      ((leb→le 3_000 5_200 refl, tt), (tt, tt)) refl

probing_since : probing.half_open_started_at_ms + probing.config.half_open_max_ms ≤ 1_020_000
unfolding defaults new_breaker run clamp_config acquire release new_window record_outcome aggregate
    percentile_us clamp effective_cooldown acquire_half_open start_half_open
probing_since = leb→le 1_020_000 1_020_000 refl

run-new_breaker-IsValid_example : IsValid (run to_probing started)
run-new_breaker-IsValid_example = run-new_breaker-IsValid defaults to_probing to_probing-IsProper

five_failures : started.config.consecutive_fail_open ≤ failures failing
unfolding defaults new_breaker clamp_config clamp
five_failures = leb→le 5 5 refl

failures_trip_example : (run failing started).state ≢ closed
failures_trip_example =
    failures_trip failing started failing-IsProper started-IsValid (tt, (tt, (tt, (tt, (tt, tt)))))
      five_failures

abbrev during : List Op
during = acquires (at 1_002_000) ∷ releases (at 1_002_000) success 100 ∷ []

outage_admits_none_example :
    InOutage 1_005_000 (run during outage)
    × ((run during outage).inflight ≤ outage.inflight)
    × (admitted during outage ≡ 0)
outage_admits_none_example =
    outage_admits_none 1_005_000 during outage (ltb→lt 1_002_000 1_005_000 refl, (tt, tt))
      outage-InOutage

abbrev more_probes : List Op
more_probes = acquires (at 1_010_001) ∷ acquires (at 1_010_002) ∷ acquires (at 1_010_003) ∷ []

more_probes-Stays : Stays more_probes probing
unfolding defaults new_breaker run clamp_config acquire release new_window record_outcome aggregate
    percentile_us effective_cooldown acquire_half_open start_half_open
more_probes-Stays = (refl, (refl, (refl, refl)))

probes_bounded_example :
    admitted more_probes probing + probing.probes_dispatched
    ≤ (run more_probes probing).config.half_open_probes
probes_bounded_example =
    probes_bounded more_probes probing
      (at-IsRandom 1_010_001, (at-IsRandom 1_010_002, (at-IsRandom 1_010_003, tt)))
      (run-new_breaker-IsValid defaults to_probing to_probing-IsProper) more_probes-Stays

-- The timer fires, another call fails, and the command comes back too late.
abbrev race : List (Item String)
race =
    ends (deadline (at 1_000) 5_000_000)
    ∷ other (error_at 1_001)
    ∷ ends (fulfilled (at 1_002) 5_002_000 "PONG")
    ∷ []

settles_once_example :
    ((run_items (λ s. s) race started (pending (λ s. s))).0 ≡ run (effects (λ s. s) race) started)
    × ((run_items (λ s. s) race started (pending (λ s. s))).1.resolved ≡ first_result (λ s. s) race)
settles_once_example = settles_once (λ s. s) race started

abbrev idle : System
idle = record { breaker = started; unsettled = 0 }

idle-IsAccounted : idle.breaker.inflight ≡ idle.unsettled
unfolding defaults new_breaker
idle-IsAccounted = refl

slots_accounted_example :
    (joined 0 (acquire (at 1_000) started)).breaker.inflight
    ≡ (joined 0 (acquire (at 1_000) started)).unsettled
slots_accounted_example =
    slots_accounted {s = idle} idle-IsAccounted (next here (begins idle (at 1_000)))
