-- ===== src/Breaker/Circuit/Kept.antt =====
-- Every operation of the breaker keeps its invariant.
use routiq.Base.{
  ℕ, ◌+◌, ◌-◌, ◌≤◌, ◌≡◌, ◌∙◌, refl, arith, min, max, length-map, length-replicate, All-map,
  All-replicate,
}
use routiq.Breaker.Config.{RawConfig, clamp_config}
use routiq.Breaker.Config.Bounds.{clamp_config-IsClamped}
use routiq.Breaker.Window.{
  RedisCallOutcome, success, redis_error, timeout, circuit_open, concurrency_rejected, reset_window,
  new_window, fresh, max_window_buckets,
}
use routiq.Breaker.Window.Counts.{
  IsConsistent, fresh-IsConsistent, record_outcome-All, length-record_outcome,
}
use routiq.Breaker.Circuit.{
  CircuitState, closed, opened, half_open, Env, CircuitBreaker, trip_open, acquire_half_open,
  start_half_open, acquire_in, acquire, settle, on_success, on_timeout, on_redis_error, after,
  release, reset, new_breaker,
}
use routiq.Breaker.Circuit.Invariant.{
  IsRandom, InState, IsValid, effective_cooldown_bounds, after-InState,
}

-- What no outcome touches.
abbrev pub SameFrame : CircuitBreaker → CircuitBreaker → Type 0
SameFrame b b' =
    (b'.config ≡ b.config)
    × (b'.window ≡ b.window)
    × (b'.inflight ≡ b.inflight)
    × (b'.probes_dispatched ≡ b.probes_dispatched)
    × (b'.requests_total ≡ b.requests_total)

after-SameFrame :
    (outcome : RedisCallOutcome) (env : Env) (b : CircuitBreaker)
    → SameFrame b (after outcome env b)
unfolding after on_success on_timeout on_redis_error
after-SameFrame success env b = ground arith
after-SameFrame timeout env b = ground arith
after-SameFrame redis_error env b = ground arith
after-SameFrame circuit_open env b = ground arith
after-SameFrame concurrency_rejected env b = ground arith

-- The outcomes that `withCircuitBreaker` hands to `release`.
abbrev pub IsSettled : RedisCallOutcome → Type 0
IsSettled circuit_open = ⊥
IsSettled concurrency_rejected = ⊥
IsSettled _ = Unit

after-requests :
    (outcome : RedisCallOutcome) (env : Env) (b : CircuitBreaker)
    → IsSettled outcome
    → (after outcome env b).success_total
        + (after outcome env b).errors_total
        + (after outcome env b).timeouts_total
      ≡ b.success_total + b.errors_total + b.timeouts_total + 1
unfolding after on_success on_timeout on_redis_error
after-requests success env b h = ground arith
after-requests timeout env b h = ground arith
after-requests redis_error env b h = ground arith
after-requests circuit_open env b h = absurd h
after-requests concurrency_rejected env b h = absurd h

settle-InState :
    (env : Env) (outcome : RedisCallOutcome) (us : ℕ) (b : CircuitBreaker)
    → InState b.state b
    → InState (settle env outcome us b).state (settle env outcome us b)
unfolding settle
settle-InState env outcome us b h = ground arith

-- Releasing a call with any settled outcome keeps the invariant.
pub release-IsValid :
    (env : Env) (outcome : RedisCallOutcome) (us : ℕ) (b : CircuitBreaker)
    → IsRandom env
    → IsSettled outcome
    → IsValid b
    → IsValid (release env outcome us b)
unfolding release settle
release-IsValid env outcome us b r s v =
    let m = settle env outcome us b in
    let (same_config, same_window, same_inflight, same_probes, same_requests) =
      after-SameFrame outcome env m in
    record {
      clamped = rw same_config v.clamped;
      ring =
          rw (same_config, same_window)
            (length-record_outcome env.now us outcome b.window ∙ v.ring);
      buckets = rw same_window (record_outcome-All env.now us outcome b.window v.buckets);
      slots = rw (same_config, same_inflight) (omega (arith, v.slots));
      probes = rw (same_config, same_probes) v.probes;
      requests = omega (arith, same_requests, after-requests outcome env m s, v.requests);
      in_state =
          after-InState outcome env m r (settle-InState env outcome us b v.in_state)
            v.clamped.fails.0 v.clamped.timeouts.0;
    }

acquire_half_open-InState :
    (env : Env) (b : CircuitBreaker)
    → IsRandom env
    → b.state ≡ half_open
    → InState half_open b
    → InState (acquire_half_open env b).0.state (acquire_half_open env b).0
unfolding acquire_half_open
acquire_half_open-InState env b r e h = ground (arith, effective_cooldown_bounds env b.config r)

acquire_in-InState :
    (s : CircuitState) (env : Env) (b : CircuitBreaker)
    → IsRandom env
    → b.state ≡ s
    → InState s b
    → InState (acquire_in s env b).0.state (acquire_in s env b).0
unfolding acquire_in start_half_open
acquire_in-InState closed env b r e h = ground arith
acquire_in-InState opened env b r e h =
    ground (arith, acquire_half_open-InState env (start_half_open env b) r)
acquire_in-InState half_open env b r e h = ground (arith, acquire_half_open-InState env b r)

-- What an attempt to acquire keeps, and the two bounds on calls in flight.
acquire_in-frame :
    (s : CircuitState) (env : Env) (b : CircuitBreaker)
    → let b' = (acquire_in s env b).0 in
      (b'.config ≡ b.config)
      × (b'.window ≡ b.window)
      × (b'.requests_total ≡ b.requests_total)
      × (b'.success_total ≡ b.success_total)
      × (b'.errors_total ≡ b.errors_total)
      × (b'.timeouts_total ≡ b.timeouts_total)
unfolding acquire_in acquire_half_open start_half_open trip_open
acquire_in-frame closed env b = ground arith
acquire_in-frame opened env b = ground arith
acquire_in-frame half_open env b = ground arith

acquire_in-bounds :
    (s : CircuitState) (env : Env) (b : CircuitBreaker)
    → b.inflight ≤ max b.config.max_inflight b.config.half_open_probes
    → b.probes_dispatched ≤ b.config.half_open_probes
    → let b' = (acquire_in s env b).0 in
      (b'.inflight ≤ max b.config.max_inflight b.config.half_open_probes)
      × (b'.probes_dispatched ≤ b.config.half_open_probes)
unfolding acquire_in acquire_half_open start_half_open trip_open
acquire_in-bounds closed env b h k = ground arith
acquire_in-bounds opened env b h k = ground arith
acquire_in-bounds half_open env b h k = ground arith

-- So does an attempt to acquire, admitted or not.
pub acquire-IsValid :
    (env : Env) (b : CircuitBreaker) → IsRandom env → IsValid b → IsValid (acquire env b).0
unfolding acquire
acquire-IsValid env b r v =
    let (config, window, requests, successes, errors, timeouts) = acquire_in-frame b.state env b in
    let (slots, probes) = acquire_in-bounds b.state env b v.slots v.probes in
    record {
      clamped = rw config v.clamped;
      ring = rw (config, window) v.ring;
      buckets = rw window v.buckets;
      slots = rw config slots;
      probes = rw config probes;
      requests = omega (arith, v.requests);
      in_state = acquire_in-InState b.state env b r refl v.in_state;
    }

half_opens-le :
    (s : CircuitState) (b : CircuitBreaker)
    → InState s b
    → b.circuit_half_open_total ≤ b.circuit_open_total
half_opens-le closed b h = h.2
half_opens-le opened b h = omega arith
half_opens-le half_open b h = h

ring_size : (n : ℕ) → 1 ≤ n → n ≤ 60 → min max_window_buckets (max 1 n) ≡ n
ring_size n h k = omega arith

-- And so does a reset.
pub reset-IsValid : (b : CircuitBreaker) → IsValid b → IsValid (reset b)
unfolding reset reset_window
reset-IsValid b v = record {
  clamped = v.clamped;
  ring = length-map b.window (λ x. fresh 0) ∙ v.ring;
  buckets = All-map IsConsistent b.window (λ x. fresh 0) (λ x. fresh-IsConsistent 0);
  slots = omega arith;
  probes = omega arith;
  requests = v.requests;
  in_state = (v.clamped.fails.0, v.clamped.timeouts.0, half_opens-le b.state b v.in_state);
}

pub new_breaker-IsValid : (c : RawConfig) → IsValid (new_breaker c)
unfolding new_breaker new_window
new_breaker-IsValid c =
    let k = clamp_config-IsClamped c in
    record {
      clamped = k;
      ring =
          length-replicate _ (fresh 0)
          ∙ ring_size (clamp_config c).window_secs k.window.0 k.window.1;
      buckets = All-replicate IsConsistent _ (fresh 0) (fresh-IsConsistent 0);
      slots = omega arith;
      probes = omega arith;
      requests = refl;
      in_state = (k.fails.0, k.timeouts.0, omega arith);
    }

pub inflight-release :
    (env : Env) (outcome : RedisCallOutcome) (us : ℕ) (b : CircuitBreaker)
    → (release env outcome us b).inflight ≡ b.inflight - 1
unfolding release settle
inflight-release env outcome us b = (after-SameFrame outcome env (settle env outcome us b)).2
