-- ===== src/Breaker/Circuit/Run/Outage.antt =====
-- Failures in a row open the breaker, an open breaker shields Redis until its cooldown has passed,
-- and HALF_OPEN admits a bounded number of probes.
use routiq.Base.{ℕ, ◌+◌, ◌≤◌, ◌<◌, ◌≡◌, ◌≢◌, ◌∙◌, refl, List, [], ◌∷◌, arith, All}
use routiq.Breaker.Window.{success, redis_error, timeout, circuit_open, concurrency_rejected}
use routiq.Breaker.Circuit.{
  closed, opened, half_open, CircuitBreaker, acquire, release, reset, acquire_in, acquire_half_open,
  trip_open, settle, after, on_success, on_timeout, on_redis_error,
}
use routiq.Breaker.Circuit.Invariant.{IsValid}
use routiq.Breaker.Circuit.Run.{
  Op, acquires, releases, resets, perform, run, admits, admitted, IsProper, run-IsValid, IsUnlucky,
  failures, fails, perform-consecutive_fail,
}

failures-cons : (op : Op) (ops : List Op) → failures (op ∷ ops) ≡ fails op + failures ops
failures-cons (acquires env) ops = omega arith
failures-cons (releases env success us) ops = omega arith
failures-cons (releases env redis_error us) ops = omega arith
failures-cons (releases env timeout us) ops = omega arith
failures-cons (releases env circuit_open us) ops = omega arith
failures-cons (releases env concurrency_rejected us) ops = omega arith
failures-cons resets ops = omega arith

run-consecutive_fail :
    (ops : List Op) (b : CircuitBreaker)
    → All IsUnlucky ops
    → (b.consecutive_fail + failures ops ≤ (run ops b).consecutive_fail)
      × ((run ops b).config ≡ b.config)
unfolding run
run-consecutive_fail [] b h = (omega arith, refl)
run-consecutive_fail (op ∷ ops) b (p, h) =
    let (one, same_one) = perform-consecutive_fail op b p in
    let (rest, same_rest) = run-consecutive_fail ops (perform op b) h in
    (omega (arith, failures-cons op ops), same_rest ∙ same_one)

closed_below :
    (b : CircuitBreaker)
    → IsValid b
    → b.state ≡ closed
    → ¬ (b.config.consecutive_fail_open ≤ b.consecutive_fail)
closed_below b v e h = ground (arith, v.in_state)

-- The fast detector, from a well-formed breaker in any state: a run of proper operations without a
-- success or a reset, in which as many calls fail or time out as the threshold says, does not end
-- CLOSED.
pub failures_trip :
    (ops : List Op) (b : CircuitBreaker)
    → All IsProper ops
    → IsValid b
    → All IsUnlucky ops
    → b.config.consecutive_fail_open ≤ failures ops
    → (run ops b).state ≢ closed
failures_trip ops b proper v unlucky many is_closed =
    let (counted, same) = run-consecutive_fail ops b unlucky in
    closed_below (run ops b) (run-IsValid ops b proper v) is_closed
      (rw same (omega (arith, counted, many)))

-- Before the cooldown has passed.
abbrev pub IsBefore : ℕ → Op → Type 0
IsBefore t (acquires env) = env.now < t
IsBefore t (releases env outcome us) = Unit
IsBefore t resets = ⊥

abbrev pub InOutage : ℕ → CircuitBreaker → Type 0
InOutage t b = (b.state ≡ opened) × (b.opened_at_ms + b.cooldown_ms ≡ t)

perform-InOutage :
    (t : ℕ) (op : Op) (b : CircuitBreaker)
    → IsBefore t op
    → InOutage t b
    → InOutage t (perform op b) × ((perform op b).inflight ≤ b.inflight) × (admits op b ≡ 0)
unfolding perform acquire acquire_in release settle after on_success on_timeout on_redis_error
    trip_open
perform-InOutage t (acquires env) b h o = ground arith
perform-InOutage t (releases env success us) b h o = ground arith
perform-InOutage t (releases env redis_error us) b h o = ground arith
perform-InOutage t (releases env timeout us) b h o = ground arith
perform-InOutage t (releases env circuit_open us) b h o = ground arith
perform-InOutage t (releases env concurrency_rejected us) b h o = ground arith
perform-InOutage t resets b h o = absurd h

-- While OPEN, until the cooldown has passed, no call reaches Redis: whatever calls are attempted and
-- whatever earlier calls settle with, none is admitted, none is added to those in flight, and the
-- breaker stays OPEN with the same deadline.
pub outage_admits_none :
    (t : ℕ) (ops : List Op) (b : CircuitBreaker)
    → All (IsBefore t) ops
    → InOutage t b
    → InOutage t (run ops b) × ((run ops b).inflight ≤ b.inflight) × (admitted ops b ≡ 0)
unfolding run admitted
outage_admits_none t [] b h o = (o, omega arith, refl)
outage_admits_none t (op ∷ ops) b (p, h) o =
    let (o', fewer, none_now) = perform-InOutage t op b p o in
    let (o'', fewer', none_later) = outage_admits_none t ops (perform op b) h o' in
    (o'', omega arith, omega arith)

-- A run within one HALF_OPEN episode.
abbrev pub Stays : List Op → CircuitBreaker → Type 0
Stays [] b = b.state ≡ half_open
Stays (op ∷ ops) b = (b.state ≡ half_open) × Stays ops (perform op b)

perform-probes :
    (op : Op) (b : CircuitBreaker)
    → b.state ≡ half_open
    → (perform op b).state ≡ half_open
    → (perform op b).probes_dispatched ≡ admits op b + b.probes_dispatched
unfolding perform acquire acquire_in acquire_half_open release settle after on_success on_timeout
    on_redis_error trip_open reset
perform-probes (acquires env) b e f = ground arith
perform-probes (releases env success us) b e f = ground arith
perform-probes (releases env redis_error us) b e f = ground arith
perform-probes (releases env timeout us) b e f = ground arith
perform-probes (releases env circuit_open us) b e f = ground arith
perform-probes (releases env concurrency_rejected us) b e f = ground arith
perform-probes resets b e f = cc

Stays-head : (ops : List Op) (b : CircuitBreaker) → Stays ops b → b.state ≡ half_open
Stays-head [] b h = h
Stays-head (op ∷ ops) b h = h.0

run-probes :
    (ops : List Op) (b : CircuitBreaker)
    → Stays ops b
    → (run ops b).probes_dispatched ≡ admitted ops b + b.probes_dispatched
unfolding run admitted
run-probes [] b h = omega arith
run-probes (op ∷ ops) b (e, h) =
    omega (arith, run-probes ops (perform op b) h, perform-probes op b e (Stays-head ops _ h))

-- The probes of one HALF_OPEN episode: while a well-formed breaker stays HALF_OPEN under proper
-- operations, the calls that it admits and those that it had dispatched before are together at most
-- the configured number.
pub probes_bounded :
    (ops : List Op) (b : CircuitBreaker)
    → All IsProper ops
    → IsValid b
    → Stays ops b
    → admitted ops b + b.probes_dispatched ≤ (run ops b).config.half_open_probes
probes_bounded ops b proper v h =
    omega (arith, run-probes ops b h, (run-IsValid ops b proper v).probes)
