-- ===== src/Breaker/Window/Counts.antt =====
-- The counters of a window agree: what `record` and `aggregate` keep true.
use routiq.Base.{
  ℕ, suc, ◌+◌, if_both, ◌∙◌, ◌==◌, ◌≤◌, ◌<◌, ◌≡◌, refl, List, [], ◌∷◌, arith, length, sum, All,
  All-modify, length-modify, sum-modify-suc, true, if◌then◌else◌,
}
use routiq.Base.Ratio.{leb_ratio, whole}
use routiq.Breaker.Window.{
  RedisCallOutcome, success, redis_error, timeout, circuit_open, concurrency_rejected, TimeBucket,
  WindowStats, RollingWindow, hist_bands, hist_bounds_us, fresh, secs, band_of, renew, count_in,
  record_outcome, add_hist, no_stats, add_bucket, outside, aggregate_from, aggregate, error_rate,
  timeout_rate,
}

-- Every operation is in one band, and at most one of the two failure counters counts it.
pub record IsConsistent (b : TimeBucket) : Type 0 where
  pub bands : length b.hist ≡ hist_bands
  pub counted : sum b.hist ≡ b.total
  pub failures : b.errors + b.timeouts ≤ b.total

pub record AreConsistent (s : WindowStats) : Type 0 where
  pub bands : length s.hist ≡ hist_bands
  pub counted : sum s.hist ≡ s.total
  pub failures : s.errors + s.timeouts ≤ s.total

pub fresh-IsConsistent : (ts : ℕ) → IsConsistent (fresh ts)
fresh-IsConsistent ts = record { bands = refl; counted = refl; failures = omega arith }

band_of-le : (bounds : List ℕ) (us : ℕ) → band_of bounds us ≤ length bounds
unfolding band_of
band_of-le [] us = omega arith
band_of-le (b ∷ bounds) us = ground (arith, band_of-le bounds us)

count_in-IsConsistent :
    (outcome : RedisCallOutcome) (us : ℕ) (b : TimeBucket)
    → IsConsistent b
    → IsConsistent (count_in outcome us b)
unfolding count_in
count_in-IsConsistent outcome us b h = record {
  bands = length-modify b.hist _ suc ∙ h.bands;
  counted = omega (arith, sum-modify-suc b.hist (band_of hist_bounds_us us) inside);
  failures = failures_kept outcome;
}
  where
    inside : band_of hist_bounds_us us < length b.hist
    inside = omega (arith, band_of-le hist_bounds_us us, h.bands)

    failures_kept :
        (o : RedisCallOutcome)
        → (elim o [ redis_error ↦ b.errors + 1 | _ ↦ b.errors ])
            + (elim o [ timeout ↦ b.timeouts + 1 | _ ↦ b.timeouts ])
          ≤ b.total + 1
    failures_kept success = omega (arith, h.failures)
    failures_kept redis_error = omega (arith, h.failures)
    failures_kept timeout = omega (arith, h.failures)
    failures_kept circuit_open = omega (arith, h.failures)
    failures_kept concurrency_rejected = omega (arith, h.failures)

renew-IsConsistent : (ts : ℕ) (b : TimeBucket) → IsConsistent b → IsConsistent (renew ts b)
unfolding renew
renew-IsConsistent ts b h = if_both IsConsistent (b.ts == ts) _ _ h (fresh-IsConsistent ts)

pub record_outcome-All :
    (now us : ℕ) (outcome : RedisCallOutcome) (w : RollingWindow)
    → All IsConsistent w
    → All IsConsistent (record_outcome now outcome us w)
unfolding record_outcome
record_outcome-All now us outcome w h =
    All-modify IsConsistent w _ _
      (λ b p.
        count_in-IsConsistent outcome us (renew (secs now) b) (renew-IsConsistent (secs now) b p))
      h

pub length-record_outcome :
    (now us : ℕ) (outcome : RedisCallOutcome) (w : RollingWindow)
    → length (record_outcome now outcome us w) ≡ length w
unfolding record_outcome
length-record_outcome now us outcome w = length-modify w _ _

length-add_hist : (gs hs : List ℕ) → length (add_hist gs hs) ≡ length gs
length-add_hist [] hs = refl
length-add_hist (g ∷ gs) [] = refl
length-add_hist (g ∷ gs) (h ∷ hs) = omega (arith, length-add_hist gs hs)

sum-add_hist : (gs hs : List ℕ) → length gs ≡ length hs → sum (add_hist gs hs) ≡ sum gs + sum hs
sum-add_hist [] [] e = refl
sum-add_hist [] (h ∷ hs) e = absurd (omega arith)
sum-add_hist (g ∷ gs) [] e = omega arith
sum-add_hist (g ∷ gs) (h ∷ hs) e = omega (arith, sum-add_hist gs hs (omega arith))

add_bucket-AreConsistent :
    (s : WindowStats) (b : TimeBucket)
    → AreConsistent s
    → IsConsistent b
    → AreConsistent (add_bucket s b)
add_bucket-AreConsistent s b h k = record {
  bands = length-add_hist s.hist b.hist ∙ h.bands;
  counted = omega (arith, sum-add_hist s.hist b.hist (omega arith));
  failures = omega arith;
}

aggregate_from-AreConsistent :
    (now secs : ℕ) (s : WindowStats) (w : RollingWindow)
    → AreConsistent s
    → All IsConsistent w
    → AreConsistent (aggregate_from now secs s w)
unfolding aggregate_from
aggregate_from-AreConsistent now secs s [] h k = h
aggregate_from-AreConsistent now secs s (b ∷ w) h (p, k) =
    aggregate_from-AreConsistent now secs (if outside now secs b.ts then s else add_bucket s b) w
      (if_both AreConsistent (outside now secs b.ts) _ _ h (add_bucket-AreConsistent s b h p)) k

-- The statistics of a consistent window are consistent: every operation is in one band of the
-- histogram, and errors and timeouts together are at most the operations.
pub aggregate-AreConsistent :
    (now secs : ℕ) (w : RollingWindow) → All IsConsistent w → AreConsistent (aggregate now secs w)
unfolding aggregate
aggregate-AreConsistent now secs w h =
    aggregate_from-AreConsistent _ secs no_stats w
      (record { bands = refl; counted = refl; failures = omega arith }) h

-- A rate of consistent statistics is a fraction of at most 1 with a positive denominator.
pub rates_bounded :
    (s : WindowStats)
    → AreConsistent s
    → (leb_ratio (error_rate s) (whole 1) ≡ true)
      × (1 ≤ (error_rate s).bottom)
      × (leb_ratio (timeout_rate s) (whole 1) ≡ true)
      × (1 ≤ (timeout_rate s).bottom)
unfolding error_rate timeout_rate
rates_bounded s h = ground arith
