-- ===== src/Breaker/Window/History/Refines.antt =====
-- `aggregate` against the history: the statistics of a window are those of the recent operations.
use routiq.Base.{
  ℕ, suc, ◌+◌, ◌≤◌, ◌<◌, ◌≡◌, ◌∙◌, refl, sym, subst, ap, List, [], ◌∷◌, arith, length, All-imp,
  get_or,
}
use routiq.Breaker.Window.{
  WindowStats, hist_bands, hist_bounds_us, secs, no_stats, aggregate_from, aggregate, percentile_us,
}
use routiq.Breaker.Window.Counts.{IsConsistent}
use routiq.Breaker.Window.Percentile.{IsPercentile, percentile_us-IsPercentile, histogram}
use routiq.Breaker.Window.History.{Event, second, replay, IsTimeline, recent, weigh}
use routiq.Breaker.Window.History.Sums.{sum_over, sum_over-replay}
use routiq.Breaker.Window.History.Measures.{
  is_error, is_timeout, latencies, Describes, total-IsMeasure, errors-IsMeasure, timeouts-IsMeasure,
  in_band, get_or-replicate, band-IsMeasure, total-aggregate_from, hist-aggregate_from, list_ext,
  length-histogram, every, get_or-histogram, length_of_weigh, errors_of_weigh, timeouts_of_weigh,
  replay-All,
}

-- Measures that agree with the weights of some operations describe them.
Describes-of_weighs :
    (s : WindowStats) (r : List Event)
    → s.total ≡ weigh (λ e. 1) every r
    → s.errors ≡ weigh is_error every r
    → s.timeouts ≡ weigh is_timeout every r
    → length s.hist ≡ hist_bands
    → ((j : ℕ) → j < hist_bands → get_or s.hist j 0 ≡ weigh (in_band j) every r)
    → Describes s r
Describes-of_weighs s r total errors timeouts bands each = record {
  total = total ∙ length_of_weigh r;
  errors = errors ∙ errors_of_weigh r;
  timeouts = timeouts ∙ timeouts_of_weigh r;
  hist =
      list_ext s.hist (histogram hist_bounds_us (latencies r))
        (bands ∙ sym (length-histogram hist_bounds_us (latencies r)))
        (λ j lt.
          let fits : j < hist_bands = omega arith in
          each j fits ∙ sym (get_or-histogram hist_bounds_us r j fits));
}

-- The window refines the history: after any operations in the order of their times, the
-- statistics read in the second of the latest operation are those of the operations of the
-- window's last seconds, none lost and none kept too long.
pub aggregate-replay :
    (n now : ℕ) (e : Event) (es : List Event)
    → 1 ≤ n
    → n ≤ 64
    → IsTimeline (e ∷ es)
    → secs now ≡ second e
    → Describes (aggregate now n (replay n (e ∷ es))) (recent (second e) n (e ∷ es))
unfolding aggregate
aggregate-replay n now e es pos small h present =
    let w = replay n (e ∷ es) in
    let bands =
      All-imp IsConsistent (λ b. length b.hist ≡ hist_bands) w (λ b c. c.bands)
        (replay-All n (e ∷ es)) in
    let (total, errors, timeouts) = total-aggregate_from (second e) n no_stats w in
    let hist = λ (j : ℕ). hist-aggregate_from (second e) n no_stats w j refl bands in
    rw present (
      Describes-of_weighs (aggregate_from (second e) n no_stats w) (recent (second e) n (e ∷ es))
        (omega (arith, sum_over-replay n pos small _ _ total-IsMeasure e es h))
        (omega (arith, sum_over-replay n pos small _ _ errors-IsMeasure e es h))
        (omega (arith, sum_over-replay n pos small _ _ timeouts-IsMeasure e es h)) ((hist 0).0)
        (λ j fits.
          (hist j).1
          ∙ ap (λ c. c + sum_over (λ b. get_or b.hist j 0) (second e) n w)
              (get_or-replicate hist_bands j)
          ∙ omega (arith, sum_over-replay n pos small _ _ (band-IsMeasure j fits) e es h)))

length-latencies : (es : List Event) → length (latencies es) ≡ length es
length-latencies [] = refl
length-latencies (e ∷ es) = ap suc (length-latencies es)

recent_some :
    (e : Event) (n : ℕ) (es : List Event) → 1 ≤ n → 1 ≤ length (recent (second e) n (e ∷ es))
recent_some e n es h = ground arith

-- The percentiles of the window are those of the latencies themselves: after any operations in the
-- order of their times, at least p per cent of the latencies of the window's last seconds are at
-- most the p-th percentile read in the second of the latest operation, unless that is the mark for
-- "beyond every bound", and fewer are at most any smaller bound of a band.
pub percentile_us-replay :
    (n now pct : ℕ) (e : Event) (es : List Event)
    → 1 ≤ n
    → n ≤ 64
    → IsTimeline (e ∷ es)
    → secs now ≡ second e
    → IsPercentile pct
        (latencies (recent (second e) n (e ∷ es)))
        (percentile_us (aggregate now n (replay n (e ∷ es))) pct)
percentile_us-replay n now pct e es pos small h present =
    let r = recent (second e) n (e ∷ es) in
    let d = aggregate-replay n now e es pos small h present in
    percentile_us-IsPercentile (aggregate now n (replay n (e ∷ es))) (latencies r) pct d.hist
      (d.total ∙ sym (length-latencies r))
      (subst (λ k. 1 ≤ k) (sym d.total) (recent_some e n es pos))
