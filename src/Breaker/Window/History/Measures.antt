-- ===== src/Breaker/Window/History/Measures.antt =====
-- What is measured of a history, and how the buckets of a window add it up.
use routiq.Base.{
  ℕ, zero, suc, ◌+◌, ◌<◌, ◌≡◌, ◌∙◌, refl, sym, ap, ap₂, Bool, true, false, List, [], ◌∷◌, arith,
  length, modify, replicate, All-replicate, get_or, All, if◌then◌else◌, ◌==◌,
}
use routiq.Breaker.Window.{
  redis_error, timeout, TimeBucket, WindowStats, RollingWindow, hist_bands, hist_bounds_us,
  new_window, fresh, band_of, count_in, add_hist, add_bucket, outside, aggregate_from,
}
use routiq.Breaker.Window.Counts.{IsConsistent, fresh-IsConsistent, record_outcome-All}
use routiq.Breaker.Window.Percentile.{histogram, histogram-cons}
use routiq.Breaker.Window.History.{Event, replay, weigh, IsMeasure}
use routiq.Breaker.Window.History.Sums.{sum_over}

abbrev pub is_error : Event → ℕ
is_error e = elim e.outcome [ redis_error ↦ 1 | _ ↦ 0 ]

abbrev pub is_timeout : Event → ℕ
is_timeout e = elim e.outcome [ timeout ↦ 1 | _ ↦ 0 ]

abbrev pub errors_in : List Event → ℕ
errors_in [] = 0
errors_in (e ∷ es) = is_error e + errors_in es

abbrev pub timeouts_in : List Event → ℕ
timeouts_in [] = 0
timeouts_in (e ∷ es) = is_timeout e + timeouts_in es

abbrev pub latencies : List Event → List ℕ
latencies [] = []
latencies (e ∷ es) = e.us ∷ latencies es

-- The statistics of some operations, told from the operations alone.
pub record Describes (s : WindowStats) (es : List Event) : Type 0 where
  pub total : s.total ≡ length es
  pub errors : s.errors ≡ errors_in es
  pub timeouts : s.timeouts ≡ timeouts_in es
  pub hist : s.hist ≡ histogram hist_bounds_us (latencies es)

pub total-IsMeasure : IsMeasure (λ b. b.total) (λ e. 1)
unfolding count_in
total-IsMeasure = record { starts = λ ts. refl; grows = λ e b h. refl }

pub errors-IsMeasure : IsMeasure (λ b. b.errors) is_error
unfolding count_in
errors-IsMeasure = record { starts = λ ts. refl; grows = λ e b h. ground arith }

pub timeouts-IsMeasure : IsMeasure (λ b. b.timeouts) is_timeout
unfolding count_in
timeouts-IsMeasure = record { starts = λ ts. refl; grows = λ e b h. ground arith }

abbrev pub in_band : ℕ → Event → ℕ
in_band j e = if band_of hist_bounds_us e.us == j then 1 else 0

get_or-modify-suc :
    (hs : List ℕ) (i j : ℕ)
    → j < length hs
    → get_or (modify hs i suc) j 0 ≡ get_or hs j 0 + (if i == j then 1 else 0)
get_or-modify-suc [] i j h = absurd (omega arith)
get_or-modify-suc (x ∷ hs) zero zero h = ground arith
get_or-modify-suc (x ∷ hs) zero (suc j) h = ground arith
get_or-modify-suc (x ∷ hs) (suc i) zero h = ground arith
get_or-modify-suc (x ∷ hs) (suc i) (suc j) h = ground (arith, get_or-modify-suc hs i j)

pub get_or-replicate : (k j : ℕ) → ◌≡◌ {A = ℕ} (get_or (replicate k 0) j 0) 0
get_or-replicate zero j = refl
get_or-replicate (suc k) zero = refl
get_or-replicate (suc k) (suc j) = get_or-replicate k j

pub band-IsMeasure : (j : ℕ) → j < hist_bands → IsMeasure (λ b. get_or b.hist j 0) (in_band j)
unfolding count_in
band-IsMeasure j lt = record {
  starts = λ ts. get_or-replicate hist_bands j;
  grows = λ e b h. get_or-modify-suc b.hist (band_of hist_bounds_us e.us) j (omega arith);
}

-- `aggregate` adds each measure up.
get_or-add_hist :
    (gs hs : List ℕ) (j : ℕ)
    → length gs ≡ length hs
    → get_or (add_hist gs hs) j 0 ≡ get_or gs j 0 + get_or hs j 0
get_or-add_hist [] [] j e = refl
get_or-add_hist [] (h ∷ hs) j e = absurd (omega arith)
get_or-add_hist (g ∷ gs) [] j e = absurd (omega arith)
get_or-add_hist (g ∷ gs) (h ∷ hs) zero e = refl
get_or-add_hist (g ∷ gs) (h ∷ hs) (suc j) e = get_or-add_hist gs hs j (omega arith)

module _ (now n : ℕ) where
  pub total-aggregate_from :
      (s : WindowStats) (w : RollingWindow)
      → ((aggregate_from now n s w).total ≡ s.total + sum_over (λ b. b.total) now n w)
        × ((aggregate_from now n s w).errors ≡ s.errors + sum_over (λ b. b.errors) now n w)
        × ((aggregate_from now n s w).timeouts ≡ s.timeouts + sum_over (λ b. b.timeouts) now n w)
  unfolding aggregate_from
  total-aggregate_from s [] = omega arith
  total-aggregate_from s (b ∷ w) =
      ground (arith, total-aggregate_from (if outside now n b.ts then s else add_bucket s b) w)

  length-add_hist : (gs hs : List ℕ) → length (add_hist gs hs) ≡ length gs
  length-add_hist [] hs = refl
  length-add_hist (g ∷ gs) [] = refl
  length-add_hist (g ∷ gs) (h ∷ hs) = ap suc (length-add_hist gs hs)

  hist_step :
      (t : Bool) (s : WindowStats) (b : TimeBucket) (j : ℕ)
      → length s.hist ≡ hist_bands
      → length b.hist ≡ hist_bands
      → (length (if t then s else add_bucket s b).hist ≡ hist_bands)
        × (get_or (if t then s else add_bucket s b).hist j 0
            ≡ get_or s.hist j 0 + (if t then 0 else get_or b.hist j 0))
  hist_step true s b j h k = (h, omega arith)
  hist_step false s b j h k =
      (length-add_hist s.hist b.hist ∙ h, get_or-add_hist s.hist b.hist j (h ∙ sym k))

  pub hist-aggregate_from :
      (s : WindowStats) (w : RollingWindow) (j : ℕ)
      → length s.hist ≡ hist_bands
      → All (λ b. length b.hist ≡ hist_bands) w
      → (length (aggregate_from now n s w).hist ≡ hist_bands)
        × (get_or (aggregate_from now n s w).hist j 0
            ≡ get_or s.hist j 0 + sum_over (λ b. get_or b.hist j 0) now n w)
  unfolding aggregate_from
  hist-aggregate_from s [] j h k = (h, omega arith)
  hist-aggregate_from s (b ∷ w) j h (p, k) =
      let t = outside now n b.ts in
      let (bands, one) = hist_step t s b j h p in
      let (bands', rest) = hist-aggregate_from (if t then s else add_bucket s b) w j bands k in
      (bands', omega (arith, one, rest))

pub list_ext :
    (gs hs : List ℕ)
    → length gs ≡ length hs
    → ((j : ℕ) → j < length gs → get_or gs j 0 ≡ get_or hs j 0)
    → gs ≡ hs
list_ext [] [] e h = refl
list_ext [] (y ∷ hs) e h = absurd (omega arith)
list_ext (x ∷ gs) [] e h = absurd (omega arith)
list_ext (x ∷ gs) (y ∷ hs) e h =
    ap₂ ◌∷◌ (h 0 (omega arith)) (list_ext gs hs (omega arith) (λ j lt. h (suc j) (omega arith)))

pub length-histogram : (bounds xs : List ℕ) → length (histogram bounds xs) ≡ suc (length bounds)
length-histogram [] xs = refl
length-histogram (b ∷ bounds) xs = ap suc (length-histogram bounds _)

get_or-histogram_nil : (bounds : List ℕ) (j : ℕ) → get_or (histogram bounds []) j 0 ≡ 0
get_or-histogram_nil [] zero = refl
get_or-histogram_nil [] (suc j) = refl
get_or-histogram_nil (b ∷ bounds) zero = refl
get_or-histogram_nil (b ∷ bounds) (suc j) = get_or-histogram_nil bounds j

abbrev pub every : Event → Bool
every e = true

pub get_or-histogram :
    (bounds : List ℕ) (es : List Event) (j : ℕ)
    → j < suc (length bounds)
    → get_or (histogram bounds (latencies es)) j 0
      ≡ weigh (λ e. if band_of bounds e.us == j then 1 else 0) every es
get_or-histogram bounds [] j lt = get_or-histogram_nil bounds j
get_or-histogram bounds (e ∷ es) j lt =
    ap (λ h. get_or h j 0) (histogram-cons bounds (latencies es) e.us)
    ∙ get_or-modify-suc (histogram bounds (latencies es)) (band_of bounds e.us) j
        (omega (arith, length-histogram bounds (latencies es)))
    ∙ omega (arith, get_or-histogram bounds es j lt)

pub length_of_weigh : (es : List Event) → weigh (λ e. 1) every es ≡ length es
length_of_weigh [] = refl
length_of_weigh (e ∷ es) = omega (arith, length_of_weigh es)

pub errors_of_weigh : (es : List Event) → weigh is_error every es ≡ errors_in es
errors_of_weigh [] = refl
errors_of_weigh (e ∷ es) = omega (arith, errors_of_weigh es)

pub timeouts_of_weigh : (es : List Event) → weigh is_timeout every es ≡ timeouts_in es
timeouts_of_weigh [] = refl
timeouts_of_weigh (e ∷ es) = omega (arith, timeouts_of_weigh es)

pub replay-All : (n : ℕ) (es : List Event) → All IsConsistent (replay n es)
unfolding replay new_window
replay-All n [] = All-replicate IsConsistent _ (fresh 0) (fresh-IsConsistent 0)
replay-All n (e ∷ es) = record_outcome-All e.at e.us e.outcome (replay n es) (replay-All n es)
