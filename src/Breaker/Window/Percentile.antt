-- ===== src/Breaker/Window/Percentile.antt =====
-- `percentileUs` against the latencies themselves: the nearest rank, rounded up to a band's bound.
use routiq.Base.{
  ℕ, suc, ◌+◌, ◌*◌, ◌≤◌, ◌<◌, ◌≡◌, ◌∙◌, refl, sym, ap, subst, All-imp, ◌⊎◌, inl, inr, true, false,
  List, [], ◌∷◌, arith, length, modify, replicate, All, leb, if◌then◌else◌, Bool-cases,
}
use routiq.Breaker.Window.{
  WindowStats, hist_bounds_us, max_safe_integer, band_of, percentile_from, percentile_us, rank_of,
}

-- how many latencies are at most a bound, and the others
abbrev pub count_le : ℕ → List ℕ → ℕ
count_le b [] = 0
count_le b (x ∷ xs) = if leb x b then suc (count_le b xs) else count_le b xs

abbrev pub above : ℕ → List ℕ → List ℕ
above b [] = []
above b (x ∷ xs) = let rest = above b xs in if leb x b then rest else x ∷ rest

-- The histogram of a list of latencies: one count for each bound, and one for the rest.
abbrev pub histogram : List ℕ → List ℕ → List ℕ
histogram [] xs = length xs ∷ []
histogram (b ∷ bounds) xs = count_le b xs ∷ histogram bounds (above b xs)

-- One more latency is one more in its band, which is what `record` does.
pub histogram-cons :
    (bounds xs : List ℕ) (x : ℕ)
    → histogram bounds (x ∷ xs) ≡ modify (histogram bounds xs) (band_of bounds x) suc
unfolding band_of
histogram-cons [] xs x = refl
histogram-cons (b ∷ bounds) xs x = elim (Bool-cases (leb x b)) [
  | inl low ↦ rw low
  | inr high ↦ rw high (ap (λ h. count_le b xs ∷ h) (histogram-cons bounds (above b xs) x))
]

histogram-nil : (bounds : List ℕ) → histogram bounds [] ≡ replicate (suc (length bounds)) 0
histogram-nil [] = refl
histogram-nil (b ∷ bounds) = ap (λ h. 0 ∷ h) (histogram-nil bounds)

abbrev pub IsSorted : List ℕ → Type 0
IsSorted [] = Unit
IsSorted (b ∷ bounds) = All (λ c. b < c) bounds × IsSorted bounds

count_le-above :
    (b c : ℕ) (xs : List ℕ) → b ≤ c → count_le c xs ≡ count_le b xs + count_le c (above b xs)
count_le-above b c [] h = refl
count_le-above b c (x ∷ xs) h = ground (arith, count_le-above b c xs h)

length-above : (b : ℕ) (xs : List ℕ) → length xs ≡ count_le b xs + length (above b xs)
length-above b [] = refl
length-above b (x ∷ xs) = ground (arith, length-above b xs)

percentile_from-gt :
    (lo target cumulative : ℕ) (hist bounds : List ℕ)
    → All (λ c. lo < c) bounds
    → (percentile_from target cumulative hist bounds ≡ max_safe_integer)
      ⊎ (lo < percentile_from target cumulative hist bounds)
unfolding percentile_from
percentile_from-gt lo target cumulative [] bounds h = inl refl
percentile_from-gt lo target cumulative (g ∷ hist) [] h =
    ground (arith, percentile_from-gt lo target (cumulative + g) hist [] tt)
percentile_from-gt lo target cumulative (g ∷ hist) (b ∷ bounds) (p, h) =
    ground (arith, percentile_from-gt lo target (cumulative + g) hist bounds h)

-- The answer `p` for a target: a bound that enough latencies meet, while too few meet any smaller
-- bound; or, past every bound, the largest safe integer.
abbrev Reached : ℕ → ℕ → List ℕ → ℕ → Type 0
Reached target cumulative xs p = (p ≡ max_safe_integer) ⊎ (target ≤ cumulative + count_le p xs)

abbrev Tight : ℕ → ℕ → List ℕ → ℕ → ℕ → Type 0
Tight target cumulative xs p c = c < p → cumulative + count_le c xs < target

percentile_from-Reached :
    (target cumulative : ℕ) (bounds xs : List ℕ)
    → IsSorted bounds
    → Reached target cumulative xs (percentile_from target cumulative (histogram bounds xs) bounds)
unfolding percentile_from
percentile_from-Reached target cumulative [] xs s = ground arith
percentile_from-Reached target cumulative (b ∷ bounds) xs (low, s) =
    let next = cumulative + count_le b xs in
    let p = percentile_from target next (histogram bounds (above b xs)) bounds in
    ground (
      arith,
      percentile_from-Reached target next bounds (above b xs) s,
      percentile_from-gt b target next (histogram bounds (above b xs)) bounds low,
      λ (h : b ≤ p). count_le-above b p xs h,
    )

-- The counts beyond `b` are those of the rest, shifted by the count at `b`.
Tight-above :
    (target cumulative p b : ℕ) (bounds xs : List ℕ)
    → All (λ c. b < c) bounds
    → All (Tight target (cumulative + count_le b xs) (above b xs) p) bounds
    → All (Tight target cumulative xs p) bounds
Tight-above target cumulative p b [] xs low h = tt
Tight-above target cumulative p b (c ∷ bounds) xs (lt, low) (t, h) = (
  λ k. omega (arith, t k, count_le-above b c xs (omega arith)),
  Tight-above target cumulative p b bounds xs low h,
)

Tight-none :
    (target cumulative b : ℕ) (bounds xs : List ℕ)
    → All (λ c. b < c) bounds
    → All (Tight target cumulative xs b) bounds
Tight-none target cumulative b [] xs low = tt
Tight-none target cumulative b (c ∷ bounds) xs (lt, low) =
    (λ k. absurd (omega arith), Tight-none target cumulative b bounds xs low)

module _ (target cumulative b : ℕ) (bounds xs : List ℕ) where
  percentile_enough :
      leb target (cumulative + count_le b xs) ≡ true
      → percentile_from target cumulative (histogram (b ∷ bounds) xs) (b ∷ bounds) ≡ b
  unfolding percentile_from
  percentile_enough e = rw e

  percentile_few :
      leb target (cumulative + count_le b xs) ≡ false
      → percentile_from target cumulative (histogram (b ∷ bounds) xs) (b ∷ bounds)
        ≡ percentile_from target (cumulative + count_le b xs) (histogram bounds (above b xs)) bounds
  unfolding percentile_from
  percentile_few e = rw e

percentile_from-Tight :
    (target cumulative : ℕ) (bounds xs : List ℕ)
    → IsSorted bounds
    → All
        (Tight target cumulative xs
          (percentile_from target cumulative (histogram bounds xs) bounds))
        bounds
percentile_from-Tight target cumulative [] xs s = tt
percentile_from-Tight target cumulative (b ∷ bounds) xs (low, s) =
    elim (Bool-cases (leb target (cumulative + count_le b xs))) [
      | inl enough ↦
          subst (λ p. All (Tight target cumulative xs p) (b ∷ bounds))
            (sym (percentile_enough target cumulative b bounds xs enough))
            (λ k. absurd (omega arith), Tight-none target cumulative b bounds xs low)
      | inr few ↦
          subst (λ p. All (Tight target cumulative xs p) (b ∷ bounds))
            (sym (percentile_few target cumulative b bounds xs few))
            (
              λ k. ground arith,
              Tight-above target cumulative _ b bounds xs low
                  (percentile_from-Tight target (cumulative + count_le b xs) bounds (above b xs) s),
            )
    ]

-- A percentile of some latencies, in whole hundredths.
pub record IsPercentile (pct : ℕ) (xs : List ℕ) (p : ℕ) : Type 0 where
  pub reached : (p ≡ max_safe_integer) ⊎ (pct * length xs ≤ 100 * count_le p xs)
  pub tight : All (λ c. c < p → 100 * count_le c xs < pct * length xs) hist_bounds_us

bounds-IsSorted : IsSorted hist_bounds_us
bounds-IsSorted = omega arith

percentile_of_pos :
    (s : WindowStats) (pct : ℕ)
    → 1 ≤ s.total
    → percentile_us s pct ≡ percentile_from (rank_of s.total pct) 0 s.hist hist_bounds_us
unfolding percentile_us
percentile_of_pos s pct pos = ground arith

percentile_of_rank :
    (s : WindowStats) (xs : List ℕ) (pct : ℕ)
    → s.hist ≡ histogram hist_bounds_us xs
    → s.total ≡ length xs
    → 1 ≤ s.total
    → percentile_us s pct
      ≡ percentile_from (rank_of (length xs) pct) 0 (histogram hist_bounds_us xs) hist_bounds_us
percentile_of_rank s xs pct hist total pos = percentile_of_pos s pct pos ∙ λ i.
    percentile_from (rank_of (total i) pct) 0 (hist i) hist_bounds_us

-- The p-th percentile of a histogram of latencies: at least p per cent of the latencies are at
-- most the answer, unless it is the mark for "beyond every bound", and fewer are at most any
-- smaller bound of a band.
pub percentile_us-IsPercentile :
    (s : WindowStats) (xs : List ℕ) (pct : ℕ)
    → s.hist ≡ histogram hist_bounds_us xs
    → s.total ≡ length xs
    → 1 ≤ s.total
    → IsPercentile pct xs (percentile_us s pct)
percentile_us-IsPercentile s xs pct hist total pos =
    subst (IsPercentile pct xs) (sym (percentile_of_rank s xs pct hist total pos)) (record {
      reached = ground (
        arith,
        percentile_from-Reached (rank_of (length xs) pct) 0 hist_bounds_us xs bounds-IsSorted,
      );
      tight =
          All-imp
            (Tight (rank_of (length xs) pct) 0 xs (
              percentile_from (rank_of (length xs) pct) 0 (histogram hist_bounds_us xs)
                hist_bounds_us))
            (λ c.
              c
                < percentile_from (rank_of (length xs) pct) 0 (histogram hist_bounds_us xs)
                    hist_bounds_us
              → 100 * count_le c xs < pct * length xs)
            hist_bounds_us (λ c t k. omega (arith, t k))
            (percentile_from-Tight (rank_of (length xs) pct) 0 hist_bounds_us xs bounds-IsSorted);
    })
