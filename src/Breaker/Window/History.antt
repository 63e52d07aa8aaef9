-- ===== src/Breaker/Window/History.antt =====
-- The ring of buckets against the history of operations that it stands for, one measure at a time:
-- a measure of a bucket, such as its errors, adds up a weight of the operations counted in it.
pub mod Sums
pub mod Measures
pub mod Refines
use native.Mathlib.Nat.{mod-lt, div-add-mod}
use routiq.Base.{
  ℕ, zero, suc, ◌+◌, ◌*◌, ◌/◌, ◌%◌, ◌≤◌, ◌<◌, ◌≡◌, ◌≢◌, ◌∙◌, refl, sym, subst, ◌⊎◌, inl, inr, Bool,
  true, false, List, [], ◌∷◌, arith, length, modify, replicate, All, All-imp, leb, ltb,
  if◌then◌else◌, Bool-cases, le_cases, ◌==◌, ◌&&◌, ==_iff, min, max, length-replicate,
  length-modify,
}
use routiq.Breaker.Window.{
  RedisCallOutcome, TimeBucket, WindowStats, RollingWindow, hist_bands, fresh, new_window, secs,
  renew, count_in, record_outcome, outside, max_window_buckets,
}

-- One recorded operation.
pub record Event : Type 0 where
  pub at : ℕ
  pub outcome : RedisCallOutcome
  pub us : ℕ

abbrev pub second : Event → ℕ
second e = secs e.at

-- A window of `n` buckets after the operations of a history, the latest first.
unfoldable pub replay : ℕ → List Event → RollingWindow
replay n [] = new_window n
replay n (e ∷ es) = record_outcome e.at e.outcome e.us (replay n es)

abbrev pub IsTimeline : List Event → Type 0
IsTimeline [] = Unit
IsTimeline (e ∷ es) = All (λ d. d.at ≤ e.at) es × IsTimeline es

-- The operations of the last `n` seconds, the present one included.
abbrev pub recent : ℕ → ℕ → List Event → List Event
recent now n [] = []
recent now n (e ∷ es) =
    let rest = recent now n es in if ltb now (second e + n) then e ∷ rest else rest

abbrev pub weigh : (Event → ℕ) → (Event → Bool) → List Event → ℕ
weigh f p [] = 0
weigh f p (e ∷ es) = (if p e then f e else 0) + weigh f p es

mul_step : (n q r : ℕ) → q < r → n * q + n ≤ n * r
mul_step n q r h = grind arith

-- Two seconds of one slot are the same or at least a turn of the ring apart.
mod_gap : (n a b : ℕ) → a ≤ b → a % n ≡ b % n → (a ≡ b) ⊎ (a + n ≤ b)
mod_gap n a b h e = elim (le_cases (b / n) (a / n)) [
  | inl lt ↦ inr (omega (arith, div-add-mod a n, div-add-mod b n, mul_step n (a / n) (b / n) lt))
  | inr ge ↦ elim (le_cases (a / n) (b / n)) [
    | inl lt ↦
        absurd (omega (arith, div-add-mod a n, div-add-mod b n, mul_step n (b / n) (a / n) lt))
    | inr le ↦
        let same : a / n ≡ b / n = omega arith in
        inl (sym (div-add-mod a n) ∙ (λ i. n * same i + e i) ∙ div-add-mod b n)
  ]
]

module _ (f : Event → ℕ) where
  weigh-congr :
      (p q : Event → Bool) (es : List Event) → All (λ e. p e ≡ q e) es → weigh f p es ≡ weigh f q es
  weigh-congr p q [] h = refl
  weigh-congr p q (e ∷ es) (h, hs) = rw (h, weigh-congr p q es hs)

  weigh_none : (p : Event → Bool) (es : List Event) → All (λ e. p e ≡ false) es → weigh f p es ≡ 0
  weigh_none p [] h = refl
  weigh_none p (e ∷ es) (h, hs) = rw (h, weigh_none p es hs)

module _ (n : ℕ) (m : TimeBucket → ℕ) (f : Event → ℕ) where
  -- Bucket `b` of slot `k` holds the operations of one second, the latest that the slot has seen.
  abbrev Holds : ℕ → ℕ → List Event → (ts bands counted : ℕ) → Type 0
  Holds latest k es ts bands counted =
      (ts ≤ latest)
      × (bands ≡ hist_bands)
      × All (λ e. second e % n ≡ k → (second e ≡ ts) ⊎ (second e + n ≤ ts)) es
      × (counted ≡ weigh f (λ e. (second e % n == k) && (second e == ts)) es)

  abbrev Slot : ℕ → ℕ → List Event → TimeBucket → Type 0
  Slot latest k es b = Holds latest k es b.ts (length b.hist) (m b)

  abbrev Slots : ℕ → ℕ → List Event → RollingWindow → Type 0
  Slots latest k es [] = Unit
  Slots latest k es (b ∷ w) = Slot latest k es b × Slots latest (k + 1) es w

-- A measure starts at 0 in an empty bucket, and an operation adds its weight.
pub record IsMeasure (m : TimeBucket → ℕ) (f : Event → ℕ) : Type 0 where
  pub starts : (ts : ℕ) → m (fresh ts) ≡ 0
  pub grows :
      (e : Event) (b : TimeBucket)
      → length b.hist ≡ hist_bands
      → m (count_in e.outcome e.us b) ≡ m b + f e

ts-count_in :
    (outcome : RedisCallOutcome) (us : ℕ) (b : TimeBucket) → (count_in outcome us b).ts ≡ b.ts
unfolding count_in
ts-count_in outcome us b = refl

length-count_in :
    (outcome : RedisCallOutcome) (us : ℕ) (b : TimeBucket)
    → length (count_in outcome us b).hist ≡ length b.hist
unfolding count_in
length-count_in outcome us b = length-modify b.hist _ suc

renew_same : (ts : ℕ) (b : TimeBucket) → (b.ts == ts) ≡ true → renew ts b ≡ b
unfolding renew
renew_same ts b h = rw h

renew_older : (ts : ℕ) (b : TimeBucket) → (b.ts == ts) ≡ false → renew ts b ≡ fresh ts
unfolding renew
renew_older ts b h = rw h

-- The operation of the present second comes on top of those counted before.
present_first :
    (f : Event → ℕ) (p : Event → Bool) (e : Event) (es : List Event) (c : ℕ)
    → p e ≡ true
    → c ≡ weigh f (λ d. p d && (second d == second e)) es
    → c + f e ≡ weigh f (λ d. p d && (second d == second e)) (e ∷ es)
present_first f p e es c h k = rw (h, (==_iff (second e) (second e)).1 refl) (omega arith)

older_one :
    (n k s ts d : ℕ)
    → 0 < n
    → ts ≤ s
    → (ts == s) ≡ false
    → (d % n ≡ k → (d ≡ ts) ⊎ (d + n ≤ ts))
    → ((d % n == k) && (d == s)) ≡ false
older_one n k s ts d pos le ne at = elim (Bool-cases (d % n == k)) [
  | inl here ↦ elim (at ((==_iff _ _).0 here)) [ inl q ↦ ground arith | inr q ↦ ground arith ]
  | inr away ↦ rw away
]

module _ (n : ℕ) (pos : 0 < n) (m : TimeBucket → ℕ) (f : Event → ℕ) (M : IsMeasure m f) where
  Slot-other :
      (latest k : ℕ) (e : Event) (es : List Event) (b : TimeBucket)
      → latest ≤ second e
      → second e % n ≢ k
      → Slot n m f latest k es b
      → Slot n m f (second e) k (e ∷ es) b
  Slot-other latest k e es b h ne (ts, bands, placed, counted) =
      (omega arith, bands, (λ q. absurd (ne q), placed), ground arith)

  Slots-other :
      (latest k : ℕ) (e : Event) (es : List Event) (w : RollingWindow)
      → latest ≤ second e
      → second e % n < k
      → Slots n m f latest k es w
      → Slots n m f (second e) k (e ∷ es) w
  Slots-other latest k e es [] h lt s = tt
  Slots-other latest k e es (b ∷ w) h lt (s, ss) = (
    Slot-other latest k e es b h (λ q. omega arith) s,
    Slots-other latest (k + 1) e es w h (omega arith) ss,
  )

  -- A bucket of the present second, once the operation is counted in.
  Slot-counted :
      (k : ℕ) (e : Event) (es : List Event) (b : TimeBucket)
      → second e % n ≡ k
      → All (λ d. second d ≤ second e) es
      → b.ts ≡ second e
      → length b.hist ≡ hist_bands
      → m b ≡ weigh f (λ d. (second d % n == k) && (second d == second e)) es
      → Slot n m f (second e) k (e ∷ es) (count_in e.outcome e.us b)
  Slot-counted k e es b here past ts bands counted =
      subst
        (λ t.
          Holds n m f (second e) k (e ∷ es) t (length (count_in e.outcome e.us b).hist)
            (m (count_in e.outcome e.us b)))
        (sym (ts-count_in e.outcome e.us b ∙ ts))
        (
          omega arith,
          length-count_in e.outcome e.us b ∙ bands,
          (
            λ q. inl refl,
            All-imp (λ d. second d ≤ second e) _ es
                (λ d le q. mod_gap n (second d) (second e) le (q ∙ sym here)) past,
          ),
          M.grows e b bands
              ∙ present_first f (λ d. second d % n == k) e es (m b) ((==_iff _ k).1 here) counted,
        )

  -- An older bucket counts nothing of the present second.
  older_none :
      (k s : ℕ) (b : TimeBucket) (es : List Event)
      → b.ts ≤ s
      → (b.ts == s) ≡ false
      → All (λ d. second d % n ≡ k → (second d ≡ b.ts) ⊎ (second d + n ≤ b.ts)) es
      → weigh f (λ d. (second d % n == k) && (second d == s)) es ≡ 0
  older_none k s b es le ne placed = weigh_none f _ es (
      All-imp (λ d. second d % n ≡ k → (second d ≡ b.ts) ⊎ (second d + n ≤ b.ts)) _ es
        (λ d at. older_one n k s b.ts (second d) pos le ne at) placed)

  Slot-renewed :
      (latest k : ℕ) (e : Event) (es : List Event) (b : TimeBucket)
      → latest ≤ second e
      → second e % n ≡ k
      → All (λ d. second d ≤ second e) es
      → Slot n m f latest k es b
      → Slot n m f (second e) k (e ∷ es) (count_in e.outcome e.us (renew (second e) b))
  Slot-renewed latest k e es b h here past (ts, bands, placed, counted) =
      elim (Bool-cases (b.ts == second e)) [
        | inl same ↦
            let now : b.ts ≡ second e = (==_iff b.ts (second e)).0 same in
            subst (λ r. Slot n m f (second e) k (e ∷ es) (count_in e.outcome e.us r))
              (sym (renew_same (second e) b same))
              (Slot-counted k e es b here past now bands
                (counted ∙ λ i. weigh f (λ d. (second d % n == k) && (second d == now i)) es))
        | inr older ↦
            subst (λ r. Slot n m f (second e) k (e ∷ es) (count_in e.outcome e.us r))
              (sym (renew_older (second e) b older))
              (Slot-counted k e es (fresh (second e)) here past refl refl (
                M.starts (second e)
                ∙ sym (older_none k (second e) b es (omega arith) older placed)))
      ]

  Slots-recorded :
      (latest k j : ℕ) (e : Event) (es : List Event) (w : RollingWindow)
      → latest ≤ second e
      → second e % n ≡ k + j
      → All (λ d. second d ≤ second e) es
      → Slots n m f latest k es w
      → Slots n m f
          (second e)
          k
          (e ∷ es)
          (modify w j (λ b. count_in e.outcome e.us (renew (second e) b)))
  Slots-recorded latest k j e es [] h here past s = tt
  Slots-recorded latest k zero e es (b ∷ w) h here past (s, ss) = (
    Slot-renewed latest k e es b h (omega arith) past s,
    Slots-other latest (k + 1) e es w h (omega arith) ss,
  )
  Slots-recorded latest k (suc j) e es (b ∷ w) h here past (s, ss) = (
    Slot-other latest k e es b h (λ q. omega arith) s,
    Slots-recorded latest (k + 1) j e es w h (omega arith) past ss,
  )

  Slots-new : (k r : ℕ) → Slots n m f 0 k [] (replicate r (fresh 0))
  Slots-new k zero = tt
  Slots-new k (suc r) = ((omega arith, refl, tt, M.starts 0), Slots-new (k + 1) r)
