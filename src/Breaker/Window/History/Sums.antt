-- ===== src/Breaker/Window/History/Sums.antt =====
-- What a measure adds up to over the ring: the weights of the operations of the last seconds.
use native.Mathlib.Nat.{mod-lt, add-mod_right}
use routiq.Base.{
  ℕ, ◌+◌, ◌%◌, ◌≤◌, ◌≡◌, ◌∙◌, refl, sym, ap, ap₂, All-of, subst, ◌⊎◌, inl, inr, Bool, true, false,
  List, [], ◌∷◌, arith, length, modify, All, All-imp, leb, ltb, if◌then◌else◌, Bool-cases, ◌==◌,
  ◌&&◌, ==_iff, min, max, length-replicate,
}
use routiq.Breaker.Window.{
  TimeBucket, RollingWindow, fresh, new_window, renew, count_in, record_outcome, outside,
}
use routiq.Breaker.Window.Counts.{length-record_outcome}
use routiq.Breaker.Window.History.{
  Event, second, replay, IsTimeline, recent, weigh, weigh-congr, weigh_none, Slot, Slots, IsMeasure,
  Slots-recorded, Slots-new,
}

-- the sum of a measure over the buckets that `aggregate` reads
abbrev pub sum_over : (TimeBucket → ℕ) → ℕ → ℕ → RollingWindow → ℕ
sum_over m now n [] = 0
sum_over m now n (b ∷ w) = (if outside now n b.ts then 0 else m b) + sum_over m now n w

length-replay : (n : ℕ) (es : List Event) → length (replay n es) ≡ length (new_window n)
unfolding replay
length-replay n [] = refl
length-replay n (e ∷ es) =
    length-record_outcome e.at e.us e.outcome (replay n es) ∙ length-replay n es

length-new_window : (n : ℕ) → 1 ≤ n → n ≤ 64 → length (new_window n) ≡ n
unfolding new_window
length-new_window n h k =
    length-replicate _ (fresh 0) ∙ (let e : min 64 (max 1 n) ≡ n = omega arith in e)

-- One operation `d` of slot `k`, when the slot's bucket is not read, and when it is.
outside_one :
    (n now k ts d : ℕ)
    → 1 ≤ n
    → ts ≤ now
    → outside now n ts ≡ true
    → (d % n ≡ k → (d ≡ ts) ⊎ (d + n ≤ ts))
    → ((d % n == k) && ltb now (d + n)) ≡ false
outside_one n now k ts d pos le out at = elim (Bool-cases (d % n == k)) [
  | inl here ↦ elim (at ((==_iff _ _).0 here)) [ inl q ↦ ground arith | inr q ↦ ground arith ]
  | inr away ↦ rw away
]

-- a bucket a whole turn old shares its slot with the present second
turn_slot : (n now k ts : ℕ) → now ≡ ts + n → ts % n ≡ k → now % n ≡ k
turn_slot n now k ts e h = ap (λ t. t % n) e ∙ add-mod_right ts n ∙ h

inside_one :
    (n now k ts d : ℕ)
    → 1 ≤ n
    → ts ≤ now
    → outside now n ts ≡ false
    → (now % n ≡ k → (now ≡ ts) ⊎ (now + n ≤ ts))
    → (d % n ≡ k → (d ≡ ts) ⊎ (d + n ≤ ts))
    → ((d % n == k) && (d == ts)) ≡ ((d % n == k) && ltb now (d + n))
inside_one n now k ts d pos le inside present at = elim (Bool-cases (d % n == k)) [
  | inl here ↦ elim (at ((==_iff _ _).0 here)) [
    | inl q ↦
        let here' : ts % n ≡ k = sym (ap (λ t. t % n) q) ∙ (==_iff _ _).0 here in
        ground (arith, λ (t : now ≡ ts + n). present (turn_slot n now k ts t here'))
    | inr q ↦ ground arith
  ]
  | inr away ↦ rw away
]

module _ (f : Event → ℕ) where
  weigh_split :
      (p q r : Event → Bool) (es : List Event)
      → ((e : Event)
          → (if r e then f e else 0) ≡ (if p e then f e else 0) + (if q e then f e else 0))
      → weigh f r es ≡ weigh f p es + weigh f q es
  weigh_split p q r [] h = refl
  weigh_split p q r (e ∷ es) h = omega (arith, h e, weigh_split p q r es h)

  weigh-recent :
      (now n : ℕ) (es : List Event)
      → weigh f (λ e. ltb now (second e + n)) es ≡ weigh f (λ e. true) (recent now n es)
  weigh-recent now n [] = refl
  weigh-recent now n (e ∷ es) = ground (arith, weigh-recent now n es)

module _ (n : ℕ) (pos : 1 ≤ n) (small : n ≤ 64) (m : TimeBucket → ℕ) (f : Event → ℕ)
    (M : IsMeasure m f) where
  -- the second of the latest operation, 0 before the first
  abbrev latest : List Event → ℕ
  latest [] = 0
  latest (e ∷ es) = second e

  latest-le : (t : ℕ) (es : List Event) → All (λ d. second d ≤ t) es → latest es ≤ t
  latest-le t [] h = omega arith
  latest-le t (e ∷ es) (h, _) = h

  seconds-le :
      (e : Event) (es : List Event) → All (λ d. d.at ≤ e.at) es → All (λ d. second d ≤ second e) es
  seconds-le e es h = All-imp (λ d. d.at ≤ e.at) _ es (λ d le. omega arith) h

  Slots-replay : (es : List Event) → IsTimeline es → Slots n m f (latest es) 0 es (replay n es)
  unfolding replay record_outcome new_window
  Slots-replay [] h = Slots-new n pos m f M 0 _
  Slots-replay (e ∷ es) (past, h) =
      subst
        (λ j.
          Slots n m f (second e) 0 (e ∷ es)
            (modify (replay n es) j (λ b. count_in e.outcome e.us (renew (second e) b))))
        (ap (λ r. second e % r) (sym (length-replay n es ∙ length-new_window n pos small)))
        (Slots-recorded n pos m f M (latest es) 0 (second e % n) e es (replay n es)
          (latest-le (second e) es (seconds-le e es past)) (omega arith) (seconds-le e es past)
          (Slots-replay es h))

  Slot-sum :
      (now k : ℕ) (e : Event) (es : List Event) (b : TimeBucket)
      → second e ≡ now
      → Slot n m f now k (e ∷ es) b
      → (if outside now n b.ts then 0 else m b)
        ≡ weigh f (λ d. (second d % n == k) && ltb now (second d + n)) (e ∷ es)
  Slot-sum now k e es b present (ts, bands, (first, placed), counted) =
      elim (Bool-cases (outside now n b.ts)) [
        | inl out ↦ rw out (
            sym (
              weigh_none f _ (e ∷ es) (
                All-imp (λ d. second d % n ≡ k → (second d ≡ b.ts) ⊎ (second d + n ≤ b.ts)) _
                  (e ∷ es) (λ d at. outside_one n now k b.ts (second d) pos ts out at)
                  (first, placed))))
        | inr inside ↦ rw inside (
            counted
            ∙ weigh-congr f _ _ (e ∷ es) (
                All-imp (λ d. second d % n ≡ k → (second d ≡ b.ts) ⊎ (second d + n ≤ b.ts)) _
                  (e ∷ es)
                  (λ d at.
                    inside_one n now k b.ts (second d) pos ts inside (rw present at first) at)
                  (first, placed)))
      ]

  Slots-sum :
      (now k : ℕ) (e : Event) (es : List Event) (w : RollingWindow)
      → second e ≡ now
      → k + length w ≡ n
      → Slots n m f now k (e ∷ es) w
      → sum_over m now n w ≡ weigh f (λ d. leb k (second d % n) && ltb now (second d + n)) (e ∷ es)
  Slots-sum now k e es [] present size s = sym (
      weigh_none f _ (e ∷ es) (
        All-of (λ d. (leb k (second d % n) && ltb now (second d + n)) ≡ false) (e ∷ es)
          (λ d. ground (arith, mod-lt (second d) {m = n} pos))))
  Slots-sum now k e es (b ∷ w) present size (s, ss) =
      ap₂ ◌+◌ (Slot-sum now k e es b present s)
        (Slots-sum now (k + 1) e es w present (omega arith) ss)
      ∙ sym (
          weigh_split f (λ d. (second d % n == k) && ltb now (second d + n))
            (λ d. leb (k + 1) (second d % n) && ltb now (second d + n))
            (λ d. leb k (second d % n) && ltb now (second d + n)) (e ∷ es) (λ d. ground arith))

  -- A measure summed over the window, in a second in which an operation was recorded, is the
  -- weight of the operations of the last `n` seconds.
  pub sum_over-replay :
      (e : Event) (es : List Event)
      → IsTimeline (e ∷ es)
      → sum_over m (second e) n (replay n (e ∷ es))
        ≡ weigh f (λ d. true) (recent (second e) n (e ∷ es))
  sum_over-replay e es h =
      Slots-sum (second e) 0 e es (replay n (e ∷ es)) refl
        (omega (arith, length-replay n (e ∷ es), length-new_window n pos small))
        (Slots-replay (e ∷ es) h)
      ∙ weigh-congr f _ _ (e ∷ es) (
          All-of
            (λ d.
              (leb 0 (second d % n) && ltb (second e) (second d + n))
              ≡ ltb (second e) (second d + n))
            (e ∷ es) (λ d. ground arith))
      ∙ weigh-recent f (second e) n (e ∷ es)
