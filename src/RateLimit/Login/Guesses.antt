-- ===== src/RateLimit/Login/Guesses.antt =====
-- What the login limiter leaves to somebody who guesses passwords.
use routiq.Base.{
  ℕ, suc, ◌+◌, ◌-◌, ◌*◌, ◌≤◌, ◌<◌, ◌≡◌, ◌∙◌, refl, ap, ◌⊎◌, inl, inr, String, Bool, true, false,
  ◌&&◌, not, none, some, List, [], ◌∷◌, arith, All, ltb, ◌==◌, eq_refl, if◌then◌else◌, Bool-cases,
  le_cases,
}
use routiq.Base.Dict.{
  lookup, remove, prune, lookup-insert, lookup-remove, lookup-prune, IsDistinct, unless,
}
use routiq.Redis.{Redis}
use routiq.Codes.{Codec}
use routiq.RateLimit.Login.{
  Attempts, Stored, step1, step2, step3, attempts_of, Verdict, proceeds, blocked, unavailable,
  LoginRequest, attempt_key, text_or, judge, block_after, clean_up, Store, advanced_login_limiter,
  handle_login_failure, keep, reset_login_attempts,
}

abbrev pub key_of : LoginRequest → String
key_of r = attempt_key (text_or r.real_ip r.ip) r.email

-- The block of the record is over, or there is none.
abbrev pub is_blocked : ℕ → Attempts → Bool
is_blocked now a = not (a.block_until == 0) && ltb now a.block_until

abbrev pub failed_at : ℕ → ℕ → Attempts
failed_at now n = record { count = n + 1; block_until = block_after now (n + 1) }

-- How many guesses at these times get through, told from a client's record alone.
abbrev pub tries : List ℕ → Attempts → ℕ
tries [] a = 0
tries (now ∷ times) a =
    let passed = suc (tries times (failed_at now a.count)) in
    let held = tries times a in if is_blocked now a then held else passed

-- A client's record: no block before the sixth failure.
abbrev pub IsSound : Attempts → Type 0
IsSound a = ((a.count ≤ 5) × (a.block_until ≡ 0)) ⊎ (6 ≤ a.count)

-- How long so many guesses take at least: the seventh waits for the first block, the eighth for the
-- second as well, and each of the others for a third one.
abbrev pub waits : ℕ → ℕ
waits n = (n - 6) * step1 + (n - 7) * (step2 - step1) + (n - 8) * (step3 - step2)

-- the block that a failure sets is what the guess after it waits longer
block_after-waits :
    (now n : ℕ)
    → ((n ≤ 4) × (block_after now (n + 1) ≡ 0) × (waits (n + 2) ≡ 0))
      ⊎ ((5 ≤ n) × (block_after now (n + 1) + waits (n + 1) ≡ now + waits (n + 2)))
unfolding block_after
block_after-waits now n = elim (le_cases 5 n) [
  | inl lt ↦ inl (omega (arith, lt), ground (arith, lt), omega (arith, lt))
  | inr le ↦ inr (le, ground (arith, le))
]

pub failed_at-IsSound : (now : ℕ) (a : Attempts) → IsSound (failed_at now a.count)
failed_at-IsSound now a = elim (block_after-waits now a.count) [
  | inl (lt, none_yet, k) ↦ inl (omega (arith, lt), none_yet)
  | inr (le, k) ↦ inr (omega (arith, le))
]

-- What passes next can pass only after the block, and the rest takes its waits.
Fits : ℕ → ℕ → Attempts → ℕ → Type 0
Fits since until a n =
    (n ≡ 0)
    ⊎ ((a.block_until + waits (a.count + n) ≤ until + waits (a.count + 1))
        × (since + waits (a.count + n) ≤ until + waits (a.count + 1)))

Fits-passed :
    (since until now n : ℕ) (a : Attempts)
    → since ≤ now
    → now ≤ until
    → IsSound a
    → is_blocked now a ≡ false
    → Fits since until (failed_at now a.count) n
    → Fits since until a (suc n)
unfolding Fits
Fits-passed since until now n a h k sound free (inl z) =
    let open_ : a.block_until ≤ now = ground (arith, free) in
    inr (omega (arith, z, open_, h, k), omega (arith, z, open_, h, k))
Fits-passed since until now n a h k sound free (inr (p, q)) =
    let open_ : a.block_until ≤ now = ground (arith, free) in
    elim (block_after-waits now a.count) [
      | inr (le, same) ↦ inr (omega (arith, p, same, open_), omega (arith, p, same, h))
      | inl (lt, none_yet, flat) ↦ elim sound [
        | inl (few, zero_) ↦ inr (omega (arith, q, lt, flat, zero_), omega (arith, q, lt, flat))
        | inr many ↦ absurd (omega (arith, many, lt))
      ]
    ]

tries-Fits :
    (since until : ℕ) (times : List ℕ) (a : Attempts)
    → All (λ t. (since ≤ t) × (t ≤ until)) times
    → IsSound a
    → Fits since until a (tries times a)
unfolding Fits
tries-Fits since until [] a h sound = inl refl
tries-Fits since until (now ∷ times) a ((h, k), hs) sound =
    let next : Attempts = failed_at now a.count in
    elim (Bool-cases (is_blocked now a)) [
      | inl e ↦ rw e (tries-Fits since until times a hs sound)
      | inr e ↦ rw e (
          Fits-passed since until now (tries times next) a h k sound e
            (tries-Fits since until times next hs (failed_at-IsSound now a)))
    ]

module _ (R : Redis) (json : Codec Attempts) where
  open R use {State, available}

  -- A guess: the middleware, and where it lets the request go on, a failed login.
  abbrev pub after_verdict : ℕ → Store State → Verdict → Store State
  after_verdict now w (proceeds key n) = (handle_login_failure R json false now key n w).0
  after_verdict now w (blocked left) = w
  after_verdict now w unavailable = w

  abbrev pub one_if_proceeds : Verdict → ℕ
  one_if_proceeds (proceeds key n) = 1
  one_if_proceeds _ = 0

  -- how many of the guesses at these times reach the test of the password
  unfoldable pub guesses : List ℕ → LoginRequest → Store State → ℕ
  guesses [] r w = 0
  guesses (now ∷ times) r w =
      let (w', verdict) = advanced_login_limiter R json false now r w in
      one_if_proceeds verdict + guesses times r (after_verdict now w' verdict)

  pub limiter_given :
      (now : ℕ) (r : LoginRequest) (w : Store State)
      → available w.redis ≡ false
      → advanced_login_limiter R json false now r w
        ≡ (w, judge now (key_of r) (attempts_of (lookup (key_of r) w.memory)))
  unfolding advanced_login_limiter
  limiter_given now r w off = ground arith

  pub failure_given :
      (now n : ℕ) (key : String) (w : Store State)
      → available w.redis ≡ false
      → (handle_login_failure R json false now key n w).0
        ≡ keep R json false key (failed_at now n) w
  unfolding handle_login_failure
  failure_given now n key w off = ground arith

  pub attempts_of-keep :
      (key : String) (a : Attempts) (w : Store State)
      → attempts_of (lookup key (keep R json false key a w).memory) ≡ a
  attempts_of-keep key a w =
      rw
        (
          lookup-insert key key
              (record { count = a.count; reset_time = 0; block_until = a.block_until }) w.memory,
          eq_refl key,
        )
        refl

  pub judge_held :
      (now : ℕ) (key : String) (a : Attempts)
      → is_blocked now a ≡ true
      → judge now key a ≡ blocked (a.block_until - now)
  unfolding judge
  judge_held now key a h = rw h refl

  pub judge_passed :
      (now : ℕ) (key : String) (a : Attempts)
      → is_blocked now a ≡ false
      → judge now key a ≡ proceeds key a.count
  unfolding judge
  judge_passed now key a h = rw h refl

  -- one guess and those that follow it
  abbrev and_then : ℕ → List ℕ → LoginRequest → Store State × Verdict → ℕ
  and_then now times r (w, verdict) =
      one_if_proceeds verdict + guesses times r (after_verdict now w verdict)

  guesses-tries :
      (times : List ℕ) (r : LoginRequest) (w : Store State)
      → available w.redis ≡ false
      → guesses times r w ≡ tries times (attempts_of (lookup (key_of r) w.memory))
  unfolding guesses
  guesses-tries [] r w off = refl
  guesses-tries (now ∷ times) r w off =
      let a : Attempts = attempts_of (lookup (key_of r) w.memory) in
      let key = key_of r in
      let w' : Store State = keep R json false key (failed_at now a.count) w in
      elim (Bool-cases (is_blocked now a)) [
        | inl e ↦
            let step =
              ap (and_then now times r) (
                limiter_given now r w off
                ∙ ap (λ (v : Verdict). (w, v)) (judge_held now key a e)) in
            let rest = guesses-tries times r w off in rw e (step ∙ omega (arith, rest))
        | inr e ↦
            let step = ap (and_then now times r) (
              limiter_given now r w off
              ∙ ap (λ (v : Verdict). (w, v)) (judge_passed now key a e)) in
            let kept = ap (guesses times r) (failure_given now a.count key w off) in
            let rest =
              guesses-tries times r w' off
              ∙ ap (tries times) (attempts_of-keep key (failed_at now a.count) w) in
            rw e (step ∙ omega (arith, kept, rest))
      ]

  -- Without Redis, where it is not required, and where the clean-up does not run in between: however
  -- somebody spreads failing guesses for one address and one e-mail over the time from `since` to
  -- `until`, with none before, those that reach the test of the password take their waits. Six need
  -- none, the seventh needs 5 minutes, the eighth 25 more, and each of the others 125 more.
  pub guesses_bounded :
      (since until : ℕ) (times : List ℕ) (r : LoginRequest) (w : Store State)
      → available w.redis ≡ false
      → lookup (key_of r) w.memory ≡ none
      → All (λ t. (since ≤ t) × (t ≤ until)) times
      → waits (guesses times r w) ≤ until - since
  unfolding Fits
  guesses_bounded since until times r w off none_yet h =
      let same = guesses-tries times r w off ∙ ap (λ o. tries times (attempts_of o)) none_yet in
      rw same (elim (tries-Fits since until times (attempts_of none) h (inl (omega arith, refl))) [
        | inl z ↦ omega (arith, z)
        | inr (p, q) ↦ omega (arith, q)
      ])

  -- Without Redis, the clean-up forgets: where a client's block is over, after the clean-up its next
  -- guesses count from nothing, although its block may have been the longest.
  pub clean_up_forgets :
      (now : ℕ) (times : List ℕ) (r : LoginRequest) (s : Stored) (w : Store State)
      → available w.redis ≡ false
      → IsDistinct w.memory
      → lookup (key_of r) w.memory ≡ some s
      → 0 < s.block_until
      → s.block_until < now
      → guesses times r (record w { memory = clean_up now w.memory })
        ≡ tries times (record { count = 0; block_until = 0 })
  unfolding clean_up
  clean_up_forgets now times r s w off distinct there pos over =
      let drop = λ (s : Stored). not (s.block_until == 0) && ltb s.block_until now in
      let gone : unless drop (some s) ≡ none = ground arith in
      guesses-tries times r (record w { memory = prune drop w.memory }) off
      ∙ ap (λ o. tries times (attempts_of o))
          (lookup-prune (key_of r) drop w.memory distinct ∙ ap (unless drop) there ∙ gone)

  -- Without Redis, a login that succeeds sets the client back: its next guesses count from nothing.
  pub reset_sets_back :
      (times : List ℕ) (r : LoginRequest) (w : Store State)
      → available w.redis ≡ false
      → guesses times r (reset_login_attempts R json false (key_of r) w)
        ≡ tries times (record { count = 0; block_until = 0 })
  unfolding reset_login_attempts
  reset_sets_back times r w off =
      let w' : Store State = record w { memory = remove (key_of r) w.memory } in
      rw off (
        guesses-tries times r w' off
        ∙ ap (λ o. tries times (attempts_of o))
            (lookup-remove (key_of r) (key_of r) w.memory
              ∙ ap (λ b. if b then none else lookup (key_of r) w.memory) (eq_refl (key_of r))))
