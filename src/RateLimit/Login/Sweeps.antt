-- ===== src/RateLimit/Login/Sweeps.antt =====
-- What the login limiter leaves to somebody who guesses passwords while its clean-up runs
-- (uam-backend/src/middleware/advancedLimiter.ts).
use routiq.Base.{
  ℕ, suc, ◌+◌, ◌-◌, ◌*◌, ◌≤◌, ◌≡◌, ◌∙◌, refl, ap, inl, inr, String, Bool, false, ◌&&◌, not, Option,
  none, some, List, [], ◌∷◌, arith, ltb, leb, ◌==◌, if◌then◌else◌, Bool-cases,
}
use routiq.Base.Dict.{lookup, lookup-prune, IsDistinct, IsDistinct-insert, IsDistinct-prune, unless}
use routiq.Redis.{Redis}
use routiq.Codes.{Codec}
use routiq.RateLimit.Login.{
  Attempts, Stored, attempts_of, Verdict, LoginRequest, block_after, clean_up, Store,
  advanced_login_limiter, keep,
}
use routiq.RateLimit.Login.Guesses.{
  key_of, is_blocked, failed_at, IsSound, failed_at-IsSound, after_verdict, one_if_proceeds,
  limiter_given, failure_given, attempts_of-keep, judge_held, judge_passed,
}

-- A failing guess, or a run of the clean-up, at a time.
pub data Event : Type 0 where
  guess sweep : (time : ℕ) → Event

abbrev pub time_of : Event → ℕ
time_of (guess t) = t
time_of (sweep t) = t

-- The times go from `since` to `until` and never back.
abbrev pub InOrder : ℕ → ℕ → List Event → Type 0
InOrder since until [] = since ≤ until
InOrder since until (e ∷ es) = (since ≤ time_of e) × InOrder (time_of e) until es

InOrder-until : (since until : ℕ) (es : List Event) → InOrder since until es → since ≤ until
InOrder-until since until [] h = h
InOrder-until since until (e ∷ es) (h, hs) =
    let rest = InOrder-until (time_of e) until es hs in omega (arith, h, rest)

abbrev is_over : ℕ → Attempts → Bool
is_over now a = not (a.block_until == 0) && ltb a.block_until now

-- the record of a client after a clean-up
abbrev swept : ℕ → Attempts → Attempts
swept now a = if is_over now a then record { count = 0; block_until = 0 } else a

-- How many of the guesses get through, told from a client's record alone.
abbrev hits : List Event → Attempts → ℕ
hits [] a = 0
hits (guess now ∷ es) a =
    let passed = suc (hits es (failed_at now a.count)) in
    let held = hits es a in if is_blocked now a then held else passed
hits (sweep now ∷ es) a = hits es (swept now a)

-- What a client may still have: the rest of six guesses and six for each five minutes, or six for
-- each five minutes from the end of its block.
abbrev allowance : ℕ → ℕ → Attempts → ℕ
allowance since until a =
    if leb a.count 5
    then (6 - a.count) * 300_000 + 6 * (until - since)
    else 6 * (until + 300_000 - a.block_until)

failed_at-allowance :
    (since until now n : ℕ) (a : Attempts)
    → since ≤ now
    → now ≤ until
    → is_blocked now a ≡ false
    → n * 300_000 ≤ allowance now until (failed_at now a.count)
    → suc n * 300_000 ≤ allowance since until a
unfolding block_after
failed_at-allowance since until now n a h k free rest =
    let open_ : a.block_until ≤ now = ground (arith, free) in ground (arith, h, k, open_, rest)

swept-IsSound : (now : ℕ) (a : Attempts) → IsSound a → IsSound (swept now a)
swept-IsSound now a sound = elim (Bool-cases (is_over now a)) [
  | inl e ↦ rw e (inl (omega arith, refl))
  | inr e ↦ rw e sound
]

swept-allowance :
    (since until now n : ℕ) (a : Attempts)
    → since ≤ now
    → now ≤ until
    → IsSound a
    → n * 300_000 ≤ allowance now until (swept now a)
    → n * 300_000 ≤ allowance since until a
swept-allowance since until now n a h k (inl (few, zero_)) rest =
    ground (arith, h, k, few, zero_, rest)
swept-allowance since until now n a h k (inr many) rest = ground (arith, h, k, many, rest)

held-allowance :
    (since until now n : ℕ) (a : Attempts)
    → since ≤ now
    → n * 300_000 ≤ allowance now until a
    → n * 300_000 ≤ allowance since until a
held-allowance since until now n a h rest = ground (arith, h, rest)

hits-allowance :
    (since until : ℕ) (es : List Event) (a : Attempts)
    → InOrder since until es
    → IsSound a
    → hits es a * 300_000 ≤ allowance since until a
hits-allowance since until [] a h sound = omega arith
hits-allowance since until (guess now ∷ es) a (h, hs) sound =
    let next : Attempts = failed_at now a.count in
    elim (Bool-cases (is_blocked now a)) [
      | inl e ↦
          rw e (
            held-allowance since until now (hits es a) a h (hits-allowance now until es a hs sound))
      | inr e ↦ rw e (
          failed_at-allowance since until now (hits es next) a h (InOrder-until now until es hs) e
            (hits-allowance now until es next hs (failed_at-IsSound now a)))
    ]
hits-allowance since until (sweep now ∷ es) a (h, hs) sound =
    swept-allowance since until now (hits es (swept now a)) a h (InOrder-until now until es hs)
      sound (hits-allowance now until es (swept now a) hs (swept-IsSound now a sound))

module _ (R : Redis) (json : Codec Attempts) where
  open R use {State, available}

  -- the map of the process after the middleware and the clean-up, and how many guesses reach the
  -- test of the password
  unfoldable pub campaign : List Event → LoginRequest → Store State → ℕ
  unfolding clean_up
  campaign [] r w = 0
  campaign (guess now ∷ es) r w =
      let (w', verdict) = advanced_login_limiter R json false now r w in
      one_if_proceeds R json verdict + campaign es r (after_verdict R json now w' verdict)
  campaign (sweep now ∷ es) r w = campaign es r (record w { memory = clean_up now w.memory })

  abbrev and_then : ℕ → List Event → LoginRequest → Store State × Verdict → ℕ
  and_then now es r (w, verdict) =
      one_if_proceeds R json verdict + campaign es r (after_verdict R json now w verdict)

  attempts_of-unless :
      (now : ℕ) (o : Option Stored)
      → attempts_of (unless (λ s. not (s.block_until == 0) && ltb s.block_until now) o)
        ≡ swept now (attempts_of o)
  attempts_of-unless now none = refl
  attempts_of-unless now (some s) = ground arith

  attempts_of-clean_up :
      (now : ℕ) (key : String) (w : Store State)
      → IsDistinct w.memory
      → attempts_of (lookup key (clean_up now w.memory))
        ≡ swept now (attempts_of (lookup key w.memory))
  unfolding clean_up
  attempts_of-clean_up now key w distinct =
      ap attempts_of (
        lookup-prune key (λ s. not (s.block_until == 0) && ltb s.block_until now) w.memory distinct)
      ∙ attempts_of-unless now (lookup key w.memory)

  campaign-hits :
      (es : List Event) (r : LoginRequest) (w : Store State)
      → available w.redis ≡ false
      → IsDistinct w.memory
      → campaign es r w ≡ hits es (attempts_of (lookup (key_of r) w.memory))
  unfolding campaign clean_up
  campaign-hits [] r w off distinct = refl
  campaign-hits (guess now ∷ es) r w off distinct =
      let a : Attempts = attempts_of (lookup (key_of r) w.memory) in
      let key = key_of r in
      let next : Attempts = failed_at now a.count in
      let w' : Store State = keep R json false key next w in
      elim (Bool-cases (is_blocked now a)) [
        | inl e ↦
            let step = ap (and_then now es r) (
              limiter_given R json now r w off
              ∙ ap (λ (v : Verdict). (w, v)) (judge_held R json now key a e)) in
            let rest = campaign-hits es r w off distinct in rw e (step ∙ omega (arith, rest))
        | inr e ↦
            let step = ap (and_then now es r) (
              limiter_given R json now r w off
              ∙ ap (λ (v : Verdict). (w, v)) (judge_passed R json now key a e)) in
            let kept = ap (campaign es r) (failure_given R json now a.count key w off) in
            let rest =
              campaign-hits es r w' off (IsDistinct-insert key _ w.memory distinct)
              ∙ ap (hits es) (attempts_of-keep R json key next w) in
            rw e (step ∙ omega (arith, kept, rest))
      ]
  campaign-hits (sweep now ∷ es) r w off distinct =
      campaign-hits es r (record w { memory = clean_up now w.memory }) off
        (IsDistinct-prune _ w.memory distinct)
      ∙ ap (hits es) (attempts_of-clean_up now (key_of r) w distinct)

  -- Without Redis, where it is not required, and with the clean-up running at any times, from a
  -- map in which no key stands twice: failing guesses for one address and one e-mail, none
  -- before, over the time from `since` to `until`, reach the test of the password at most six
  -- times and six times more for each 5 minutes.
  pub campaign_bounded :
      (since until : ℕ) (es : List Event) (r : LoginRequest) (w : Store State)
      → available w.redis ≡ false
      → IsDistinct w.memory
      → lookup (key_of r) w.memory ≡ none
      → InOrder since until es
      → campaign es r w * 300_000 ≤ 6 * (300_000 + (until - since))
  campaign_bounded since until es r w off distinct none_yet h =
      let same = campaign-hits es r w off distinct ∙ ap (λ o. hits es (attempts_of o)) none_yet in
      omega
        (arith, same, hits-allowance since until es (attempts_of none) h (inl (omega arith, refl)))
