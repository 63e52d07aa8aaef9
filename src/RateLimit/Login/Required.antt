-- ===== src/RateLimit/Login/Required.antt =====
-- The login limiter where Redis is required: it fails closed.
use routiq.Base.{
  ℕ, ◌≡◌, ◌∙◌, refl, ap, ◌⊎◌, inl, inr, String, true, false, Option, arith, if◌then◌else◌,
  Bool-cases, if_both,
}
use routiq.Breaker.Call.{CallResult, ok, failed}
use routiq.Breaker.Window.{RedisCallOutcome}
use routiq.Base.Dict.{remove}
use routiq.Redis.{Redis}
use routiq.Codes.{Codec}
use routiq.RateLimit.Login.{
  Attempts, Verdict, unavailable, LoginRequest, Store, advanced_login_limiter, handle_login_failure,
  after_write, judge_reply, reset_login_attempts, after_delete,
}
use routiq.RateLimit.Login.Guesses.{key_of, failed_at}

reply_cases {ℓ} :
    {A : Type ℓ} (c : CallResult A)
    → ((a : A) × (c ≡ ok a)) ⊎ ((outcome : RedisCallOutcome) × (c ≡ failed outcome))
reply_cases (ok a) = inl (a, refl)
reply_cases (failed outcome) = inr (outcome, refl)

module _ (R : Redis) (json : Codec Attempts) where
  open R use {State, available, get}

  memory-after_write :
      (key : String) (a : Attempts) (p : Store State × CallResult (Unit {0}))
      → (after_write R json true key a p).0.memory ≡ p.0.memory
  memory-after_write key a (w, ok u) = refl
  memory-after_write key a (w, failed outcome) = refl

  verdict_down :
      (now : ℕ) (r : LoginRequest) (w : Store State)
      → available w.redis ≡ false
      → (advanced_login_limiter R json true now r w).1 ≡ unavailable
  unfolding advanced_login_limiter
  verdict_down now r w off = ground arith

  verdict_failed :
      (now : ℕ) (r : LoginRequest) (w : Store State) (outcome : RedisCallOutcome)
      → available w.redis ≡ true
      → (get (key_of r) w.redis).1 ≡ failed outcome
      → (advanced_login_limiter R json true now r w).1 ≡ unavailable
  unfolding advanced_login_limiter judge_reply
  verdict_failed now r w outcome on e =
      let s : Store State = record w { redis = (get (key_of r) w.redis).0 } in
      ap
        (λ b.
          let p : Store State × Verdict =
            (if b
              then (s, judge_reply R json true now r (key_of r) (get (key_of r) w.redis).1 s)
              else (w, unavailable)) in
          p.1)
        on
      ∙ ap (λ c. judge_reply R json true now r (key_of r) c s) e

  verdict_cases :
      (now : ℕ) (r : LoginRequest) (w : Store State)
      → ((advanced_login_limiter R json true now r w).1 ≡ unavailable)
        ⊎ ((available w.redis ≡ true)
            × ((text : Option String) × ((get (key_of r) w.redis).1 ≡ ok text)))
  verdict_cases now r w = elim (Bool-cases (available w.redis)) [
    | inr off ↦ inl (verdict_down now r w off)
    | inl on ↦ elim (reply_cases (get (key_of r) w.redis).1) [
      | inl answered ↦ inr (on, answered)
      | inr (outcome, e) ↦ inl (verdict_failed now r w outcome on e)
    ]
  ]

  memory-after_delete :
      (key : String) (p : Store State × CallResult (Unit {0}))
      → (after_delete R json true key p).memory ≡ p.0.memory
  memory-after_delete key (w, ok u) = refl
  memory-after_delete key (w, failed outcome) = refl

  memory-reset_login_attempts :
      (key : String) (w : Store State)
      → (reset_login_attempts R json true key w).memory
        ≡ (if available w.redis then w.memory else remove key w.memory)
  unfolding reset_login_attempts
  memory-reset_login_attempts key w = elim (Bool-cases (available w.redis)) [
    | inl on ↦ rw on (memory-after_delete key _)
    | inr off ↦ rw off refl
  ]

  -- Where Redis is required: the middleware answers 503, or Redis was available and answered its
  -- command. Whatever the answer is, neither the middleware nor a failed login writes to the map of
  -- the process; a login that succeeded changes it only where Redis is not available, and then it
  -- deletes the client's entry.
  pub required_fails_closed :
      (now n : ℕ) (key : String) (r : LoginRequest) (w : Store State)
      → (((advanced_login_limiter R json true now r w).1 ≡ unavailable)
          ⊎ ((available w.redis ≡ true)
              × ((text : Option String) × ((get (key_of r) w.redis).1 ≡ ok text))))
        × ((advanced_login_limiter R json true now r w).0.memory ≡ w.memory)
        × ((handle_login_failure R json true now key n w).0.memory ≡ w.memory)
        × ((reset_login_attempts R json true key w).memory
            ≡ (if available w.redis then w.memory else remove key w.memory))
  unfolding advanced_login_limiter handle_login_failure
  required_fails_closed now n key r w =
      let kept : (advanced_login_limiter R json true now r w).0.memory ≡ w.memory =
        if_both (λ (p : Store State × Verdict). p.0.memory ≡ w.memory) (available w.redis) _ _ refl
          refl in
      let kept' : (handle_login_failure R json true now key n w).0.memory ≡ w.memory =
        if_both (λ (p : Store State × Option ℕ). p.0.memory ≡ w.memory) (available w.redis) _ _
          (memory-after_write key (failed_at now n) _) refl in
      (verdict_cases now r w, kept, kept', memory-reset_login_attempts key w)
