-- ===== src/Auth/Oauth/Laws.antt =====
-- A sign-in through a provider from its preparation to the exchange of the code.
use routiq.Base.{
  ℕ, ◌+◌, String, Bool, true, false, Option, none, some, ltb, str_eq, eq_iff, eq_refl, ◌≡◌, ◌≢◌,
  refl, ap, ◌∙◌, subst, arith, if◌then◌else◌,
}
use routiq.Redis.{Redis}
use routiq.Codes.{World, Codec}
use routiq.Codes.Exchange.{
  ExchangeRecord, TokenPair, create_oauth_exchange_code, consume_oauth_exchange_code,
}
use routiq.Codes.Exchange.Laws.{IsCode, exchange_round_trip}
use routiq.Codes.Pkce.{StateRecord, create_oauth_state, consume_oauth_state, consume_from_memory}
use routiq.Codes.Pkce.Laws.{IsChallenge, state_round_trip}
use routiq.Users.{UserDb}
use routiq.Auth.{Env, failed}
use routiq.Auth.Oauth.{
  state_world, code_world, put_states, put_codes, State, exchanged, state_consumed,
  exchange_oauth_code,
}

module _ (e : Env) (D : UserDb) (R : Redis) (states : Codec StateRecord)
    (codes : Codec ExchangeRecord) (digest : String → String) where
  consume_oauth_state-redis :
      (now : ℕ) (state verifier : String) (w : World R.State StateRecord)
      → R.available w.redis ≡ false
      → (consume_oauth_state R states digest now state verifier w).0.redis ≡ w.redis
  unfolding consume_oauth_state consume_from_memory
  consume_oauth_state-redis now state verifier w off = ground (arith)

  create_oauth_exchange_code-redis :
      (now : ℕ) (code access refresh state : String) (w : World R.State ExchangeRecord)
      → R.available w.redis ≡ false
      → (create_oauth_exchange_code R codes false now code access refresh state w).0.redis ≡ w.redis
  unfolding create_oauth_exchange_code
  create_oauth_exchange_code-redis now code access refresh state w off = ground (arith)

  create_oauth_state-redis :
      (now : ℕ) (state challenge : String) (redirect : Option String)
      (w : World R.State StateRecord)
      → R.available w.redis ≡ false
      → (create_oauth_state R states false now state challenge redirect w).0.redis ≡ w.redis
  unfolding create_oauth_state
  create_oauth_state-redis now state challenge redirect w off = ground (arith)

  -- What the exchange answers, by what the two services say.
  exchange_reply :
      (now : ℕ) (code state : String) (w : State e D R states codes digest)
      (x : World R.State StateRecord × Bool) (accepted : Bool) (tokens : Option TokenPair)
      → x.0.redis ≡ w.site.redis
      → x.1 ≡ accepted
      → (consume_oauth_exchange_code R codes now code state (code_world w)).1 ≡ tokens
      → (state_consumed e D R states codes digest now code state w x).1 ≡ (
          if accepted
          then exchanged e D R states codes digest tokens
          else failed 400 "Invalid OAuth state or PKCE verifier")
  exchange_reply now code state w (x, true) accepted tokens same is_accepted found =
      subst
        (λ b.
          exchanged e D R states codes digest
            (consume_oauth_exchange_code R codes now code state
              (record { redis = x.redis; memory = w.codes })).1
          ≡ (if b
              then exchanged e D R states codes digest tokens
              else failed 400 "Invalid OAuth state or PKCE verifier"))
        is_accepted
        (ap
            (λ r.
              exchanged e D R states codes digest
                (consume_oauth_exchange_code R codes now code state
                  (record { redis = r; memory = w.codes })).1)
            same
          ∙ ap (exchanged e D R states codes digest) found)
  exchange_reply now code state w (x, false) accepted tokens same is_accepted found =
      subst
        (λ b. failed 400 "Invalid OAuth state or PKCE verifier" ≡ (
          if b
          then exchanged e D R states codes digest tokens
          else failed 400 "Invalid OAuth state or PKCE verifier"))
        is_accepted refl

  exchange_given :
      (now : ℕ) (code state verifier : String) (w : State e D R states codes digest)
      → code ≢ ""
      → state ≢ ""
      → verifier ≢ ""
      → exchange_oauth_code e D R states codes digest now code state verifier w
        ≡ state_consumed e D R states codes digest now code state w
            (consume_oauth_state R states digest now state verifier (state_world w))
  unfolding exchange_oauth_code
  exchange_given now code state verifier w h k l =
      ground (arith, eq_iff code "", eq_iff state "", eq_iff verifier "")

  same_state :
      (late : Bool) (state : String) (t : TokenPair)
      → (if late then none else if str_eq state state then some t else none)
        ≡ (if late then none else some t)
  same_state late state t = rw (eq_refl state) refl

  -- Without Redis, outside production: a state is created for a challenge, then a code for tokens and
  -- that state; an exchange of the code with the state and a verifier answers with those tokens
  -- exactly where at most ten minutes have passed since the first step and at most two since the
  -- second, and the verifier's digest is the challenge. Otherwise it is refused with status 400.
  pub oauth_chain :
      (start issued now : ℕ) (state challenge verifier code access refresh : String)
      (redirect : Option String) (w : State e D R states codes digest)
      → IsChallenge R states digest challenge
      → state ≢ ""
      → verifier ≢ ""
      → IsCode code
      → R.available w.site.redis ≡ false
      → let w1 : State e D R states codes digest =
          put_states
            (create_oauth_state R states false start state challenge redirect (state_world w)).0
            w in
        let w2 : State e D R states codes digest =
          put_codes
            (create_oauth_exchange_code R codes false issued code access refresh state
              (code_world w1)).0
            w1 in
        (exchange_oauth_code e D R states codes digest now code state verifier w2).1 ≡ (
          if (if ltb (start + 600_000) now then false else str_eq (digest verifier) challenge)
          then exchanged e D R states codes digest (
              if ltb (issued + 120_000) now
              then none
              else some (record { access_token = access; refresh_token = refresh }))
          else failed 400 "Invalid OAuth state or PKCE verifier")
  oauth_chain start issued now state challenge verifier code access refresh redirect w h k l c off =
      let y =
        (create_oauth_state R states false start state challenge redirect (state_world w)).0 in
      let w1 : State e D R states codes digest = put_states y w in
      let off1 : R.available y.redis ≡ false =
        ap R.available (create_oauth_state-redis start state challenge redirect (state_world w) off)
        ∙ off in
      let x =
        (create_oauth_exchange_code R codes false issued code access refresh state
          (code_world w1)).0 in
      let w2 : State e D R states codes digest = put_codes x w1 in
      let same : x.redis ≡ y.redis =
        create_oauth_exchange_code-redis issued code access refresh state (code_world w1) off1 in
      let off2 : R.available x.redis ≡ false = ap R.available same ∙ off1 in
      let accepted =
        ap
          (λ r.
            (consume_oauth_state R states digest now state verifier
              (record { redis = r; memory = y.memory })).1)
          same
        ∙ state_round_trip R states digest start now state challenge verifier redirect
            (state_world w) h k l off in
      let found =
        exchange_round_trip R codes issued now code access refresh state state (code_world w1) c k k
          off1
        ∙ same_state (ltb (issued + 120_000) now) state
            (record { access_token = access; refresh_token = refresh }) in
      ap (λ z. z.1) (exchange_given now code state verifier w2 c.0 k l)
      ∙ exchange_reply now code state w2
          (consume_oauth_state R states digest now state verifier (state_world w2)) _ _
          (consume_oauth_state-redis now state verifier (state_world w2) off2) accepted found
