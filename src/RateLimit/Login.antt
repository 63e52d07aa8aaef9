-- ===== src/RateLimit/Login.antt =====
-- uam-backend/src/middleware/advancedLimiter.ts, with the back-off of
-- uam-backend/src/config/rateLimit.config.ts.
pub mod Guesses
pub mod Required
pub mod Sweeps
use Prim.Native.String
use routiq.Base.{
  ℕ, ◌+◌, ◌-◌, ◌*◌, String, Bool, true, false, ◌&&◌, not, Option, none, some, leb, ltb, ◌==◌,
  str_eq, if◌then◌else◌,
}
use routiq.Base.Dict.{Dict, lookup, insert, remove, prune}
use routiq.Breaker.Call.{CallResult, ok, failed}
use routiq.Redis.{Redis}
use routiq.Codes.{Codec}

-- `rateLimitConfig.login`, in milliseconds
abbrev pub allowed_attempts : ℕ
allowed_attempts = 5

abbrev pub step1 : ℕ
step1 = 300_000

abbrev pub step2 : ℕ
step2 = 1_500_000

abbrev pub step3 : ℕ
step3 = 7_500_000

-- what Redis keeps as JSON
pub record Attempts : Type 0 where
  pub count : ℕ
  pub block_until : ℕ

-- an entry of `memoryStore`
pub record Stored : Type 0 where
  pub count : ℕ
  pub reset_time : ℕ
  pub block_until : ℕ

abbrev pub attempts_of : Option Stored → Attempts
attempts_of none = record { count = 0; block_until = 0 }
attempts_of (some s) = record { count = s.count; block_until = s.block_until }

-- the middleware's answer: go on, with the key and the attempts attached to the request; 429 with
-- the remaining time; or 503
pub data Verdict : Type 0 where
  proceeds : (key : String) → (current_attempts : ℕ) → Verdict
  blocked : (remaining_time : ℕ) → Verdict
  unavailable : Verdict

pub record LoginRequest : Type 0 where
  pub real_ip : Option String
  pub ip : String
  pub email : Option String

-- `x || y` on texts
abbrev pub text_or : Option String → String → String
text_or none y = y
text_or (some x) y = if str_eq x "" then y else x

unfoldable pub attempt_key : String → Option String → String
attempt_key ip email =
    String.◌++◌ "login_attempt:" (String.◌++◌ ip (String.◌++◌ "_" (text_or email "unknown")))

-- the test of the block, and the rest of the middleware
unfoldable pub judge : ℕ → String → Attempts → Verdict
judge now key a =
    if not (a.block_until == 0) && ltb now a.block_until
    then blocked (a.block_until - now)
    else proceeds key a.count

-- the exponential back-off of `handleLoginFailure`, 0 for no block
unfoldable pub block_after : ℕ → ℕ → ℕ
block_after now count =
    if leb count allowed_attempts
    then 0
    else if count == allowed_attempts + 1
    then now + step1
    else if count == allowed_attempts + 2
    then now + step2
    else now + step3

-- the timer that clears `memoryStore`
unfoldable pub clean_up : ℕ → Dict Stored → Dict Stored
clean_up now m = prune (λ s. not (s.block_until == 0) && ltb s.block_until now) m

-- Redis and the map of the process
pub record Store (S : Type 0) : Type 0 where
  pub redis : S
  pub memory : Dict Stored

-- `required` is `redisRequiredForLoginLimit()`
module _ (R : Redis) (json : Codec Attempts) (required : Bool) where
  open R use {State, available, get, setex, del}

  -- the `catch` branch: what Redis held is no JSON
  unfoldable pub judge_caught : ℕ → LoginRequest → Store State → Verdict
  unfolding attempt_key judge
  judge_caught now r w =
      let key = attempt_key r.ip r.email in
      if required then unavailable else judge now key (attempts_of (lookup key w.memory))

  -- what follows the command of Redis
  unfoldable pub judge_reply :
      ℕ → LoginRequest → String → CallResult (Option String) → Store State → Verdict
  unfolding judge judge_caught
  judge_reply now r key (failed outcome) w =
      if required then unavailable else judge now key (attempts_of none)
  judge_reply now r key (ok none) w = judge now key (attempts_of none)
  judge_reply now r key (ok (some text)) w =
      if str_eq text ""
      then judge now key (attempts_of none)
      else elim (json.decode text) [ none ↦ judge_caught now r w | some a ↦ judge now key a ]

  unfoldable pub advanced_login_limiter : ℕ → LoginRequest → Store State → Store State × Verdict
  unfolding attempt_key judge judge_reply
  advanced_login_limiter now r w =
      let key = attempt_key (text_or r.real_ip r.ip) r.email in
      let (s, reply) = get key w.redis in
      let w' : Store State = record w { redis = s } in
      if available w.redis
      then (w', judge_reply now r key reply w')
      else if required
      then (w, unavailable)
      else (w, judge now key (attempts_of (lookup key w.memory)))

  -- `memoryStore[key] = { count, resetTime: 0, blockUntil }`
  abbrev pub keep : String → Attempts → Store State → Store State
  keep key a w = record w {
    memory =
        insert key (record { count = a.count; reset_time = 0; block_until = a.block_until })
          w.memory;
  }

  -- `blockUntil > 0 ? blockUntil : null`
  abbrev pub or_null : ℕ → Option ℕ
  or_null b = if ltb 0 b then some b else none

  abbrev pub attempt_ttl : ℕ
  attempt_ttl = 8_100

  -- what follows the write to Redis
  abbrev pub after_write :
      String → Attempts → Store State × CallResult (Unit {0}) → Store State × Option ℕ
  after_write key a (w, ok u) = (w, or_null a.block_until)
  after_write key a (w, failed outcome) =
      if required then (w, none) else (keep key a w, or_null a.block_until)

  -- `key` and `current` are what the middleware attached to the request
  unfoldable pub handle_login_failure : ℕ → String → ℕ → Store State → Store State × Option ℕ
  unfolding block_after
  handle_login_failure now key current w =
      let a : Attempts = record {
        count = current + 1;
        block_until = block_after now (current + 1);
      } in
      let (s, written) = setex key attempt_ttl (json.encode a) w.redis in
      if available w.redis
      then after_write key a (record w { redis = s }, written)
      else if required
      then (w, none)
      else (keep key a w, or_null a.block_until)

  -- what follows the deletion in Redis
  abbrev pub after_delete : String → Store State × CallResult (Unit {0}) → Store State
  after_delete key (w, ok u) = w
  after_delete key (w, failed outcome) =
      if required then w else record w { memory = remove key w.memory }

  unfoldable pub reset_login_attempts : String → Store State → Store State
  reset_login_attempts key w =
      let (s, deleted) = del key w.redis in
      if available w.redis
      then after_delete key (record w { redis = s }, deleted)
      else record w { memory = remove key w.memory }
