-- ===== src/Breaker/Call.antt =====
-- `withCircuitBreaker` and `classifyRedisError`: one Redis command under the breaker.
pub mod Laws
use text.Mathlib.Text.{find?}
use routiq.Base.{
  ℕ, String, Bool, true, false, ◌||◌, Option, none, some, List, [], ◌∷◌, if◌then◌else◌, str_eq,
}
use routiq.Breaker.Window.{RedisCallOutcome, success, redis_error, timeout}
use routiq.Breaker.Circuit.{Env, CircuitBreaker, acquire, release}

-- What `classifyRedisError` reads of an error: its message, else its text, and its code.
pub record RedisError : Type 0 where
  pub message : Option String
  pub text : String
  pub code : Option String

abbrev pub message_of : RedisError → String
message_of e = elim e.message [ none ↦ e.text | some m ↦ m ]

abbrev pub includes : String → String → Bool
includes s part = elim (find? s part) [ none ↦ false | some i ↦ true ]

abbrev pub code_is : String → Option String → Bool
code_is c none = false
code_is c (some d) = str_eq d c

-- `to_lower` is `String.prototype.toLowerCase`
unfoldable pub classify_redis_error : (String → String) → RedisError → RedisCallOutcome
classify_redis_error to_lower e =
    let message = to_lower (message_of e) in
    if includes message "timed out"
      || includes message "wouldblock"
      || includes message "timeout"
      || code_is "ETIMEDOUT" e.code
    then timeout
    else redis_error

-- `{ ok: true; value } | { ok: false; outcome }`
pub data CallResult {ℓ} (A : Type ℓ) : Type ℓ where
  ok : A → CallResult A
  failed : RedisCallOutcome → CallResult A

-- the closure of the promise: the flag `settled`, and what it resolved with
pub record Call {ℓ} (A : Type ℓ) : Type ℓ where
  pub settled : Bool
  pub resolved : Option (CallResult A)

-- What may end the call, at a time and after some microseconds: the timer, or the command.
pub data Ending {ℓ} (A : Type ℓ) : Type ℓ where
  deadline : Env → ℕ → Ending A
  fulfilled : Env → ℕ → A → Ending A
  thrown : Env → ℕ → RedisError → Ending A

module _ {ℓ} {A : Type ℓ} where
  -- the first part of `withCircuitBreaker`, before the promise
  unfoldable pub start_call : Env → CircuitBreaker → CircuitBreaker × Call A
  start_call env b =
      let (b', rejected) = acquire env b in
      elim rejected [
        | none ↦ (b', record { settled = false; resolved = none })
        | some outcome ↦ (b', record { settled = true; resolved = some (failed outcome) })
      ]

  -- `finish` for a given outcome; `result` is what it resolves with
  unfoldable pub finish :
      Env → RedisCallOutcome → ℕ → CallResult A → CircuitBreaker → Call A → CircuitBreaker × Call A
  finish env outcome us result b call =
      if call.settled
      then (b, call)
      else (release env outcome us b, record { settled = true; resolved = some result })

  unfoldable pub finish_by :
      (String → String) → Ending A → CircuitBreaker → Call A → CircuitBreaker × Call A
  unfolding finish classify_redis_error
  finish_by to_lower (deadline env us) b call = finish env timeout us (failed timeout) b call
  finish_by to_lower (fulfilled env us value) b call = finish env success us (ok value) b call
  finish_by to_lower (thrown env us e) b call =
      let outcome = classify_redis_error to_lower e in finish env outcome us (failed outcome) b call
