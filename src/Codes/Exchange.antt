-- ===== src/Codes/Exchange.antt =====
-- uam-backend/src/services/oauth-exchange.service.ts
pub mod Laws
use Prim.Native.String
use Prim.Native.String.{count}
use routiq.Base.{
  ℕ, ◌+◌, ◌*◌, String, Bool, true, false, ◌||◌, Option, none, some, leb, ltb, str_eq, if◌then◌else◌,
}
use routiq.Base.Dict.{Dict, lookup, insert, remove, prune}
use routiq.Redis.{Redis, cache_get, cache_set, cache_del}
use routiq.Codes.{Entry, Result, ok, thrown, World, Codec, code_bytes, remember, live}

abbrev pub code_ttl_secs : ℕ
code_ttl_secs = 120

pub record TokenPair : Type 0 where
  pub access_token : String
  pub refresh_token : String

pub record ExchangeRecord : Type 0 where
  pub tokens : TokenPair
  pub state : String

abbrev pub exchange_key : String → String
exchange_key code = String.◌++◌ "uam:oauth:" code

-- the last test of `consumeOAuthExchangeCode`
unfoldable pub tokens_for : String → Option ExchangeRecord → Option TokenPair
tokens_for state none = none
tokens_for state (some r) = if str_eq r.state state then some r.tokens else none

module _ (R : Redis) (json : Codec ExchangeRecord) where
  open R use {State, available}

  -- `code` is the fresh random code, `now` the time of `Date.now()`
  unfoldable pub create_oauth_exchange_code :
      Bool
      → ℕ
      → String
      → String
      → String
      → String
      → World State ExchangeRecord
      → World State ExchangeRecord × Result String
  unfolding remember cache_set
  create_oauth_exchange_code production now code access refresh state w =
      let record_ : ExchangeRecord = record {
        tokens = record { access_token = access; refresh_token = refresh };
        state = state;
      } in
      if str_eq state ""
      then (w, thrown "OAuth state is required for exchange codes")
      else if available w.redis
      then (
        record w {
          redis =
              cache_set R (exchange_key code) (json.encode record_) (some code_ttl_secs) w.redis;
        },
        ok code,
      )
      else if production
      then (w, thrown "Redis required for OAuth exchange codes in production")
      else (record w { memory = remember now code_ttl_secs code record_ w.memory }, ok code)

  -- the branch of `consumeOAuthExchangeCode` that asks Redis
  unfoldable pub consume_from_redis :
      String → String → World State ExchangeRecord → World State ExchangeRecord × Option TokenPair
  unfolding cache_get cache_del tokens_for
  consume_from_redis code state w =
      let (s, raw) = cache_get R (exchange_key code) w.redis in
      elim raw [
        | none ↦ (record w { redis = s }, none)
        | some text ↦ if str_eq text "" then (record w { redis = s }, none) else (
          record w { redis = cache_del R (exchange_key code) s },
          tokens_for state (json.decode text),
        )
      ]

  -- the branch that looks in the map of the process
  unfoldable pub consume_from_memory :
      ℕ
      → String
      → String
      → World State ExchangeRecord
      → World State ExchangeRecord × Option TokenPair
  unfolding live tokens_for
  consume_from_memory now code state w = (
    record w { memory = remove code w.memory },
    tokens_for state (live now (lookup code w.memory)),
  )

  unfoldable pub consume_oauth_exchange_code :
      ℕ
      → String
      → String
      → World State ExchangeRecord
      → World State ExchangeRecord × Option TokenPair
  unfolding consume_from_redis consume_from_memory
  consume_oauth_exchange_code now code state w =
      if str_eq code "" || ltb (count code) (code_bytes * 2) || str_eq state ""
      then (w, none)
      else if available w.redis
      then consume_from_redis code state w
      else consume_from_memory now code state w
