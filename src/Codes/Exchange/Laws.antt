-- ===== src/Codes/Exchange/Laws.antt =====
-- What an exchange code promises: bound to its state, for two minutes, and once.
use Prim.Native.String.{count}
use routiq.Base.{
  ℕ, ◌+◌, ◌*◌, ◌≤◌, ◌≡◌, ◌≢◌, refl, String, false, none, some, arith, ltb, str_eq, eq_iff,
  if◌then◌else◌,
}
use routiq.Base.Dict.{lookup, remove}
use routiq.Breaker.Call.{CallResult}
use routiq.Breaker.Call
use routiq.Redis.{Redis}
use routiq.Codes.{ok, World, Codec, code_bytes, remember, live, live-remember, live-remove}
use routiq.Codes.Exchange.{
  ExchangeRecord, tokens_for, create_oauth_exchange_code, consume_from_redis, consume_from_memory,
  consume_oauth_exchange_code, code_ttl_secs,
}

-- A code that passes the length test.
abbrev pub IsCode : String → Type 0
IsCode code = (code ≢ "") × (code_bytes * 2 ≤ count code)

module _ (R : Redis) (json : Codec ExchangeRecord) where
  open R use {State, available}

  consume_well_formed :
      (now : ℕ) (code state : String) (w : World State ExchangeRecord)
      → IsCode code
      → state ≢ ""
      → consume_oauth_exchange_code R json now code state w ≡ (
          if available w.redis
          then consume_from_redis R json code state w
          else consume_from_memory R json now code state w)
  unfolding consume_oauth_exchange_code
  consume_well_formed now code state w h k = ground (arith, eq_iff code "", eq_iff state "")

  abbrev exchange_record : String → String → String → ExchangeRecord
  exchange_record access refresh state = record {
    tokens = record { access_token = access; refresh_token = refresh };
    state = state;
  }

  create_in_memory :
      (now : ℕ) (code access refresh state : String) (w : World State ExchangeRecord)
      → state ≢ ""
      → available w.redis ≡ false
      → create_oauth_exchange_code R json false now code access refresh state w ≡ (
        record w {
          memory = remember now code_ttl_secs code (exchange_record access refresh state) w.memory;
        },
        ok code,
      )
  unfolding create_oauth_exchange_code
  create_in_memory now code access refresh state w k off = ground (arith, eq_iff state "")

  tokens-consume_from_memory :
      (now : ℕ) (code state : String) (w : World State ExchangeRecord)
      → (consume_from_memory R json now code state w).1
        ≡ tokens_for state (live now (lookup code w.memory))
  unfolding consume_from_memory
  tokens-consume_from_memory now code state w = refl

  -- Without Redis, outside production: a code that was just created gives its tokens back exactly
  -- when the state is the one it was created for and two minutes have not passed.
  pub exchange_round_trip :
      (now now' : ℕ) (code access refresh state state' : String) (w : World State ExchangeRecord)
      → IsCode code
      → state ≢ ""
      → state' ≢ ""
      → available w.redis ≡ false
      → (consume_oauth_exchange_code R json now' code state'
          (create_oauth_exchange_code R json false now code access refresh state w).0).1
        ≡ (if ltb (now + 120_000) now'
            then none
            else if str_eq state state'
            then some (record { access_token = access; refresh_token = refresh })
            else none)
  exchange_round_trip now now' code access refresh state state' w h k k' off =
      rw (create_in_memory now code access refresh state w k off) (
        rw
          (
            consume_well_formed now' code state' _ h k',
            off,
            tokens-consume_from_memory now' code state' _,
            live-remember now now' code_ttl_secs code (exchange_record access refresh state)
                w.memory,
          )
          (unfold tokens_for in ground arith))

  memory-consume_from_memory :
      (now : ℕ) (code state : String) (w : World State ExchangeRecord)
      → (consume_from_memory R json now code state w).0 ≡ record w { memory = remove code w.memory }
  unfolding consume_from_memory
  memory-consume_from_memory now code state w = refl

  -- Without Redis a code is used up by the first attempt, also one with a wrong state or too late:
  -- no later attempt gets tokens.
  pub exchange_once :
      (now now' : ℕ) (code state state' : String) (w : World State ExchangeRecord)
      → IsCode code
      → state ≢ ""
      → state' ≢ ""
      → available w.redis ≡ false
      → (consume_oauth_exchange_code R json now' code state'
          (consume_oauth_exchange_code R json now code state w).0).1
        ≡ none
  exchange_once now now' code state state' w h k k' off =
      rw
        (consume_well_formed now code state w h k, off, memory-consume_from_memory now code state w)
        (rw
          (
            consume_well_formed now' code state' _ h k',
            off,
            tokens-consume_from_memory now' code state' _,
            live-remove now' code w.memory,
          )
          (unfold tokens_for in refl))
