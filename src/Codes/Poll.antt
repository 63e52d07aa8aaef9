-- ===== src/Codes/Poll.antt =====
-- uam-backend/src/services/verification-poll.service.ts
pub mod Laws
use Prim.Native.String
use Prim.Native.String.{count}
use routiq.Base.{
  ℕ, ◌+◌, ◌*◌, String, Bool, true, false, ◌||◌, Option, none, some, leb, ltb, str_eq, if◌then◌else◌,
}
use routiq.Base.Dict.{Dict, lookup, insert, remove, prune}
use routiq.Redis.{Redis, cache_get, cache_set, cache_del}
use routiq.Codes.{Entry, Result, ok, thrown, World, code_bytes, remember, live}

abbrev pub poll_ttl_secs : ℕ
poll_ttl_secs = 86_400

abbrev pub poll_key : String → String
poll_key token = String.◌++◌ "uam:verify-poll:" token

module _ (R : Redis) where
  open R use {State, available}

  unfoldable pub create_verification_poll_token :
      Bool → ℕ → String → String → World State String → World State String × Result String
  unfolding remember cache_set
  create_verification_poll_token production now token id w =
      if available w.redis
      then (
        record w { redis = cache_set R (poll_key token) id (some poll_ttl_secs) w.redis },
        ok token,
      )
      else if production
      then (w, thrown "Redis required for verification poll tokens in production")
      else (record w { memory = remember now poll_ttl_secs token id w.memory }, ok token)

  -- an entry that has expired is dropped, a live one stays
  unfoldable pub resolve_from_memory :
      ℕ → String → World State String → World State String × Option String
  unfolding live
  resolve_from_memory now token w = elim (live now (lookup token w.memory)) [
    | none ↦ (record w { memory = remove token w.memory }, none)
    | some id ↦ (w, some id)
  ]

  unfoldable pub resolve_verification_poll_token :
      ℕ → String → World State String → World State String × Option String
  unfolding resolve_from_memory cache_get
  resolve_verification_poll_token now token w =
      let (s, id) = cache_get R (poll_key token) w.redis in
      if str_eq token "" || ltb (count token) (code_bytes * 2)
      then (w, none)
      else if available w.redis
      then (record w { redis = s }, id)
      else resolve_from_memory now token w

  unfoldable pub revoke_verification_poll_token : String → World State String → World State String
  unfolding cache_del
  revoke_verification_poll_token token w =
      if str_eq token ""
      then w
      else if available w.redis
      then record w { redis = cache_del R (poll_key token) w.redis }
      else record w { memory = remove token w.memory }
