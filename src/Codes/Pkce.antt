-- ===== src/Codes/Pkce.antt =====
-- uam-backend/src/services/oauth-pkce.service.ts
pub mod Laws
use Prim.Native.String
use Prim.Native.String.{count}
use routiq.Base.{
  ℕ, ◌+◌, ◌*◌, String, Bool, true, false, ◌||◌, ◌&&◌, not, Option, none, some, List, [], ◌∷◌, leb,
  ltb, str_eq, if◌then◌else◌,
}
use routiq.Base.Dict.{Dict, lookup, insert, remove, prune}
use routiq.Redis.{Redis, cache_get, cache_set, cache_del}
use routiq.Codes.{Entry, Result, ok, thrown, World, Codec, remember, live}

abbrev pub state_ttl_secs : ℕ
state_ttl_secs = 600

pub record StateRecord : Type 0 where
  pub code_challenge : String
  pub redirect_uri : Option String

-- What `new URL` gives of a URL: the parser is the platform's.
pub record Url : Type 0 where
  pub protocol : String
  pub pathname : String
  pub origin : String

-- `clientUrls.some(base => …)`, where a base that does not parse is no match
unfoldable pub is_allowed_origin : (String → Option Url) → List String → String → Bool
is_allowed_origin parse_url [] origin = false
is_allowed_origin parse_url (base ∷ bases) origin =
    elim (parse_url base) [ none ↦ false | some u ↦ str_eq u.origin origin ]
    || is_allowed_origin parse_url bases origin

-- `drop_slash` is `.replace(/\/$/, '')`; `none` is a redirect that is no string or is empty
unfoldable pub resolve_client_redirect_uri :
    (String → Option Url) → (String → String) → List String → Option String → Option String
unfolding is_allowed_origin
resolve_client_redirect_uri parse_url drop_slash client_urls none = none
resolve_client_redirect_uri parse_url drop_slash client_urls (some redirect_uri) =
    if str_eq redirect_uri "" then none else elim (parse_url redirect_uri) [
      | none ↦ none
      | some parsed ↦
          if not (str_eq parsed.protocol "https:") && not (str_eq parsed.protocol "http:")
          then none
          else if not (str_eq (drop_slash parsed.pathname) "/oauth-callback")
          then none
          else if not (is_allowed_origin parse_url client_urls parsed.origin)
          then none
          else some (String.◌++◌ parsed.origin "/oauth-callback")
    ]

abbrev pub state_key : String → String
state_key state = String.◌++◌ "uam:oauth-state:" state

-- `...(redirectUri ? { redirectUri } : {})`
abbrev pub given : Option String → Option String
given none = none
given (some uri) = if str_eq uri "" then none else some uri

-- `digest` is the base64url text of the SHA-256 of a text
module _ (digest : String → String) where
  unfoldable pub verify_pkce_challenge : String → String → Bool
  verify_pkce_challenge verifier challenge = str_eq (digest verifier) challenge

  unfoldable pub verified : String → Option StateRecord → Bool
  unfolding verify_pkce_challenge
  verified verifier none = false
  verified verifier (some r) = verify_pkce_challenge verifier r.code_challenge

module _ (R : Redis) (json : Codec StateRecord) where
  open R use {State, available}

  unfoldable pub create_oauth_state :
      Bool
      → ℕ
      → String
      → String
      → Option String
      → World State StateRecord
      → World State StateRecord × Result String
  unfolding remember cache_set
  create_oauth_state production now state code_challenge redirect_uri w =
      let r : StateRecord = record {
        code_challenge = code_challenge;
        redirect_uri = given redirect_uri;
      } in
      if ltb (count code_challenge) 43 || ltb 128 (count code_challenge)
      then (w, thrown "Invalid code challenge")
      else if available w.redis
      then (
        record w {
          redis = cache_set R (state_key state) (json.encode r) (some state_ttl_secs) w.redis;
        },
        ok state,
      )
      else if production
      then (w, thrown "Redis required for OAuth state in production")
      else (record w { memory = remember now state_ttl_secs state r w.memory }, ok state)

  abbrev pub redirect_of : Option StateRecord → Option String
  redirect_of none = none
  redirect_of (some r) = r.redirect_uri

  -- a text that does not parse throws, and the handler returns null
  abbrev pub redirect_in : Option String → Option String
  redirect_in none = none
  redirect_in (some text) = if str_eq text "" then none else redirect_of (json.decode text)

  unfoldable pub peek_oauth_state_redirect_uri :
      ℕ → String → World State StateRecord → World State StateRecord × Option String
  unfolding live cache_get
  peek_oauth_state_redirect_uri now state w =
      let (s, raw) = cache_get R (state_key state) w.redis in
      if str_eq state ""
      then (w, none)
      else if available w.redis
      then (record w { redis = s }, redirect_in raw)
      else (w, redirect_of (live now (lookup state w.memory)))

  module _ (digest : String → String) where
    unfoldable pub consume_from_redis :
        String → String → World State StateRecord → World State StateRecord × Bool
    unfolding cache_get cache_del verified
    consume_from_redis state verifier w =
        let (s, raw) = cache_get R (state_key state) w.redis in
        elim raw [
          | none ↦ (record w { redis = s }, false)
          | some text ↦ if str_eq text "" then (record w { redis = s }, false) else (
            record w { redis = cache_del R (state_key state) s },
            verified digest verifier (json.decode text),
          )
        ]

    unfoldable pub consume_from_memory :
        ℕ → String → String → World State StateRecord → World State StateRecord × Bool
    unfolding live verified
    consume_from_memory now state verifier w = (
      record w { memory = remove state w.memory },
      verified digest verifier (live now (lookup state w.memory)),
    )

    unfoldable pub consume_oauth_state :
        ℕ → String → String → World State StateRecord → World State StateRecord × Bool
    unfolding consume_from_redis consume_from_memory
    consume_oauth_state now state verifier w =
        if str_eq state "" || str_eq verifier ""
        then (w, false)
        else if available w.redis
        then consume_from_redis state verifier w
        else consume_from_memory now state verifier w
