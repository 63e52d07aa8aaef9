-- ===== src/Codes/EmailLink.antt =====
-- uam-backend/src/services/email-link.service.ts
pub mod Laws
use Prim.Native.String
use Prim.Native.String.{count}
use routiq.Base.{
  ℕ, ◌+◌, ◌*◌, String, Bool, true, false, ◌||◌, not, Option, none, some, List, leb, ltb, str_eq,
  if◌then◌else◌,
}
use routiq.Base.Dict.{Dict, lookup, insert, remove, prune}
use routiq.Redis.{Redis, cache_get, cache_set, cache_del}
use routiq.Codes.{Entry, Result, ok, thrown, Codec, code_bytes, remember, live}

abbrev pub link_ttl_secs : ℕ
link_ttl_secs = 86_400

abbrev pub form_ttl_secs : ℕ
form_ttl_secs = 600

pub data EmailLinkKind : Type 0 where
  verify_email reset_password migrate_current migrate_new : EmailLinkKind

abbrev pub same_kind : EmailLinkKind → EmailLinkKind → Bool
same_kind verify_email verify_email = true
same_kind reset_password reset_password = true
same_kind migrate_current migrate_current = true
same_kind migrate_new migrate_new = true
same_kind _ _ = false

-- `LinkPayload` and `FormPayload`, which have the same fields
pub record Payload : Type 0 where
  pub kind : EmailLinkKind
  pub secret : String
  pub meta : Option (Dict String)

-- Redis and the two maps of the process
pub record Links (S : Type 0) : Type 0 where
  pub redis : S
  pub links : Dict (Entry Payload)
  pub forms : Dict (Entry Payload)

pub record Redeemed : Type 0 where
  pub kind : EmailLinkKind
  pub form_token : String
  pub meta : Option (Dict String)

pub record Form : Type 0 where
  pub secret : String
  pub meta : Option (Dict String)

abbrev pub link_key : String → String
link_key code = String.◌++◌ "uam:email-link:" code

abbrev pub form_key : String → String
form_key token = String.◌++◌ "uam:email-form:" token

-- `!code || code.length < CODE_BYTES * 2`
unfoldable pub is_short : String → Bool
is_short code = str_eq code "" || ltb (count code) (code_bytes * 2)

-- the last test of `consumeFormToken`
unfoldable pub form_for : EmailLinkKind → Option Payload → Option Form
form_for expected none = none
form_for expected (some p) =
    if same_kind p.kind expected then some (record { secret = p.secret; meta = p.meta }) else none

module _ (R : Redis) (json : Codec Payload) where
  open R use {State, available}

  unfoldable pub create_email_link_code :
      Bool → ℕ → String → Payload → Links State → Links State × Result String
  unfolding remember cache_set
  create_email_link_code production now code payload w =
      if available w.redis
      then (
        record w {
          redis = cache_set R (link_key code) (json.encode payload) (some link_ttl_secs) w.redis;
        },
        ok code,
      )
      else if production
      then (w, thrown "Redis required for email link codes in production")
      else (record w { links = remember now link_ttl_secs code payload w.links }, ok code)

  -- a text from Redis, deleted under its key
  abbrev pub taken_text : String → Option String → Links State → Links State × Option Payload
  taken_text key none w = (w, none)
  taken_text key (some text) w =
      if str_eq text ""
      then (w, none)
      else (record w { redis = cache_del R key w.redis }, json.decode text)

  -- take a payload from Redis: read it, and delete it if it was there
  unfoldable pub take_from_redis : String → Links State → Links State × Option Payload
  unfolding cache_get cache_del
  take_from_redis key w =
      let (s, raw) = cache_get R key w.redis in taken_text key raw (record w { redis = s })

  -- the link's payload, by either way
  unfoldable pub take_link : ℕ → String → Links State → Links State × Option Payload
  unfolding take_from_redis live
  take_link now code w =
      if available w.redis
      then take_from_redis (link_key code) w
      else (record w { links = remove code w.links }, live now (lookup code w.links))

  -- the form token's payload
  unfoldable pub take_form : ℕ → String → Links State → Links State × Option Payload
  unfolding take_from_redis live
  take_form now token w =
      if available w.redis
      then take_from_redis (form_key token) w
      else (record w { forms = remove token w.forms }, live now (lookup token w.forms))

  -- keep the form payload; production or not, the map serves where Redis is not available
  unfoldable pub keep_form : ℕ → String → Payload → Links State → Links State
  unfolding remember cache_set
  keep_form now token payload w =
      if available w.redis
      then record w {
        redis = cache_set R (form_key token) (json.encode payload) (some form_ttl_secs) w.redis;
      }
      else record w { forms = remember now form_ttl_secs token payload w.forms }

  -- what follows once the link's payload is known; `now'` is the time after it was taken
  abbrev pub redeemed : ℕ → String → Links State × Option Payload → Links State × Option Redeemed
  redeemed now' form_token (w, none) = (w, none)
  redeemed now' form_token (w, some p) = (
    keep_form now' form_token p w,
    some (record { kind = p.kind; form_token = form_token; meta = p.meta }),
  )

  unfoldable pub redeem_email_link_code :
      ℕ → ℕ → String → String → Links State → Links State × Option Redeemed
  unfolding is_short take_link keep_form
  redeem_email_link_code now now' code form_token w =
      if is_short code then (w, none) else redeemed now' form_token (take_link now code w)

  unfoldable pub consume_form_token :
      ℕ → String → EmailLinkKind → Links State → Links State × Option Form
  unfolding is_short take_form form_for
  consume_form_token now form_token expected w =
      let (w', payload) = take_form now form_token w in
      if is_short form_token then (w, none) else (w', form_for expected payload)
