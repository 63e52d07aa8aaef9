-- ===== src/Auth.antt =====
-- The tokens of uam-backend/src/services/token.service.ts and the requests and replies of Express, as
-- far as the guards and handlers use them.
mod Tests
pub mod Sample
pub mod Guard
pub mod Refresh
pub mod Login
pub mod Password
pub mod Oauth
pub mod Revoke
use Prim.Native.String.{len, slice, find}
use routiq.Base.{
  ℕ, zero, suc, ◌*◌, String, Bool, true, false, not, Option, none, some, List, str_eq,
  if◌then◌else◌,
}
use routiq.Users.{number_of, text_of}
use routiq.Users.Document.{Document, read}

-- `TokenPayload`
pub record TokenPayload : Type 0 where
  pub user_id : String
  pub sub : Option String
  pub email : String
  pub kind : String
  pub home_region : Option String
  pub jti : Option String
  pub tv : Option ℕ

-- The library jsonwebtoken, for a secret: `verify` is none where it throws. Issuer, audience and
-- algorithm are the same in every call and belong to it; `now` is the time.
pub record Jwt : Type 0 where
  pub sign : String → TokenPayload → ℕ → String
  pub verify : ℕ → String → String → Option TokenPayload

-- what the configuration holds for tokens
pub record TokenConfig : Type 0 where
  pub access_secret : String
  pub refresh_secret : String
  pub access_expires : Option (ℕ × String)
  pub refresh_expires : Option (ℕ × String)
  pub default_home_region : Option String

-- the number and the unit of a setting that matches `^(\d+)([smhd])$`
unfoldable pub parse_expiry : Option (ℕ × String) → ℕ
parse_expiry none = 900
parse_expiry (some (value, unit)) =
    if str_eq unit "s"
    then value
    else if str_eq unit "m"
    then value * 60
    else if str_eq unit "h"
    then value * 3600
    else if str_eq unit "d"
    then value * 86400
    else 900

-- `parseExpiryMs` of uam-backend/src/utils/cookie.util.ts
unfoldable pub parse_expiry_ms : Option (ℕ × String) → ℕ
parse_expiry_ms none = 7 * 24 * 60 * 60 * 1000
parse_expiry_ms (some (value, unit)) =
    if str_eq unit "s"
    then value * 1000
    else if str_eq unit "m"
    then value * 60 * 1000
    else if str_eq unit "h"
    then value * 3600 * 1000
    else if str_eq unit "d"
    then value * 86400 * 1000
    else 7 * 24 * 60 * 60 * 1000

module _ (jwt : Jwt) (config : TokenConfig) where
  -- `jti` is the random UUID of the call
  unfoldable pub access_payload : Document → String → TokenPayload
  access_payload user jti = record {
    user_id = text_of (read "id" user);
    sub = some (text_of (read "id" user));
    email = text_of (read "email" user);
    kind = "access";
    home_region = config.default_home_region;
    jti = some jti;
    tv = some (number_of (read "tokenVersion" user));
  }

  unfoldable pub refresh_payload : Document → String → TokenPayload
  refresh_payload user jti = record {
    user_id = text_of (read "id" user);
    sub = none;
    email = text_of (read "email" user);
    kind = "refresh";
    home_region = none;
    jti = some jti;
    tv = none;
  }

  unfoldable pub generate_access_token : Document → String → String
  unfolding access_payload parse_expiry
  generate_access_token user jti =
      jwt.sign config.access_secret (access_payload user jti) (parse_expiry config.access_expires)

  unfoldable pub generate_refresh_token : Document → String → String
  unfolding refresh_payload parse_expiry
  generate_refresh_token user jti =
      jwt.sign config.refresh_secret (refresh_payload user jti)
        (parse_expiry config.refresh_expires)

  abbrev pub of_kind : String → Option TokenPayload → Option TokenPayload
  of_kind kind none = none
  of_kind kind (some p) = if str_eq p.kind kind then some p else none

  unfoldable pub verify_access_token : ℕ → String → Option TokenPayload
  verify_access_token now token = of_kind "access" (jwt.verify now config.access_secret token)

  unfoldable pub verify_refresh_token : ℕ → String → Option TokenPayload
  verify_refresh_token now token = of_kind "refresh" (jwt.verify now config.refresh_secret token)

-- The parts of a request that are read.
pub record Request : Type 0 where
  pub authorization : Option String
  pub csrf_header : Option String
  pub csrf_cookie : Option String
  pub refresh_cookie : Option String
  pub body_refresh : Option String
  pub body_access : Option String

-- `text.startsWith(prefix)`
abbrev pub starts_with : String → String → Bool
starts_with prefix s = str_eq (slice s 0 (len prefix)) prefix

-- `text.split(' ')[1]` of a text that starts with `Bearer `
abbrev pub after_bearer : String → String
after_bearer s = let rest : String = slice s 7 (len s) in slice rest 0 (find rest " ")

-- a token of an Authorization header, where it has the form
abbrev pub bearer : Option String → Option String
bearer none = none
bearer (some h) = if starts_with "Bearer " h then some (after_bearer h) else none

-- a text that is not empty
abbrev pub present : Option String → Option String
present none = none
present (some s) = if str_eq s "" then none else some s

-- What a handler answers: a status with a message, or with a message and a code; a session, which is an access token, the refresh
-- token where the body shows it, and the refresh cookie with its life in milliseconds; a message with
-- both cookies cleared; or a message.
pub data Reply : Type 0 where
  failed : ℕ → String → Reply
  failed_with : ℕ → String → String → Reply
  session : String → Option String → String → ℕ → Reply
  signed_out : String → Reply
  done : String → Reply

-- What the handlers use of libraries and of the configuration: `String(n)`, SHA-256 in hexadecimal,
-- `hashPassword`, `.split('.')`, the `jti` and `exp` of a base64url JSON, `Bearer` taken off a token,
-- and `config.auth.omitRefreshInBody`.
pub record Env : Type 0 where
  pub jwt : Jwt
  pub config : TokenConfig
  pub show : ℕ → String
  pub hash_token : String → String
  pub hash_password : String → String
  pub split : String → List String
  pub claims : String → Option (Option String × Option ℕ)
  pub clean : String → String
  pub omit_refresh : Bool
