-- ===== src/Auth/Guard.antt =====
-- The guards of a request: uam-backend/src/middleware/auth.middleware.ts and csrf.middleware.ts. An
-- error of the database is left out.
pub mod Laws
use routiq.Base.{
  ℕ, ◌==◌, String, Bool, true, false, ◌||◌, not, Option, none, some, str_eq, if◌then◌else◌,
}
use routiq.Users.{truthy, UserDb, number_of}
use routiq.Users.Document.{Document, read, find_by_id}
use routiq.Auth.{TokenPayload, Jwt, TokenConfig, Request, bearer, present, verify_access_token}

-- A guard refuses with a status and a message, or passes the request on with what it attached.
pub data Verdict (A : Type 0) : Type 0 where
  refused : ℕ → String → Verdict A
  passed : A → Verdict A

abbrev pub or_zero : Option ℕ → ℕ
or_zero none = 0
or_zero (some n) = n

-- `tokenVersionStale`
unfoldable pub token_version_stale : Option ℕ → ℕ → Bool
token_version_stale payload_tv user_tv = not (or_zero payload_tv == user_tv)

-- `authenticate` from the user on
abbrev pub admit : TokenPayload → Option Document → Verdict Document
admit payload none = refused 401 "User not found"
admit payload (some user) =
    if token_version_stale payload.tv (number_of (read "tokenVersion" user))
    then refused 401 "Session expired — please sign in again"
    else passed user

module _ (jwt : Jwt) (config : TokenConfig) (D : UserDb) where
  abbrev pub admit_payload : Option TokenPayload → D.State → Verdict Document
  admit_payload none s = refused 401 "Invalid or expired access token"
  admit_payload (some payload) s = admit payload (find_by_id D payload.user_id none s)

  abbrev pub admit_token : ℕ → Option String → D.State → Verdict Document
  admit_token now none s = refused 401 "Access token is required"
  admit_token now (some token) s = admit_payload (verify_access_token jwt config now token) s

  -- `authenticate`
  unfoldable pub authenticate : ℕ → Request → D.State → Verdict Document
  authenticate now req s = admit_token now (bearer (present req.authorization)) s

  abbrev pub attached : Verdict Document → Option Document
  attached (refused status message) = none
  attached (passed user) = some user

  abbrev pub attach_fresh : TokenPayload → Option Document → Option Document
  attach_fresh payload none = none
  attach_fresh payload (some user) =
      if token_version_stale payload.tv (number_of (read "tokenVersion" user))
      then none
      else some user

  abbrev pub attach_payload : Option TokenPayload → D.State → Option Document
  attach_payload none s = none
  attach_payload (some payload) s = attach_fresh payload (find_by_id D payload.user_id none s)

  abbrev pub attach_token : ℕ → Option String → D.State → Option Document
  attach_token now none s = none
  attach_token now (some token) s = attach_payload (verify_access_token jwt config now token) s

  -- `optionalAuth` passes every request on; this is the user that it attaches
  unfoldable pub optional_auth : ℕ → Request → D.State → Option Document
  optional_auth now req s = attach_token now (bearer (present req.authorization)) s

-- `requireVerifiedEmail`, for the user that was attached
unfoldable pub require_verified_email : Option Document → Verdict (Unit {0})
require_verified_email none = refused 403 "Email verification required"
require_verified_email (some user) =
    if truthy (read "isEmailVerified" user)
    then passed tt
    else refused 403 "Email verification required"

-- `issueCsrfCookie`: the token, and the cookie that is set; `random` is 32 random bytes in hexadecimal
abbrev pub issued : String → Option String → String × Option String
issued random none = (random, some random)
issued random (some existing) = (existing, none)

unfoldable pub issue_csrf_cookie : String → Request → String × Option String
issue_csrf_cookie random req = issued random (present req.csrf_cookie)

-- `typeof csrfHeader === 'string' ? csrfHeader : ''`
abbrev pub or_empty_text : Option String → String
or_empty_text none = ""
or_empty_text (some s) = s

abbrev pub csrf_matches : Option String → String → Bool
csrf_matches none header = false
csrf_matches (some cookie) header =
    not (str_eq cookie "" || str_eq header "" || not (str_eq cookie header))

-- `requireCsrf`; `omit_refresh` is `config.auth.omitRefreshInBody`
unfoldable pub require_csrf : Bool → Request → Verdict (Unit {0})
require_csrf omit_refresh req =
    if not omit_refresh
    then passed tt
    else if csrf_matches req.csrf_cookie (or_empty_text req.csrf_header)
    then passed tt
    else refused 403 "CSRF validation failed"
