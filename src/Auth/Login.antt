-- ===== src/Auth/Login.antt =====
-- `login` of uam-backend/src/controllers/auth.controller.ts, with `comparePassword` of
-- uam-backend/src/db/User.ts. An error of the look-ups is left out; the user's fields in the body of
-- the answer are left out.
mod Tests
pub mod Touched
pub mod Laws
pub mod Replies
use routiq.Base.{
  ℕ, ◌+◌, ◌*◌, ◌==◌, String, Bool, true, false, ◌&&◌, not, Option, none, some, List, [], ◌∷◌, leb,
  ltb, str_eq, if◌then◌else◌,
}
use routiq.Redis.{Redis}
use routiq.Codes.{Result, ok, thrown}
use routiq.Users.{Value, null, text, number, flag, date, Row, UserDb, number_of, truthy, text_of}
use routiq.Users.Update.{Updated, updated}
use routiq.Users.Document.{Document, Projection, read, put, find_by_id, save, reloaded}
use routiq.Session.{Site, persist_session_tokens}
use routiq.Identity.{IndexDb, Keys, is_text, sync_identity_indexes_from_user}
use routiq.Identity.Resolve.{Resolved, resolve_email_identity}
use routiq.Auth.{Env, Reply, failed, failed_with, generate_access_token, generate_refresh_token}
use routiq.Auth.Revoke.{jti_of}
use routiq.Auth.Refresh.{session_of}

-- The tables, Redis, and the requests to the control plane.
pub record World (S T I : Type 0) : Type 0 where
  pub site : Site S T
  pub index : I

abbrev pub max_daily_logins : ℕ
max_daily_logins = 100

-- `LoginInput`
pub record LoginInput : Type 0 where
  pub email : String
  pub password : String

-- What a login reads besides: the time, the start of a time's day, `verifyPassword` with whether it
-- matches and whether the hash is to be renewed, and the random ids of the two tokens.
pub record LoginEnv : Type 0 where
  pub now : ℕ
  pub day : ℕ → ℕ
  pub verify_password : String → String → Bool × Bool
  pub access_jti : String
  pub refresh_jti : String

abbrev pub login_fields : List String
login_fields =
    "password" ∷ "refreshTokens" ∷ "loginCount" ∷ "lastLogin" ∷ "bio" ∷ "avatar" ∷ "displayName"
    ∷ "provider" ∷ "providerId" ∷ "previousEmail" ∷ "migrationExpiry" ∷ "newEmailPending"
    ∷ "currentEmailVerified" ∷ "newEmailVerified" ∷ []

abbrev pub fresh_fields : List String
fresh_fields =
    "bio" ∷ "avatar" ∷ "displayName" ∷ "provider" ∷ "providerId" ∷ "previousEmail"
    ∷ "migrationExpiry" ∷ "createdAt" ∷ []

-- the assignments that end a migration
abbrev pub finalized : ℕ → Document → Document
finalized now user = put "newEmailToken" null (
    put "currentEmailToken" null (
      put "newEmailVerified" null (
        put "currentEmailVerified" null (
          put "newEmailPending" null (
            put "isEmailVerified" (flag true) (
              put "lastMigrationDate" (date now) (
                put "migrationExpiry" (date (now + 5 * 24 * 60 * 60 * 1000)) (
                  put "email" (read "newEmailPending" user)
                    (put "previousEmail" (read "email" user) user)))))))))

-- `lastLogin` in days, 0 where there was none
abbrev pub last_day : (ℕ → ℕ) → Value → ℕ
last_day day (date t) = day t
last_day day _ = 0

-- the daily limit: none where it is reached
unfoldable pub count_login : LoginEnv → Document → Option Document
count_login l user =
    let n : ℕ = number_of (read "loginCount" user) in
    if last_day l.day (read "lastLogin" user) == l.day l.now
    then if leb max_daily_logins n
      then none
      else some (put "lastLogin" (date l.now) (put "loginCount" (number (n + 1)) user))
    else some (put "lastLogin" (date l.now) (put "loginCount" (number 1) user))

-- `user.previousEmail === lowerEmail` after the old address has expired
abbrev pub is_expired_alias : ℕ → String → Document → Bool
is_expired_alias now lower user =
    is_text lower (read "previousEmail" user)
    && elim (read "migrationExpiry" user) [ date t ↦ ltb t now | _ ↦ false ]

module _ (e : Env) (l : LoginEnv) (D : UserDb) (R : Redis) (X : IndexDb) (K : Keys) where
  abbrev pub State : Type 0
  State = World D.State R.State X.State

  abbrev pub Handled : Type 0
  Handled = State × Reply

  abbrev pub put_db : D.State → State → State
  put_db s w = record w { site = record w.site { db = s } }

  abbrev pub rehashed : Document → State → D.State × Updated → State × Document
  rehashed user w (s, Updated.thrown) = (put_db s w, user)
  rehashed user w (s, updated r) = (put_db s w, reloaded user r)

  abbrev pub rehash : Bool → String → Document → State → State × Document
  rehash false password user w = (w, user)
  rehash true password user w =
      let user' : Document = put "password" (text password) user in
      rehashed user' w (save D e.hash_password (text_of (read "id" user)) user' w.site.db)

  -- `comparePassword`
  unfoldable pub compare_password : String → Document → State → (State × Document) × Bool
  compare_password password user w =
      let (match, needs_rehash) = l.verify_password password (text_of (read "password" user)) in
      if not (truthy (read "password" user))
      then ((w, user), false)
      else (rehash (match && needs_rehash) password user w, match)

  -- the user is loaded again for the answer
  abbrev pub answered : Option Document → Reply → State → Handled
  answered none reply w = (w, failed 500 "Failed to load user data")
  answered (some fresh) reply w = (w, reply)

  abbrev pub persisted : String → Reply → State → Site D.State R.State × Result (Unit {0}) → Handled
  persisted id reply w (site, thrown message) =
      (record w { site = site }, failed 500 "Login failed")
  persisted id reply w (site, ok done) =
      answered (find_by_id D id (some (record { additive = fresh_fields; inclusion = [] })) site.db)
        reply (record w { site = site })

  -- the tokens of a user, stored and answered
  abbrev pub start_session : Document → State → Handled
  start_session user w =
      let id : String = text_of (read "id" user) in
      let access : String = generate_access_token e.jwt e.config user l.access_jti in
      let refresh : String = generate_refresh_token e.jwt e.config user l.refresh_jti in
      persisted id (session_of e D R access refresh) w (
        persist_session_tokens D R e.show e.hash_token (jti_of e) id access refresh
          (some (number_of (read "tokenVersion" user))) w.site)

  abbrev pub counted : Option Document → State → Handled
  counted none w = (w, failed 429 "Daily login limit exceeded. Please try again tomorrow.")
  counted (some user) w = start_session user w

  abbrev pub matched : (State × Document) × Bool → Handled
  matched ((w, user), false) = (w, failed 401 "Invalid email or password")
  matched ((w, user), true) =
      if not (truthy (read "isEmailVerified" user))
      then (w, failed_with 401 "Invalid email or password" "AUTH_FAILED")
      else counted (count_login l user) w

  abbrev pub with_password : String → Document → State → Handled
  with_password password user w =
      if not (is_text "local" (read "provider" user))
      then (w, failed_with 401 "Invalid email or password" "AUTH_FAILED")
      else matched (compare_password password user w)

  abbrev pub with_alias : String → String → Document → State → Handled
  with_alias lower password user w =
      if is_expired_alias l.now lower user
      then (
        w,
        failed 403
            "This email is no longer valid for this account. Please use your new email address.",
      )
      else with_password password user w

  abbrev pub synced : State → X.State × Result (Unit {0}) → State × Result (Unit {0})
  synced w (x, result) = (record w { index = x }, result)

  abbrev pub finalize_saved :
      Document → State → D.State × Updated → (State × Document) × Result (Unit {0})
  finalize_saved user w (s, Updated.thrown) = ((put_db s w, user), thrown "database error")
  finalize_saved user w (s, updated r) =
      let user' : Document = reloaded user r in
      let (w', result) =
        synced (put_db s w) (sync_identity_indexes_from_user X K l.now l.now l.now user' w.index) in
      ((w', user'), result)

  abbrev pub after_finalize : String → String → (State × Document) × Result (Unit {0}) → Handled
  after_finalize lower password ((w, user), thrown message) = (w, failed 500 "Login failed")
  after_finalize lower password ((w, user), ok done) = with_alias lower password user w

  -- a pending migration to the address is ended first, where both addresses are verified
  abbrev pub with_pending : String → String → Document → State → Handled
  with_pending lower password user w =
      let both =
        truthy (read "currentEmailVerified" user) && truthy (read "newEmailVerified" user) in
      if not (is_text lower (read "newEmailPending" user))
      then with_alias lower password user w
      else if not both
      then (
        w,
        failed 403 "Please verify both email addresses before logging in with the new email.",
      )
      else if not (truthy (read "newEmailPending" user))
      then (w, failed 500 "Migration state invalid")
      else after_finalize lower password (
          finalize_saved (finalized l.now user) w
            (save D e.hash_password (text_of (read "id" user)) (finalized l.now user) w.site.db))

  abbrev pub with_user : String → String → Option Document → State → Handled
  with_user lower password none w = (w, failed 401 "Invalid email or password")
  with_user lower password (some user) w = with_pending lower password user w

  abbrev pub with_identity : String → String → Option Resolved → State → Handled
  with_identity lower password none w = with_user lower password none w
  with_identity lower password (some r) w =
      with_user lower password
        (find_by_id D r.user_id (some (record { additive = login_fields; inclusion = [] }))
          w.site.db)
        w

  -- `login`
  unfoldable pub login : LoginInput → State → Handled
  unfolding resolve_email_identity count_login
  login input w =
      let lower : String = K.lower input.email in
      with_identity lower input.password (resolve_email_identity X K l.now lower w.index) w
