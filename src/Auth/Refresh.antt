-- ===== src/Auth/Refresh.antt =====
-- `refreshAccessToken` and `logout` of uam-backend/src/controllers/auth.controller.ts, with
-- uam-backend/src/utils/cookie.util.ts. An error of the database is answered by 500.
pub mod Laws
use routiq.Base.{
  ℕ, ◌/◌, String, Bool, true, false, Option, none, some, List, [], ◌∷◌, str_eq, if◌then◌else◌,
}
use routiq.Redis.{Redis}
use routiq.Codes.{Result, ok, thrown}
use routiq.Users.{text_of, UserDb, items_of, number_of}
use routiq.Users.Document.{Document, Projection, read, find_by_id}
use routiq.Session.{
  Site, find_stored_refresh_token, rotate_session_tokens, invalidate_all_sessions,
  remove_refresh_token,
}
use routiq.Auth.{
  TokenPayload, Env, Request, Reply, failed, session, signed_out, present, parse_expiry_ms,
  generate_access_token, generate_refresh_token, verify_access_token, verify_refresh_token,
}
use routiq.Auth.Revoke.{jti_of, revoke_access_token}

-- `getRefreshFromRequest`
unfoldable pub get_refresh_from_request : Bool → Request → Option String
get_refresh_from_request omit_refresh req =
    let body : Option String = if omit_refresh then none else present req.body_refresh in
    elim (present req.refresh_cookie) [ some cookie ↦ some cookie | none ↦ body ]

-- `publicTokenFields`: what the body shows of the refresh token
unfoldable pub public_refresh : Bool → String → Option String
public_refresh omit_refresh refresh = if omit_refresh then none else some refresh

module _ (e : Env) (D : UserDb) (R : Redis) where
  abbrev pub Handled : Type 0
  Handled = Site D.State R.State × Reply

  -- the cookie of `setAuthCookies` and the tokens of the body
  abbrev pub session_of : String → String → Reply
  session_of access refresh =
      session access (public_refresh e.omit_refresh refresh) refresh
        (parse_expiry_ms e.config.refresh_expires)

  -- after `invalidateAllSessions`
  abbrev pub ended : Site D.State R.State × Result (Unit {0}) → Handled
  ended (w, ok done) = (w, failed 401 "Session invalidated — please sign in again")
  ended (w, thrown message) = (w, failed 500 "Token refresh failed")

  abbrev pub end_sessions : Document → Site D.State R.State → Handled
  end_sessions user w =
      ended (invalidate_all_sessions D R e.show e.hash_password (text_of (read "id" user)) w)

  -- after `rotateSessionTokens`
  abbrev pub rotated : Document → String → String → Site D.State R.State × Result Bool → Handled
  rotated user access refresh (w, ok true) = (w, session_of access refresh)
  rotated user access refresh (w, ok false) = end_sessions user w
  rotated user access refresh (w, thrown message) = (w, failed 500 "Token refresh failed")

  abbrev pub revoke_verified :
      ℕ → String → Option TokenPayload → Site D.State R.State → Site D.State R.State
  revoke_verified now token none w = w
  revoke_verified now token (some payload) w = revoke_access_token e (now / 1000) token w

  -- the previous access token, where the client gives one that verifies
  abbrev pub revoke_prior : ℕ → Option String → Site D.State R.State → Site D.State R.State
  revoke_prior now none w = w
  revoke_prior now (some token) w =
      revoke_verified now token (verify_access_token e.jwt e.config now token) w

  -- from the look-up in the user's tokens on; the random ids of the two tokens are arguments
  abbrev pub refresh_known :
      ℕ
      → String
      → String
      → Request
      → String
      → Document
      → Option String
      → Site D.State R.State
      → Handled
  refresh_known now access_jti refresh_jti req presented user none w = end_sessions user w
  refresh_known now access_jti refresh_jti req presented user (some key) w =
      let access : String = generate_access_token e.jwt e.config user access_jti in
      let refresh : String = generate_refresh_token e.jwt e.config user refresh_jti in
      let w' : Site D.State R.State = revoke_prior now (present req.body_access) w in
      rotated user access refresh (
        rotate_session_tokens D R e.show e.hash_token (jti_of e) (text_of (read "id" user))
          presented access refresh (some (number_of (read "tokenVersion" user))) w')

  abbrev pub refresh_user :
      ℕ → String → String → Request → String → Option Document → Site D.State R.State → Handled
  refresh_user now access_jti refresh_jti req presented none w = (w, failed 401 "User not found")
  refresh_user now access_jti refresh_jti req presented (some user) w =
      refresh_known now access_jti refresh_jti req presented user
        (find_stored_refresh_token e.hash_token (items_of (read "refreshTokens" user)) presented) w

  abbrev pub refresh_verified :
      ℕ → String → String → Request → String → Option TokenPayload → Site D.State R.State → Handled
  refresh_verified now access_jti refresh_jti req presented none w =
      (w, failed 401 "Invalid refresh token")
  refresh_verified now access_jti refresh_jti req presented (some payload) w =
      refresh_user now access_jti refresh_jti req presented
        (find_by_id D payload.user_id
          (some (record { additive = "refreshTokens" ∷ []; inclusion = [] })) w.db)
        w

  abbrev pub refresh_presented :
      ℕ → String → String → Request → Option String → Site D.State R.State → Handled
  refresh_presented now access_jti refresh_jti req none w =
      (w, failed 401 "Refresh token is required")
  refresh_presented now access_jti refresh_jti req (some presented) w =
      refresh_verified now access_jti refresh_jti req presented
        (verify_refresh_token e.jwt e.config now presented) w

  -- `refreshAccessToken`
  unfoldable pub refresh_access_token :
      ℕ → String → String → Request → Site D.State R.State → Handled
  unfolding get_refresh_from_request
  refresh_access_token now access_jti refresh_jti req w =
      refresh_presented now access_jti refresh_jti req (get_refresh_from_request e.omit_refresh req)
        w

  abbrev pub remove_verified :
      String → Option TokenPayload → Site D.State R.State → Site D.State R.State × Result (Unit {0})
  remove_verified token none w = (w, ok tt)
  remove_verified token (some payload) w =
      remove_refresh_token D R e.show e.hash_password e.hash_token payload.user_id token w

  abbrev pub remove_presented :
      ℕ → Option String → Site D.State R.State → Site D.State R.State × Result (Unit {0})
  remove_presented now none w = (w, ok tt)
  remove_presented now (some token) w =
      remove_verified token (verify_refresh_token e.jwt e.config now token) w

  abbrev pub signed : ℕ → Request → Site D.State R.State × Result (Unit {0}) → Handled
  signed now req (w, ok done) =
      (revoke_prior now (present req.body_access) w, signed_out "Logged out successfully")
  signed now req (w, thrown message) = (w, failed 500 "Logout failed")

  -- `logout`
  unfoldable pub logout : ℕ → Request → Site D.State R.State → Handled
  logout now req w =
      signed now req (remove_presented now (get_refresh_from_request e.omit_refresh req) w)
