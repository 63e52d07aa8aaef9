-- ===== src/Auth/Oauth.antt =====
-- `prepareOAuth`, `handleOAuthSuccess` and `exchangeOAuthCode` of
-- uam-backend/src/controllers/auth.controller.ts over the codes of Codes/Pkce and Codes/Exchange. The
-- two services share one Redis and have a map of the process each.
mod Tests
pub mod Laws
use Prim.Native.String
use routiq.Base.{ℕ, String, Bool, true, false, ◌||◌, Option, none, some, str_eq, if◌then◌else◌}
use routiq.Base.Dict.{Dict}
use routiq.Redis.{Redis}
use routiq.Codes.{Entry, Result, ok, thrown, World, Codec}
use routiq.Codes.Exchange.{
  TokenPair, ExchangeRecord, create_oauth_exchange_code, consume_oauth_exchange_code,
}
use routiq.Codes.Pkce.{
  StateRecord, create_oauth_state, consume_oauth_state, peek_oauth_state_redirect_uri,
}
use routiq.Users.{UserDb, number_of, text_of}
use routiq.Users.Document.{Document, read}
use routiq.Session.{Site, persist_session_tokens}
use routiq.Auth.{Env, Reply, failed, generate_access_token, generate_refresh_token, present}
use routiq.Auth.Revoke.{jti_of}
use routiq.Auth.Refresh.{session_of}

-- The users and Redis, and the maps of states and of codes.
pub record Flow (S T : Type 0) : Type 0 where
  pub site : Site S T
  pub states : Dict (Entry StateRecord)
  pub codes : Dict (Entry ExchangeRecord)

-- What the services of states and of codes see of it.
abbrev pub state_world : {S T : Type 0} → Flow S T → World T StateRecord
state_world w = record { redis = w.site.redis; memory = w.states }

abbrev pub code_world : {S T : Type 0} → Flow S T → World T ExchangeRecord
code_world w = record { redis = w.site.redis; memory = w.codes }

abbrev pub put_states : {S T : Type 0} → World T StateRecord → Flow S T → Flow S T
put_states x w = record w { site = record w.site { redis = x.redis }; states = x.memory }

abbrev pub put_codes : {S T : Type 0} → World T ExchangeRecord → Flow S T → Flow S T
put_codes x w = record w { site = record w.site { redis = x.redis }; codes = x.memory }

-- The random texts of a call and what the configuration says of the callback.
pub record OauthEnv : Type 0 where
  pub now : ℕ
  pub production : Bool
  pub state : String
  pub code : String
  pub access_jti : String
  pub refresh_jti : String
  pub client_url : String
  pub encode_uri : String → String
  pub resolve : String → Option String

module _ (e : Env) (D : UserDb) (R : Redis) (states : Codec StateRecord)
    (codes : Codec ExchangeRecord) (digest : String → String) where
  abbrev pub State : Type 0
  State = Flow D.State R.State

  abbrev pub prepared : State → World R.State StateRecord × Result String → State × Result String
  prepared w (x, result) = (put_states x w, result)

  -- the redirect that is asked for: none where there is none, thrown where it is not allowed
  abbrev pub resolved : OauthEnv → Option String → Result (Option String)
  resolved o none = ok none
  resolved o (some uri) = elim (o.resolve uri) [
    | none ↦ thrown "redirectUri is not allowed"
    | some allowed ↦ ok (some allowed)
  ]

  abbrev pub prepare_with :
      OauthEnv → String → Result (Option String) → State → State × Result String
  prepare_with o challenge (thrown message) w = (w, thrown message)
  prepare_with o challenge (ok redirect) w =
      prepared w
        (create_oauth_state R states o.production o.now o.state challenge redirect (state_world w))

  -- `prepareOAuth`: the state, or what the answer says went wrong
  unfoldable pub prepare_oauth :
      OauthEnv → Option String → Option String → State → State × Result String
  unfolding create_oauth_state
  prepare_oauth o challenge redirect w = elim (present challenge) [
    | none ↦ (w, thrown "codeChallenge is required")
    | some c ↦ prepare_with o c (resolved o redirect) w
  ]

  abbrev pub login_failed : OauthEnv → String
  login_failed o = String.◌++◌ o.client_url "/login?error=oauth_failed"

  abbrev pub callback : OauthEnv → Option String → String
  callback o none = String.◌++◌ o.client_url "/oauth-callback"
  callback o (some uri) = if str_eq uri "" then String.◌++◌ o.client_url "/oauth-callback" else uri

  -- `${clientCallback}?code=${code}&state=${encodeURIComponent(state)}`
  abbrev pub redirect_url : OauthEnv → String → String → String → String
  redirect_url o target code state =
      String.◌++◌ target
        (String.◌++◌ "?code=" (String.◌++◌ code (String.◌++◌ "&state=" (o.encode_uri state))))

  abbrev pub peeked :
      OauthEnv
      → String
      → String
      → State
      → World R.State StateRecord × Option String
      → State × String
  peeked o code state w (x, uri) = (put_states x w, redirect_url o (callback o uri) code state)

  abbrev pub code_created :
      OauthEnv → String → State → World R.State ExchangeRecord × Result String → State × String
  code_created o state w (x, thrown message) = (put_codes x w, login_failed o)
  code_created o state w (x, ok code) =
      let w' : State = put_codes x w in
      peeked o code state w' (peek_oauth_state_redirect_uri R states o.now state (state_world w'))

  abbrev pub session_stored :
      OauthEnv
      → String
      → String
      → String
      → State
      → Site D.State R.State × Result (Unit {0})
      → State × String
  session_stored o access refresh state w (site, thrown message) =
      (record w { site = site }, login_failed o)
  session_stored o access refresh state w (site, ok stored) =
      let w' : State = record w { site = site } in
      code_created o state w' (
        create_oauth_exchange_code R codes o.production o.now o.code access refresh state
          (code_world w'))

  -- `handleOAuthSuccess`: where the browser is sent
  unfoldable pub handle_oauth_success : OauthEnv → Option Document → String → State → State × String
  unfolding create_oauth_exchange_code peek_oauth_state_redirect_uri
  handle_oauth_success o none state w = (w, login_failed o)
  handle_oauth_success o (some user) state w =
      let access : String = generate_access_token e.jwt e.config user o.access_jti in
      let refresh : String = generate_refresh_token e.jwt e.config user o.refresh_jti in
      if str_eq state ""
      then (w, login_failed o)
      else session_stored o access refresh state w (
          persist_session_tokens D R e.show e.hash_token (jti_of e) (text_of (read "id" user))
            access refresh (some (number_of (read "tokenVersion" user))) w.site)

  abbrev pub exchanged : Option TokenPair → Reply
  exchanged none = failed 400 "Invalid or expired OAuth code"
  exchanged (some t) = session_of e D R t.access_token t.refresh_token

  abbrev pub code_consumed : State → World R.State ExchangeRecord × Option TokenPair → State × Reply
  code_consumed w (x, tokens) = (put_codes x w, exchanged tokens)

  abbrev pub state_consumed :
      ℕ → String → String → State → World R.State StateRecord × Bool → State × Reply
  state_consumed now code state w (x, false) =
      (put_states x w, failed 400 "Invalid OAuth state or PKCE verifier")
  state_consumed now code state w (x, true) =
      let w' : State = put_states x w in
      code_consumed w' (consume_oauth_exchange_code R codes now code state (code_world w'))

  -- `exchangeOAuthCode`
  unfoldable pub exchange_oauth_code : ℕ → String → String → String → State → State × Reply
  unfolding consume_oauth_state consume_oauth_exchange_code
  exchange_oauth_code now code state verifier w =
      if str_eq code "" || str_eq state "" || str_eq verifier ""
      then (w, failed 400 "OAuth code, state, and codeVerifier are required")
      else state_consumed now code state w
          (consume_oauth_state R states digest now state verifier (state_world w))
