-- ===== src/Auth/Guard/Laws.antt =====
-- What the guards let through, before and after a user's sessions are ended.
use routiq.Base.{
  Option-cases, ℕ, ◌+◌, ◌*◌, ◌==◌, ==_iff, String, Bool, true, false, not, Option, none, some, [],
  ◌∷◌, eq_iff, ◌≡◌, ◌≢◌, refl, sym, ap, ◌∙◌, subst, arith, if◌then◌else◌, inl, inr, ◌↔◌,
}
use routiq.Redis.{Redis}
use routiq.Users.{text_of, Row, number_of, assign, UserDb, IsUserDb}
use routiq.Users.Columns.{elem}
use routiq.Users.Document.{Document, read, resolve_fields, hydrate, loaded, find_by_id}
use routiq.Session.Invalidation.{ending, invalidate_all_sessions-row}
use routiq.Session.{Site, invalidate_all_sessions}
use routiq.Auth.{
  TokenPayload, Jwt, TokenConfig, of_kind, Request, bearer, present, access_payload,
  refresh_payload, generate_access_token, generate_refresh_token, verify_access_token, parse_expiry,
  parse_expiry_ms,
}
use routiq.Auth.Guard.{
  refused, passed, or_zero, token_version_stale, admit, admit_payload, admit_token, authenticate,
  attached, attach_fresh, attach_payload, attach_token, optional_auth, issue_csrf_cookie, issued,
  require_csrf,
}

-- The lifetime of the refresh cookie is that of the refresh token, where the setting has the form.
pub parse_expiry_ms-parse_expiry :
    (value : ℕ) (unit : String)
    → elem unit ("s" ∷ "m" ∷ "h" ∷ "d" ∷ []) ≡ true
    → parse_expiry_ms (some (value, unit)) ≡ parse_expiry (some (value, unit)) * 1000
unfolding parse_expiry_ms parse_expiry
parse_expiry_ms-parse_expiry value unit h = ground (arith)

if_not : {A : Type 0} (a b : A) (c : Bool) → (if not c then a else b) ≡ (if c then b else a)
if_not a b true = refl
if_not a b false = refl

module _ (jwt : Jwt) (config : TokenConfig) (D : UserDb) where
  attach_fresh-admit :
      (p : TokenPayload) (o : Option Document)
      → attach_fresh jwt config D p o ≡ attached jwt config D (admit p o)
  unfolding token_version_stale
  attach_fresh-admit p none = refl
  attach_fresh-admit p (some user) = ground (arith)

  attach_payload-admit :
      (o : Option TokenPayload) (s : D.State)
      → attach_payload jwt config D o s ≡ attached jwt config D (admit_payload jwt config D o s)
  attach_payload-admit none s = refl
  attach_payload-admit (some p) s = attach_fresh-admit p (find_by_id D p.user_id none s)

  attach_token-admit :
      (now : ℕ) (o : Option String) (s : D.State)
      → attach_token jwt config D now o s ≡ attached jwt config D (admit_token jwt config D now o s)
  attach_token-admit now none s = refl
  attach_token-admit now (some t) s = attach_payload-admit (verify_access_token jwt config now t) s

  -- `optionalAuth` attaches a user to a request exactly where `authenticate` would pass it, and the
  -- same one.
  pub optional_auth-authenticate :
      (now : ℕ) (req : Request) (s : D.State)
      → optional_auth jwt config D now req s
        ≡ attached jwt config D (authenticate jwt config D now req s)
  unfolding optional_auth authenticate
  optional_auth-authenticate now req s =
      attach_token-admit now (bearer (present req.authorization)) s

  -- What `authenticate` makes of a token that verifies, for a user that exists.
  authenticate-verified :
      (now : ℕ) (token : String) (p : TokenPayload) (req : Request) (s : D.State) (r : Row)
      → bearer (present req.authorization) ≡ some token
      → verify_access_token jwt config now token ≡ some p
      → D.row p.user_id s ≡ some r
      → authenticate jwt config D now req s ≡ (
          if or_zero p.tv == number_of (r "tokenVersion")
          then passed (hydrate (resolve_fields none) r)
          else refused 401 "Session expired — please sign in again")
  unfolding authenticate find_by_id token_version_stale resolve_fields
  authenticate-verified now token p req s r b v h =
      ap (λ o. admit_token jwt config D now o s) b
      ∙ ap (λ o. admit_payload jwt config D o s) v
      ∙ ap (λ o. admit p (loaded (resolve_fields none) o)) h
      ∙ if_not (refused 401 "Session expired — please sign in again")
          (passed (hydrate (resolve_fields none) r)) (or_zero p.tv == number_of (r "tokenVersion"))

  -- A request with an access token that was issued to a user that exists, and that verifies, passes
  -- with the user as stored if the user's version is the one it was issued with; otherwise it is
  -- refused.
  pub authenticate-generate_access_token :
      (now : ℕ) (user : Document) (jti : String) (req : Request) (s : D.State) (r : Row)
      → jwt.verify now config.access_secret (generate_access_token jwt config user jti)
        ≡ some (access_payload jwt config user jti)
      → bearer (present req.authorization) ≡ some (generate_access_token jwt config user jti)
      → D.row (text_of (read "id" user)) s ≡ some r
      → authenticate jwt config D now req s ≡ (
          if number_of (read "tokenVersion" user) == number_of (r "tokenVersion")
          then passed (hydrate (resolve_fields none) r)
          else refused 401 "Session expired — please sign in again")
  unfolding verify_access_token access_payload
  authenticate-generate_access_token now user jti req s r v b h =
      authenticate-verified now (generate_access_token jwt config user jti)
        (access_payload jwt config user jti) req s r b (ap (of_kind jwt config "access") v) h

  -- Where the library gives back no payload but the one that was signed, a refresh token is never
  -- accepted as an access token, whatever the two secrets are.
  pub verify_access_token-generate_refresh_token :
      (now : ℕ) (user : Document) (jti : String)
      → ((p : TokenPayload)
          → jwt.verify now config.access_secret (generate_refresh_token jwt config user jti)
            ≡ some p
          → p ≡ refresh_payload jwt config user jti)
      → verify_access_token jwt config now (generate_refresh_token jwt config user jti) ≡ none
  unfolding verify_access_token refresh_payload
  verify_access_token-generate_refresh_token now user jti h =
      elim (Option-cases
        (jwt.verify now config.access_secret (generate_refresh_token jwt config user jti))) [
          | inl q ↦ ap (of_kind jwt config "access") q
          | inr (p, q) ↦ ap (of_kind jwt config "access") (q ∙ ap some (h p q))
        ]

  -- Where no UPDATE is refused: a request whose access token verifies and has the version of its user,
  -- which exists, passes `authenticate`, and is refused once all sessions of that user were ended.
  pub ended_sessions_refused :
      (R : Redis) (show : ℕ → String) (hash_password : String → String) (now : ℕ) (token : String)
      (p : TokenPayload) (req : Request) (w : Site D.State R.State) (r : Row)
      → IsUserDb D
      → bearer (present req.authorization) ≡ some token
      → verify_access_token jwt config now token ≡ some p
      → D.row p.user_id w.db ≡ some r
      → or_zero p.tv ≡ number_of (r "tokenVersion")
      → (authenticate jwt config D now req w.db ≡ passed (hydrate (resolve_fields none) r))
        × (authenticate jwt config D now req
              (invalidate_all_sessions D R show hash_password p.user_id w).0.db
            ≡ refused 401 "Session expired — please sign in again")
  ended_sessions_refused R show hash_password now token p req w r law b v h same = (
    authenticate-verified now token p req w.db r b v h
        ∙ ground (arith, same, ==_iff (or_zero p.tv) (number_of (r "tokenVersion"))),
    authenticate-verified now token p req
          ((invalidate_all_sessions D R show hash_password p.user_id w).0.db)
          (assign (ending D law R show hash_password r) r) b v
          (invalidate_all_sessions-row D law R show hash_password p.user_id w r h)
        ∙ ground (arith, same, ==_iff (or_zero p.tv) (number_of (r "tokenVersion") + 1)),
  )

-- In cookie mode a request that has both passes `requireCsrf` exactly where its header repeats the
-- cookie and the cookie is not empty.
pub require_csrf-Passes_iff :
    (cookie header : String) (req : Request)
    → req.csrf_cookie ≡ some cookie
    → req.csrf_header ≡ some header
    → (require_csrf true req ≡ passed tt) ↔ ((cookie ≡ header) × (cookie ≢ ""))
unfolding require_csrf
require_csrf-Passes_iff cookie header req c h =
    rw (c, h)
      (
        λ e. ground (arith, e, eq_iff cookie header, eq_iff cookie "", eq_iff header ""),
        λ e. ground (arith, e.0, e.1, eq_iff cookie header, eq_iff cookie "", eq_iff header ""),
      )

present-IsPresent : (o : Option String) (s : String) → present o ≡ some s → s ≢ ""
present-IsPresent none s h = absurd (cc h)
present-IsPresent (some x) s h = ground (arith, h, eq_iff x "")

-- The token that is given out, whether the request had a cookie or not, is not empty.
issue_csrf_cookie-IsPresent :
    (random : String) (req : Request) → random ≢ "" → (issue_csrf_cookie random req).0 ≢ ""
unfolding issue_csrf_cookie
issue_csrf_cookie-IsPresent random req h = elim (Option-cases (present req.csrf_cookie)) [
  | inl q ↦ subst (λ o. (issued random o).0 ≢ "") (sym q) h
  | inr (s, q) ↦
      subst (λ o. (issued random o).0 ≢ "") (sym q) (present-IsPresent req.csrf_cookie s q)
]

-- Where the random token is not empty, a request that sends back what `issueCsrfCookie` gave out, as
-- cookie and as header, passes `requireCsrf`, in either mode.
pub csrf_round_trip :
    (omit_refresh : Bool) (random : String) (first next : Request)
    → random ≢ ""
    → next.csrf_cookie ≡ some ((issue_csrf_cookie random first).0)
    → next.csrf_header ≡ some ((issue_csrf_cookie random first).0)
    → require_csrf omit_refresh next ≡ passed tt
unfolding require_csrf
csrf_round_trip false random first next h c k = refl
csrf_round_trip true random first next h c k =
    (require_csrf-Passes_iff ((issue_csrf_cookie random first).0)
        ((issue_csrf_cookie random first).0) next c k).1
      (refl, issue_csrf_cookie-IsPresent random first h)
