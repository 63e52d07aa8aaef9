-- ===== src/Auth/Refresh/Laws.antt =====
-- Refreshing with a token that is kept, with one that is not, and twice with the same one.
use routiq.Base.{
  ℕ, ◌/◌, ◌+◌, String, true, false, Option, none, some, [], ◌≡◌, refl, sym, ap, ◌∙◌, subst, arith,
  if◌then◌else◌,
}
use routiq.Redis.{Redis}
use routiq.Codes.{Result, ok, thrown}
use routiq.Users.{text_of, Row, text, items_of, number_of, UserDb, IsUserDb}
use routiq.Users.Columns.{elem}
use routiq.Users.Document.{Document, read, hydrate, loaded, find_by_id}
use routiq.Session.{Site, rotate_session_tokens, invalidate_all_sessions}
use routiq.Session.Kept.{Keeps, exchanged}
use routiq.Session.Stored.{
  tracked, row_tokens, row_version, token_fields, find_stored_refresh_token-elem,
}
use routiq.Session.Capped.{elem-without}
use routiq.Session.Rotation.{rotate_session_tokens-Keeps}
use routiq.Session.Invalidation.{invalidate_all_sessions-ok, invalidate_all_sessions-row}
use routiq.Auth.{
  TokenPayload, Env, Request, Reply, failed, present, generate_access_token, generate_refresh_token,
  verify_access_token, verify_refresh_token,
}
use routiq.Auth.Revoke.{jti_of, revoke_access_token}
use routiq.Auth.Refresh.{
  get_refresh_from_request, session_of, ended, rotated, revoke_verified, revoke_prior,
  refresh_known, refresh_user, refresh_verified, refresh_presented, refresh_access_token,
}

module _ (e : Env) (D : UserDb) (law : IsUserDb D) (R : Redis) where
  revoke_access_token-db :
      (now : ℕ) (token : String) (w : Site D.State R.State)
      → (revoke_access_token e now token w).db ≡ w.db
  unfolding revoke_access_token
  revoke_access_token-db now token w = ground (arith)

  revoke_verified-db :
      (now : ℕ) (token : String) (o : Option TokenPayload) (w : Site D.State R.State)
      → (revoke_verified e D R now token o w).db ≡ w.db
  revoke_verified-db now token none w = refl
  revoke_verified-db now token (some p) w = revoke_access_token-db (now / 1000) token w

  -- Revoking an access token leaves the table as it is.
  pub revoke_prior-db :
      (now : ℕ) (token : Option String) (w : Site D.State R.State)
      → (revoke_prior e D R now token w).db ≡ w.db
  revoke_prior-db now none w = refl
  revoke_prior-db now (some token) w =
      revoke_verified-db now token (verify_access_token e.jwt e.config now token) w

  -- A refresh token in a request, that verifies, of a user that exists.
  pub record IsPresented (now : ℕ) (req : Request) (token id : String) (r : Row)
      (w : Site D.State R.State) : Type 0 where
    pub payload : TokenPayload
    pub carried : get_refresh_from_request e.omit_refresh req ≡ some token
    pub verified : verify_refresh_token e.jwt e.config now token ≡ some payload
    pub of_user : payload.user_id ≡ id
    pub at_row : D.row id w.db ≡ some r
    pub row_id : r "id" ≡ text id

  abbrev pub user_of : Row → Document
  user_of r = hydrate token_fields r

  refresh_presented-known :
      (now : ℕ) (access_jti refresh_jti : String) (req : Request) (token id : String) (r : Row)
      (w : Site D.State R.State)
      → IsPresented now req token id r w
      → refresh_access_token e D R now access_jti refresh_jti req w
        ≡ refresh_known e D R now access_jti refresh_jti req token
            (user_of r)
            (if elem (e.hash_token token) (items_of (r "refreshTokens"))
              then some (e.hash_token token)
              else none)
            w
  unfolding refresh_access_token find_by_id token_fields
  refresh_presented-known now access_jti refresh_jti req token id r w h =
      ap (λ o. refresh_presented e D R now access_jti refresh_jti req o w) h.carried
      ∙ ap (λ o. refresh_verified e D R now access_jti refresh_jti req token o w) h.verified
      ∙ ap
          (λ i.
            refresh_user e D R now access_jti refresh_jti req token
              (loaded token_fields (D.row i w.db)) w)
          h.of_user
      ∙ ap (λ o. refresh_user e D R now access_jti refresh_jti req token (loaded token_fields o) w)
          h.at_row
      ∙ ap (λ o. refresh_known e D R now access_jti refresh_jti req token (user_of r) o w)
          (find_stored_refresh_token-elem D R e.show e.hash_token (items_of (r "refreshTokens"))
            token)

  ended-ok :
      (x : Site D.State R.State × Result (Unit {0}))
      → x.1 ≡ ok tt
      → ended e D R x ≡ (x.0, failed 401 "Session invalidated — please sign in again")
  ended-ok (w, ok done) h = refl
  ended-ok (w, thrown message) h = absurd (cc h)

  rotated-ok :
      (user : Document) (access refresh : String) (x : Site D.State R.State × Result _)
      → x.1 ≡ ok true
      → rotated e D R user access refresh x ≡ (x.0, session_of e D R access refresh)
  rotated-ok user access refresh (w, ok true) h = refl
  rotated-ok user access refresh (w, ok false) h = absurd (cc h)
  rotated-ok user access refresh (w, thrown message) h = absurd (cc h)

  -- A token that verifies but is not kept ends all sessions of its user.
  pub refresh_reuse :
      (now : ℕ) (access_jti refresh_jti : String) (req : Request) (token id : String) (r : Row)
      (w : Site D.State R.State)
      → IsPresented now req token id r w
      → elem (e.hash_token token) (items_of (r "refreshTokens")) ≡ false
      → refresh_access_token e D R now access_jti refresh_jti req w ≡ (
        (invalidate_all_sessions D R e.show e.hash_password id w).0,
        failed 401 "Session invalidated — please sign in again",
      )
  unfolding token_fields
  refresh_reuse now access_jti refresh_jti req token id r w h k =
      refresh_presented-known now access_jti refresh_jti req token id r w h
      ∙ ap
          (λ b.
            refresh_known e D R now access_jti refresh_jti req token (user_of r)
              (if b then some (e.hash_token token) else none) w)
          k
      ∙ ap (λ v. ended e D R (invalidate_all_sessions D R e.show e.hash_password (text_of v) w))
          h.row_id
      ∙ ended-ok (invalidate_all_sessions D R e.show e.hash_password id w)
          (invalidate_all_sessions-ok D law R e.show e.hash_password id w r h.at_row)

  -- The tokens that a refresh hands out.
  abbrev pub new_access : Row → String → String
  new_access r access_jti = generate_access_token e.jwt e.config (user_of r) access_jti

  abbrev pub new_refresh : Row → String → String
  new_refresh r refresh_jti = generate_refresh_token e.jwt e.config (user_of r) refresh_jti

  -- Where no UPDATE is refused: a refresh with a token that verifies and is kept, of a user that exists,
  -- answers with a new access
  -- token and a new refresh token; the row then keeps the new one in place of the old one, and tracks
  -- the id of the access token.
  pub refresh_grants :
      (now : ℕ) (access_jti refresh_jti : String) (req : Request) (token id : String) (r : Row)
      (w : Site D.State R.State)
      → IsPresented now req token id r w
      → elem (e.hash_token token) (items_of (r "refreshTokens")) ≡ true
      → ((refresh_access_token e D R now access_jti refresh_jti req w).1
          ≡ session_of e D R (new_access r access_jti) (new_refresh r refresh_jti))
        × Keeps
            (exchanged
              (e.hash_token token)
              (e.hash_token (new_refresh r refresh_jti))
              (items_of (r "refreshTokens")))
            (tracked (jti_of e (new_access r access_jti)) (items_of (r "activeAccessJtis")))
            (text id)
            (D.row id (refresh_access_token e D R now access_jti refresh_jti req w).0.db)
  unfolding token_fields
  refresh_grants now access_jti refresh_jti req token id r w h k =
      let access : String = new_access r access_jti in
      let refresh : String = new_refresh r refresh_jti in
      let w' : Site D.State R.State = revoke_prior e D R now (present req.body_access) w in
      let version : Option ℕ = some (number_of (read "tokenVersion" (user_of r))) in
      let (kept, done) =
        rotate_session_tokens-Keeps D law R e.show e.hash_token (jti_of e) id token access refresh
          version w' r (ap (D.row id) (revoke_prior-db now (present req.body_access) w) ∙ h.at_row)
          k in
      let x =
        rotate_session_tokens D R e.show e.hash_token (jti_of e) id token access refresh version
          w' in
      let same : refresh_access_token e D R now access_jti refresh_jti req w
          ≡ (x.0, session_of e D R access refresh) =
        refresh_presented-known now access_jti refresh_jti req token id r w h
        ∙ ap
            (λ b.
              refresh_known e D R now access_jti refresh_jti req token (user_of r)
                (if b then some (e.hash_token token) else none) w)
            k
        ∙ ap
            (λ v. rotated e D R (user_of r) access refresh (
              rotate_session_tokens D R e.show e.hash_token (jti_of e) (text_of v) token access
                refresh version w'))
            h.row_id
        ∙ rotated-ok (user_of r) access refresh x done in
      subst
        (λ y.
          (y.1 ≡ session_of e D R access refresh)
          × Keeps
              (exchanged (e.hash_token token) (e.hash_token refresh) (items_of (r "refreshTokens")))
              (tracked (jti_of e access) (items_of (r "activeAccessJtis"))) (text id)
              (D.row id y.0.db))
        (sym same)
        (
          refl,
          subst
              (λ i.
                Keeps
                  (exchanged (e.hash_token token) (e.hash_token refresh)
                    (items_of (r "refreshTokens")))
                  (tracked (jti_of e access) (items_of (r "activeAccessJtis"))) i (D.row id x.0.db))
              h.row_id kept,
        )

  -- Where no UPDATE is refused: a refresh with a token that verifies and is kept, made a second time while the token still
  -- verifies, is granted first and then refused, and ends all sessions of the user: no refresh token
  -- is kept then, that of the first answer included, and the user's version has gone up by one.
  pub replayed_refresh :
      (now later : ℕ) (access_jti refresh_jti access_jti' refresh_jti' : String) (req : Request)
      (token id : String) (r : Row) (w : Site D.State R.State)
      (h : IsPresented now req token id r w)
      → elem (e.hash_token token) (items_of (r "refreshTokens")) ≡ true
      → verify_refresh_token e.jwt e.config later token ≡ some h.payload
      → let first : Site D.State R.State × Reply =
          refresh_access_token e D R now access_jti refresh_jti req w in
        let second : Site D.State R.State × Reply =
          refresh_access_token e D R later access_jti' refresh_jti' req first.0 in
        (first.1 ≡ session_of e D R (new_access r access_jti) (new_refresh r refresh_jti))
        × (second.1 ≡ failed 401 "Session invalidated — please sign in again")
        × (row_tokens (D.row id second.0.db) ≡ [])
        × (row_version (D.row id second.0.db) ≡ row_version (D.row id first.0.db) + 1)
  replayed_refresh now later access_jti refresh_jti access_jti' refresh_jti' req token id r w h k
        v =
      let (granted, (r', at_row, tokens, jtis, same_id)) =
        refresh_grants now access_jti refresh_jti req token id r w h k in
      let w1 : Site D.State R.State =
        (refresh_access_token e D R now access_jti refresh_jti req w).0 in
      let again : IsPresented later req token id r' w1 = record {
        payload = h.payload;
        carried = h.carried;
        verified = v;
        of_user = h.of_user;
        at_row = at_row;
        row_id = same_id;
      } in
      let spent : elem (e.hash_token token) (items_of (r' "refreshTokens")) ≡ false =
        ap (elem (e.hash_token token)) tokens ∙ elem-without (e.hash_token token) _ in
      let reuse = refresh_reuse later access_jti' refresh_jti' req token id r' w1 again spent in
      let row =
        ap (λ x. D.row id x.0.db) reuse
        ∙ invalidate_all_sessions-row D law R e.show e.hash_password id w1 r' at_row in
      (
        granted,
        ap (λ x. x.1) reuse,
        ap row_tokens row,
        ap row_version row ∙ ap (λ o. row_version o + 1) (sym at_row),
      )
