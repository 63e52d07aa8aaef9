-- ===== src/Auth/Login/Laws.antt =====
-- What a login never writes.
use routiq.Base.{
  String, Bool, true, false, ◌&&◌, not, Option, none, some, List, [], ◌∷◌, ◌≡◌, refl, ◌∙◌, subst,
  if◌then◌else◌, if_both,
}
use routiq.Redis.{Redis}
use routiq.Codes.{Result, ok, thrown}
use routiq.Users.{text, Row, UserDb, IsTable, truthy, number_of, text_of}
use routiq.Users.Columns.{elem}
use routiq.Users.Update.{Updated, updated}
use routiq.Users.Document.{Document, read, put, find_by_id, save, loaded, resolve_fields}
use routiq.Users.Document.Laws.{Keeps, save-Keeps}
use routiq.Session.{Site, persist_session_tokens}
use routiq.Identity.{IndexDb, Keys, is_text}
use routiq.Identity.Resolve.{Resolved, resolve_email_identity}
use routiq.Auth.{Env, Reply, failed, failed_with, generate_access_token, generate_refresh_token}
use routiq.Auth.Refresh.{session_of}
use routiq.Auth.Revoke.{jti_of}
use routiq.Auth.Login.{
  fresh_fields, login_fields, is_expired_alias, LoginInput, LoginEnv, finalized, count_login, State,
  Handled, rehashed, rehash, compare_password, answered, persisted, start_session, counted, matched,
  with_password, with_alias, finalize_saved, after_finalize, with_pending, with_user, with_identity,
  login,
}
use routiq.Session.Fields.{persist_session_tokens-Keeps}
use routiq.Auth.Login.Touched.{
  touched, included, included-free, Untouched, elem-mark, reloaded-Untouched, finalized-Untouched,
  some-injective,
}

module _ (e : Env) (l : LoginEnv) (D : UserDb) (law : IsTable D) (R : Redis) (X : IndexDb)
    (K : Keys) (f : String) (free : elem f touched ≡ false) where
  -- The field is the same in every row.
  abbrev Same : State e l D R X K → State e l D R X K → Type 0
  Same w w' = Keeps D f w.site.db w'.site.db

  Same-refl : (w : State e l D R X K) → Same w w
  Same-refl w id = refl

  Same-trans : (a b c : State e l D R X K) → Same a b → Same b c → Same a c
  Same-trans a b c h k id = k id ∙ h id

  -- That a field is none of the lists is found by what it is not.
  free_of : (xs : List String) → included xs touched ≡ true → elem f xs ≡ false
  free_of xs h = included-free f xs touched h free

  save-Same :
      (id : String) (user : Document) (w : State e l D R X K)
      → Untouched f user
      → Keeps D f w.site.db (save D e.hash_password id user w.site.db).0
  save-Same id user w u =
      save-Keeps D law e.hash_password f id user w.site.db u
        (free_of ("refreshTokens" ∷ "activeAccessJtis" ∷ "migrationHistory" ∷ []) refl)

  rehashed-Same :
      (user : Document) (w : State e l D R X K) (x : D.State × Updated)
      → Keeps D f w.site.db x.0
      → Same w (rehashed e l D R X K user w x).0
  rehashed-Same user w (s, Updated.thrown) k = k
  rehashed-Same user w (s, updated r) k = k

  rehash-Same :
      (b : Bool) (password : String) (user : Document) (w : State e l D R X K)
      → Untouched f user
      → Same w (rehash e l D R X K b password user w).0
  rehash-Same false password user w u = Same-refl w
  rehash-Same true password user w u =
      let user' : Document = put "password" (text password) user in
      rehashed-Same user' w (save D e.hash_password (text_of (read "id" user)) user' w.site.db) (
        save-Same (text_of (read "id" user)) user' w
          (elem-mark f "password" user.modified free refl u))

  compare_password-Same :
      (password : String) (user : Document) (w : State e l D R X K)
      → Untouched f user
      → Same w (compare_password e l D R X K password user w).0.0
  unfolding compare_password
  compare_password-Same password user w u =
      let verdict = l.verify_password password (text_of (read "password" user)) in
      if_both (λ (x : (State e l D R X K × Document) × Bool). Same w x.0.0)
        (not (truthy (read "password" user))) ((w, user), false)
        (rehash e l D R X K (verdict.0 && verdict.1) password user w, verdict.0) (Same-refl w)
        (rehash-Same (verdict.0 && verdict.1) password user w u)

  answered-Same :
      (o : Option Document) (reply : Reply) (w : State e l D R X K)
      → Same w (answered e l D R X K o reply w).0
  answered-Same none reply w = Same-refl w
  answered-Same (some fresh) reply w = Same-refl w

  persisted-Same :
      (id : String) (reply : Reply) (w : State e l D R X K)
      (x : Site D.State R.State × Result (Unit {0}))
      → Keeps D f w.site.db x.0.db
      → Same w (persisted e l D R X K id reply w x).0
  persisted-Same id reply w (site, thrown message) k = k
  persisted-Same id reply w (site, ok done) k =
      let fresh : Option Document =
        find_by_id D id (some (record { additive = fresh_fields; inclusion = [] })) site.db in
      Same-trans w (record w { site = site })
        (answered e l D R X K fresh reply (record w { site = site })).0 k
        (answered-Same fresh reply (record w { site = site }))

  start_session-Same :
      (user : Document) (w : State e l D R X K) → Same w (start_session e l D R X K user w).0
  start_session-Same user w =
      let id : String = text_of (read "id" user) in
      let access : String = generate_access_token e.jwt e.config user l.access_jti in
      let refresh : String = generate_refresh_token e.jwt e.config user l.refresh_jti in
      persisted-Same id (session_of e D R access refresh) w
        (persist_session_tokens D R e.show e.hash_token (jti_of e) id access refresh
          (some (number_of (read "tokenVersion" user))) w.site)
        (persist_session_tokens-Keeps D law R e.show e.hash_token (jti_of e) f id access refresh
          (some (number_of (read "tokenVersion" user))) w.site
          (free_of ("refreshTokens" ∷ "activeAccessJtis" ∷ []) refl))

  counted-Same : (o : Option Document) (w : State e l D R X K) → Same w (counted e l D R X K o w).0
  counted-Same none w = Same-refl w
  counted-Same (some user) w = start_session-Same user w

  matched-Same : (x : (State e l D R X K × Document) × Bool) → Same x.0.0 (matched e l D R X K x).0
  matched-Same ((w, user), false) = Same-refl w
  matched-Same ((w, user), true) =
      if_both (λ x. Same w x.0) (not (truthy (read "isEmailVerified" user)))
        (w, failed_with 401 "Invalid email or password" "AUTH_FAILED")
        (counted e l D R X K (count_login l user) w) (Same-refl w)
        (counted-Same (count_login l user) w)

  with_password-Same :
      (password : String) (user : Document) (w : State e l D R X K)
      → Untouched f user
      → Same w (with_password e l D R X K password user w).0
  with_password-Same password user w u =
      let x = compare_password e l D R X K password user w in
      if_both (λ y. Same w y.0) (not (is_text "local" (read "provider" user)))
        (w, failed_with 401 "Invalid email or password" "AUTH_FAILED") (matched e l D R X K x)
        (Same-refl w)
        (Same-trans w x.0.0 (matched e l D R X K x).0 (compare_password-Same password user w u)
          (matched-Same x))

  with_alias-Same :
      (lower password : String) (user : Document) (w : State e l D R X K)
      → Untouched f user
      → Same w (with_alias e l D R X K lower password user w).0
  with_alias-Same lower password user w u =
      if_both (λ y. Same w y.0) (is_expired_alias l.now lower user)
        (
          w,
          failed 403
              "This email is no longer valid for this account. Please use your new email address.",
        )
        (with_password e l D R X K password user w) (Same-refl w)
        (with_password-Same password user w u)

  after_finalize-Same :
      (lower password : String) (x : (State e l D R X K × Document) × Result (Unit {0}))
      → Untouched f x.0.1
      → Same x.0.0 (after_finalize e l D R X K lower password x).0
  after_finalize-Same lower password ((w, user), thrown message) u = Same-refl w
  after_finalize-Same lower password ((w, user), ok done) u =
      with_alias-Same lower password user w u

  finalize_saved-Same :
      (user : Document) (w : State e l D R X K) (x : D.State × Updated)
      → Untouched f user
      → Keeps D f w.site.db x.0
      → Same w (finalize_saved e l D R X K user w x).0.0
        × Untouched f (finalize_saved e l D R X K user w x).0.1
  finalize_saved-Same user w (s, Updated.thrown) u k = (k, u)
  finalize_saved-Same user w (s, updated r) u k = (k, reloaded-Untouched f user r)

  with_pending-Same :
      (lower password : String) (user : Document) (w : State e l D R X K)
      → Untouched f user
      → Same w (with_pending e l D R X K lower password user w).0
  with_pending-Same lower password user w u =
      let user' : Document = finalized l.now user in
      let id : String = text_of (read "id" user) in
      let x = save D e.hash_password id user' w.site.db in
      let y = finalize_saved e l D R X K user' w x in
      let u' : Untouched f user' = finalized-Untouched f l.now user free u in
      let (k, v) = finalize_saved-Same user' w x u' (save-Same id user' w u') in
      let both : Bool =
        truthy (read "currentEmailVerified" user) && truthy (read "newEmailVerified" user) in
      let invalid : Handled e l D R X K =
        if not (truthy (read "newEmailPending" user))
        then (w, failed 500 "Migration state invalid")
        else after_finalize e l D R X K lower password y in
      let unverified : Handled e l D R X K =
        if not both
        then (
          w,
          failed 403 "Please verify both email addresses before logging in with the new email.",
        )
        else invalid in
      if_both (λ (z : Handled e l D R X K). Same w z.0)
        (not (is_text lower (read "newEmailPending" user)))
        (with_alias e l D R X K lower password user w) unverified
        (with_alias-Same lower password user w u)
        (if_both (λ (z : Handled e l D R X K). Same w z.0) (not both)
          (w, failed 403 "Please verify both email addresses before logging in with the new email.")
          invalid (Same-refl w)
          (if_both (λ (z : Handled e l D R X K). Same w z.0)
            (not (truthy (read "newEmailPending" user))) (w, failed 500 "Migration state invalid")
            (after_finalize e l D R X K lower password y) (Same-refl w)
            (Same-trans w y.0.0 (after_finalize e l D R X K lower password y).0 k
              (after_finalize-Same lower password y v))))

  with_user-Same :
      (lower password : String) (o : Option Document) (w : State e l D R X K)
      → ((user : Document) → o ≡ some user → Untouched f user)
      → Same w (with_user e l D R X K lower password o w).0
  with_user-Same lower password none w u = Same-refl w
  with_user-Same lower password (some user) w u =
      with_pending-Same lower password user w (u user refl)

  loaded-Untouched :
      (fields : List String) (o : Option Row) (user : Document)
      → loaded fields o ≡ some user
      → Untouched f user
  loaded-Untouched fields none user h = absurd (cc h)
  loaded-Untouched fields (some r) user h = subst (Untouched f) (some-injective h) refl

  with_identity-Same :
      (lower password : String) (o : Option Resolved) (w : State e l D R X K)
      → Same w (with_identity e l D R X K lower password o w).0
  unfolding find_by_id
  with_identity-Same lower password none w = Same-refl w
  with_identity-Same lower password (some r) w =
      with_user-Same lower password
        (find_by_id D r.user_id (some (record { additive = login_fields; inclusion = [] }))
          w.site.db)
        w
        (loaded-Untouched
          (resolve_fields (some (record { additive = login_fields; inclusion = [] })))
          (D.row r.user_id w.site.db))

  login-Same : (input : LoginInput) (w : State e l D R X K) → Same w (login e l D R X K input w).0
  unfolding login
  login-Same input w =
      with_identity-Same (K.lower input.email) input.password
        (resolve_email_identity X K l.now (K.lower input.email) w.index) w

-- No login, whatever its outcome, stores the count of the day's logins or the time of the last one,
-- for any user.
pub login_never_counts :
    (e : Env) (l : LoginEnv) (D : UserDb) (R : Redis) (X : IndexDb) (K : Keys) (input : LoginInput)
    (w : State e l D R X K)
    → IsTable D
    → Keeps D "loginCount" w.site.db (login e l D R X K input w).0.site.db
      × Keeps D "lastLogin" w.site.db (login e l D R X K input w).0.site.db
login_never_counts e l D R X K input w law = (
  login-Same e l D law R X K "loginCount" refl input w,
  login-Same e l D law R X K "lastLogin" refl input w,
)
