-- ===== src/Auth/Login/Replies.antt =====
-- What the answer to a login tells of an account.
use routiq.Base.{String, false, none, some, List, [], ◌≡◌, refl, ap, ◌∙◌}
use routiq.Redis.{Redis}
use routiq.Users.{Row, UserDb}
use routiq.Users.Document.{read, hydrate, find_by_id, loaded, resolve_fields}
use routiq.Identity.{IndexDb, Keys, is_text}
use routiq.Identity.Resolve.{Resolved, resolve_email_identity}
use routiq.Auth.{Env, failed, failed_with}
use routiq.Auth.Login.{
  LoginInput, LoginEnv, State, login_fields, with_pending, with_alias, with_password, with_user,
  with_identity, is_expired_alias, login,
}

alias-provider :
    (e : Env) (l : LoginEnv) (D : UserDb) (R : Redis) (X : IndexDb) (K : Keys)
    (lower password : String) (fields : List String) (u : Row) (w : State e l D R X K)
    → is_text lower (read "newEmailPending" (hydrate fields u)) ≡ false
    → is_text lower (read "previousEmail" (hydrate fields u)) ≡ false
    → is_text "local" (read "provider" (hydrate fields u)) ≡ false
    → with_pending e l D R X K lower password (hydrate fields u) w
      ≡ (w, failed_with 401 "Invalid email or password" "AUTH_FAILED")
alias-provider e l D R X K lower password fields u w pending previous provider =
    rw (with_pending, with_alias, with_password, is_expired_alias, pending, previous, provider) refl

-- Whatever the passwords, an address without an account and one with an account of an OAuth provider,
-- which is neither its pending nor its previous address, are answered differently: by status 401
-- without a code, and by 401 with the code AUTH_FAILED. Nothing is stored.
pub login_reveals_provider :
    (e : Env) (l : LoginEnv) (D : UserDb) (R : Redis) (X : IndexDb) (K : Keys)
    (unknown known : LoginInput) (r : Resolved) (u : Row) (w : State e l D R X K)
    → resolve_email_identity X K l.now (K.lower unknown.email) w.index ≡ none
    → resolve_email_identity X K l.now (K.lower known.email) w.index ≡ some r
    → D.row r.user_id w.site.db ≡ some u
    → is_text (K.lower known.email) (u "newEmailPending") ≡ false
    → is_text (K.lower known.email) (u "previousEmail") ≡ false
    → is_text "local" (u "provider") ≡ false
    → (login e l D R X K unknown w ≡ (w, failed 401 "Invalid email or password"))
      × (login e l D R X K known w ≡ (w, failed_with 401 "Invalid email or password" "AUTH_FAILED"))
unfolding login find_by_id resolve_fields
login_reveals_provider e l D R X K unknown known r u w absent found row pending previous provider =
    let lower : String = K.lower known.email in
    let fields = resolve_fields (some (record { additive = login_fields; inclusion = [] })) in
    (
      ap (λ o. with_identity e l D R X K (K.lower unknown.email) unknown.password o w) absent,
      ap (λ o. with_identity e l D R X K lower known.password o w) found
          ∙ ap (λ o. with_user e l D R X K lower known.password (loaded fields o) w) row
          ∙ alias-provider e l D R X K lower known.password fields u w pending previous provider,
    )
