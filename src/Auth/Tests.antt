-- ===== src/Auth/Tests.antt =====
-- The theorems on guards and handlers at inputs that meet their hypotheses.
use Prim.Native.String
use routiq.Base.{◌+◌, ◌==◌, none, some, [], ◌≡◌, refl, sym, ap, if◌then◌else◌}
use routiq.Users.{text, number_of, items_of}
use routiq.Users.Document.{read, hydrate, resolve_fields}
use routiq.Users.Sample.{table, table-IsUserDb, users, ann}
use routiq.Session.{Site, invalidate_all_sessions}
use routiq.Session.Stored.{row_tokens, row_version, tracked}
use routiq.Session.Kept
use routiq.Session.Kept.{exchanged}
use routiq.Auth.{
  Request, Reply, failed, access_payload, refresh_payload, generate_access_token,
  generate_refresh_token, verify_access_token, verify_refresh_token,
}
use routiq.Auth.Guard.{refused, passed, authenticate, attached, optional_auth}
use routiq.Auth.Guard.Laws.{
  optional_auth-authenticate, authenticate-generate_access_token,
  verify_access_token-generate_refresh_token, ended_sessions_refused,
}
use routiq.Auth.Revoke.{jti_of}
use routiq.Auth.Refresh.{get_refresh_from_request, session_of, refresh_access_token}
use routiq.Auth.Refresh.Laws.{
  IsPresented, new_access, new_refresh, refresh_grants, replayed_refresh,
}
use routiq.Auth.Sample.{config, user, access_claims, refresh_claims, jwt, no_redis, site, env}

abbrev plain : Request
plain = record {
  authorization = none;
  csrf_header = none;
  csrf_cookie = none;
  refresh_cookie = none;
  body_refresh = none;
  body_access = none;
}

abbrev with_access : Request
with_access = record plain { authorization = some "Bearer access" }

optional_auth-authenticate_example :
    optional_auth jwt config table 1 with_access users
    ≡ attached jwt config table (authenticate jwt config table 1 with_access users)
optional_auth-authenticate_example = optional_auth-authenticate jwt config table 1 with_access users

authenticate-generate_access_token_example : authenticate jwt config table 1 with_access users ≡ (
    if number_of (read "tokenVersion" user) == number_of (ann "tokenVersion")
    then passed (hydrate (resolve_fields none) ann)
    else refused 401 "Session expired — please sign in again")
unfolding generate_access_token access_payload
authenticate-generate_access_token_example =
    authenticate-generate_access_token jwt config table 1 user "j" with_access users ann refl refl
      refl

some-injective : {A : Type 0} {a b : A} → some a ≡ some b → a ≡ b
some-injective {A} {a} {b} h = ap (λ o. elim o [ none ↦ a | some x ↦ x ]) h

verify_access_token-generate_refresh_token_example :
    verify_access_token jwt config 1 (generate_refresh_token jwt config user "j") ≡ none
unfolding generate_refresh_token refresh_payload
verify_access_token-generate_refresh_token_example =
    verify_access_token-generate_refresh_token jwt config table 1 user "j"
      (λ p h. sym (some-injective h))

ended_sessions_refused_example :
    (authenticate jwt config table 1 with_access users ≡ passed (hydrate (resolve_fields none) ann))
    × (authenticate jwt config table 1 with_access
          (invalidate_all_sessions table no_redis (λ n. "4") (λ p. p) "u1" site).0.db
        ≡ refused 401 "Session expired — please sign in again")
unfolding verify_access_token
ended_sessions_refused_example =
    ended_sessions_refused jwt config table no_redis (λ n. "4") (λ p. p) 1 "access" access_claims
      with_access site ann table-IsUserDb refl refl refl refl

abbrev with_refresh : Request
with_refresh = record plain { refresh_cookie = some "t5" }

presented : IsPresented env table table-IsUserDb no_redis 1 with_refresh "t5" "u1" ann site
unfolding verify_refresh_token get_refresh_from_request
presented = record {
  payload = refresh_claims;
  carried = refl;
  verified = refl;
  of_user = refl;
  at_row = refl;
  row_id = refl;
}

refresh_grants_example :
    ((refresh_access_token env table no_redis 1 "j" "j" with_refresh site).1
      ≡ session_of env table no_redis
          (new_access env table table-IsUserDb no_redis ann "j")
          (new_refresh env table table-IsUserDb no_redis ann "j"))
    × Kept.Keeps
        (exchanged "#t5"
          (String.◌++◌ "#" (new_refresh env table table-IsUserDb no_redis ann "j"))
          (items_of (ann "refreshTokens")))
        (tracked
          (jti_of env (new_access env table table-IsUserDb no_redis ann "j"))
          (items_of (ann "activeAccessJtis")))
        (text "u1")
        (table.row "u1" (refresh_access_token env table no_redis 1 "j" "j" with_refresh site).0.db)
refresh_grants_example =
    refresh_grants env table table-IsUserDb no_redis 1 "j" "j" with_refresh "t5" "u1" ann site
      presented refl

replayed_refresh_example :
    let first : Site table.State (Unit {0}) × Reply =
      refresh_access_token env table no_redis 1 "j" "j" with_refresh site in
    let second : Site table.State (Unit {0}) × Reply =
      refresh_access_token env table no_redis 2 "j" "j" with_refresh first.0 in
    (first.1
      ≡ session_of env table no_redis
          (new_access env table table-IsUserDb no_redis ann "j")
          (new_refresh env table table-IsUserDb no_redis ann "j"))
    × (second.1 ≡ failed 401 "Session invalidated — please sign in again")
    × (row_tokens (table.row "u1" second.0.db) ≡ [])
    × (row_version (table.row "u1" second.0.db) ≡ row_version (table.row "u1" first.0.db) + 1)
unfolding verify_refresh_token presented
replayed_refresh_example =
    replayed_refresh env table table-IsUserDb no_redis 1 2 "j" "j" "j" "j" with_refresh "t5" "u1"
      ann site presented refl refl
