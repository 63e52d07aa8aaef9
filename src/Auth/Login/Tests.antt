-- ===== src/Auth/Login/Tests.antt =====
-- The theorems on logins at inputs that meet their hypotheses.
use routiq.Base.{true, ◌≡◌, refl}
use routiq.Users.{null}
use routiq.Users.Document.Laws.{Keeps}
use routiq.Users.Sample.{table, table-IsTable, users, bob}
use routiq.Identity.{email_key, normalize_email, is_active}
use routiq.Identity.Resolve.{primary, resolve_email_identity}
use routiq.Auth.{failed, failed_with}
use routiq.Auth.Login.{LoginInput, LoginEnv, login}
use routiq.Auth.Login.Laws.{login_never_counts}
use routiq.Auth.Login.Replies.{login_reveals_provider}
use routiq.Auth.Sample.{no_redis, env, index, keys, world}

abbrev login_env : LoginEnv
login_env = record {
  now = 5;
  day = λ t. 0;
  verify_password = λ candidate stored. (true, true);
  access_jti = "j";
  refresh_jti = "j";
}

abbrev ann_login : LoginInput
ann_login = record { email = "ann@example.org"; password = "secret" }

abbrev bob_login : LoginInput
bob_login = record { email = "bob@example.org"; password = "guess" }

abbrev nobody_login : LoginInput
nobody_login = record { email = "nobody@example.org"; password = "guess" }

login_never_counts_example :
    Keeps table "loginCount" users
      (login env login_env table no_redis index keys ann_login world).0.site.db
    × Keeps table "lastLogin" users
        (login env login_env table no_redis index keys ann_login world).0.site.db
login_never_counts_example =
    login_never_counts env login_env table no_redis index keys ann_login world table-IsTable

login_reveals_provider_example :
    (login env login_env table no_redis index keys nobody_login world
      ≡ (world, failed 401 "Invalid email or password"))
    × (login env login_env table no_redis index keys bob_login world
        ≡ (world, failed_with 401 "Invalid email or password" "AUTH_FAILED"))
unfolding resolve_email_identity email_key normalize_email is_active
login_reveals_provider_example =
    login_reveals_provider env login_env table no_redis index keys nobody_login bob_login
      (record { user_id = "u2"; by = primary; verified = null }) bob world refl refl refl refl refl
      refl
