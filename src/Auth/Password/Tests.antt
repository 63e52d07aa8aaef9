-- ===== src/Auth/Password/Tests.antt =====
-- The theorems on password resets at inputs that meet their hypotheses.
use routiq.Base.{String, Bool, true, false, Option, none, some, [], ◌∷◌, ◌+◌, ◌≡◌, refl}
use mathlib.Core.Option
use routiq.Breaker.Call.{ok}
use routiq.Base.Dict.{lookup, remove}
use routiq.Redis.{Redis, cache_get, cache_set, cache_del}
use routiq.Codes.{Codec, live}
use routiq.Codes.EmailLink.{
  EmailLinkKind, Payload, is_short, consume_form_token, take_form, take_from_redis, form_for,
}
use routiq.Identity.Resolve.{find_user_id_by_primary_email}
use routiq.Users.{UserDb, Row, text, date, assign}
use routiq.Users.Sample.{table, table-IsUserDb, ann}
use routiq.Session.{publish_token_version}
use routiq.Session.Stored.{row_tokens, row_jtis, row_version}
use routiq.Auth.{failed, done}
use routiq.Auth.Sample.{env, no_redis, site, world, index, keys}
use routiq.Auth.Password.{
  Issue, resent, reset_sent, request_password_reset, resend_verification, has_reset_token,
  reset_password, Desk,
}
use routiq.Auth.Password.Requests.{IsUsual, requests_uniform}
use routiq.Auth.Password.Laws.{reset_password_done, reset_password_fails_closed}

-- A user that asked for a reset.
abbrev forgetful : Row
forgetful =
    assign (("passwordResetToken", text "#secret") ∷ ("passwordResetExpires", date 100) ∷ []) ann

-- A Redis that answers each read with the fourth version.
abbrev fourth : Redis
fourth = record {
  State = Unit {0};
  available = λ s. true;
  get = λ k s. (s, ok (some "4"));
  setex = λ k t v s. (s, ok tt);
  set = λ k v s. (s, ok tt);
  del = λ k s. (s, ok tt);
}

abbrev found : (Row → Bool) → table.State → Option Row
found test s = some forgetful

abbrev issue : Issue
issue = record { token = "token"; now = 5 }

abbrev form_token : String
form_token = "0123456789abcdef0123456789abcdef0123456789abcdef0123456789abcdef"

abbrev payload : Payload
payload = record { kind = EmailLinkKind.reset_password; secret = "secret"; meta = none }

abbrev payloads : Codec Payload
payloads = record { encode = λ p. "payload"; decode = λ s. some payload }

-- A form token of a reset, kept by the process.
abbrev asked : Desk (table.State) (Unit {0})
asked = record {
  site = record site { db = λ id. some forgetful };
  links = [];
  forms = (form_token, record { payload = payload; exp = 600_000 }) ∷ [];
}

-- A table that refuses each UPDATE.
abbrev full : UserDb
full = record table { refuses = λ i sets s. true }

requests_uniform_example :
    IsUsual env full no_redis index keys issue reset_sent "Password reset request failed"
      (find_user_id_by_primary_email index keys 5 "ann@example.org" world.index)
      world
      (request_password_reset env full no_redis index keys issue "ann@example.org" world).1.reply
    × IsUsual env full no_redis index keys issue resent "Server error"
        (find_user_id_by_primary_email index keys 5 "ann@example.org" world.index)
        world
        (resend_verification env full no_redis index keys issue "ann@example.org" world).1.reply
requests_uniform_example =
    requests_uniform env full no_redis index keys issue "ann@example.org" world

reset_password_fails_closed_example :
    let (w', reply) =
      reset_password env table no_redis found payloads 5 5 form_token "new password" asked in
    (reply ≡ failed 503 "Password reset could not invalidate active sessions. Please try again.")
    × (w'.site ≡ asked.site)
    × (w'.forms ≡ remove form_token asked.forms)
    × ((reset_password env table no_redis found payloads 9 9 form_token "new password" w').1
        ≡ failed 400 "Invalid or expired reset session")
unfolding is_short live lookup
reset_password_fails_closed_example =
    reset_password_fails_closed env table no_redis found payloads 5 5 9 9 form_token "new password"
      "u1" payload asked forgetful refl refl refl refl refl refl

reset_password_done_example :
    let (w', reply) =
      reset_password env table fourth found payloads 5 5 form_token "new password" asked in
    (reply ≡ done "Password reset successfully")
    × (Option.map (λ u. u "password") (table.row "u1" w'.site.db) ≡ some (text "new password"))
    × (Option.map (has_reset_token 5 "#secret") (table.row "u1" w'.site.db) ≡ some false)
    × (row_tokens (table.row "u1" w'.site.db) ≡ [])
    × (row_jtis (table.row "u1" w'.site.db) ≡ [])
    × (row_version (table.row "u1" w'.site.db) ≡ 3 + 1)
unfolding publish_token_version cache_get cache_set cache_del consume_form_token is_short take_form
    take_from_redis form_for
reset_password_done_example =
    reset_password_done env table fourth found payloads 5 5 form_token "new password" "u1"
      (record { secret = "secret"; meta = none }) asked forgetful table-IsUserDb refl refl refl refl
      (λ h. cc h) refl
