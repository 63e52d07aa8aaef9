-- ===== src/Session/Tests.antt =====
-- The theorems on sessions at inputs that meet their hypotheses.
use Prim.Native.String
use routiq.Base.{
  ℕ, String, true, false, Option, some, [], ◌∷◌, ◌++◌, ◌+◌, ◌≡◌, ◌≢◌, refl, str_eq, eq_iff,
  if◌then◌else◌,
}
use routiq.Breaker.Window.{circuit_open}
use routiq.Breaker.Call.{failed}
use routiq.Redis.{Redis}
use routiq.Codes.{ok}
use routiq.Users.Sample.{table, table-IsUserDb, users, ann}
use routiq.Users.Update.{without}
use routiq.Users.Columns.{elem}
use routiq.Session.{
  Site, rotate_check, rotate_commit, rotate_session_tokens, invalidate_all_sessions, by_jti,
}
use routiq.Session.Stored.{row_tokens, row_jtis, row_version}
use routiq.Session.Kept.{exchanged}
use routiq.Session.Rotation.{
  rotate_session_tokens-exchanged, rotations_race, rotation_chain, rotation_evicts,
}
use routiq.Session.Invalidation.{invalidate_all_sessions-ends}

abbrev no_redis : Redis
no_redis = record {
  State = Unit {0};
  available = λ s. false;
  get = λ k s. (s, failed circuit_open);
  setex = λ k t v s. (s, failed circuit_open);
  set = λ k v s. (s, failed circuit_open);
  del = λ k s. (s, failed circuit_open);
}

abbrev site : Site (table.State) (Unit {0})
site = record { db = users; redis = tt; revoked = [] }

abbrev digits : ℕ → String
digits n = "4"

abbrev hash : String → String
hash t = String.◌++◌ "#" t

abbrev jti_of : String → Option String
jti_of t = some t

differ : (s t : String) → str_eq s t ≡ false → s ≢ t
differ s t h e = cc (h, (eq_iff s t).1 e)

rotate_session_tokens-exchanged_example :
    (row_tokens (
        table.row "u1"
          (rotate_session_tokens table no_redis digits hash jti_of "u1" "t5" "j9" "t6"
            (some 3)
            site).0.db)
      ≡ (if elem (hash "t5") (row_tokens (table.row "u1" site.db))
          then exchanged (hash "t5") (hash "t6") (row_tokens (table.row "u1" site.db))
          else row_tokens (table.row "u1" site.db)))
    × ((rotate_session_tokens table no_redis digits hash jti_of "u1" "t5" "j9" "t6" (some 3) site).1
        ≡ ok (elem (hash "t5") (row_tokens (table.row "u1" site.db))))
    × ((if elem (hash "t5") (row_tokens (table.row "u1" site.db))
          then site
          else (rotate_session_tokens table no_redis digits hash jti_of "u1" "t5" "j9" "t6"
              (some 3)
              site).0)
        ≡ site)
rotate_session_tokens-exchanged_example =
    rotate_session_tokens-exchanged table table-IsUserDb no_redis digits hash jti_of "u1" "t5" "j9"
      "t6" (some 3) site

rotations_race_example :
    (rotate_check table no_redis digits hash jti_of "u1" "t5" site ≡ some (hash "t5"))
    × ((rotate_commit table no_redis digits hash jti_of "u1" (hash "t5") "j9" "t6" (some 3) site).1
        ≡ ok true)
    × ((rotate_commit table no_redis digits hash jti_of "u1"
          (hash "t5")
          "j8"
          "t7"
          (some 3)
          (rotate_commit table no_redis digits hash jti_of "u1"
            (hash "t5")
            "j9"
            "t6"
            (some 3)
            site).0).1
        ≡ ok true)
rotations_race_example =
    rotations_race table table-IsUserDb no_redis digits hash jti_of "u1" "t5" "j9" "j8" "t6" "t7"
      (some 3) (some 3) site refl

rotation_chain_example :
    ((rotate_session_tokens table no_redis digits hash jti_of "u1" "t5" "j8" "t7"
        (some 3)
        (rotate_session_tokens table no_redis digits hash jti_of "u1" "t5" "j9" "t6"
          (some 3)
          site).0).1
      ≡ ok false)
    × ((rotate_session_tokens table no_redis digits hash jti_of "u1" "t6" "j8" "t7"
          (some 3)
          (rotate_session_tokens table no_redis digits hash jti_of "u1" "t5" "j9" "t6"
            (some 3)
            site).0).1
        ≡ ok true)
rotation_chain_example =
    rotation_chain table table-IsUserDb no_redis digits hash jti_of "u1" "t5" "j9" "t6" "j8" "t7"
      (some 3) (some 3) site refl (differ "#t5" "#t6" refl)

rotation_evicts_example :
    row_tokens (
      table.row "u1"
        (rotate_session_tokens table no_redis digits hash jti_of "u1" "t5" "j9" "t6"
          (some 3)
          site).0.db)
    ≡ without (hash "t5") (("#t2" ∷ "#t3" ∷ "#t4" ∷ "#t5" ∷ []) ++ hash "t6" ∷ [])
rotation_evicts_example =
    rotation_evicts table table-IsUserDb no_redis digits hash jti_of "u1" "t5" "j9" "t6" "#t1"
      ("#t2" ∷ "#t3" ∷ "#t4" ∷ "#t5" ∷ []) (some 3) site refl refl refl

invalidate_all_sessions-ends_example :
    let (w', result) = invalidate_all_sessions table no_redis digits hash "u1" site in
    (row_tokens (table.row "u1" w'.db) ≡ [])
    × (row_jtis (table.row "u1" w'.db) ≡ [])
    × (row_version (table.row "u1" w'.db) ≡ 3 + 1)
    × (w'.revoked ≡ [] ++ by_jti "j1" 900 ∷ [])
    × (table.row "u2" w'.db ≡ table.row "u2" users)
    × (result ≡ ok tt)
invalidate_all_sessions-ends_example =
    invalidate_all_sessions-ends table table-IsUserDb no_redis digits hash "u1" "u2" site ann refl
      (differ "u1" "u2" refl)
