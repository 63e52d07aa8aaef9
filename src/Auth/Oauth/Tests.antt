-- ===== src/Auth/Oauth/Tests.antt =====
-- The theorem on a sign-in through a provider at an input that meets its hypotheses.
use routiq.Base.{String, ◌+◌, false, none, some, [], ltb, leb→le, str_eq, ◌≡◌, refl, if◌then◌else◌}
use routiq.Codes.{Codec}
use routiq.Codes.Exchange.{ExchangeRecord, create_oauth_exchange_code}
use routiq.Codes.Pkce.{StateRecord, create_oauth_state}
use routiq.Users.Sample.{table}
use routiq.Auth.{failed}
use routiq.Auth.Sample.{env, no_redis, site}
use routiq.Auth.Oauth.{
  State, state_world, code_world, put_states, put_codes, exchanged, exchange_oauth_code,
}
use routiq.Auth.Oauth.Laws.{oauth_chain}

abbrev states : Codec StateRecord
states = record { encode = λ r. "record"; decode = λ s. none }

abbrev codes : Codec ExchangeRecord
codes = record { encode = λ r. "record"; decode = λ s. none }

abbrev challenge : String
challenge = "0123456789abcdef0123456789abcdef0123456789abcdef"

abbrev code : String
code = "0123456789abcdef0123456789abcdef0123456789abcdef0123456789abcdef"

abbrev flow : State env table no_redis states codes (λ s. s)
flow = record { site = site; states = []; codes = [] }

abbrev waiting : State env table no_redis states codes (λ s. s)
waiting =
    put_states
      (create_oauth_state no_redis states false 1_000 "state" challenge none (state_world flow)).0
      flow

abbrev called_back : State env table no_redis states codes (λ s. s)
called_back =
    put_codes
      (create_oauth_exchange_code no_redis codes false 2_000 code "access" "refresh" "state"
        (code_world waiting)).0
      waiting

oauth_chain_example :
    (exchange_oauth_code env table no_redis states codes
      (λ s. s)
      3_000
      code
      "state"
      challenge
      called_back).1
    ≡ (if (if ltb (1_000 + 600_000) 3_000 then false else str_eq challenge challenge)
        then exchanged env table no_redis states codes
            (λ s. s)
            (if ltb (2_000 + 120_000) 3_000
              then none
              else some (record { access_token = "access"; refresh_token = "refresh" }))
        else failed 400 "Invalid OAuth state or PKCE verifier")
oauth_chain_example =
    oauth_chain env table no_redis states codes (λ s. s) 1_000 2_000 3_000 "state" challenge
      challenge code "access" "refresh" none flow (leb→le 43 48 refl, leb→le 48 128 refl)
      (λ h. cc h) (λ h. cc h) ((λ h. cc h), leb→le 64 64 refl) refl
