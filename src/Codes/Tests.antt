-- ===== src/Codes/Tests.antt =====
-- The theorems of the one-time codes at inputs that meet their hypotheses.
use routiq.Base.{
  ◌≡◌, ◌≢◌, refl, String, ◌||◌, true, false, Option, none, some, [], ◌∷◌, leb→le, ltb→lt, str_eq,
  eq_iff, if◌then◌else◌,
}
use routiq.Breaker.Call.{ok, failed}
use routiq.Breaker.Window.{circuit_open}
use routiq.Redis.{Redis}
use routiq.Codes.{World, Codec}
use routiq.Codes.Exchange.{ExchangeRecord, create_oauth_exchange_code, consume_oauth_exchange_code}
use routiq.Codes.Exchange.Laws.{IsCode, exchange_round_trip, exchange_once}
use routiq.Codes.Pkce.{StateRecord, Url, resolve_client_redirect_uri}
use routiq.Codes.Pkce.Laws.{IsClient, redirect-IsClient}
use routiq.Codes.EmailLink.{
  Payload, Links, reset_password, create_email_link_code, redeem_email_link_code,
  consume_form_token, is_short,
}
use routiq.Codes.EmailLink.Laws.{email_link_chain}

-- A Redis that is not available.
abbrev down : Redis
down = record {
  State = Unit {0};
  available = λ s. false;
  get = λ k s. (s, failed circuit_open);
  setex = λ k t v s. (s, failed circuit_open);
  set = λ k v s. (s, failed circuit_open);
  del = λ k s. (s, failed circuit_open);
}

-- A Redis that answers reads and refuses to delete.
abbrev read_only : Redis
read_only = record {
  State = Unit {0};
  available = λ s. true;
  get = λ k s. (s, ok (some "record"));
  setex = λ k t v s. (s, failed circuit_open);
  set = λ k v s. (s, failed circuit_open);
  del = λ k s. (s, failed circuit_open);
}

abbrev code64 : String
code64 = "0123456789abcdef0123456789abcdef0123456789abcdef0123456789abcdef"

abbrev token64 : String
token64 = "fedcba9876543210fedcba9876543210fedcba9876543210fedcba9876543210"

non_empty : (s : String) → str_eq s "" ≡ false → s ≢ ""
non_empty s h e = cc (h, (eq_iff s "").1 e)

code64-IsCode : IsCode code64
code64-IsCode = (non_empty code64 refl, leb→le 64 64 refl)

abbrev nothing : {P : Type 0} → World (Unit {0}) P
nothing = record { redis = tt; memory = [] }

abbrev exchanges : Codec ExchangeRecord
exchanges = record {
  encode = λ r. "record";
  decode = λ s. some (record {
    tokens = record { access_token = "access"; refresh_token = "refresh" };
    state = "state";
  });
}

exchange_round_trip_example :
    (consume_oauth_exchange_code down exchanges 60_000 code64 "state"
      (create_oauth_exchange_code down exchanges false 1_000 code64 "access" "refresh" "state"
        nothing).0).1
    ≡ some (record { access_token = "access"; refresh_token = "refresh" })
exchange_round_trip_example =
    exchange_round_trip down exchanges 1_000 60_000 code64 "access" "refresh" "state" "state"
      nothing code64-IsCode (non_empty "state" refl) (non_empty "state" refl) refl

exchange_once_example :
    (consume_oauth_exchange_code down exchanges 2_000 code64 "state"
      (consume_oauth_exchange_code down exchanges 1_000 code64 "guess"
        (create_oauth_exchange_code down exchanges false 1_000 code64 "access" "refresh" "state"
          nothing).0).0).1
    ≡ none
unfolding create_oauth_exchange_code
exchange_once_example =
    exchange_once down exchanges 1_000 2_000 code64 "guess" "state"
      (create_oauth_exchange_code down exchanges false 1_000 code64 "access" "refresh" "state"
        nothing).0
      code64-IsCode (non_empty "guess" refl) (non_empty "state" refl) refl

-- One client, whose URL and callback parse.
abbrev parse_url : String → Option Url
parse_url s =
    if str_eq s "https://app.example" || str_eq s "https://app.example/oauth-callback?next=evil"
    then some (record {
      protocol = "https:";
      pathname = "/oauth-callback";
      origin = "https://app.example";
    })
    else none

abbrev same_text : String → String
same_text s = s

redirect-IsClient_example :
    IsClient parse_url same_text
      ("https://app.example" ∷ [])
      "https://app.example/oauth-callback?next=evil"
      "https://app.example/oauth-callback"
unfolding resolve_client_redirect_uri
redirect-IsClient_example =
    redirect-IsClient parse_url same_text ("https://app.example" ∷ [])
      "https://app.example/oauth-callback?next=evil" "https://app.example/oauth-callback" refl

abbrev states : Codec StateRecord
states = record { encode = λ r. "record"; decode = λ s. none }

abbrev polled : World (Unit {0}) String
polled = record { redis = tt; memory = (code64, record { payload = "user"; exp = 90_000 }) ∷ [] }

abbrev payloads : Codec Payload
payloads = record { encode = λ p. "payload"; decode = λ s. none }

abbrev reset_link : Payload
reset_link = record { kind = reset_password; secret = "secret"; meta = none }

abbrev no_links : Links (Unit {0})
no_links = record { redis = tt; links = []; forms = [] }

email_link_chain_example :
    let redeemed =
      redeem_email_link_code down payloads 2_000 2_000 code64 token64
        (create_email_link_code down payloads false 1_000 code64 reset_link no_links).0 in
    let consumed = consume_form_token down payloads 3_000 token64 reset_password redeemed.0 in
    (consumed.1 ≡ some (record { secret = "secret"; meta = none }))
    × ((consume_form_token down payloads 4_000 token64 reset_password consumed.0).1 ≡ none)
    × ((redeem_email_link_code down payloads 4_000 4_000 code64 token64 redeemed.0).1 ≡ none)
    × ((redeem_email_link_code down payloads 90_000_000 90_000_000 code64 token64
          (create_email_link_code down payloads false 1_000 code64 reset_link no_links).0).1
        ≡ none)
unfolding is_short
email_link_chain_example =
    email_link_chain down payloads 1_000 2_000 2_000 3_000 4_000 90_000_000 code64 token64
      reset_password reset_password reset_link no_links refl refl refl
      (leb→le 2_000 86_401_000 refl) (ltb→lt 86_401_000 90_000_000 refl)
