-- ===== src/Auth/Sample.antt =====
-- A library of tokens, a configuration and a state, for the tests.
use Prim.Native.String
use routiq.Base.{String, true, false, Option, none, some, [], ◌∷◌, str_eq, if◌then◌else◌}
use mathlib.Core.Option
use routiq.Redis.{Redis}
use routiq.Breaker.Window.{circuit_open}
use routiq.Breaker.Call as Call
use routiq.Users.{Row, text, assign}
use routiq.Users.Columns.{all_fields}
use routiq.Users.Document.{Document, hydrate}
use routiq.Users.Sample.{table, users, ann}
use routiq.Session.{Site}
use routiq.Identity.{IndexDb, Keys, no_row}
use routiq.Auth.{TokenPayload, Jwt, TokenConfig, Env}
use routiq.Auth.Login.{World}

abbrev pub config : TokenConfig
config = record {
  access_secret = "access secret";
  refresh_secret = "refresh secret";
  access_expires = some (15, "m");
  refresh_expires = some (7, "d");
  default_home_region = none;
}

abbrev pub user : Document
user = hydrate all_fields ann

abbrev pub access_claims : TokenPayload
access_claims = record {
  user_id = "u1";
  sub = some "u1";
  email = "ann@example.org";
  kind = "access";
  home_region = none;
  jti = some "j";
  tv = some 3;
}

abbrev pub refresh_claims : TokenPayload
refresh_claims = record access_claims { sub = none; kind = "refresh"; tv = none }

-- A library whose tokens are the kind of their payload.
abbrev pub jwt : Jwt
jwt = record {
  sign = λ secret p expires. p.kind;
  verify =
      λ now secret token. if str_eq token "access" then some access_claims else some refresh_claims;
}

abbrev pub no_redis : Redis
no_redis = record {
  State = Unit {0};
  available = λ s. false;
  get = λ k s. (s, Call.failed circuit_open);
  setex = λ k t v s. (s, Call.failed circuit_open);
  set = λ k v s. (s, Call.failed circuit_open);
  del = λ k s. (s, Call.failed circuit_open);
}

abbrev pub site : Site (table.State) (Unit {0})
site = record { db = users; redis = tt; revoked = [] }

abbrev pub env : Env
env = record {
  jwt = jwt;
  config = config;
  show = λ n. "4";
  hash_token = λ t. String.◌++◌ "#" t;
  hash_password = λ p. p;
  split = λ t. [];
  claims = λ part. none;
  clean = λ t. t;
  omit_refresh = true;
}

abbrev pub index : IndexDb
index = record {
  State = String → Option Row;
  row = λ k s. s k;
  update = λ k sets s j. if str_eq k j then Option.map (assign sets) (s k) else s j;
  insert = λ k sets s j. if str_eq k j then some (assign sets no_row) else s j;
  delete = λ k s j. if str_eq k j then none else s j;
  delete_stale = λ id kept s. s;
}

abbrev pub keys : Keys
keys = record { trim = λ s. s; lower = λ s. s; hmac = λ s. s }

-- An index with the two users' addresses.
abbrev pub entries : String → Option Row
entries key =
    if str_eq key "primary_email:ann@example.org"
    then some (assign (("userId", text "u1") ∷ []) no_row)
    else if str_eq key "primary_email:bob@example.org"
    then some (assign (("userId", text "u2") ∷ []) no_row)
    else none

abbrev pub world : World (table.State) (Unit {0}) (index.State)
world = record { site = site; index = entries }
