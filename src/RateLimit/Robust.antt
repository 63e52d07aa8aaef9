-- ===== src/RateLimit/Robust.antt =====
-- uam-backend/src/robustRateLimiter.ts. The Redis client is a parameter: what a pipeline, a ping or
-- a deletion answers is an argument of the operation that asks.
pub mod Laws
pub mod Shared
pub mod Drip
pub mod Modes
use Prim.Native.String
use routiq.Base.{
  ℕ, zero, suc, ◌+◌, ◌-◌, ◌*◌, ◌/◌, String, Bool, true, false, ◌||◌, ◌&&◌, not, Option, none, some,
  List, [], ◌∷◌, length, leb, ltb, ◌==◌, str_eq, if◌then◌else◌,
}
use routiq.Base.Int.{ℤ, pos, negsuc}
use routiq.Base.Dict.{Dict, lookup, insert, remove, prune}

pub record RateLimitRecord : Type 0 where
  pub count : ℕ
  pub reset_at : ℕ
  pub last_reset : ℕ
  pub max_requests : ℕ
  pub window_ms : ℕ

pub record RateLimitResult : Type 0 where
  pub allowed : Bool
  pub remaining : ℕ
  pub reset_at : ℕ

pub record LimiterConfig : Type 0 where
  pub window_ms : ℕ
  pub max_requests : ℕ
  pub key_prefix : String

-- `RateLimiterUnavailableError`, or an answer
pub data Reply {ℓ} (A : Type ℓ) : Type ℓ where
  answer : A → Reply A
  unavailable : Reply A

-- the fields that operations change
pub record Limiter : Type 0 where
  pub config : LimiterConfig
  pub local_cache : Dict RateLimitRecord
  pub fallback : Bool
  pub initialized : Bool
  pub allow_fallback : Bool
  pub last_recovery_probe_ms : ℕ
  pub last_sweep_ms : ℕ

-- `raw` is the trimmed, lower-case text of RATE_LIMIT_LOCAL_FALLBACK, unset or not
unfoldable pub local_fallback_enabled : (String → String) → Option String → Bool
local_fallback_enabled trim_lower env =
    let raw = trim_lower (elim env [ none ↦ "1" | some s ↦ s ]) in
    not (str_eq raw "0") && not (str_eq raw "false") && not (str_eq raw "off")

unfoldable pub new_limiter : LimiterConfig → Bool → Limiter
new_limiter config allow = record {
  config = config;
  local_cache = [];
  fallback = false;
  initialized = false;
  allow_fallback = allow;
  last_recovery_probe_ms = 0;
  last_sweep_ms = 0;
}

-- `authLimiter`, `apiLimiter` and `loginLimiter`
abbrev pub auth_config : LimiterConfig
auth_config = record { window_ms = 60_000; max_requests = 10; key_prefix = "rate_limit:auth" }

abbrev pub api_config : LimiterConfig
api_config = record { window_ms = 60_000; max_requests = 100; key_prefix = "rate_limit:api" }

abbrev pub login_config : LimiterConfig
login_config = record { window_ms = 60_000; max_requests = 5; key_prefix = "rate_limit:login" }

-- How starting ends: ready, exit of the process, or the last error thrown on.
pub data Started : Type 0 where
  ready exits throws : Started

-- the answers of the pings, one for each attempt; `true` is a ping that came back in time
abbrev pub any_of : ℕ → List Bool → Bool
any_of zero pings = false
any_of (suc n) [] = false
any_of (suc n) (p ∷ pings) = p || any_of n pings

abbrev pub attempts : ℕ
attempts = 5

unfoldable pub init : List Bool → Limiter → Limiter × Started
init pings l =
    let l' = record l { initialized = true } in
    if l.initialized
    then (l, ready)
    else if any_of attempts pings
    then (record l' { fallback = false }, ready)
    else if not l.allow_fallback
    then (l', exits)
    else (record l' { fallback = true }, throws)

-- at most once a minute, once the map is large
unfoldable pub sweep_expired_windows : ℕ → Limiter → Limiter
sweep_expired_windows now l =
    if ltb (length l.local_cache) 4_096 || ltb now (l.last_sweep_ms + 60_000) then l else record l {
      last_sweep_ms = now;
      local_cache = prune (λ r. ltb r.reset_at now) l.local_cache;
    }

abbrev pub local_key : String → String
local_key client = String.◌++◌ "rate_limit:local:" client

-- `x || y` on numbers
abbrev pub or_else : ℕ → ℕ → ℕ
or_else x y = if x == 0 then y else x

-- the record of a client that has none
abbrev pub first_record : ℕ → LimiterConfig → RateLimitRecord
first_record now c = record {
  count = 0;
  reset_at = now + c.window_ms;
  last_reset = now;
  max_requests = or_else c.max_requests 10;
  window_ms = or_else c.window_ms 60_000;
}

abbrev pub found_or : RateLimitRecord → Option RateLimitRecord → RateLimitRecord
found_or r none = r
found_or r (some s) = s

-- a window that has passed starts anew; then the request is counted
unfoldable pub counted : ℕ → LimiterConfig → RateLimitRecord → RateLimitRecord
counted now c r =
    if ltb r.reset_at now
    then record r { count = 1; reset_at = now + c.window_ms; last_reset = now }
    else record r { count = r.count + 1 }

unfoldable pub result_of : LimiterConfig → ℕ → ℕ → RateLimitResult
result_of c count reset_at = record {
  allowed = leb count c.max_requests;
  remaining = c.max_requests - count;
  reset_at = reset_at;
}

unfoldable pub local_rate_limit : ℕ → String → Limiter → Limiter × RateLimitResult
unfolding sweep_expired_windows counted result_of
local_rate_limit now client l =
    let swept = sweep_expired_windows now l in
    let entry =
      counted now l.config
        (found_or (first_record now l.config) (lookup (local_key client) swept.local_cache)) in
    (
      record swept { local_cache = insert (local_key client) entry swept.local_cache },
      result_of l.config entry.count entry.reset_at,
    )

-- What `pipeline.exec()` answers of the first command: nothing at all, an error, or a count that
-- `parseInt` reads.
pub data PipelineReply : Type 0 where
  no_results failed : PipelineReply
  first_result : ℕ → PipelineReply

unfoldable pub degrade_to_local : ℕ → String → Limiter → Limiter × Reply RateLimitResult
unfolding local_rate_limit
degrade_to_local now client l =
    if not l.allow_fallback
    then (l, unavailable)
    else (let (l', r) = local_rate_limit now client (record l { fallback = true }) in
        (l', answer r))

unfoldable pub distributed_rate_limit :
    ℕ → PipelineReply → String → Limiter → Limiter × Reply RateLimitResult
unfolding degrade_to_local result_of
distributed_rate_limit now no_results client l = degrade_to_local now client l
distributed_rate_limit now failed client l = degrade_to_local now client l
distributed_rate_limit now (first_result n) client l = (
  l,
  answer
      (result_of l.config n (now / l.config.window_ms * l.config.window_ms + l.config.window_ms)),
)

-- every 30 s while degraded; `ping` tells whether Redis answered
unfoldable pub try_recover_from_fallback : ℕ → Bool → Limiter → Limiter
try_recover_from_fallback now ping l =
    if ltb now (l.last_recovery_probe_ms + 30_000)
    then l
    else record l { last_recovery_probe_ms = now; fallback = if ping then false else l.fallback }

-- `now` at the start, `now'` after the probe
unfoldable pub check_limit :
    ℕ → ℕ → Bool → PipelineReply → String → Limiter → Limiter × Reply RateLimitResult
unfolding try_recover_from_fallback distributed_rate_limit local_rate_limit
check_limit now now' ping reply client l =
    let probed = try_recover_from_fallback now ping l in
    let (l', r) = local_rate_limit now' client probed in
    if l.fallback
    then (if not l.allow_fallback
        then (l, unavailable)
        else if probed.fallback
        then (l', answer r)
        else distributed_rate_limit now' reply client probed)
    else distributed_rate_limit now' reply client l

-- `deleted` tells whether the deletion of `rate_limit:<client>` came back
unfoldable pub reset_limit : Bool → String → Limiter → Limiter × Reply Bool
reset_limit deleted client l =
    let cleared = remove (local_key client) l.local_cache in
    if l.fallback
    then (record l { local_cache = cleared }, answer true)
    else if deleted
    then (l, answer true)
    else if not l.allow_fallback
    then (l, unavailable)
    else (record l { fallback = true; local_cache = cleared }, answer false)

-- `getState`
unfoldable pub redis_available : Limiter → Bool
redis_available l = not l.fallback && l.initialized
