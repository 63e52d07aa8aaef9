-- ===== src/RateLimit/Tests.antt =====
-- The theorems of the limiters at inputs that meet their hypotheses.
use routiq.Base.{
  ◌≤◌, ◌-◌, ℕ, ◌+◌, ◌*◌, ◌≡◌, ◌≢◌, ◌∙◌, refl, ap, String, true, false, Option, none, some, List, [],
  ◌∷◌, ltb, leb→le, ltb→lt, str_eq, eq_iff, eq_refl, if◌then◌else◌, Bool-cases, inl, inr, ◌⊎◌,
  arith,
}
use routiq.Base.Dict.{Dict, lookup, insert, remove, lookup-insert, lookup-remove}
use routiq.Breaker.Call.{CallResult, ok, failed}
use routiq.Breaker.Window.{circuit_open}
use routiq.Redis.{Redis}
use routiq.Codes.{Codec}
use routiq.RateLimit.Login.{
  Attempts, LoginRequest, clean_up, Store, attempt_key, advanced_login_limiter,
  handle_login_failure, reset_login_attempts, Verdict,
}
use routiq.RateLimit.Login.Guesses.{guesses, tries, waits, guesses_bounded, clean_up_forgets}
use routiq.RateLimit.Login.Sweeps.{Event, guess, sweep, campaign, campaign_bounded}
use routiq.RateLimit.Login.Required.{required_fails_closed}
use routiq.RateLimit.Robust.{Limiter, new_limiter, auth_config, init, first_result, failed}
use routiq.RateLimit.Robust.Laws.{Request, allowed, local_budget}
use routiq.RateLimit.Robust.Shared.{Counters, IsRedisCounters, redis_key, expiry_secs, shared_reset}
use routiq.RateLimit.Robust.Drip.{grants, drip_budget, reset_then_drip}
use routiq.RateLimit.Robust.Modes.{Op, checks, resets, run, strict_never_local, Served}

abbrev degraded : Limiter
unfolding new_limiter
degraded =
    record (new_limiter
      (record { window_ms = 60_000; max_requests = 2; key_prefix = "rate_limit:auth" }) true) {
        fallback = true;
      }

abbrev requests : List Request
requests =
    record { at = 1_000; client = "ann" }
    ∷ record { at = 1_500; client = "bob" }
    ∷ record { at = 2_000; client = "ann" }
    ∷ record { at = 3_000; client = "ann" }
    ∷ []

local_budget_example : allowed "ann" requests degraded ≡ 2
unfolding new_limiter degraded lookup
local_budget_example =
    local_budget 1_000 61_000 "ann" requests degraded tt refl (leb→le 61_000 61_000 refl) (
      (leb→le 1_000 1_000 refl, leb→le 1_000 61_000 refl),
      (
        (leb→le 1_000 1_500 refl, leb→le 1_500 61_000 refl),
        (
          (leb→le 1_000 2_000 refl, leb→le 2_000 61_000 refl),
          ((leb→le 1_000 3_000 refl, leb→le 3_000 61_000 refl), tt),
        ),
      ),
    )

-- A server of counters: a count and its expiry in seconds, by key.
abbrev Stored : Type 0
Stored = Dict (ℕ × ℕ)

abbrev count_of : ℕ → Option (ℕ × ℕ) → ℕ
count_of now none = 0
count_of now (some (n, t)) = if ltb now (t * 1_000) then n else 0

abbrev server : Counters
server = record {
  State = Stored;
  pipeline = λ now key secs s. (
    insert key (count_of now (lookup key s) + 1, secs) s,
    first_result (count_of now (lookup key s) + 1),
  );
  del = λ key s. (remove key s, true);
}

differs : (j k : String) → j ≢ k → str_eq j k ≡ false
differs j k ne = elim (Bool-cases (str_eq j k)) [
  | inl e ↦ absurd (ne ((eq_iff j k).0 e))
  | inr e ↦ e
]

server-IsRedisCounters : IsRedisCounters server
server-IsRedisCounters = record {
  Kept = λ k n t s. lookup k s ≡ some (n, t);
  counts_on = λ k now secs n t s h e.
      let counted : count_of now (lookup k s) ≡ n = ap (count_of now) e ∙ ground arith in
      (
        insert k (n + 1, secs) s,
        ap (λ m. (insert k (m + 1, secs) s, first_result (m + 1))) counted,
        lookup-insert k k (n + 1, secs) s
            ∙ ap (λ b. if b then some (n + 1, secs) else lookup k s) (eq_refl k),
      );
  del_other = λ k j n t s ne e.
      lookup-remove j k s ∙ ap (λ b. if b then none else lookup k s) (differs j k ne) ∙ e;
}

abbrev shared : Limiter
unfolding new_limiter
shared = new_limiter auth_config true

-- Ten requests so far, until the second 61.
abbrev spent : Stored
spent = ("rate_limit:auth:ann", (10, 61)) ∷ []

drip_budget_example : grants server "ann" (50_000 ∷ 100_000 ∷ 150_000 ∷ []) spent shared ≡ 0
unfolding new_limiter shared redis_key expiry_secs lookup server-IsRedisCounters
drip_budget_example =
    drip_budget server server-IsRedisCounters "ann" 1_000 10 (50_000 ∷ 100_000 ∷ 150_000 ∷ []) spent
      shared
      (ltb→lt 50_000 61_000 refl, (ltb→lt 100_000 110_000 refl, (ltb→lt 150_000 160_000 refl, tt)))
      refl

reset_then_drip_example :
    grants server "ann"
      (50_000 ∷ 100_000 ∷ [])
      (shared_reset server "ann" spent shared).0
      (shared_reset server "ann" spent shared).1
    ≡ 0
unfolding new_limiter shared redis_key expiry_secs lookup server-IsRedisCounters
reset_then_drip_example =
    reset_then_drip server server-IsRedisCounters "ann" 1_000 10 (50_000 ∷ 100_000 ∷ []) spent
      shared (ltb→lt 10 15 refl) (ltb→lt 50_000 61_000 refl, (ltb→lt 100_000 110_000 refl, tt)) refl

abbrev calls : List Op
calls =
    checks 1_000 1_000 false failed "ann"
    ∷ resets false "ann"
    ∷ checks 2_000 2_000 false (first_result 3) "ann"
    ∷ []

strict_never_local_example :
    (run calls (init (false ∷ true ∷ []) (new_limiter auth_config false)).0).local_cache ≡ []
strict_never_local_example = strict_never_local auth_config (false ∷ true ∷ []) calls

abbrev served : Served
served = record { now = 30_000; now' = 30_001; client = "ann"; count = 4 }

-- A Redis that is not available, and one that answers every command.
abbrev down : Redis
down = record {
  State = Unit {0};
  available = λ s. false;
  get = λ k s. (s, failed circuit_open);
  setex = λ k t v s. (s, failed circuit_open);
  set = λ k v s. (s, failed circuit_open);
  del = λ k s. (s, failed circuit_open);
}

abbrev empty_handed : Redis
empty_handed = record {
  State = Unit {0};
  available = λ s. true;
  get = λ k s. (s, ok none);
  setex = λ k t v s. (s, ok tt);
  set = λ k v s. (s, ok tt);
  del = λ k s. (s, ok tt);
}

abbrev attempts_json : Codec Attempts
attempts_json = record { encode = λ a. "attempts"; decode = λ s. none }

abbrev ann : LoginRequest
ann = record { real_ip = none; ip = "10.0.0.1"; email = some "ann@example.com" }

abbrev no_attempts : Store (Unit {0})
no_attempts = record { redis = tt; memory = [] }

guesses_bounded_example :
    waits (guesses down attempts_json (1_000 ∷ 2_000 ∷ 3_000 ∷ []) ann no_attempts) ≤ 3_000 - 1_000
unfolding lookup
guesses_bounded_example =
    guesses_bounded down attempts_json 1_000 3_000 (1_000 ∷ 2_000 ∷ 3_000 ∷ []) ann no_attempts refl
      refl
      (
        (leb→le 1_000 1_000 refl, leb→le 1_000 3_000 refl),
        (
          (leb→le 1_000 2_000 refl, leb→le 2_000 3_000 refl),
          ((leb→le 1_000 3_000 refl, leb→le 3_000 3_000 refl), tt),
        ),
      )

abbrev raid : List Event
raid = guess 1_000 ∷ sweep 1_500 ∷ guess 2_000 ∷ []

campaign_bounded_example :
    campaign down attempts_json raid ann no_attempts * 300_000 ≤ 6 * (300_000 + (3_000 - 1_000))
unfolding lookup
campaign_bounded_example =
    campaign_bounded down attempts_json 1_000 3_000 raid ann no_attempts refl tt refl (
      leb→le 1_000 1_000 refl,
      (leb→le 1_000 1_500 refl, (leb→le 1_500 2_000 refl, leb→le 2_000 3_000 refl)),
    )

abbrev worn : Store (Unit {0})
worn = record {
  redis = tt;
  memory =
      (
        "login_attempt:10.0.0.1_ann@example.com",
        record { count = 9; reset_time = 0; block_until = 8_000_000 },
      )
      ∷ [];
}

clean_up_forgets_example :
    guesses down attempts_json
      (9_000_001 ∷ [])
      ann
      (record worn { memory = clean_up 9_000_000 worn.memory })
    ≡ tries (9_000_001 ∷ []) (record { count = 0; block_until = 0 })
unfolding lookup attempt_key
clean_up_forgets_example =
    clean_up_forgets down attempts_json 9_000_000 (9_000_001 ∷ []) ann
      (record { count = 9; reset_time = 0; block_until = 8_000_000 }) worn refl (tt, tt) refl
      (ltb→lt 0 8_000_000 refl) (ltb→lt 8_000_000 9_000_000 refl)

required_fails_closed_example :
    (((advanced_login_limiter down attempts_json true 1_000 ann worn).1 ≡ Verdict.unavailable)
      ⊎ ((false ≡ true) × ((text : Option String) × ((CallResult.failed circuit_open) ≡ ok text))))
    × ((advanced_login_limiter down attempts_json true 1_000 ann worn).0.memory ≡ worn.memory)
    × ((handle_login_failure down attempts_json true 1_000 "login_attempt:10.0.0.1_ann@example.com"
          0 worn).0.memory
        ≡ worn.memory)
    × ((reset_login_attempts down attempts_json true "login_attempt:10.0.0.1_ann@example.com"
          worn).memory
        ≡ remove "login_attempt:10.0.0.1_ann@example.com" worn.memory)
required_fails_closed_example =
    required_fails_closed down attempts_json 1_000 0 "login_attempt:10.0.0.1_ann@example.com" ann
      worn
