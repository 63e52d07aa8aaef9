-- ===== src/RateLimit/Robust/Drip.antt =====
-- What the shared counter of the rate limiter counts: requests since the last pause of a window, not
-- requests of a window; and what `resetLimit` leaves in place.
use Prim.Native.String
use Prim.Native.String.{len}
use text.Mathlib.TextPositions.{len-append}
use routiq.Base.{
  ℕ, suc, ◌+◌, ◌-◌, ◌*◌, ◌/◌, ◌<◌, ◌≡◌, ◌≢◌, ◌∙◌, sym, ap, subst, String, Bool, false, List, [],
  ◌∷◌, length, arith, leb, if_both,
}
use routiq.RateLimit.Robust.{
  RateLimitResult, LimiterConfig, Reply, answer, unavailable, Limiter, result_of,
  distributed_rate_limit, reset_limit,
}
use routiq.RateLimit.Robust.Laws.{one_if, min_of}
use routiq.RateLimit.Robust.Shared.{
  Counters, redis_key, expiry_secs, reset_key, shared_rate_limit, shared_reset, IsRedisCounters,
}

abbrev granted : Reply RateLimitResult → Bool
granted (answer r) = r.allowed
granted unavailable = false

-- how many of a client's requests are granted over Redis
unfoldable pub grants : (r : Counters) → String → List ℕ → r.State → Limiter → ℕ
grants r client [] s l = 0
grants r client (now ∷ times) s l =
    let (s', l', reply) = shared_rate_limit r now client s l in
    one_if (granted reply) + grants r client times s' l'

-- Each request comes less than a window after the one before it, the first of them after `at`.
abbrev pub IsDrip : ℕ → ℕ → List ℕ → Type 0
IsDrip window at [] = Unit
IsDrip window at (now ∷ times) = (now < at + window) × IsDrip window now times

ceil_covers : (now at w : ℕ) → now < at + w → now < (at + w + 999) / 1_000 * 1_000
ceil_covers now at w h = omega arith

spend_step :
    (n max q : ℕ) → one_if (leb (n + 1) max) + min_of q (max - (n + 1)) ≡ min_of (suc q) (max - n)
spend_step n max q = ground arith

-- A prefix that is longer than `rate_limit`, as all three limiters have.
keys_differ :
    (c : LimiterConfig) (client : String)
    → 10 < len c.key_prefix
    → reset_key client ≢ redis_key c client
unfolding reset_key redis_key
keys_differ c client h e =
    let left = len-append "rate_limit:" client in
    let right = len-append c.key_prefix (String.◌++◌ ":" client) in
    let colon = len-append ":" client in
    let same : len (String.◌++◌ "rate_limit:" client)
        ≡ len (String.◌++◌ c.key_prefix (String.◌++◌ ":" client)) =
      ap len e in
    omega arith

reset-config :
    (deleted : Bool) (client : String) (l : Limiter)
    → (reset_limit deleted client l).0.config ≡ l.config
unfolding reset_limit
reset-config deleted client l = ground arith

module _ (r : Counters) (laws : IsRedisCounters r) where
  -- Over Redis, a client that has `n` requests counted and whose further requests come each less than
  -- a window after the one before: exactly the first `maxRequests - n` of them are granted, however
  -- long the sequence is, so that such a client is never granted anything again.
  pub drip_budget :
      (client : String) (at n : ℕ) (times : List ℕ) (s : r.State) (l : Limiter)
      → IsDrip l.config.window_ms at times
      → laws.Kept (redis_key l.config client) n (expiry_secs at l.config) s
      → grants r client times s l ≡ min_of (length times) (l.config.max_requests - n)
  unfolding grants shared_rate_limit distributed_rate_limit result_of
  drip_budget client at n [] s l h k = ground arith
  drip_budget client at n (now ∷ times) s l (h, hs) k =
      let key = redis_key l.config client in
      let (s', e, k') =
        laws.counts_on key now (expiry_secs now l.config) n (expiry_secs at l.config) s
          (unfold expiry_secs in ceil_covers now at l.config.window_ms h) k in
      let rest = drip_budget client now (n + 1) times s' l hs k' in
      rw (e, rest) (spend_step n l.config.max_requests (length times))

  reset_keeps :
      (client : String) (n t : ℕ) (s : r.State) (l : Limiter)
      → 10 < len l.config.key_prefix
      → laws.Kept (redis_key l.config client) n t s
      → laws.Kept (redis_key l.config client) n t (shared_reset r client s l).0
  unfolding shared_reset
  reset_keeps client n t s l longer k =
      let ne = keys_differ l.config client longer in
      if_both (laws.Kept (redis_key l.config client) n t) l.fallback s
        (r.del (reset_key client) s).0 k
        (laws.del_other (redis_key l.config client) (reset_key client) n t s ne k)

  -- With a key prefix longer than `rate_limit`, `resetLimit` leaves the client's counter in Redis as
  -- it is: a client that goes on after a reset, each request less than a window after the one
  -- before, is granted what it would be granted without the reset.
  pub reset_then_drip :
      (client : String) (at n : ℕ) (times : List ℕ) (s : r.State) (l : Limiter)
      → 10 < len l.config.key_prefix
      → IsDrip l.config.window_ms at times
      → laws.Kept (redis_key l.config client) n (expiry_secs at l.config) s
      → grants r client times (shared_reset r client s l).0 (shared_reset r client s l).1
        ≡ min_of (length times) (l.config.max_requests - n)
  reset_then_drip client at n times s l longer h k =
      let s' : r.State = (shared_reset r client s l).0 in
      let l' : Limiter = (shared_reset r client s l).1 in
      let same : l'.config ≡ l.config =
        unfold shared_reset in reset-config (r.del (reset_key client) s).1 client l in
      let kept = reset_keeps client n (expiry_secs at l.config) s l longer k in
      drip_budget client at n times s' l' (subst (λ g. IsDrip g.window_ms at times) (sym same) h)
        (subst (λ g. laws.Kept (redis_key g client) n (expiry_secs at g) s') (sym same) kept)
      ∙ ap (λ g. min_of (length times) (g.max_requests - n)) same
