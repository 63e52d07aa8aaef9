-- ===== src/RateLimit/Robust/Laws.antt =====
-- The limits that the distributed limiter keeps, in local fallback and over Redis, and strict mode.
use text.Mathlib.TextLemmas.{append_cancel_left}
use routiq.Base.{
  ℕ, ◌+◌, ◌-◌, ◌≤◌, ◌≡◌, ◌∙◌, refl, sym, ap, subst, ◌⊎◌, inl, inr, String, Bool, true, false, ◌||◌,
  ◌&&◌, Option, none, some, List, [], ◌∷◌, length, arith, All, leb, ltb, str_eq, eq_iff,
  if◌then◌else◌, Bool-cases,
}
use routiq.Base.Dict.{
  Dict, lookup, insert, lookup-insert, lookup-prune, IsDistinct, IsDistinct-insert,
  IsDistinct-prune, unless,
}
use routiq.RateLimit.Robust.{
  RateLimitRecord, LimiterConfig, Limiter, sweep_expired_windows, local_key, first_record, found_or,
  counted, result_of, local_rate_limit,
}

-- A request in local fallback: when, and whose.
pub record Request : Type 0 where
  pub at : ℕ
  pub client : String

unfoldable pub run_local : List Request → Limiter → Limiter
run_local [] l = l
run_local (r ∷ rs) l = run_local rs (local_rate_limit r.at r.client l).0

abbrev pub one_if : Bool → ℕ
one_if true = 1
one_if false = 0

-- how many requests of a client are allowed
unfoldable pub allowed : String → List Request → Limiter → ℕ
allowed c [] l = 0
allowed c (r ∷ rs) l =
    let (l', result) = local_rate_limit r.at r.client l in
    one_if (str_eq r.client c && result.allowed) + allowed c rs l'

-- how many requests of a client there are
abbrev pub requests_of : String → List Request → ℕ
requests_of c [] = 0
requests_of c (r ∷ rs) = one_if (str_eq r.client c) + requests_of c rs

local_key_inj : (c d : String) → local_key c ≡ local_key d → c ≡ d
local_key_inj c d h = append_cancel_left "rate_limit:local:" c d h

-- The sweep drops no window that is still open.
lookup-sweep :
    (now : ℕ) (k : String) (l : Limiter)
    → IsDistinct l.local_cache
    → (lookup k (sweep_expired_windows now l).local_cache ≡ lookup k l.local_cache)
      ⊎ (lookup k (sweep_expired_windows now l).local_cache
          ≡ unless (λ r. ltb r.reset_at now) (lookup k l.local_cache))
unfolding sweep_expired_windows
lookup-sweep now k l h = ground (arith, lookup-prune k (λ r. ltb r.reset_at now) l.local_cache h)

sweep-frame :
    (now : ℕ) (l : Limiter)
    → IsDistinct l.local_cache
    → IsDistinct (sweep_expired_windows now l).local_cache
      × ((sweep_expired_windows now l).config ≡ l.config)
unfolding sweep_expired_windows
sweep-frame now l h =
    elim (Bool-cases (ltb (length l.local_cache) 4_096 || ltb now (l.last_sweep_ms + 60_000))) [
      | inl e ↦ rw e (h, refl)
      | inr e ↦ rw e (IsDistinct-prune (λ r. ltb r.reset_at now) l.local_cache h, refl)
    ]

-- A client's record of a window that is open until at least `until`, with `n` requests in it; or
-- none yet, and no request.
abbrev Counts : ℕ → ℕ → Option RateLimitRecord → Type 0
Counts until n none = n ≡ 0
Counts until n (some r) = (r.count ≡ n) × (until ≤ r.reset_at)

Counts-unless :
    (now until n : ℕ) (o : Option RateLimitRecord)
    → now ≤ until
    → Counts until n o
    → unless (λ r. ltb r.reset_at now) o ≡ o
Counts-unless now until n none h c = refl
Counts-unless now until n (some r) h c = ground arith

Counts-counted :
    (now until n : ℕ) (c : LimiterConfig) (o : Option RateLimitRecord)
    → now ≤ until
    → until ≤ now + c.window_ms
    → Counts until n o
    → Counts until (n + 1) (some (counted now c (found_or (first_record now c) o)))
unfolding counted
Counts-counted now until n c none h k e = ground arith
Counts-counted now until n c (some r) h k e = ground arith

-- A request of somebody else leaves a client's record alone.
Counts-sweep :
    (now until n : ℕ) (k : String) (l : Limiter)
    → IsDistinct l.local_cache
    → now ≤ until
    → Counts until n (lookup k l.local_cache)
    → lookup k (sweep_expired_windows now l).local_cache ≡ lookup k l.local_cache
Counts-sweep now until n k l d h c = elim (lookup-sweep now k l d) [
  | inl e ↦ e
  | inr e ↦ e ∙ Counts-unless now until n (lookup k l.local_cache) h c
]

-- What a request does to the record of client `c`, and when it is allowed.
IsStep : ℕ → ℕ → String → Request → Limiter → Type 0
unfolding local_rate_limit
IsStep until n c r l =
    let (l', result) = local_rate_limit r.at r.client l in
    IsDistinct l'.local_cache
    × (l'.config ≡ l.config)
    × Counts until (n + one_if (str_eq r.client c)) (lookup (local_key c) l'.local_cache)
    × (one_if (str_eq r.client c && result.allowed)
        ≡ one_if (str_eq r.client c && ltb n l.config.max_requests))

same_key : (c d : String) → str_eq c d ≡ true → str_eq (local_key c) (local_key d) ≡ true
same_key c d h = (eq_iff (local_key c) (local_key d)).1 (ap local_key ((eq_iff c d).0 h))

other_key : (c d : String) → str_eq c d ≡ false → str_eq (local_key c) (local_key d) ≡ false
other_key c d h = elim (Bool-cases (str_eq (local_key c) (local_key d))) [
  | inl e ↦
      let same = (eq_iff c d).1 (local_key_inj c d ((eq_iff (local_key c) (local_key d)).0 e)) in
      cc (same, h)
  | inr e ↦ e
]

leb_suc : (m n k : ℕ) → m ≡ n + 1 → leb m k ≡ ltb n k
leb_suc m n k h = ground arith

local_rate_limit-IsStep :
    (until n : ℕ) (c : String) (r : Request) (l : Limiter)
    → IsDistinct l.local_cache
    → r.at ≤ until
    → until ≤ r.at + l.config.window_ms
    → Counts until n (lookup (local_key c) l.local_cache)
    → IsStep until n c r l
unfolding IsStep local_rate_limit result_of
local_rate_limit-IsStep until n c r l d h k e =
    let m : Dict RateLimitRecord = (sweep_expired_windows r.at l).local_cache in
    let frame = sweep-frame r.at l d in
    let same = Counts-sweep r.at until n (local_key c) l d h e in
    let found : Option RateLimitRecord = lookup (local_key r.client) m in
    let entry : RateLimitRecord =
      counted r.at l.config (found_or (first_record r.at l.config) found) in
    let put = lookup-insert (local_key r.client) (local_key c) entry m in
    let distinct = IsDistinct-insert (local_key r.client) entry m frame.0 in
    elim (Bool-cases (str_eq r.client c)) [
      | inl eq ↦
          let there : found ≡ lookup (local_key c) l.local_cache =
            ap (λ d. lookup (local_key d) m) ((eq_iff r.client c).0 eq) ∙ same in
          let more : Counts until (n + 1) (some entry) =
            Counts-counted r.at until n l.config found h k (subst (Counts until n) (sym there) e) in
          let now_there : lookup (local_key c) (insert (local_key r.client) entry m) ≡ some entry =
            put
            ∙ ap (λ b. if b then some entry else lookup (local_key c) m) (same_key r.client c eq) in
          (
            distinct,
            frame.1,
            rw eq (subst (Counts until (n + 1)) (sym now_there) more),
            rw eq (ap one_if (leb_suc entry.count n l.config.max_requests more.0)),
          )
      | inr ne ↦
          let still : lookup (local_key c) (insert (local_key r.client) entry m)
              ≡ lookup (local_key c) l.local_cache =
            put
            ∙ ap (λ b. if b then some entry else lookup (local_key c) m) (other_key r.client c ne)
            ∙ same in
          let plus_zero : n ≡ n + 0 = omega arith in
          (
            distinct,
            frame.1,
            rw ne (
                subst
                  (λ j. Counts until j (lookup (local_key c) (insert (local_key r.client) entry m)))
                  plus_zero (subst (Counts until n) (sym still) e)),
            rw ne refl,
          )
    ]

abbrev pub min_of : ℕ → ℕ → ℕ
min_of a b = if leb a b then a else b

-- every request at a time from `since` to `until`
abbrev pub During : ℕ → ℕ → List Request → Type 0
During since until = All (λ r. (since ≤ r.at) × (r.at ≤ until))

budget_step :
    (b : Bool) (n max q : ℕ)
    → one_if (b && ltb n max) + min_of q (max - (n + one_if b)) ≡ min_of (one_if b + q) (max - n)
budget_step b n max q = ground arith

budget_left :
    (since until n : ℕ) (c : String) (rs : List Request) (l : Limiter)
    → IsDistinct l.local_cache
    → until ≤ since + l.config.window_ms
    → During since until rs
    → Counts until n (lookup (local_key c) l.local_cache)
    → allowed c rs l ≡ min_of (requests_of c rs) (l.config.max_requests - n)
unfolding allowed IsStep
budget_left since until n c [] l d w h e = ground arith
budget_left since until n c (r ∷ rs) l d w ((h, k), hs) e =
    let l' : Limiter = (local_rate_limit r.at r.client l).0 in
    let step : IsStep until n c r l = local_rate_limit-IsStep until n c r l d k (omega arith) e in
    let spent : ℕ = n + one_if (str_eq r.client c) in
    let (distinct, config, counts, now_allowed) = step in
    let window : until ≤ since + l'.config.window_ms =
      subst (λ g. until ≤ since + g.window_ms) (sym config) w in
    let rest = budget_left since until spent c rs l' distinct window hs counts in
    let max : l'.config.max_requests ≡ l.config.max_requests = ap (λ g. g.max_requests) config in
    let at_max : allowed c rs l' ≡ min_of (requests_of c rs) (l.config.max_requests - spent) =
      rest ∙ ap (λ m. min_of (requests_of c rs) (m - spent)) max in
    ap (λ a. a + allowed c rs l') now_allowed
    ∙ ap (λ a. one_if (str_eq r.client c && ltb n l.config.max_requests) + a) at_max
    ∙ budget_step (str_eq r.client c) n l.config.max_requests (requests_of c rs)

-- In local fallback, from a map of windows in which no key stands twice and client `c` has none,
-- requests at times that lie within one window's length of each other: exactly the first
-- `maxRequests` of the client are allowed, whatever the other clients do and whatever is swept.
pub local_budget :
    (since until : ℕ) (c : String) (rs : List Request) (l : Limiter)
    → IsDistinct l.local_cache
    → lookup (local_key c) l.local_cache ≡ none
    → until ≤ since + l.config.window_ms
    → During since until rs
    → allowed c rs l ≡ min_of (requests_of c rs) l.config.max_requests
local_budget since until c rs l d none_yet w h =
    budget_left since until 0 c rs l d w h (subst (Counts until 0) (sym none_yet) refl)
    ∙ ap (min_of (requests_of c rs)) (omega arith)
