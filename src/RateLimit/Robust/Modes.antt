-- ===== src/RateLimit/Robust/Modes.antt =====
-- The two modes of the rate limiter: strict, which refuses while Redis is down, and permissive,
-- which limits locally and comes back.
use routiq.Base.{
  ℕ, ◌+◌, ◌*◌, ◌/◌, ◌≤◌, ◌≡◌, ◌∙◌, refl, ap, String, Bool, true, false, List, [], ◌∷◌, map, arith,
  Bool-cases, inl, inr, if◌then◌else◌, if_both, not, ltb,
}
use routiq.RateLimit.Robust.{
  RateLimitResult, LimiterConfig, Reply, answer, unavailable, Limiter, new_limiter, init,
  PipelineReply, no_results, failed, first_result, degrade_to_local, local_rate_limit,
  sweep_expired_windows, distributed_rate_limit, try_recover_from_fallback, check_limit,
  reset_limit, result_of,
}

-- A call of the limiter, with what Redis answers during it.
pub data Op : Type 0 where
  checks : (now now' : ℕ) → (ping : Bool) → (reply : PipelineReply) → (client : String) → Op
  resets : (deleted : Bool) → (client : String) → Op

unfoldable pub perform : Op → Limiter → Limiter
perform (checks now now' ping reply client) l = (check_limit now now' ping reply client l).0
perform (resets deleted client) l = (reset_limit deleted client l).0

unfoldable pub run : List Op → Limiter → Limiter
run [] l = l
run (o ∷ os) l = run os (perform o l)

abbrev IsRefusal {ℓ} : {A : Type ℓ} → Reply A → Type 0
IsRefusal (answer a) = ⊥
IsRefusal unavailable = Unit

abbrev Refuses : Op → Limiter → Type 0
Refuses (checks now now' ping reply client) l =
    IsRefusal (check_limit now now' ping reply client l).1
Refuses (resets deleted client) l = IsRefusal (reset_limit deleted client l).1

-- No call of the run is refused.
unfoldable pub NeverRefuses : List Op → Limiter → Type 0
NeverRefuses [] l = Unit
NeverRefuses (o ∷ os) l = (Refuses o l → ⊥) × NeverRefuses os (perform o l)

perform_strict :
    (o : Op) (l : Limiter) → l.allow_fallback ≡ false → l.fallback ≡ false → perform o l ≡ l
unfolding perform check_limit reset_limit distributed_rate_limit degrade_to_local
perform_strict (checks now now' ping no_results client) l h k = rw (h, k) refl
perform_strict (checks now now' ping failed client) l h k = rw (h, k) refl
perform_strict (checks now now' ping (first_result n) client) l h k = rw (h, k) refl
perform_strict (resets true client) l h k = rw (h, k) refl
perform_strict (resets false client) l h k = rw (h, k) refl

run_strict :
    (os : List Op) (l : Limiter) → l.allow_fallback ≡ false → l.fallback ≡ false → run os l ≡ l
unfolding run
run_strict [] l h k = refl
run_strict (o ∷ os) l h k = ap (run os) (perform_strict o l h k) ∙ run_strict os l h k

init_strict :
    (pings : List Bool) (c : LimiterConfig) → (init pings (new_limiter c false)).0.fallback ≡ false
unfolding init new_limiter
init_strict pings c = ground arith

-- An answered call after which the mode is permissive still.
abbrev Answers {ℓ} : {A : Type ℓ} → Limiter × Reply A → Type 0
Answers (l, r) = (IsRefusal r → ⊥) × (l.allow_fallback ≡ true)

if_allowed {ℓ κ} :
    {A : Type ℓ} (P : A → Type κ) (b : Bool) (x y : A) → b ≡ true → P y → P (if not b then x else y)
if_allowed P true x y h p = p
if_allowed P false x y h p = cc h

local-allow :
    (now : ℕ) (client : String) (l : Limiter)
    → (local_rate_limit now client l).0.allow_fallback ≡ l.allow_fallback
unfolding local_rate_limit sweep_expired_windows
local-allow now client l = ground arith

degrade-Answers :
    (now : ℕ) (client : String) (l : Limiter)
    → l.allow_fallback ≡ true
    → Answers (degrade_to_local now client l)
unfolding degrade_to_local
degrade-Answers now client l h =
    let back : Limiter = record l { fallback = true } in
    if_allowed Answers l.allow_fallback _ _ h ((λ r. r), local-allow now client back ∙ h)

distributed-Answers :
    (now : ℕ) (reply : PipelineReply) (client : String) (l : Limiter)
    → l.allow_fallback ≡ true
    → Answers (distributed_rate_limit now reply client l)
unfolding distributed_rate_limit
distributed-Answers now no_results client l h = degrade-Answers now client l h
distributed-Answers now failed client l h = degrade-Answers now client l h
distributed-Answers now (first_result n) client l h = ((λ r. r), h)

probe-allow :
    (now : ℕ) (ping : Bool) (l : Limiter)
    → (try_recover_from_fallback now ping l).allow_fallback ≡ l.allow_fallback
unfolding try_recover_from_fallback
probe-allow now ping l = ground arith

check-Answers :
    (now now' : ℕ) (ping : Bool) (reply : PipelineReply) (client : String) (l : Limiter)
    → l.allow_fallback ≡ true
    → Answers (check_limit now now' ping reply client l)
unfolding check_limit
check-Answers now now' ping reply client l h =
    let probed : Limiter = try_recover_from_fallback now ping l in
    let still = probe-allow now ping l ∙ h in
    if_both Answers l.fallback _ _
      (if_allowed Answers l.allow_fallback _ _ h (
        if_both Answers probed.fallback _ _ ((λ r. r), local-allow now' client probed ∙ still)
          (distributed-Answers now' reply client probed still)))
      (distributed-Answers now' reply client l h)

reset-Answers :
    (deleted : Bool) (client : String) (l : Limiter)
    → l.allow_fallback ≡ true
    → Answers (reset_limit deleted client l)
unfolding reset_limit
reset-Answers deleted client l h =
    if_both Answers l.fallback _ _ ((λ r. r), h)
      (if_both Answers deleted _ _ ((λ r. r), h)
        (if_allowed Answers l.allow_fallback _ _ h ((λ r. r), h)))

perform-Answers :
    (o : Op) (l : Limiter)
    → l.allow_fallback ≡ true
    → (Refuses o l → ⊥) × ((perform o l).allow_fallback ≡ true)
unfolding perform
perform-Answers (checks now now' ping reply client) l h =
    check-Answers now now' ping reply client l h
perform-Answers (resets deleted client) l h = reset-Answers deleted client l h

-- The limiter's strict mode, from construction: whatever the pings of starting and however many calls
-- follow, with whatever answers of Redis, no client is ever counted locally.
pub strict_never_local :
    (c : LimiterConfig) (pings : List Bool) (os : List Op)
    → (run os (init pings (new_limiter c false)).0).local_cache ≡ []
unfolding init new_limiter
strict_never_local c pings os =
    let l : Limiter = (init pings (new_limiter c false)).0 in
    ap (λ m. m.local_cache) (run_strict os l (ground arith) (init_strict pings c)) ∙ ground arith

-- The limiter's permissive mode refuses no call as unavailable.
pub permissive-NeverRefuses :
    (os : List Op) (l : Limiter) → l.allow_fallback ≡ true → NeverRefuses os l
unfolding NeverRefuses
permissive-NeverRefuses [] l h = tt
permissive-NeverRefuses (o ∷ os) l h =
    let (answered, still) = perform-Answers o l h in
    (answered, permissive-NeverRefuses os (perform o l) still)

-- A check while Redis answers both its ping and its pipeline.
pub record Served : Type 0 where
  pub now : ℕ
  pub now' : ℕ
  pub client : String
  pub count : ℕ

unfoldable pub serve : List Served → Limiter → List (Reply RateLimitResult)
serve [] l = []
serve (s ∷ ss) l =
    let (l', reply) = check_limit s.now s.now' true (first_result s.count) s.client l in
    reply ∷ serve ss l'

-- what Redis' count means
abbrev pub shared_result : LimiterConfig → Served → Reply RateLimitResult
shared_result c s = answer (result_of c s.count (s.now' / c.window_ms * c.window_ms + c.window_ms))

check_healthy :
    (s : Served) (l : Limiter)
    → l.fallback ≡ false
    → check_limit s.now s.now' true (first_result s.count) s.client l
      ≡ (l, shared_result l.config s)
unfolding check_limit distributed_rate_limit
check_healthy s l h = rw h refl

serve_healthy :
    (ss : List Served) (l : Limiter)
    → l.fallback ≡ false
    → serve ss l ≡ map (shared_result l.config) ss
unfolding serve
serve_healthy [] l h = refl
serve_healthy (s ∷ ss) l h =
    rw (check_healthy s l h) (ap (λ r. shared_result l.config s ∷ r) (serve_healthy ss l h))

check_recovers :
    (s : Served) (l : Limiter)
    → l.allow_fallback ≡ true
    → l.fallback ≡ true
    → l.last_recovery_probe_ms + 30_000 ≤ s.now
    → check_limit s.now s.now' true (first_result s.count) s.client l
      ≡ (record l { last_recovery_probe_ms = s.now; fallback = false }, shared_result l.config s)
unfolding check_limit distributed_rate_limit try_recover_from_fallback
check_recovers s l h k le =
    let due : ltb s.now (l.last_recovery_probe_ms + 30_000) ≡ false = ground arith in
    rw (due, k, h) refl

-- A permissive limiter whose last probe of Redis is at least 30 s old, degraded or not: from the
-- moment that Redis answers, every check has Redis' count for its answer, from the first on.
pub serve_recovers :
    (s : Served) (ss : List Served) (l : Limiter)
    → l.allow_fallback ≡ true
    → l.last_recovery_probe_ms + 30_000 ≤ s.now
    → serve (s ∷ ss) l ≡ map (shared_result l.config) (s ∷ ss)
unfolding serve
serve_recovers s ss l h le =
    let back : Limiter = record l { last_recovery_probe_ms = s.now; fallback = false } in
    elim (Bool-cases l.fallback) [
      | inr e ↦ serve_healthy (s ∷ ss) l e
      | inl e ↦
          rw (check_recovers s l h e le)
            (ap (λ r. shared_result l.config s ∷ r) (serve_healthy ss back refl))
    ]
