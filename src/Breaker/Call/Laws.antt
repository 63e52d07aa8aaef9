-- ===== src/Breaker/Call/Laws.antt =====
-- A call settles once, whatever else the breaker does meanwhile, and no slot leaks.
use routiq.Base.{
  ℕ, suc, ◌+◌, ◌≡◌, ◌∙◌, refl, ap, subst, String, true, false, Option, none, some, List, [], ◌∷◌,
  arith,
}
use routiq.Breaker.Window.{RedisCallOutcome, success, timeout}
use routiq.Breaker.Circuit.{Env, CircuitBreaker, acquire, release}
use routiq.Breaker.Circuit.Moves.{Accounted, acquire-Accounted}
use routiq.Breaker.Circuit.Kept.{inflight-release}
use routiq.Breaker.Circuit.Run.{Op, releases, perform, run}
use routiq.Breaker.Call.{
  classify_redis_error, CallResult, ok, failed, Call, Ending, deadline, fulfilled, thrown,
  finish_by,
}

-- The calls of others on the shared breaker, and the endings of this one.
pub data Item {ℓ} (A : Type ℓ) : Type ℓ where
  other : Op → Item A
  ends : Ending A → Item A

module _ {ℓ} {A : Type ℓ} (to_lower : String → String) where
  unfoldable pub run_items : List (Item A) → CircuitBreaker → Call A → CircuitBreaker × Call A
  run_items [] b call = (b, call)
  run_items (other op ∷ items) b call = run_items items (perform op b) call
  run_items (ends e ∷ items) b call =
      let (b', call') = finish_by to_lower e b call in run_items items b' call'

  -- the release and the result of one ending
  abbrev pub release_of : Ending A → Op
  release_of (deadline env us) = releases env timeout us
  release_of (fulfilled env us value) = releases env success us
  release_of (thrown env us e) = releases env (classify_redis_error to_lower e) us

  abbrev pub result_of : Ending A → CallResult A
  result_of (deadline env us) = failed timeout
  result_of (fulfilled env us value) = ok value
  result_of (thrown env us e) = failed (classify_redis_error to_lower e)

  abbrev pub others : List (Item A) → List Op
  others [] = []
  others (other op ∷ items) = op ∷ others items
  others (ends e ∷ items) = others items

  -- the breaker's operations: the first ending releases, the later ones do nothing
  abbrev pub effects : List (Item A) → List Op
  effects [] = []
  effects (other op ∷ items) = op ∷ effects items
  effects (ends e ∷ items) = release_of e ∷ others items

  abbrev pub first_result : List (Item A) → Option (CallResult A)
  first_result [] = none
  first_result (other op ∷ items) = first_result items
  first_result (ends e ∷ items) = some (result_of e)

  finish_by-settled :
      (e : Ending A) (b : CircuitBreaker) (call : Call A)
      → call.settled ≡ true
      → finish_by to_lower e b call ≡ (b, call)
  unfolding finish_by
  finish_by-settled (deadline env us) b call h = rw h
  finish_by-settled (fulfilled env us value) b call h = rw h
  finish_by-settled (thrown env us e) b call h = rw h

  run_items-settled :
      (items : List (Item A)) (b : CircuitBreaker) (call : Call A)
      → call.settled ≡ true
      → run_items items b call ≡ (run (others items) b, call)
  unfolding run_items run
  run_items-settled [] b call h = refl
  run_items-settled (other op ∷ items) b call h = run_items-settled items (perform op b) call h
  run_items-settled (ends e ∷ items) b call h =
      rw (finish_by-settled e b call h) (run_items-settled items b call h)

  abbrev pub pending : Call A
  pending = record { settled = false; resolved = none }

  finish_by-pending :
      (e : Ending A) (b : CircuitBreaker)
      → finish_by to_lower e b pending
        ≡ (perform (release_of e) b, record { settled = true; resolved = some (result_of e) })
  unfolding finish_by perform
  finish_by-pending (deadline env us) b = refl
  finish_by-pending (fulfilled env us value) b = refl
  finish_by-pending (thrown env us e) b = refl

  run_items-first :
      (e : Ending A) (items : List (Item A)) (b : CircuitBreaker)
      → run_items (ends e ∷ items) b pending ≡ (
        run (others items) (perform (release_of e) b),
        record { settled = true; resolved = some (result_of e) },
      )
  unfolding run_items
  run_items-first e items b =
      ap (λ (r : CircuitBreaker × Call A). run_items items r.0 r.1) (finish_by-pending e b)
      ∙ run_items-settled items (perform (release_of e) b)
          (record { settled = true; resolved = some (result_of e) }) refl

  -- A call that was let through settles once: however its timer and its command race, and whatever
  -- others do meanwhile, the breaker sees one release, that of the first ending, and the caller
  -- gets the result of the first ending.
  pub settles_once :
      (items : List (Item A)) (b : CircuitBreaker)
      → ((run_items items b pending).0 ≡ run (effects items) b)
        × ((run_items items b pending).1.resolved ≡ first_result items)
  unfolding run_items run
  settles_once [] b = (refl, refl)
  settles_once (other op ∷ items) b = settles_once items (perform op b)
  settles_once (ends e ∷ items) b =
      let first = run_items-first e items b in (ap (λ r. r.0) first, ap (λ r. r.1.resolved) first)

-- The breaker together with the calls that were let through and have not settled.
pub record System : Type 0 where
  pub breaker : CircuitBreaker
  pub unsettled : ℕ

abbrev pub joined : ℕ → CircuitBreaker × Option RedisCallOutcome → System
joined n (b, none) = record { breaker = b; unsettled = n + 1 }
joined n (b, some outcome) = record { breaker = b; unsettled = n }

-- A call begins; or one of those not settled ends with any outcome.
pub data Step : System → System → Type 0 where
  begins : (s : System) (env : Env) → Step s (joined s.unsettled (acquire env s.breaker))
  settles :
      (s : System) (env : Env) (outcome : RedisCallOutcome) (us n : ℕ)
      → s.unsettled ≡ suc n
      → Step s (record { breaker = release env outcome us s.breaker; unsettled = n })

pub data Reach (s : System) : System → Type 0 where
  here : Reach s s
  next : {t u : System} → Reach s t → Step t u → Reach s u

abbrev pub IsAccounted : System → Type 0
IsAccounted s = s.breaker.inflight ≡ s.unsettled

joined-IsAccounted :
    (b : CircuitBreaker) (r : CircuitBreaker × Option RedisCallOutcome)
    → Accounted b r
    → IsAccounted (joined b.inflight r)
joined-IsAccounted b (b', none) h = h.0
joined-IsAccounted b (b', some outcome) h = h.0

Step-IsAccounted : {s t : System} → Step s t → IsAccounted s → IsAccounted t
Step-IsAccounted (begins s env) h =
    subst (λ n. IsAccounted (joined n (acquire env s.breaker))) h
      (joined-IsAccounted s.breaker (acquire env s.breaker) (acquire-Accounted env s.breaker))
Step-IsAccounted (settles s env outcome us n e) h =
    omega (arith, inflight-release env outcome us s.breaker)

-- No slot leaks and none is freed twice: from any system that counts right, however calls begin
-- and end, the breaker counts exactly the calls that were let through and have not settled.
pub slots_accounted : {s t : System} → IsAccounted s → Reach s t → t.breaker.inflight ≡ t.unsettled
slots_accounted h here = h
slots_accounted h (next r st) = Step-IsAccounted st (slots_accounted h r)
