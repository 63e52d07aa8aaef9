-- ===== src/Codes.antt =====
-- Opaque one-time codes: what the services share. A code is kept in Redis, or in a map of the
-- process where Redis is not available and the deployment is not production.
pub mod Exchange
pub mod Pkce
pub mod Poll
pub mod EmailLink
mod Tests
use routiq.Base.{
  ℕ, ◌+◌, ◌*◌, String, Bool, true, false, ◌||◌, Option, none, some, leb, ltb, str_eq, eq_refl, ◌≡◌,
  if◌then◌else◌,
}
use routiq.Base.Dict.{Dict, lookup, insert, remove, prune, lookup-insert, lookup-remove}

-- A value with the time, in milliseconds, at which it expires.
pub record Entry {ℓ} (P : Type ℓ) : Type ℓ where
  pub payload : P
  pub exp : ℕ

-- a service that may throw
pub data Result {ℓ} (A : Type ℓ) : Type ℓ where
  ok : A → Result A
  thrown : String → Result A

-- The Redis server and the map of the process.
pub record World {ℓ} (S P : Type ℓ) : Type ℓ where
  pub redis : S
  pub memory : Dict (Entry P)

abbrev pub code_bytes : ℕ
code_bytes = 32

-- JSON text of a value; `decode` is none where `JSON.parse` throws or the text is another value
pub record Codec {ℓ} (P : Type ℓ) : Type ℓ where
  pub encode : P → String
  pub decode : String → Option P

module _ {ℓ} {P : Type ℓ} where
  -- `pruneMemory`: drop what has expired
  unfoldable pub prune_memory : ℕ → Dict (Entry P) → Dict (Entry P)
  prune_memory now m = prune (λ e. leb e.exp now) m

  -- `pruneMemory(); map.set(code, { payload, exp: Date.now() + ttl * 1000 })`
  unfoldable pub remember : ℕ → ℕ → String → P → Dict (Entry P) → Dict (Entry P)
  unfolding prune_memory
  remember now ttl code payload m =
      insert code (record { payload = payload; exp = now + ttl * 1000 }) (prune_memory now m)

  -- `!entry || entry.exp < Date.now()` gives nothing
  unfoldable pub live : ℕ → Option (Entry P) → Option P
  live now none = none
  live now (some e) = if ltb e.exp now then none else some e.payload

  -- What was remembered is there until it expires.
  pub live-remember :
      (now now' ttl : ℕ) (code : String) (payload : P) (m : Dict (Entry P))
      → live now' (lookup code (remember now ttl code payload m))
        ≡ (if ltb (now + ttl * 1000) now' then none else some payload)
  unfolding remember live
  live-remember now now' ttl code payload m = rw (
    lookup-insert code code (record { payload = payload; exp = now + ttl * 1000 })
        (prune_memory now m),
    eq_refl code,
  )

  -- What was removed is not there.
  pub live-remove :
      (now : ℕ) (code : String) (m : Dict (Entry P)) → live now (lookup code (remove code m)) ≡ none
  unfolding live
  live-remove now code m = rw (lookup-remove code code m, eq_refl code)
