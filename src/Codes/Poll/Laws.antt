-- ===== src/Codes/Poll/Laws.antt =====
-- What a poll token promises: it names its user for a day, as often as asked, until it is revoked.
use Prim.Native.String.{count}
use routiq.Base.{
  ℕ, ◌+◌, ◌*◌, ◌≤◌, ◌≡◌, ◌≢◌, sym, ◌∙◌, String, false, none, some, arith, ltb, eq_iff,
  if◌then◌else◌,
}
use routiq.Base.Dict.{lookup, remove}
use routiq.Redis.{Redis}
use routiq.Codes.{ok, World, code_bytes, remember, live, live-remember, live-remove}
use routiq.Codes.Poll.{
  create_verification_poll_token, resolve_from_memory, resolve_verification_poll_token,
  revoke_verification_poll_token, poll_ttl_secs,
}

module _ (R : Redis) where
  open R use {State, available}

  resolve_given :
      (now : ℕ) (token : String) (w : World State String)
      → token ≢ ""
      → code_bytes * 2 ≤ count token
      → available w.redis ≡ false
      → resolve_verification_poll_token R now token w ≡ resolve_from_memory R now token w
  unfolding resolve_verification_poll_token
  resolve_given now token w h k off = ground (arith, eq_iff token "")

  revoke_given :
      (token : String) (w : World State String)
      → token ≢ ""
      → available w.redis ≡ false
      → revoke_verification_poll_token R token w ≡ record w { memory = remove token w.memory }
  unfolding revoke_verification_poll_token
  revoke_given token w h off = ground (arith, eq_iff token "")

  create_given :
      (now : ℕ) (token id : String) (w : World State String)
      → available w.redis ≡ false
      → create_verification_poll_token R false now token id w
        ≡ (record w { memory = remember now poll_ttl_secs token id w.memory }, ok token)
  unfolding create_verification_poll_token
  create_given now token id w off = ground arith

  resolved-resolve_from_memory :
      (now : ℕ) (token : String) (w : World State String)
      → (resolve_from_memory R now token w).1 ≡ live now (lookup token w.memory)
  unfolding resolve_from_memory
  resolved-resolve_from_memory now token w = ground arith

  world-resolve_from_memory :
      (now : ℕ) (token : String) (w : World State String) {id : String}
      → live now (lookup token w.memory) ≡ some id
      → (resolve_from_memory R now token w).0 ≡ w
  unfolding resolve_from_memory
  world-resolve_from_memory now token w h = ground arith

  -- Without Redis, outside production: a poll token resolves to its user exactly while a day has
  -- not passed.
  pub poll_round_trip :
      (now now' : ℕ) (token id : String) (w : World State String)
      → token ≢ ""
      → code_bytes * 2 ≤ count token
      → available w.redis ≡ false
      → (resolve_verification_poll_token R now' token
          (create_verification_poll_token R false now token id w).0).1
        ≡ (if ltb (now + 86_400_000) now' then none else some id)
  poll_round_trip now now' token id w h k off =
      let w' : World State String = record w {
        memory = remember now poll_ttl_secs token id w.memory;
      } in
      rw (create_given now token id w off) (
        rw (resolve_given now' token w' h k off) (
          resolved-resolve_from_memory now' token w'
          ∙ live-remember now now' poll_ttl_secs token id w.memory))

  -- A token that resolved stays: the same poll gives the same user again. After it was revoked it
  -- resolves to nobody.
  pub poll_repeats :
      (now now' : ℕ) (token id : String) (w : World State String)
      → token ≢ ""
      → code_bytes * 2 ≤ count token
      → available w.redis ≡ false
      → (resolve_verification_poll_token R now token w).1 ≡ some id
      → ((resolve_verification_poll_token R now token w).0 ≡ w)
        × ((resolve_verification_poll_token R now' token
              (revoke_verification_poll_token R token w)).1
            ≡ none)
  poll_repeats now now' token id w h k off e =
      let w' : World State String = record w { memory = remove token w.memory } in
      (
        rw (resolve_given now token w h k off) (
            world-resolve_from_memory now token w (
              sym (resolved-resolve_from_memory now token w)
              ∙ (rw (resolve_given now token w h k off) at e))),
        rw (revoke_given token w h off) (
            rw (resolve_given now' token w' h k off)
              (resolved-resolve_from_memory now' token w' ∙ live-remove now' token w.memory)),
      )
