-- ===== src/Auth/Revoke.antt =====
-- uam-backend/src/services/revoke.service.ts: which token the control plane is asked to revoke, and for
-- how long. Whether it accepts is ignored by all that call it.
use routiq.Base.{
  ℕ, zero, suc, ◌-◌, ◌≤◌, min, max, String, Option, none, some, [], ◌∷◌, ◌++◌, leb, str_eq, arith,
  if◌then◌else◌,
}
use routiq.Session.{Site, by_token, extract_access_jti}
use routiq.Auth.{Env, present}

-- `exp` and the time are in seconds
unfoldable pub remaining_ttl_secs : Option ℕ → ℕ → ℕ
remaining_ttl_secs none now = 3600
remaining_ttl_secs (some zero) now = 3600
remaining_ttl_secs (some (suc n)) now =
    if leb (suc n) now then 60 else min (max (suc n - now) 60) 86_400

-- What the gateway is asked to keep is a minute at least and a day at most.
pub remaining_ttl_secs_bounded :
    (exp : Option ℕ) (now : ℕ)
    → (60 ≤ remaining_ttl_secs exp now) × (remaining_ttl_secs exp now ≤ 86_400)
unfolding remaining_ttl_secs
remaining_ttl_secs_bounded none now = (omega arith, omega arith)
remaining_ttl_secs_bounded (some zero) now = (omega arith, omega arith)
remaining_ttl_secs_bounded (some (suc n)) now = (ground arith, ground arith)

abbrev pub jti_claim : Option (Option String × Option ℕ) → Option String
jti_claim none = none
jti_claim (some (jti, exp)) = jti

abbrev pub exp_claim : Option (Option String × Option ℕ) → Option ℕ
exp_claim none = none
exp_claim (some (jti, exp)) = exp

module _ (e : Env) where
  -- `extractAccessJti` with this process's decoder
  abbrev pub jti_of : String → Option String
  jti_of token = extract_access_jti e.split (λ part. jti_claim (e.claims part)) token

  -- `decodePayload`
  unfoldable pub decode_payload : String → Option (Option String × Option ℕ)
  decode_payload token = elim (e.split token) [ a ∷ b ∷ c ∷ [] ↦ e.claims b | _ ↦ none ]

  -- `revokeAccessToken` without options; `now` is in seconds
  unfoldable pub revoke_access_token : {S T : Type 0} → ℕ → String → Site S T → Site S T
  unfolding decode_payload remaining_ttl_secs
  revoke_access_token now raw w =
      let token : String = e.clean raw in
      let payload = decode_payload token in
      if str_eq token "" then w else record w {
        revoked =
            w.revoked
            ++ by_token token (present (jti_claim payload))
                (remaining_ttl_secs (exp_claim payload) now)
              ∷ [];
      }
