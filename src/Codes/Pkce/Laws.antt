-- ===== src/Codes/Pkce/Laws.antt =====
-- What the OAuth state promises: it proves possession of the verifier, for ten minutes, and once;
-- and a redirect goes to an allowed client only.
use Prim.Native.String
use Prim.Native.String.{count}
use routiq.Base.{
  ℕ, ◌+◌, ◌≤◌, ◌≡◌, ◌≢◌, refl, ap, ◌∙◌, ◌⊎◌, inl, inr, String, true, false, Option, none, some,
  List, [], ◌∷◌, arith, ltb, str_eq, eq_iff, if◌then◌else◌, Bool-cases, Option-cases,
}
use routiq.Base.Dict.{lookup, remove}
use routiq.Redis.{Redis}
use routiq.Codes.{ok, World, Codec, remember, live, live-remember, live-remove}
use routiq.Codes.Pkce.{
  StateRecord, Url, is_allowed_origin, resolve_client_redirect_uri, given, verified,
  create_oauth_state, peek_oauth_state_redirect_uri, consume_from_memory, consume_oauth_state,
  state_ttl_secs, redirect_of,
}

-- A base among the client URLs parses to the origin.
abbrev pub HasOrigin : (String → Option Url) → List String → String → Type 0
HasOrigin parse_url [] origin = ⊥
HasOrigin parse_url (base ∷ bases) origin =
    ((u : Url) × (parse_url base ≡ some u) × (u.origin ≡ origin)) ⊎ HasOrigin parse_url bases origin

module _ (parse_url : String → Option Url) (drop_slash : String → String) where
  is_allowed_origin-HasOrigin :
      (bases : List String) (origin : String)
      → is_allowed_origin parse_url bases origin ≡ true
      → HasOrigin parse_url bases origin
  unfolding is_allowed_origin
  is_allowed_origin-HasOrigin [] origin h = cc
  is_allowed_origin-HasOrigin (base ∷ bases) origin h = elim (Option-cases (parse_url base)) [
    | inl e ↦ inr (is_allowed_origin-HasOrigin bases origin (ground arith))
    | inr (u, e) ↦ elim (Bool-cases (str_eq u.origin origin)) [
      | inl same ↦ inl (u, e, (eq_iff _ _).0 same)
      | inr other ↦ inr (is_allowed_origin-HasOrigin bases origin (ground arith))
    ]
  ]

  -- What an accepted redirect is.
  pub record IsClient (client_urls : List String) (uri target : String) : Type 0 where
    pub parsed : Url
    pub parses : parse_url uri ≡ some parsed
    pub scheme : (parsed.protocol ≡ "https:") ⊎ (parsed.protocol ≡ "http:")
    pub path : drop_slash parsed.pathname ≡ "/oauth-callback"
    pub origin : HasOrigin parse_url client_urls parsed.origin
    pub target_eq : target ≡ String.◌++◌ parsed.origin "/oauth-callback"

  -- An accepted redirect leads to the callback path of an origin among the client URLs, over http or
  -- https; nothing of the query or fragment that the caller gave is kept.
  pub redirect-IsClient :
      (client_urls : List String) (uri target : String)
      → resolve_client_redirect_uri parse_url drop_slash client_urls (some uri) ≡ some target
      → IsClient client_urls uri target
  unfolding resolve_client_redirect_uri
  redirect-IsClient client_urls uri target h = elim (Option-cases (parse_url uri)) [
    | inl e ↦ absurd (ground arith)
    | inr (u, e) ↦ record {
      parsed = u;
      parses = e;
      scheme = ground (arith, eq_iff u.protocol "https:", eq_iff u.protocol "http:");
      path = ground (arith, eq_iff (drop_slash u.pathname) "/oauth-callback");
      origin = is_allowed_origin-HasOrigin client_urls u.origin (ground arith);
      target_eq = ground arith;
    }
  ]

module _ (R : Redis) (json : Codec StateRecord) (digest : String → String) where
  open R use {State, available}

  consume_given :
      (now : ℕ) (state verifier : String) (w : World State StateRecord)
      → state ≢ ""
      → verifier ≢ ""
      → available w.redis ≡ false
      → consume_oauth_state R json digest now state verifier w ≡ (
        record w { memory = remove state w.memory },
        verified digest verifier (live now (lookup state w.memory)),
      )
  unfolding consume_oauth_state consume_from_memory
  consume_given now state verifier w h k off = ground (arith, eq_iff state "", eq_iff verifier "")

  -- A challenge that the length test lets through.
  abbrev pub IsChallenge : String → Type 0
  IsChallenge challenge = (43 ≤ count challenge) × (count challenge ≤ 128)

  create_given :
      (now : ℕ) (state challenge : String) (redirect : Option String) (w : World State StateRecord)
      → IsChallenge challenge
      → available w.redis ≡ false
      → create_oauth_state R json false now state challenge redirect w ≡ (
        record w {
          memory =
              remember now state_ttl_secs state
                (record { code_challenge = challenge; redirect_uri = given redirect })
                w.memory;
        },
        ok state,
      )
  unfolding create_oauth_state
  create_given now state challenge redirect w h off = ground arith

  -- Without Redis, outside production: a state that was just created is accepted exactly while ten
  -- minutes have not passed and the verifier's digest is the challenge it was created for.
  pub state_round_trip :
      (now now' : ℕ) (state challenge verifier : String) (redirect : Option String)
      (w : World State StateRecord)
      → IsChallenge challenge
      → state ≢ ""
      → verifier ≢ ""
      → available w.redis ≡ false
      → (consume_oauth_state R json digest now' state verifier
          (create_oauth_state R json false now state challenge redirect w).0).1
        ≡ (if ltb (now + 600_000) now' then false else str_eq (digest verifier) challenge)
  state_round_trip now now' state challenge verifier redirect w h k l off =
      let r : StateRecord = record { code_challenge = challenge; redirect_uri = given redirect } in
      let w' : World State StateRecord = record w {
        memory = remember now state_ttl_secs state r w.memory;
      } in
      rw (create_given now state challenge redirect w h off) (
        rw (consume_given now' state verifier w' k l off) (
          rw (live-remember now now' state_ttl_secs state r w.memory)
            (unfold verified in ground arith)))

  -- Without Redis a state is used up by the first attempt, whatever its verifier.
  pub state_once :
      (now now' : ℕ) (state verifier verifier' : String) (w : World State StateRecord)
      → state ≢ ""
      → verifier ≢ ""
      → verifier' ≢ ""
      → available w.redis ≡ false
      → (consume_oauth_state R json digest now' state verifier'
          (consume_oauth_state R json digest now state verifier w).0).1
        ≡ false
  state_once now now' state verifier verifier' w k l l' off =
      let w' : World State StateRecord = record w { memory = remove state w.memory } in
      rw (consume_given now state verifier w k l off) (
        rw (consume_given now' state verifier' w' k l' off)
          (rw (live-remove now' state w.memory) (unfold verified in refl)))

  peek_given :
      (now : ℕ) (state : String) (w : World State StateRecord)
      → state ≢ ""
      → available w.redis ≡ false
      → peek_oauth_state_redirect_uri R json now state w
        ≡ (w, redirect_of R json (live now (lookup state w.memory)))
  unfolding peek_oauth_state_redirect_uri
  peek_given now state w k off = ground (arith, eq_iff state "")

  -- Without Redis, reading the redirect does not use the state up: the redirect that a state was
  -- created with is read back for ten minutes, and the world is left as it was.
  pub peek_round_trip :
      (now now' : ℕ) (state challenge uri : String) (w : World State StateRecord)
      → IsChallenge challenge
      → state ≢ ""
      → uri ≢ ""
      → available w.redis ≡ false
      → let w' = (create_oauth_state R json false now state challenge (some uri) w).0 in
        peek_oauth_state_redirect_uri R json now' state w'
        ≡ (w', if ltb (now + 600_000) now' then none else some uri)
  peek_round_trip now now' state challenge uri w h k u off =
      let r : StateRecord = record {
        code_challenge = challenge;
        redirect_uri = given (some uri);
      } in
      let w' : World State StateRecord = record w {
        memory = remember now state_ttl_secs state r w.memory;
      } in
      rw (create_given now state challenge (some uri) w h off) (
        peek_given now' state w' k off
        ∙ ap (λ (p : Option StateRecord). (w', redirect_of R json p))
            (live-remember now now' state_ttl_secs state r w.memory)
        ∙ ap (λ (p : Option String). (w', p)) (ground (arith, eq_iff uri "")))
