-- ===== src/Session/Kept.antt =====
-- The rows that the updates of a session leave.
use routiq.Base.{
  ℕ, String, true, Option, some, List, [], ◌∷◌, ◌++◌, ◌≡◌, refl, sym, subst, inl, inr,
}
use routiq.Redis.{Redis}
use routiq.Codes.{ok}
use routiq.Users.{Row, Value, items, items_of, assign, UserDb, IsUserDb}
use routiq.Base.Dict.{lookup}
use routiq.Users.Columns.{column_name}
use routiq.Users.Update.{PushSpec, UpdateDoc, each, last, take_last, without, drafted, assignments}
use routiq.Session.{
  Site, max_refresh, max_jtis, published, update_user, persisted, rotate_commit,
  persist_session_tokens,
}
use routiq.Session.Stored.{tracked, jti_push-cases, published-row, persisted-row}

-- The update of a new session, for what it pushes besides the token and what it pulls.
abbrev session_update : List (String × String) → String → List (String × PushSpec) → UpdateDoc
session_update pull hashed extra = record {
  push = ("refreshTokens", each (hashed ∷ []) (some (last max_refresh))) ∷ extra;
  pull = pull;
  set = [];
  unset = [];
  inc = [];
}

-- The tokens kept after one was added, and after one was exchanged for another.
abbrev pub added : String → List String → List String
added new tokens = take_last max_refresh (tokens ++ new ∷ [])

abbrev pub exchanged : String → String → List String → List String
exchanged old new tokens = without old (added new tokens)

-- A row whose sessions are these.
abbrev pub Keeps : List String → List String → Value → Option Row → Type 0
Keeps tokens jtis id o =
    (r : Row) × (o ≡ some r)
    × (items_of (r "refreshTokens") ≡ tokens)
    × (items_of (r "activeAccessJtis") ≡ jtis)
    × (r "id" ≡ id)

module _ (D : UserDb) (law : IsUserDb D) (R : Redis) (show : ℕ → String)
    (hash_token : String → String) (jti_of : String → Option String) where
  -- A commit exchanges the tokens of an existing user and succeeds.
  pub rotate_commit-Keeps :
      (id key access refresh : String) (version : Option ℕ) (w : Site D.State R.State) (r : Row)
      → D.row id w.db ≡ some r
      → Keeps
          (exchanged key (hash_token refresh) (items_of (r "refreshTokens")))
          (tracked (jti_of access) (items_of (r "activeAccessJtis")))
          (r "id")
          (D.row id (rotate_commit D R show hash_token jti_of id key access refresh version w).0.db)
        × ((rotate_commit D R show hash_token jti_of id key access refresh version w).1 ≡ ok true)
  unfolding rotate_commit assignments drafted column_name lookup without
  rotate_commit-Keeps id key access refresh version w r h =
      let hashed : String = hash_token refresh in
      let pull : List (String × String) = ("refreshTokens", key) ∷ [] in
      let tokens : String × Value =
        ("refreshTokens", items (exchanged key hashed (items_of (r "refreshTokens")))) in
      let jtis : List String = items_of (r "activeAccessJtis") in
      let goal : List (String × PushSpec) → Type 0 = λ js.
        Keeps (exchanged key hashed (items_of (r "refreshTokens"))) (tracked (jti_of access) jtis)
          (r "id")
          (D.row id
            (published D R show id version
              (update_user D R show id (session_update pull hashed js) w)).0.db)
        × ((published D R show id version
              (update_user D R show id (session_update pull hashed js) w)).1
            ≡ ok true) in
      elim (jti_push-cases (jti_of access)) [
        | inl (q, t) ↦
            let (e, k) =
              published-row D R show law id version (session_update pull hashed []) w r
                (tokens ∷ []) h refl in
            subst goal (sym q) ((assign (tokens ∷ []) r, e, refl, sym (t jtis), refl), k)
        | inr (j, (q, t)) ↦
            let (e, k) =
              published-row D R show law id version
                (session_update pull hashed
                  (("activeAccessJtis", each (j ∷ []) (some (last max_jtis))) ∷ []))
                w r
                (tokens ∷ ("activeAccessJtis", items (take_last max_jtis (jtis ++ j ∷ []))) ∷ []) h
                refl in
            subst goal (sym q) (
              (
                assign
                    (tokens
                      ∷ ("activeAccessJtis", items (take_last max_jtis (jtis ++ j ∷ [])))
                      ∷ [])
                    r,
                e,
                refl,
                sym (t jtis),
                refl,
              ),
              k,
            )
      ]

  -- A login adds to the tokens of an existing user.
  pub persist_session_tokens-Keeps :
      (id access refresh : String) (version : Option ℕ) (w : Site D.State R.State) (r : Row)
      → D.row id w.db ≡ some r
      → Keeps
          (added (hash_token refresh) (items_of (r "refreshTokens")))
          (tracked (jti_of access) (items_of (r "activeAccessJtis")))
          (r "id")
          (D.row id
            (persist_session_tokens D R show hash_token jti_of id access refresh version w).0.db)
  unfolding persist_session_tokens assignments drafted column_name lookup
  persist_session_tokens-Keeps id access refresh version w r h =
      let hashed : String = hash_token refresh in
      let tokens : String × Value =
        ("refreshTokens", items (added hashed (items_of (r "refreshTokens")))) in
      let jtis : List String = items_of (r "activeAccessJtis") in
      let goal : List (String × PushSpec) → Type 0 = λ js.
        Keeps (added hashed (items_of (r "refreshTokens"))) (tracked (jti_of access) jtis) (r "id")
          (D.row id
            (persisted D R show hash_token jti_of id version
              (update_user D R show id (session_update [] hashed js) w)).0.db) in
      elim (jti_push-cases (jti_of access)) [
        | inl (q, t) ↦
            let e =
              persisted-row D R show law hash_token jti_of id version (session_update [] hashed [])
                w r (tokens ∷ []) h refl in
            subst goal (sym q) (assign (tokens ∷ []) r, e, refl, sym (t jtis), refl)
        | inr (j, (q, t)) ↦
            let e =
              persisted-row D R show law hash_token jti_of id version
                (session_update [] hashed
                  (("activeAccessJtis", each (j ∷ []) (some (last max_jtis))) ∷ []))
                w r
                (tokens ∷ ("activeAccessJtis", items (take_last max_jtis (jtis ++ j ∷ []))) ∷ []) h
                refl in
            subst goal (sym q) (
              assign
                  (tokens ∷ ("activeAccessJtis", items (take_last max_jtis (jtis ++ j ∷ []))) ∷ [])
                  r,
              e,
              refl,
              sym (t jtis),
              refl,
            )
      ]
