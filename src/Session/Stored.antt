-- ===== src/Session/Stored.antt =====
-- What the table keeps of a user's sessions, and how an update or a look-up reads it.
use routiq.Base.{
  ℕ, String, true, Option, none, some, List, [], ◌∷◌, ◌++◌, str_eq, ◌≡◌, refl, sym, arith,
  if◌then◌else◌, Bool-cases, inl, inr, subst, ◌⊎◌,
}
use routiq.Redis.{Redis}
use routiq.Codes.{ok}
use routiq.Users.{Row, Value, items_of, number_of, assign, UserDb, IsUserDb}
use routiq.Users.Columns.{elem}
use routiq.Users.Document.{find_by_id, resolve_fields, loaded}
use routiq.Users.Update.{UpdateDoc, each, last, take_last, updated, drafted, assignments}
use routiq.Users.Update.Laws.{row-write_self, find_by_id_and_update-write}
use routiq.Session.{
  Site, find_stored_refresh_token, jti_push, max_jtis, publish_token_version, publish_given,
  published, update_user, rotate_check, stored_key, persisted,
}

abbrev pub row_tokens : Option Row → List String
row_tokens none = []
row_tokens (some r) = items_of (r "refreshTokens")

abbrev pub row_jtis : Option Row → List String
row_jtis none = []
row_jtis (some r) = items_of (r "activeAccessJtis")

abbrev pub row_version : Option Row → ℕ
row_version none = 0
row_version (some r) = number_of (r "tokenVersion")

-- The ids that are tracked after a token with this id was issued.
abbrev pub tracked : Option String → List String → List String
tracked none jtis = jtis
tracked (some jti) jtis = if str_eq jti "" then jtis else take_last max_jtis (jtis ++ jti ∷ [])

-- The id of an access token is tracked, or it has none.
pub jti_push-cases :
    (jti : Option String)
    → ((jti_push jti ≡ []) × ((xs : List String) → tracked jti xs ≡ xs))
      ⊎ ((j : String) × ((jti_push jti
              ≡ ("activeAccessJtis", each (j ∷ []) (some (last max_jtis))) ∷ [])
            × ((xs : List String) → tracked jti xs ≡ take_last max_jtis (xs ++ j ∷ []))))
jti_push-cases none = inl (refl, λ xs. refl)
jti_push-cases (some j) = elim (Bool-cases (str_eq j "")) [
  | inl h ↦ inl (rw (h) refl, λ xs. rw (h) refl)
  | inr h ↦ inr (j, (rw (h) refl, λ xs. rw (h) refl))
]

unfoldable pub token_fields : List String
unfolding resolve_fields
token_fields = resolve_fields (some (record { additive = "refreshTokens" ∷ []; inclusion = [] }))

module _ (D : UserDb) (R : Redis) (show : ℕ → String) where
  -- Publishing a version leaves the table as it is.
  pub publish_token_version-db :
      (id : String) (version : ℕ) (w : Site D.State R.State)
      → (publish_token_version D R show id version w).0.db ≡ w.db
  unfolding publish_token_version
  publish_token_version-db id version w = ground (arith)

  -- Nor does it ask the gateway to revoke a token.
  pub publish_token_version-revoked :
      (id : String) (version : ℕ) (w : Site D.State R.State)
      → (publish_token_version D R show id version w).0.revoked ≡ w.revoked
  unfolding publish_token_version
  publish_token_version-revoked id version w = ground (arith)

  pub publish_given-db :
      (id : String) (version : Option ℕ) (w : Site D.State R.State)
      → (publish_given D R show id version w).db ≡ w.db
  publish_given-db id none w = refl
  publish_given-db id (some version) w = publish_token_version-db id version w

  module _ (law : IsUserDb D) where
    update_user-write :
        (id : String) (u : UpdateDoc) (w : Site D.State R.State) (r : Row)
        (sets : List (String × Value))
        → D.row id w.db ≡ some r
        → assignments ((drafted u r).values) ((drafted u r).changed) ≡ some sets
        → update_user D R show id u w
          ≡ (record w { db = D.write id sets w.db }, updated (some (assign sets r)))
    update_user-write id u w r sets h k = rw (
      find_by_id_and_update-write D law id u w.db r sets h k,
      row-write_self D law id sets w.db r h,
    )

    -- An update of a session that is one write: the row it leaves, and the answer.
    pub published-row :
        (id : String) (version : Option ℕ) (u : UpdateDoc) (w : Site D.State R.State) (r : Row)
        (sets : List (String × Value))
        → D.row id w.db ≡ some r
        → assignments ((drafted u r).values) ((drafted u r).changed) ≡ some sets
        → (D.row id (published D R show id version (update_user D R show id u w)).0.db
            ≡ some (assign sets r))
          × ((published D R show id version (update_user D R show id u w)).1 ≡ ok true)
    published-row id version u w r sets h k =
        subst
          (λ x.
            (D.row id (published D R show id version x).0.db ≡ some (assign sets r))
            × ((published D R show id version x).1 ≡ ok true))
          (sym (update_user-write id u w r sets h k))
          (
            rw (publish_given-db id version (record w { db = D.write id sets w.db }))
                (row-write_self D law id sets w.db r h),
            refl,
          )

    pub persisted-row :
        (hash_token : String → String) (jti_of : String → Option String) (id : String)
        (version : Option ℕ) (u : UpdateDoc) (w : Site D.State R.State) (r : Row)
        (sets : List (String × Value))
        → D.row id w.db ≡ some r
        → assignments ((drafted u r).values) ((drafted u r).changed) ≡ some sets
        → D.row id
            (persisted D R show hash_token jti_of id version (update_user D R show id u w)).0.db
          ≡ some (assign sets r)
    persisted-row hash_token jti_of id version u w r sets h k =
        subst
          (λ x.
            D.row id (persisted D R show hash_token jti_of id version x).0.db
            ≡ some (assign sets r))
          (sym (update_user-write id u w r sets h k))
          (rw (publish_given-db id version (record w { db = D.write id sets w.db }))
            (row-write_self D law id sets w.db r h))

  module _ (hash_token : String → String) where
    -- The look-up in a list of hashes.
    pub find_stored_refresh_token-elem :
        (tokens : List String) (presented : String)
        → find_stored_refresh_token hash_token tokens presented
          ≡ (if elem (hash_token presented) tokens then some (hash_token presented) else none)
    unfolding find_stored_refresh_token
    find_stored_refresh_token-elem [] presented = refl
    find_stored_refresh_token-elem (x ∷ xs) presented = refl

    stored_key-elem :
        (jti_of : String → Option String) (o : Option Row) (old : String)
        → stored_key D R show hash_token jti_of (loaded token_fields o) old
          ≡ (if elem (hash_token old) (row_tokens o) then some (hash_token old) else none)
    unfolding token_fields
    stored_key-elem jti_of none old = refl
    stored_key-elem jti_of (some r) old =
        find_stored_refresh_token-elem (items_of (r "refreshTokens")) old

    -- A presented token is found exactly where its hash is kept.
    pub rotate_check-elem :
        (jti_of : String → Option String) (id old : String) (w : Site D.State R.State)
        → rotate_check D R show hash_token jti_of id old w ≡ (
            if elem (hash_token old) (row_tokens (D.row id w.db))
            then some (hash_token old)
            else none)
    unfolding rotate_check find_by_id token_fields
    rotate_check-elem jti_of id old w = stored_key-elem jti_of (D.row id w.db) old
