-- ===== src/Session/Fields.antt =====
-- Which fields a stored session writes.
use routiq.Base.{
  ℕ, String, false, Option, some, List, [], ◌∷◌, ◌≡◌, refl, sym, ap, ◌∙◌, subst, arith, inl, inr,
}
use mathlib.Core.Option
use routiq.Redis.{Redis}
use routiq.Users.{Row, UserDb, IsTable}
use routiq.Users.Columns.{elem}
use routiq.Users.Update.{PushSpec, UpdateDoc, each, last, Updated, updated, drafted}
use routiq.Users.Document.Laws.{Keeps, find_by_id_and_update-Keeps}
use routiq.Session.{Site, max_refresh, max_jtis, update_user, persisted, persist_session_tokens}
use routiq.Session.Stored.{jti_push-cases, publish_given-db}

module _ (D : UserDb) (law : IsTable D) (R : Redis) (show : ℕ → String)
    (hash_token : String → String) (jti_of : String → Option String) where
  persisted-db :
      (id : String) (version : Option ℕ) (x : Site D.State R.State × Updated)
      → (persisted D R show hash_token jti_of id version x).0.db ≡ x.0.db
  persisted-db id version (w, Updated.thrown) = refl
  persisted-db id version (w, updated r) = publish_given-db D R show id version w

  -- Storing a session writes its tokens only.
  pub persist_session_tokens-Keeps :
      (f id access refresh : String) (version : Option ℕ) (w : Site D.State R.State)
      → elem f ("refreshTokens" ∷ "activeAccessJtis" ∷ []) ≡ false
      → Keeps D f w.db
          (persist_session_tokens D R show hash_token jti_of id access refresh version w).0.db
  unfolding persist_session_tokens drafted
  persist_session_tokens-Keeps f id access refresh version w h other =
      let u : List (String × PushSpec) → UpdateDoc = λ js. record {
        push = ("refreshTokens", each (hash_token refresh ∷ []) (some (last max_refresh))) ∷ js;
        pull = [];
        set = [];
        unset = [];
        inc = [];
      } in
      let keeps : (js : List (String × PushSpec))
          → ((r : Row) → elem f ((drafted (u js) r).changed) ≡ false)
          → Keeps D f w.db
              (persisted D R show hash_token jti_of id version
                (update_user D R show id (u js) w)).0.db =
        λ js k j.
          ap (λ s. Option.map (λ r. r f) (D.row j s))
            (persisted-db id version (update_user D R show id (u js) w))
          ∙ find_by_id_and_update-Keeps D law f id (u js) w.db k j in
      elim (jti_push-cases (jti_of access)) [
        | inl (q, t) ↦
            subst
              (λ js.
                Keeps D f w.db
                  (persisted D R show hash_token jti_of id version
                    (update_user D R show id (u js) w)).0.db)
              (sym q) (keeps [] (λ r. ground (arith, h))) other
        | inr (j, (q, t)) ↦
            subst
              (λ js.
                Keeps D f w.db
                  (persisted D R show hash_token jti_of id version
                    (update_user D R show id (u js) w)).0.db)
              (sym q)
              (keeps (("activeAccessJtis", each (j ∷ []) (some (last max_jtis))) ∷ []) (λ r. h))
              other
      ]
