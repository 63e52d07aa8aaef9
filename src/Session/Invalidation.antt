-- ===== src/Session/Invalidation.antt =====
-- What ending all sessions of a user leaves: in the table, and at the gateway.
use routiq.Base.{ℕ, ◌+◌, String, false, Option, some, List, [], ◌∷◌, ◌++◌, ◌≡◌, ◌≢◌, ap, ◌∙◌}
use routiq.Base.Dict.{lookup}
use routiq.Redis.{Redis}
use routiq.Codes.{ok}
use routiq.Users.{Row, Value, number, items, items_of, number_of, assign, UserDb, IsUserDb}
use routiq.Users.Columns.{elem, column_name}
use routiq.Users.Update.{updated}
use routiq.Users.Update.Laws.{attempted-write, row-write_self, row-write_other}
use routiq.Users.Document.{resolve_fields, loaded, find_by_id, saved_value, saved_fields, save}
use routiq.Session.{
  Site, revocations, rotate_session_tokens, then_publish, invalidate_user, invalidate_all_sessions,
}
use routiq.Session.Stored.{
  row_tokens, row_jtis, row_version, publish_token_version-db, publish_token_version-revoked,
}
use routiq.Session.Rotation.{rotate_session_tokens-missing}

module _ (D : UserDb) (law : IsUserDb D) (R : Redis) (show : ℕ → String)
    (hash_password : String → String) where
  -- What is written for a user whose sessions end, and the row it leaves.
  abbrev pub ending : Row → List (String × Value)
  ending r =
      ("refreshTokens", items [])
      ∷ ("activeAccessJtis", items [])
      ∷ ("tokenVersion", number (number_of (r "tokenVersion") + 1))
      ∷ ("migrationHistory", saved_value hash_password "migrationHistory" (r "migrationHistory"))
      ∷ []

  abbrev ended : String → Row → Site D.State R.State → Site D.State R.State
  ended id r w = record w {
    db = D.write id (ending r) w.db;
    revoked = w.revoked ++ revocations (items_of (r "activeAccessJtis"));
  }

  invalidate_all_sessions-write :
      (id : String) (w : Site D.State R.State) (r : Row)
      → D.row id w.db ≡ some r
      → invalidate_all_sessions D R show hash_password id w
        ≡ then_publish D R show hash_password id
            (number_of (r "tokenVersion") + 1)
            (ended id r w, updated (D.row id (D.write id (ending r) w.db)))
  unfolding invalidate_all_sessions find_by_id save saved_fields resolve_fields column_name lookup
  invalidate_all_sessions-write id w r h =
      ap
        (λ o.
          invalidate_user D R show hash_password
            (loaded
              (resolve_fields (
                some (record {
                  additive = "refreshTokens" ∷ "activeAccessJtis" ∷ [];
                  inclusion = [];
                })))
              o)
            id w)
        h
      ∙ ap
          (λ x. then_publish D R show hash_password id (number_of (r "tokenVersion") + 1) (
            record w {
              db = x.0;
              revoked = w.revoked ++ revocations (items_of (r "activeAccessJtis"));
            },
            x.1,
          ))
          (attempted-write D law id (ending r) w.db)

  pub invalidate_all_sessions-row :
      (id : String) (w : Site D.State R.State) (r : Row)
      → D.row id w.db ≡ some r
      → D.row id (invalidate_all_sessions D R show hash_password id w).0.db
        ≡ some (assign (ending r) r)
  invalidate_all_sessions-row id w r h =
      ap (λ x. D.row id x.0.db) (invalidate_all_sessions-write id w r h)
      ∙ ap (D.row id)
          (publish_token_version-db D R show id (number_of (r "tokenVersion") + 1) (ended id r w))
      ∙ row-write_self D law id (ending r) w.db r h

  pub invalidate_all_sessions-ok :
      (id : String) (w : Site D.State R.State) (r : Row)
      → D.row id w.db ≡ some r
      → (invalidate_all_sessions D R show hash_password id w).1 ≡ ok tt
  invalidate_all_sessions-ok id w r h = ap (λ x. x.1) (invalidate_all_sessions-write id w r h)

  -- Where no UPDATE is refused, ending the sessions of a user that exists succeeds, empties both lists,
  -- raises the version by one, asks the gateway to revoke every access token that was tracked, and
  -- leaves the other users as they are.
  pub invalidate_all_sessions-ends :
      (id other : String) (w : Site D.State R.State) (r : Row)
      → D.row id w.db ≡ some r
      → id ≢ other
      → let (w', result) = invalidate_all_sessions D R show hash_password id w in
        (row_tokens (D.row id w'.db) ≡ [])
        × (row_jtis (D.row id w'.db) ≡ [])
        × (row_version (D.row id w'.db) ≡ number_of (r "tokenVersion") + 1)
        × (w'.revoked ≡ w.revoked ++ revocations (items_of (r "activeAccessJtis")))
        × (D.row other w'.db ≡ D.row other w.db)
        × (result ≡ ok tt)
  invalidate_all_sessions-ends id other w r h k =
      let self = invalidate_all_sessions-row id w r h in
      let write = invalidate_all_sessions-write id w r h in
      let version : ℕ = number_of (r "tokenVersion") + 1 in
      (
        ap row_tokens self,
        ap row_jtis self,
        ap row_version self,
        ap (λ x. x.0.revoked) write
            ∙ publish_token_version-revoked D R show id version (ended id r w),
        ap (λ x. D.row other x.0.db) write
            ∙ ap (D.row other) (publish_token_version-db D R show id version (ended id r w))
            ∙ row-write_other D law id other (ending r) w.db k,
        ap (λ x. x.1) write,
      )

  -- Afterwards no refresh token of that user is accepted.
  pub invalidate_all_sessions-refuses :
      (hash_token : String → String) (jti_of : String → Option String)
      (id refresh access next : String) (version : Option ℕ) (w : Site D.State R.State) (r : Row)
      → D.row id w.db ≡ some r
      → let w' : Site D.State R.State = (invalidate_all_sessions D R show hash_password id w).0 in
        rotate_session_tokens D R show hash_token jti_of id refresh access next version w'
        ≡ (w', ok false)
  invalidate_all_sessions-refuses hash_token jti_of id refresh access next version w r h =
      rotate_session_tokens-missing D law R show hash_token jti_of id refresh access next version
        ((invalidate_all_sessions D R show hash_password id w).0)
        (ap (elem (hash_token refresh)) (ap row_tokens (invalidate_all_sessions-row id w r h)))
