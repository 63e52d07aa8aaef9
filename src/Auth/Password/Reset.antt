-- ===== src/Auth/Password/Reset.antt =====
-- The steps of resetPassword (uam-backend/src/controllers/auth.controller.ts) after the form token.
use routiq.Base.{
  ℕ, ◌+◌, String, Bool, true, false, Option, some, List, [], ◌∷◌, eq_iff, ◌≡◌, ◌≢◌, refl, ap, ◌∙◌,
  arith,
}
use routiq.Base.Dict.{lookup}
use routiq.Redis.{Redis}
use routiq.Users.{
  Value, null, text, number, items, Row, items_of, number_of, text_of, UserDb, IsUserDb,
}
use routiq.Users.Columns.{column_name}
use routiq.Users.Update.{attempted, updated}
use routiq.Users.Update.Laws.{attempted-write}
use routiq.Users.Document.{
  Document, read, resolve_fields, hydrate, loaded, saved_value, saved_fields, save,
}
use routiq.Session.{Site, publish_token_version, revoke_all_tracked_access_jtis}
use routiq.Auth.{Env, failed}
use routiq.Auth.Password.{
  has_reset_token, reset_fields, with_password, reset_published, reset_saved, reset_user,
  reset_with_secret,
}

module _ (e : Env) (D : UserDb) (R : Redis) (find_one : (Row → Bool) → D.State → Option Row) where
  pub reset_published-true :
      (password : String) (version : ℕ) (user : Document) (x : Site D.State R.State × Bool)
      → x.1 ≡ true
      → reset_published e D R find_one password version user x
        ≡ reset_saved e D R find_one
            (revoke_all_tracked_access_jtis D R e.show
              (items_of (read "activeAccessJtis" user))
              x.0)
            (save D e.hash_password
              (text_of (read "id" user))
              (with_password e D R find_one password version user)
              x.0.db)
  reset_published-true password version user (w, true) h = refl
  reset_published-true password version user (w, false) h = absurd (cc h)

  pub reset_published-false :
      (password : String) (version : ℕ) (user : Document) (x : Site D.State R.State × Bool)
      → x.1 ≡ false
      → reset_published e D R find_one password version user x
        ≡ (x.0, failed 503 "Password reset could not invalidate active sessions. Please try again.")
  reset_published-false password version user (w, false) h = refl
  reset_published-false password version user (w, true) h = absurd (cc h)

  pub reset_with_secret-published :
      (now : ℕ) (secret password id : String) (w : Site D.State R.State) (r : Row)
      → find_one (has_reset_token now (e.hash_token secret)) w.db ≡ some r
      → r "id" ≡ text id
      → reset_with_secret e D R find_one now (some secret) password w
        ≡ reset_published e D R find_one password
            (number_of (r "tokenVersion") + 1)
            (hydrate (reset_fields e D R find_one) r)
            (publish_token_version D R e.show id (number_of (r "tokenVersion") + 1) w)
  unfolding reset_with_secret resolve_fields
  reset_with_secret-published now secret password id w r found same =
      ap (λ o. reset_user e D R find_one password (loaded (reset_fields e D R find_one) o) w) found
      ∙ ap
          (λ v.
            reset_published e D R find_one password (number_of (r "tokenVersion") + 1)
              (hydrate (reset_fields e D R find_one) r)
              (publish_token_version D R e.show (text_of v) (number_of (r "tokenVersion") + 1) w))
          same

  pub publish_token_version_down :
      (id : String) (version : ℕ) (w : Site D.State R.State)
      → R.available w.redis ≡ false
      → publish_token_version D R e.show id version w ≡ (w, false)
  unfolding publish_token_version
  publish_token_version_down id version w down = rw (down) refl

  pub hashed_value :
      (password : String)
      → password ≢ ""
      → saved_value e.hash_password "password" (text password) ≡ text (e.hash_password password)
  hashed_value password h = ground (arith, eq_iff password "")

  -- What a reset writes.
  abbrev pub reset_sets : String → Row → List (String × Value)
  reset_sets password r =
      ("password", saved_value e.hash_password "password" (text password))
      ∷ ("passwordResetToken", null)
      ∷ ("passwordResetExpires", null)
      ∷ ("refreshTokens", items [])
      ∷ ("activeAccessJtis", items [])
      ∷ ("tokenVersion", number (number_of (r "tokenVersion") + 1))
      ∷ ("migrationHistory", saved_value e.hash_password "migrationHistory" (r "migrationHistory"))
      ∷ []

  pub save-reset :
      (password id : String) (r : Row) (s : D.State)
      → r "id" ≡ text id
      → IsUserDb D
      → save D e.hash_password
          (text_of (r "id"))
          (with_password e D R find_one password
            (number_of (r "tokenVersion") + 1)
            (hydrate (reset_fields e D R find_one) r))
          s
        ≡ (
          D.write id (reset_sets password r) s,
          updated (D.row id (D.write id (reset_sets password r) s)),
        )
  unfolding save saved_fields resolve_fields column_name lookup
  save-reset password id r s same law =
      ap (λ v. attempted D (text_of v) (reset_sets password r) s) same
      ∙ attempted-write D law id (reset_sets password r) s
