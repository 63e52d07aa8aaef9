-- ===== src/Auth/Password/Requests.antt =====
-- What the answers of requestPasswordReset and resendVerification
-- (uam-backend/src/controllers/auth.controller.ts) tell.
use routiq.Base.{
  ℕ, ◌+◌, String, true, Option, none, some, List, [], ◌∷◌, ◌≡◌, refl, ◌⊎◌, inl, inr, Bool-cases,
  ◌||◌, ◌*◌, if_both, not, sym, subst,
}
use routiq.Base.Dict.{lookup}
use routiq.Redis.{Redis}
use routiq.Users.{Value, text, date, truthy, Row, text_of, UserDb}
use routiq.Users.Columns.{column_name}
use routiq.Users.Update.{attempted}
use routiq.Users.Document.{
  read, resolve_fields, hydrate, loaded, find_by_id, saved_value, saved_fields, save,
}
use routiq.Identity.{IndexDb, Keys, is_text}
use routiq.Identity.Resolve.{find_user_id_by_primary_email}
use routiq.Auth.{Env, Reply, failed}
use routiq.Auth.Password.{
  resent, reset_sent, Issue, save_user, verification, password_reset, State, user_of, resend_to,
  resend_verification, reset_to, request_password_reset, with_reset, with_verification, Answer,
  after_save,
}

module _ (e : Env) (D : UserDb) (R : Redis) (X : IndexDb) (K : Keys) (i : Issue) where
  -- There is a user of this id, and an UPDATE of it is refused.
  abbrev pub IsRefused : Option String → State e D R X K i → Type 0
  IsRefused o w =
      (id : String) × ((r : Row) × ((sets : List (String × Value)) × ((o ≡ some id)
            × (D.row id w.site.db ≡ some r)
            × (D.refuses (text_of (r "id")) sets w.site.db ≡ true))))

  attempted-reply :
      (message id : String) (answer : Answer) (sets : List (String × Value)) (w : State e D R X K i)
      → ((after_save e D R X K i message answer w (attempted D id sets w.site.db)).1.reply
          ≡ answer.reply)
        ⊎ (((after_save e D R X K i message answer w (attempted D id sets w.site.db)).1.reply
              ≡ failed 500 message)
            × (D.refuses id sets w.site.db ≡ true))
  attempted-reply message id answer sets w = elim (Bool-cases (D.refuses id sets w.site.db)) [
    | inl e' ↦ inr (rw e' refl, e')
    | inr e' ↦ inl (rw e' refl)
  ]

  abbrev columns : String → String → ℕ → Row → List (String × Value)
  columns token expires time r =
      (token, text (e.hash_token i.token))
      ∷ (expires, date (i.now + time))
      ∷ ("migrationHistory", saved_value e.hash_password "migrationHistory" (r "migrationHistory"))
      ∷ []

  save_user-with_reset :
      (r : Row) (w : State e D R X K i)
      → save_user e D R X K i (with_reset e D R X K i (hydrate (resolve_fields none) r)) w
        ≡ attempted D
            (text_of (r "id"))
            (columns "passwordResetToken" "passwordResetExpires" (60 * 60 * 1000) r)
            w.site.db
  unfolding save saved_fields resolve_fields column_name lookup
  save_user-with_reset r w = refl

  save_user-with_verification :
      (r : Row) (w : State e D R X K i)
      → save_user e D R X K i (with_verification e D R X K i (hydrate (resolve_fields none) r)) w
        ≡ attempted D
            (text_of (r "id"))
            (columns "emailVerificationToken" "emailVerificationExpires" (24 * 60 * 60 * 1000) r)
            w.site.db
  unfolding save saved_fields resolve_fields column_name lookup
  save_user-with_verification r w = refl

  -- The answer is the usual one; or the user exists, its UPDATE is refused, and the answer is 500.
  abbrev pub IsUsual : Reply → String → Option String → State e D R X K i → Reply → Type 0
  IsUsual usual message o w reply = (reply ≡ usual) ⊎ ((reply ≡ failed 500 message) × IsRefused o w)

  written-IsUsual :
      (message id : String) (answer : Answer) (r : Row) (sets : List (String × Value))
      (w : State e D R X K i)
      → D.row id w.site.db ≡ some r
      → IsUsual answer.reply message
          (some id)
          w
          (after_save e D R X K i message answer w
            (attempted D (text_of (r "id")) sets w.site.db)).1.reply
  written-IsUsual message id answer r sets w h =
      elim (attempted-reply message (text_of (r "id")) answer sets w) [
        | inl done_ ↦ inl done_
        | inr (failed_, refused) ↦ inr (failed_, (id, (r, (sets, (refl, h, refused)))))
      ]

  reset_to-IsUsual :
      (lower id : String) (o : Option Row) (w : State e D R X K i)
      → D.row id w.site.db ≡ o
      → IsUsual reset_sent "Password reset request failed"
          (some id)
          w
          (reset_to e D R X K i lower (loaded (resolve_fields none) o) w).1.reply
  reset_to-IsUsual lower id none w h = inl refl
  reset_to-IsUsual lower id (some r) w h =
      let answer : Answer = record {
        reply = reset_sent;
        mail = some (password_reset lower i.token);
      } in
      if_both
        (λ (x : State e D R X K i × Answer).
          IsUsual reset_sent "Password reset request failed" (some id) w x.1.reply)
        (not (is_text "local" (read "provider" (hydrate (resolve_fields none) r)))) _ _ (inl refl)
        (subst
          (λ x.
            IsUsual reset_sent "Password reset request failed" (some id) w
              (after_save e D R X K i "Password reset request failed" answer w x).1.reply)
          (sym (save_user-with_reset r w))
          (written-IsUsual "Password reset request failed" id answer r _ w h))

  resend_to-IsUsual :
      (lower id : String) (o : Option Row) (w : State e D R X K i)
      → D.row id w.site.db ≡ o
      → IsUsual resent "Server error"
          (some id)
          w
          (resend_to e D R X K i lower (loaded (resolve_fields none) o) w).1.reply
  resend_to-IsUsual lower id none w h = inl refl
  resend_to-IsUsual lower id (some r) w h =
      let answer : Answer = record { reply = resent; mail = some (verification lower i.token) } in
      if_both
        (λ (x : State e D R X K i × Answer). IsUsual resent "Server error" (some id) w x.1.reply)
        (truthy (read "isEmailVerified" (hydrate (resolve_fields none) r))
          || not (is_text "local" (read "provider" (hydrate (resolve_fields none) r))))
        _ _ (inl refl)
        (subst
          (λ x.
            IsUsual resent "Server error" (some id) w
              (after_save e D R X K i "Server error" answer w x).1.reply)
          (sym (save_user-with_verification r w))
          (written-IsUsual "Server error" id answer r _ w h))

  reset_of-IsUsual :
      (lower : String) (o : Option String) (w : State e D R X K i)
      → IsUsual reset_sent "Password reset request failed" o w
          (reset_to e D R X K i lower (user_of e D R X K i o w) w).1.reply
  unfolding find_by_id
  reset_of-IsUsual lower none w = inl refl
  reset_of-IsUsual lower (some id) w = reset_to-IsUsual lower id (D.row id w.site.db) w refl

  resend_of-IsUsual :
      (lower : String) (o : Option String) (w : State e D R X K i)
      → IsUsual resent "Server error" o w
          (resend_to e D R X K i lower (user_of e D R X K i o w) w).1.reply
  unfolding find_by_id
  resend_of-IsUsual lower none w = inl refl
  resend_of-IsUsual lower (some id) w = resend_to-IsUsual lower id (D.row id w.site.db) w refl

  -- The answers to a request for a password reset and for another verification mail are the same for
  -- every address, except for a 500 that only an address of an account can get, where PostgreSQL
  -- refuses the UPDATE of that account.
  pub requests_uniform :
      (email : String) (w : State e D R X K i)
      → let lower : String = K.lower email in
        let found : Option String = find_user_id_by_primary_email X K i.now lower w.index in
        IsUsual reset_sent "Password reset request failed" found w
          (request_password_reset e D R X K i email w).1.reply
        × IsUsual resent "Server error" found w (resend_verification e D R X K i email w).1.reply
  unfolding request_password_reset resend_verification
  requests_uniform email w =
      let lower : String = K.lower email in
      let found : Option String = find_user_id_by_primary_email X K i.now lower w.index in
      (reset_of-IsUsual lower found w, resend_of-IsUsual lower found w)
