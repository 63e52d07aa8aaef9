-- ===== src/Auth/Password/Laws.antt =====
-- What a password reset leaves (uam-backend/src/controllers/auth.controller.ts).
use routiq.Base.{ℕ, ◌+◌, String, Bool, true, false, Option, none, some, [], ◌≡◌, ◌≢◌, refl, ap, ◌∙◌}
use mathlib.Core.Option
use routiq.Base.Dict.{Dict, lookup, remove}
use routiq.Redis.{Redis}
use routiq.Users.{text, Row, items_of, number_of, assign, UserDb, IsUserDb}
use routiq.Users.Update.Laws.{row-write_self}
use routiq.Users.Document.{Document, resolve_fields, hydrate}
use routiq.Session.{Site, publish_token_version, revoke_all_tracked_access_jtis}
use routiq.Session.Stored.{row_tokens, row_jtis, row_version, publish_token_version-db}
use routiq.Auth.{Env, failed, done}
use routiq.Auth.Password.{
  has_reset_token, reset_fields, reset_saved, reset_with_secret, reset_password, Desk, links_of,
  put_links, put_site,
}
use routiq.Codes.{Entry, Codec, live, live-remove}
use routiq.Codes.EmailLink.{
  EmailLinkKind, same_kind, Payload, Form, Links, is_short, form_for, consume_form_token,
}
use routiq.Codes.EmailLink.Laws.{form_given}
use routiq.Auth.Password.Reset.{
  reset_published-true, reset_published-false, reset_with_secret-published,
  publish_token_version_down, hashed_value, reset_sets, save-reset,
}

module _ (e : Env) (D : UserDb) (R : Redis) (find_one : (Row → Bool) → D.State → Option Row)
    (json : Codec Payload) where
  -- the form token's part of a reset
  abbrev pub redeem : ℕ → String → Desk D.State R.State → Links R.State × Option Form
  redeem now token w = consume_form_token R json now token EmailLinkKind.reset_password (links_of w)

  abbrev pub redeemed_desk : ℕ → String → Desk D.State R.State → Desk D.State R.State
  redeemed_desk now token w = put_links (redeem now token w).0 w

  reset_password-redeemed :
      (now now' : ℕ) (token password : String) (o : Option Form) (w : Desk D.State R.State)
      → (redeem now token w).1 ≡ o
      → reset_password e D R find_one json now now' token password w
        ≡ put_site (redeemed_desk now token w) (
            reset_with_secret e D R find_one now'
              (Option.map (λ f. f.secret) o)
              password
              (redeemed_desk now token w).site)
  unfolding reset_password
  reset_password-redeemed now now' token password o w h =
      ap
        (λ o. put_site (redeemed_desk now token w) (
          reset_with_secret e D R find_one now' (Option.map (λ f. f.secret) o) password
            (redeemed_desk now token w).site))
        h

  redeem_given :
      (now : ℕ) (token : String) (p : Payload) (w : Desk D.State R.State)
      → is_short token ≡ false
      → R.available w.site.redis ≡ false
      → live now (lookup token w.forms) ≡ some p
      → same_kind p.kind EmailLinkKind.reset_password ≡ true
      → redeem now token w ≡ (
        record (links_of w) { forms = remove token w.forms },
        some (record { secret = p.secret; meta = p.meta }),
      )
  unfolding form_for
  redeem_given now token p w long down there kind =
      form_given R json now token EmailLinkKind.reset_password (links_of w) long down
      ∙ ap
          (λ o. (
            record (links_of w) { forms = remove token w.forms },
            form_for EmailLinkKind.reset_password o,
          ))
          there
      ∙ rw kind refl

  redeem_again :
      (now : ℕ) (token : String) (forms : Dict (Entry Payload)) (w : Desk D.State R.State)
      → is_short token ≡ false
      → R.available w.site.redis ≡ false
      → w.forms ≡ remove token forms
      → (redeem now token w).1 ≡ none
  unfolding form_for
  redeem_again now token forms w long down gone =
      ap (λ x. x.1)
        (form_given R json now token EmailLinkKind.reset_password (links_of w) long down)
      ∙ ap (form_for EmailLinkKind.reset_password)
          (ap (λ m. live now (lookup token m)) gone ∙ live-remove now token forms)

  -- Where Redis is not available and the process keeps a live form token of a reset whose secret
  -- belongs to a user: the reset is refused with status 503 and the message to try again; the
  -- users, Redis and what is sent to the control plane are as before; but the form token is used up,
  -- so that the same request is refused with status 400 the next time.
  pub reset_password_fails_closed :
      (now now' later later' : ℕ) (token password id : String) (p : Payload)
      (w : Desk D.State R.State) (r : Row)
      → is_short token ≡ false
      → R.available w.site.redis ≡ false
      → live now (lookup token w.forms) ≡ some p
      → same_kind p.kind EmailLinkKind.reset_password ≡ true
      → find_one (has_reset_token now' (e.hash_token p.secret)) w.site.db ≡ some r
      → r "id" ≡ text id
      → let (w', reply) = reset_password e D R find_one json now now' token password w in
        (reply
          ≡ failed 503 "Password reset could not invalidate active sessions. Please try again.")
        × (w'.site ≡ w.site)
        × (w'.forms ≡ remove token w.forms)
        × ((reset_password e D R find_one json later later' token password w').1
            ≡ failed 400 "Invalid or expired reset session")
  reset_password_fails_closed now now' later later' token password id p w r long down there kind
        found same =
      let given = redeem_given now token p w long down there kind in
      let desk : Desk D.State R.State = record w { forms = remove token w.forms } in
      let all : reset_password e D R find_one json now now' token password w ≡ (
        desk,
        failed 503 "Password reset could not invalidate active sessions. Please try again.",
      ) =
        reset_password-redeemed now now' token password
          (some (record { secret = p.secret; meta = p.meta })) w (ap (λ x. x.1) given)
        ∙ ap
            (λ y.
              put_site (put_links y w) (
                reset_with_secret e D R find_one now' (some p.secret) password
                  (put_links y w).site))
            (ap (λ x. x.0) given)
        ∙ ap (put_site desk) (
            reset_with_secret-published e D R find_one now' p.secret password id w.site r found same
            ∙ reset_published-false e D R find_one password (number_of (r "tokenVersion") + 1)
                (hydrate (reset_fields e D R find_one) r) _
                (ap (λ x. x.1)
                  (publish_token_version_down e D R find_one id (number_of (r "tokenVersion") + 1)
                    w.site down))
            ∙ ap
                (λ (x : Site D.State R.State × Bool). (
                  x.0,
                  failed 503
                      "Password reset could not invalidate active sessions. Please try again.",
                ))
                (publish_token_version_down e D R find_one id (number_of (r "tokenVersion") + 1)
                  w.site down)) in
      let again = redeem_again later token w.forms desk long down refl in
      (
        ap (λ x. x.1) all,
        ap (λ x. x.0.site) all,
        ap (λ x. x.0.forms) all,
        ap (λ x. (reset_password e D R find_one json later later' token password x.0).1) all
            ∙ ap (λ x. x.1) (reset_password-redeemed later later' token password none desk again)
            ∙ (unfold reset_with_secret in refl),
      )

  -- A reset with a form token that can be redeemed, and that could publish the new version, succeeds,
  -- where PostgreSQL refuses no UPDATE: the password is stored hashed, the token of the reset is
  -- used up, no session is left, and the user's version has gone up by one.
  pub reset_password_done :
      (now now' : ℕ) (token password id : String) (form : Form) (w : Desk D.State R.State) (r : Row)
      → IsUserDb D
      → (redeem now token w).1 ≡ some form
      → find_one (has_reset_token now' (e.hash_token form.secret)) w.site.db ≡ some r
      → D.row id w.site.db ≡ some r
      → r "id" ≡ text id
      → password ≢ ""
      → (publish_token_version D R e.show id
          (number_of (r "tokenVersion") + 1)
          (redeemed_desk now token w).site).1
        ≡ true
      → let (w', reply) = reset_password e D R find_one json now now' token password w in
        (reply ≡ done "Password reset successfully")
        × (Option.map (λ u. u "password") (D.row id w'.site.db)
            ≡ some (text (e.hash_password password)))
        × (Option.map (has_reset_token now' (e.hash_token form.secret)) (D.row id w'.site.db)
            ≡ some false)
        × (row_tokens (D.row id w'.site.db) ≡ [])
        × (row_jtis (D.row id w'.site.db) ≡ [])
        × (row_version (D.row id w'.site.db) ≡ number_of (r "tokenVersion") + 1)
  unfolding has_reset_token resolve_fields
  reset_password_done now now' token password id form w r law redeemed found row same given
        published =
      let version : ℕ = number_of (r "tokenVersion") + 1 in
      let user : Document = hydrate (reset_fields e D R find_one) r in
      let desk : Desk D.State R.State = redeemed_desk now token w in
      let x = publish_token_version D R e.show id version desk.site in
      let revoked : Site D.State R.State =
        revoke_all_tracked_access_jtis D R e.show (items_of (r "activeAccessJtis")) x.0 in
      let all =
        reset_password-redeemed now now' token password (some form) w redeemed
        ∙ ap (put_site desk) (
            reset_with_secret-published e D R find_one now' form.secret password id desk.site r
              found same
            ∙ reset_published-true e D R find_one password version user x published
            ∙ ap (reset_saved e D R find_one revoked)
                (save-reset e D R find_one password id r x.0.db same law)) in
      let at : D.row id (reset_password e D R find_one json now now' token password w).0.site.db
          ≡ some (assign (reset_sets e D R find_one password r) r) =
        ap (λ y. D.row id y.0.site.db) all
        ∙ row-write_self D law id (reset_sets e D R find_one password r) x.0.db r
            (ap (D.row id) (publish_token_version-db D R e.show id version desk.site) ∙ row) in
      (
        ap (λ y. y.1) all,
        ap (Option.map (λ u. u "password")) at
            ∙ ap some (hashed_value e D R find_one password given),
        ap (Option.map (has_reset_token now' (e.hash_token form.secret))) at,
        ap row_tokens at,
        ap row_jtis at,
        ap row_version at,
      )
