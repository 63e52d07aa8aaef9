-- ===== src/Auth/Password.antt =====
-- `resendVerification`, `requestPasswordReset` and `resetPassword` of
-- uam-backend/src/controllers/auth.controller.ts. The mail that is sent is part of the answer; that
-- sending may fail changes nothing.
mod Tests
pub mod Requests
pub mod Reset
pub mod Laws
use routiq.Base.{
  ℕ, ◌+◌, ◌*◌, String, Bool, true, false, ◌||◌, ◌&&◌, not, Option, none, some, List, [], ◌∷◌, ltb,
  str_eq, if◌then◌else◌,
}
use mathlib.Core.Option
use routiq.Base.Dict.{Dict}
use routiq.Redis.{Redis}
use routiq.Codes.{Entry, Codec}
use routiq.Codes.EmailLink.{EmailLinkKind, Payload, Links, consume_form_token}
use routiq.Users.{
  Value, null, text, number, date, items, Row, UserDb, items_of, number_of, truthy, text_of,
}
use routiq.Users.Update.{Updated, updated}
use routiq.Users.Document.{
  Document, Projection, read, put, resolve_fields, loaded, find_by_id, save,
}
use routiq.Session.{Site, publish_token_version, revoke_all_tracked_access_jtis}
use routiq.Identity.{IndexDb, Keys, is_text, is_later}
use routiq.Identity.Resolve.{find_user_id_by_primary_email}
use routiq.Auth.{Env, Reply, failed, done}
use routiq.Auth.Login.{World}

-- What is sent: to which address, and the token.
pub data Mail : Type 0 where
  verification password_reset : String → String → Mail

pub record Answer : Type 0 where
  pub reply : Reply
  pub mail : Option Mail

abbrev pub silent : Reply → Answer
silent reply = record { reply = reply; mail = none }

abbrev pub resent : Reply
resent = done "If the account exists and is unverified, a verification email has been sent"

abbrev pub reset_sent : Reply
reset_sent = done "If the email exists, a reset link has been sent"

-- A token of 32 random bytes in hexadecimal, and the time.
pub record Issue : Type 0 where
  pub token : String
  pub now : ℕ

module _ (e : Env) (D : UserDb) (R : Redis) (X : IndexDb) (K : Keys) (i : Issue) where
  abbrev pub State : Type 0
  State = World D.State R.State X.State

  -- `userId ? await User.findById(userId) : null`
  abbrev pub user_of : Option String → State → Option Document
  user_of none w = none
  user_of (some id) w = find_by_id D id none w.site.db

  abbrev pub after_save : String → Answer → State → D.State × Updated → State × Answer
  after_save message answer w (s, Updated.thrown) =
      (record w { site = record w.site { db = s } }, silent (failed 500 message))
  after_save message answer w (s, updated r) =
      (record w { site = record w.site { db = s } }, answer)

  abbrev pub save_user : Document → State → D.State × Updated
  save_user user w = save D e.hash_password (text_of (read "id" user)) user w.site.db

  abbrev pub with_verification : Document → Document
  with_verification user =
      put "emailVerificationExpires" (date (i.now + 24 * 60 * 60 * 1000))
        (put "emailVerificationToken" (text (e.hash_token i.token)) user)

  abbrev pub resend_to : String → Option Document → State → State × Answer
  resend_to lower none w = (w, silent resent)
  resend_to lower (some user) w =
      if truthy (read "isEmailVerified" user) || not (is_text "local" (read "provider" user))
      then (w, silent resent)
      else after_save "Server error"
          (record { reply = resent; mail = some (verification lower i.token) }) w
          (save_user (with_verification user) w)

  -- `resendVerification`
  unfoldable pub resend_verification : String → State → State × Answer
  unfolding find_by_id save find_user_id_by_primary_email
  resend_verification email w =
      let lower : String = K.lower email in
      resend_to lower (user_of (find_user_id_by_primary_email X K i.now lower w.index) w) w

  abbrev pub with_reset : Document → Document
  with_reset user =
      put "passwordResetExpires" (date (i.now + 60 * 60 * 1000))
        (put "passwordResetToken" (text (e.hash_token i.token)) user)

  abbrev pub reset_to : String → Option Document → State → State × Answer
  reset_to lower none w = (w, silent reset_sent)
  reset_to lower (some user) w =
      if not (is_text "local" (read "provider" user))
      then (w, silent reset_sent)
      else after_save "Password reset request failed"
          (record { reply = reset_sent; mail = some (password_reset lower i.token) }) w
          (save_user (with_reset user) w)

  -- `requestPasswordReset`
  unfoldable pub request_password_reset : String → State → State × Answer
  unfolding find_by_id save find_user_id_by_primary_email
  request_password_reset email w =
      let lower : String = K.lower email in
      reset_to lower (user_of (find_user_id_by_primary_email X K i.now lower w.index) w) w

-- The site, with the maps of the links in mails and of the form tokens.
pub record Desk (S T : Type 0) : Type 0 where
  pub site : Site S T
  pub links : Dict (Entry Payload)
  pub forms : Dict (Entry Payload)

module _ {S T : Type 0} where
  abbrev pub links_of : Desk S T → Links T
  links_of w = record { redis = w.site.redis; links = w.links; forms = w.forms }

  abbrev pub put_links : Links T → Desk S T → Desk S T
  put_links y w = record {
    site = record w.site { redis = y.redis };
    links = y.links;
    forms = y.forms;
  }

  abbrev pub put_site : Desk S T → Site S T × Reply → Desk S T × Reply
  put_site w (site, reply) = (record w { site = site }, reply)

-- the filter of `resetPassword`: the hash of the secret, and an expiry later than now
unfoldable pub has_reset_token : ℕ → String → Row → Bool
has_reset_token now hashed r =
    is_text hashed (r "passwordResetToken") && is_later now (r "passwordResetExpires")

-- `find_one` is the first row that meets a test
module _ (e : Env) (D : UserDb) (R : Redis) (find_one : (Row → Bool) → D.State → Option Row) where
  abbrev pub reset_fields : List String
  reset_fields =
      resolve_fields
        (some (record { additive = "refreshTokens" ∷ "activeAccessJtis" ∷ []; inclusion = [] }))

  -- the assignments of a reset
  abbrev pub with_password : String → ℕ → Document → Document
  with_password password version user = put "tokenVersion" (number version) (
      put "activeAccessJtis" (items []) (
        put "refreshTokens" (items []) (
          put "passwordResetExpires" null
            (put "passwordResetToken" null (put "password" (text password) user)))))

  abbrev pub reset_saved : Site D.State R.State → D.State × Updated → Site D.State R.State × Reply
  reset_saved w (s, Updated.thrown) = (record w { db = s }, failed 500 "Password reset failed")
  reset_saved w (s, updated r) = (record w { db = s }, done "Password reset successfully")

  abbrev pub reset_published :
      String → ℕ → Document → Site D.State R.State × Bool → Site D.State R.State × Reply
  reset_published password version user (w, false) =
      (w, failed 503 "Password reset could not invalidate active sessions. Please try again.")
  reset_published password version user (w, true) =
      let w' =
        revoke_all_tracked_access_jtis D R e.show (items_of (read "activeAccessJtis" user)) w in
      reset_saved w' (
        save D e.hash_password (text_of (read "id" user)) (with_password password version user)
          w'.db)

  abbrev pub reset_user :
      String → Option Document → Site D.State R.State → Site D.State R.State × Reply
  reset_user password none w = (w, failed 400 "Invalid or expired reset token")
  reset_user password (some user) w =
      let version : ℕ = number_of (read "tokenVersion" user) + 1 in
      reset_published password version user
        (publish_token_version D R e.show (text_of (read "id" user)) version w)

  -- `resetPassword` after the form token; `secret` is what it was redeemed for
  unfoldable pub reset_with_secret :
      ℕ → Option String → String → Site D.State R.State → Site D.State R.State × Reply
  unfolding publish_token_version save has_reset_token resolve_fields
  reset_with_secret now none password w = (w, failed 400 "Invalid or expired reset session")
  reset_with_secret now (some secret) password w =
      reset_user password
        (loaded reset_fields (find_one (has_reset_token now (e.hash_token secret)) w.db)) w

  module _ (json : Codec Payload) where
    -- `resetPassword`; `now` is the time of the form token's test, `now'` that of the filter
    unfoldable pub reset_password :
        ℕ → ℕ → String → String → Desk D.State R.State → Desk D.State R.State × Reply
    unfolding reset_with_secret consume_form_token
    reset_password now now' form_token password w =
        let (y, form) =
          consume_form_token R json now form_token EmailLinkKind.reset_password (links_of w) in
        let w' : Desk D.State R.State = put_links y w in
        put_site w' (reset_with_secret now' (Option.map (λ f. f.secret) form) password w'.site)
