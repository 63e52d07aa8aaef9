-- ===== src/Session.antt =====
-- uam-backend/src/services/session.service.ts and uam-backend/src/utils/refresh-token.util.ts.
mod Tests
pub mod Capped
pub mod Stored
pub mod Kept
pub mod Fields
pub mod Rotation
pub mod Invalidation
use Prim.Native.String
use routiq.Base.{
  ℕ, ◌+◌, String, Bool, true, false, not, Option, none, some, List, [], ◌∷◌, ◌++◌, str_eq,
  if◌then◌else◌,
}
use routiq.Redis.{Redis, cache_get, cache_set}
use routiq.Codes.{Result, ok, thrown}
use routiq.Users.{Value, null, number, items, Row, items_of, number_of, UserDb}
use routiq.Users.Columns.{elem}
use routiq.Users.Update.{
  UpdateDoc, PushSpec, each, last, without, Updated, updated, find_by_id_and_update,
}
use routiq.Users.Document.{Document, read, put, Projection, find_by_id, save}

abbrev pub max_refresh : ℕ
max_refresh = 5

abbrev pub max_jtis : ℕ
max_jtis = 20

abbrev pub access_revoke_ttl_secs : ℕ
access_revoke_ttl_secs = 900

-- What the gateway's control plane is asked to revoke: an id, or a token with the id it may have;
-- and for how many seconds. What it answers is ignored.
pub data Revocation : Type 0 where
  by_jti : String → ℕ → Revocation
  by_token : String → Option String → ℕ → Revocation

-- What the services reach: the table of users, Redis, and the requests to the control plane.
pub record Site (S T : Type 0) : Type 0 where
  pub db : S
  pub redis : T
  pub revoked : List Revocation

-- `findStoredRefreshToken`; `hash_token` is the hexadecimal SHA-256
unfoldable pub find_stored_refresh_token : (String → String) → List String → String → Option String
find_stored_refresh_token hash_token [] presented = none
find_stored_refresh_token hash_token (x ∷ xs) presented =
    if elem (hash_token presented) (x ∷ xs) then some (hash_token presented) else none

-- `split` is `.split('.')`; `decode` reads the `jti` of the base64url JSON in the middle
unfoldable pub extract_access_jti :
    (String → List String) → (String → Option String) → String → Option String
extract_access_jti split decode token = elim (split token) [ a ∷ b ∷ c ∷ [] ↦ decode b | _ ↦ none ]

abbrev pub version_key : String → String
version_key id = String.◌++◌ "gateway:user:tv:" id

-- `if (jti)`
abbrev pub jti_push : Option String → List (String × PushSpec)
jti_push none = []
jti_push (some jti) =
    if str_eq jti "" then [] else ("activeAccessJtis", each (jti ∷ []) (some (last max_jtis))) ∷ []

-- the update of a new session: its refresh token and the id of its access token
abbrev pub new_session : String → Option String → List (String × PushSpec)
new_session refresh_hash jti =
    ("refreshTokens", each (refresh_hash ∷ []) (some (last max_refresh))) ∷ jti_push jti

-- `revokeByJti` for each id; an empty one is not sent
abbrev pub revocations : List String → List Revocation
revocations [] = []
revocations (x ∷ xs) =
    if str_eq x "" then revocations xs else by_jti x access_revoke_ttl_secs ∷ revocations xs

module _ (D : UserDb) (R : Redis) (show : ℕ → String) where
  -- `publishTokenVersion`
  unfoldable pub publish_token_version :
      String → ℕ → Site D.State R.State → Site D.State R.State × Bool
  unfolding cache_get cache_set
  publish_token_version id version w =
      let s = cache_set R (version_key id) (show version) none w.redis in
      let (s', stored) = cache_get R (version_key id) s in
      if not (R.available w.redis) then (w, false) else (
        record w { redis = s' },
        elim stored [ none ↦ false | some v ↦ str_eq v (show version) ],
      )

  -- `if (tokenVersion !== undefined) await publishTokenVersion(…)`
  abbrev pub publish_given : String → Option ℕ → Site D.State R.State → Site D.State R.State
  publish_given id none w = w
  publish_given id (some version) w = (publish_token_version id version w).0

  abbrev pub published :
      String → Option ℕ → Site D.State R.State × Updated → Site D.State R.State × Result Bool
  published id version (w, Updated.thrown) = (w, thrown "database error")
  published id version (w, updated none) = (w, ok false)
  published id version (w, updated (some r)) = (publish_given id version w, ok true)

  -- `User.findByIdAndUpdate(userId, update)`
  abbrev pub update_user :
      String → UpdateDoc → Site D.State R.State → Site D.State R.State × Updated
  update_user id u w =
      let (s, result) = find_by_id_and_update D id u w.db in (record w { db = s }, result)

  module _ (hash_token : String → String) (jti_of : String → Option String) where
    abbrev pub stored_key : Option Document → String → Option String
    stored_key none old = none
    stored_key (some d) old =
        find_stored_refresh_token hash_token (items_of (read "refreshTokens" d)) old

    -- the first half of `rotateSessionTokens`: look the old token up
    unfoldable pub rotate_check : String → String → Site D.State R.State → Option String
    unfolding find_stored_refresh_token find_by_id
    rotate_check id old w =
        stored_key
          (find_by_id D id (some (record { additive = "refreshTokens" ∷ []; inclusion = [] })) w.db)
          old

    -- the second half: one update that pushes the new token and pulls the old one
    unfoldable pub rotate_commit :
        String
        → String
        → String
        → String
        → Option ℕ
        → Site D.State R.State
        → Site D.State R.State × Result Bool
    unfolding publish_token_version find_by_id_and_update
    rotate_commit id stored_key access refresh version w = published id version (
        update_user id
          (record {
            push = new_session (hash_token refresh) (jti_of access);
            pull = ("refreshTokens", stored_key) ∷ [];
            set = [];
            unset = [];
            inc = [];
          })
          w)

    abbrev pub rotate_with :
        Option String
        → String
        → String
        → String
        → Option ℕ
        → Site D.State R.State
        → Site D.State R.State × Result Bool
    rotate_with none id access refresh version w = (w, ok false)
    rotate_with (some key) id access refresh version w =
        rotate_commit id key access refresh version w

    unfoldable pub rotate_session_tokens :
        String
        → String
        → String
        → String
        → Option ℕ
        → Site D.State R.State
        → Site D.State R.State × Result Bool
    unfolding rotate_check rotate_commit
    rotate_session_tokens id old access refresh version w =
        rotate_with (rotate_check id old w) id access refresh version w

    -- a failed update throws; that no user was updated is not noticed
    abbrev pub persisted :
        String
        → Option ℕ
        → Site D.State R.State × Updated
        → Site D.State R.State × Result (Unit {0})
    persisted id version (w, Updated.thrown) = (w, thrown "database error")
    persisted id version (w, updated r) = (publish_given id version w, ok tt)

    unfoldable pub persist_session_tokens :
        String
        → String
        → String
        → Option ℕ
        → Site D.State R.State
        → Site D.State R.State × Result (Unit {0})
    unfolding publish_token_version find_by_id_and_update
    persist_session_tokens id access refresh version w = persisted id version (
        update_user id
          (record {
            push = new_session (hash_token refresh) (jti_of access);
            pull = [];
            set = [];
            unset = [];
            inc = [];
          })
          w)

  -- `revokeAllTrackedAccessJtis`: a request for each id; an empty one is not sent
  abbrev pub revoke_all_tracked_access_jtis :
      List String → Site D.State R.State → Site D.State R.State
  revoke_all_tracked_access_jtis jtis w = record w { revoked = w.revoked ++ revocations jtis }

  module _ (hash_password : String → String) where
    abbrev pub save_user : String → Document → Site D.State R.State → Site D.State R.State × Updated
    save_user id d w =
        let (s, result) = save D hash_password id d w.db in (record w { db = s }, result)

    abbrev pub then_publish :
        String → ℕ → Site D.State R.State × Updated → Site D.State R.State × Result (Unit {0})
    then_publish id version (w, Updated.thrown) = (w, thrown "database error")
    then_publish id version (w, updated r) = ((publish_token_version id version w).0, ok tt)

    -- the assignments to a user whose sessions end
    abbrev pub without_sessions : ℕ → Document → Document
    without_sessions version d =
        put "tokenVersion" (number version)
          (put "activeAccessJtis" (items []) (put "refreshTokens" (items []) d))

    abbrev pub invalidate_user :
        Option Document → String → Site D.State R.State → Site D.State R.State × Result (Unit {0})
    invalidate_user none id w = (w, ok tt)
    invalidate_user (some d) id w =
        let version : ℕ = number_of (read "tokenVersion" d) + 1 in
        let w' : Site D.State R.State =
          revoke_all_tracked_access_jtis (items_of (read "activeAccessJtis" d)) w in
        then_publish id version (save_user id (without_sessions version d) w')

    unfoldable pub invalidate_all_sessions :
        String → Site D.State R.State → Site D.State R.State × Result (Unit {0})
    unfolding publish_token_version find_by_id save
    invalidate_all_sessions id w =
        invalidate_user
          (find_by_id D id
            (some (record { additive = "refreshTokens" ∷ "activeAccessJtis" ∷ []; inclusion = [] }))
            w.db)
          id w

    abbrev pub removed : Site D.State R.State × Updated → Site D.State R.State × Result (Unit {0})
    removed (w, Updated.thrown) = (w, thrown "database error")
    removed (w, updated r) = (w, ok tt)

    module _ (hash_token : String → String) where
      abbrev pub drop_token :
          Option String
          → Document
          → String
          → Site D.State R.State
          → Site D.State R.State × Result (Unit {0})
      drop_token none d id w = (w, ok tt)
      drop_token (some key) d id w =
          let tokens : List String = items_of (read "refreshTokens" d) in
          removed (save_user id (put "refreshTokens" (items (without key tokens)) d) w)

      abbrev pub remove_from :
          Option Document
          → String
          → String
          → Site D.State R.State
          → Site D.State R.State × Result (Unit {0})
      remove_from none id refresh w = (w, ok tt)
      remove_from (some d) id refresh w =
          drop_token
            (find_stored_refresh_token hash_token (items_of (read "refreshTokens" d)) refresh) d id
            w

      unfoldable pub remove_refresh_token :
          String → String → Site D.State R.State → Site D.State R.State × Result (Unit {0})
      unfolding find_by_id save find_stored_refresh_token
      remove_refresh_token id refresh w =
          remove_from
            (find_by_id D id (some (record { additive = "refreshTokens" ∷ []; inclusion = [] }))
              w.db)
            id refresh w
