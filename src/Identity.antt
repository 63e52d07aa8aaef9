-- ===== src/Identity.antt =====
-- The index from e-mail addresses and OAuth accounts to users: uam-backend/src/services/
-- identity-index.service.ts over uam-backend/src/db/UserIdentityIndex.ts, with
-- uam-backend/src/utils/email-normalize.util.ts. The table is a parameter; its columns carry the
-- names of the document's fields.
mod Tests
pub mod Resolve
pub mod Owners
pub mod Sync
use Prim.Native.String
use routiq.Base.{
  ℕ, String, Bool, true, false, ◌||◌, ◌&&◌, not, Option, none, some, List, [], ◌∷◌, ◌++◌, ◌≡◌, ltb,
  str_eq, if◌then◌else◌,
}
use mathlib.Core.Option
use routiq.Codes.{Result, ok, thrown}
use routiq.Users.{Value, null, text, flag, date, Row, assign, truthy, text_of}
use routiq.Users.Columns.{elem}
use routiq.Users.Document.{Document, read}

-- The table `user_identity_indexes`: the row of a key; UPDATE and DELETE of a key; INSERT; and
-- `DELETE … WHERE user_id = … AND NOT (key = ANY(…))`.
pub record IndexDb : Type 1 where
  pub State : Type 0
  pub row : String → State → Option Row
  pub update : String → List (String × Value) → State → State
  pub insert : String → List (String × Value) → State → State
  pub delete : String → State → State
  pub delete_stale : String → List String → State → State

-- a row without values
abbrev pub no_row : Row
no_row field = null

-- the row's user
abbrev pub owner : Option Row → Option String
owner none = none
owner (some r) = some (text_of (r "userId"))

abbrev pub is_owner : String → Option Row → Bool
is_owner id none = false
is_owner id (some r) = str_eq (text_of (r "userId")) id

-- The documented behaviour of these statements.
pub record IsIndexDb (D : IndexDb) : Type 0 where
  pub row-update :
      (k j : String) (sets : List (String × Value)) (s : D.State)
      → D.row j (D.update k sets s)
        ≡ (if str_eq k j then Option.map (assign sets) (D.row k s) else D.row j s)
  pub row-insert :
      (k j : String) (sets : List (String × Value)) (s : D.State)
      → D.row k s ≡ none
      → D.row j (D.insert k sets s) ≡ (if str_eq k j then some (assign sets no_row) else D.row j s)
  pub row-delete_stale :
      (id j : String) (kept : List String) (s : D.State)
      → D.row j (D.delete_stale id kept s)
        ≡ (if is_owner id (D.row j s) && not (elem j kept) then none else D.row j s)

-- What the keys are made with: `trim`, `toLowerCase` and the HMAC in hexadecimal.
pub record Keys : Type 0 where
  pub trim : String → String
  pub lower : String → String
  pub hmac : String → String

module _ (K : Keys) where
  unfoldable pub normalize_email : String → String
  normalize_email email = K.lower (K.trim email)

  -- `kind` with its colon
  unfoldable pub email_key : String → String → String
  unfolding normalize_email
  email_key kind email = String.◌++◌ kind (K.hmac (normalize_email email))

abbrev pub oauth_key : String → String → String
oauth_key provider id = String.◌++◌ "oauth:" (String.◌++◌ provider (String.◌++◌ ":" id))

-- the value is a date later than now
abbrev pub is_later : ℕ → Value → Bool
is_later now (date t) = ltb now t
is_later now _ = false

-- `isActive`
unfoldable pub is_active : ℕ → Row → Bool
is_active now r = not (truthy (r "expiresAt")) || is_later now (r "expiresAt")

-- the value is a text, and is not the other one
abbrev pub is_text : String → Value → Bool
is_text s (text t) = str_eq t s
is_text s _ = false

abbrev pub is_true : Value → Bool
is_true (flag b) = b
is_true _ = false

-- An `updateOne` with `upsert`: its key, what it sets and what it unsets.
pub record Upsert : Type 0 where
  pub key : String
  pub set : List (String × Value)
  pub unset : List String

abbrev pub nulls : List String → List (String × Value)
nulls [] = []
nulls (f ∷ fs) = (f, null) ∷ nulls fs

-- what it writes
abbrev pub written : Upsert → List (String × Value)
written u = u.set ++ nulls u.unset

-- `user.previousEmail && user.migrationExpiry && user.migrationExpiry > new Date()`
abbrev pub has_previous : ℕ → Document → Bool
has_previous now user =
    truthy (read "previousEmail" user) && is_later now (read "migrationExpiry" user)

abbrev pub has_pending : ℕ → Document → Bool
has_pending now user =
    truthy (read "newEmailPending" user) && is_later now (read "migrationTokenExpires" user)

abbrev pub has_oauth : Document → Bool
has_oauth user = not (is_text "local" (read "provider" user)) && truthy (read "providerId" user)

abbrev pub when : {A : Type 0} → Bool → A → List A
when true a = a ∷ []
when false a = []

module _ (K : Keys) where
  abbrev pub key_of : String → String → Document → String
  key_of kind field user = email_key K kind (text_of (read field user))

  abbrev pub oauth_key_of : Document → String
  oauth_key_of user = oauth_key (text_of (read "provider" user)) (text_of (read "providerId" user))

  -- the keys of a user, where the old address is tested at one time and the new one at another
  abbrev pub keys_at : ℕ → ℕ → Document → List String
  keys_at now now' user =
      key_of "primary_email:" "email" user
        ∷ when (has_previous now user) (key_of "previous_email:" "previousEmail" user)
      ++ when (has_pending now' user) (key_of "pending_migration:" "newEmailPending" user)
      ++ when (has_oauth user) (oauth_key_of user)

  -- `expectedKeysForUser`
  unfoldable pub expected_keys_for_user : ℕ → Document → List String
  unfolding email_key
  expected_keys_for_user now user = keys_at now now user

  abbrev pub primary_upsert : Document → Upsert
  primary_upsert user = record {
    key = key_of "primary_email:" "email" user;
    set =
        ("kind", text "primary_email")
        ∷ ("userId", text (text_of (read "id" user)))
        ∷ ("verified", flag (is_true (read "isEmailVerified" user)))
        ∷ [];
    unset = "expiresAt" ∷ "provider" ∷ [];
  }

  abbrev pub previous_upsert : Document → Upsert
  previous_upsert user = record {
    key = key_of "previous_email:" "previousEmail" user;
    set =
        ("kind", text "previous_email")
        ∷ ("userId", text (text_of (read "id" user)))
        ∷ ("expiresAt", read "migrationExpiry" user)
        ∷ [];
    unset = "verified" ∷ "provider" ∷ [];
  }

  abbrev pub pending_upsert : Document → Upsert
  pending_upsert user = record {
    key = key_of "pending_migration:" "newEmailPending" user;
    set =
        ("kind", text "pending_migration")
        ∷ ("userId", text (text_of (read "id" user)))
        ∷ ("expiresAt", read "migrationTokenExpires" user)
        ∷ [];
    unset = "verified" ∷ "provider" ∷ [];
  }

  abbrev pub oauth_upsert : Document → Upsert
  oauth_upsert user = record {
    key = oauth_key_of user;
    set =
        ("kind", text "oauth")
        ∷ ("userId", text (text_of (read "id" user)))
        ∷ ("provider", read "provider" user)
        ∷ [];
    unset = "verified" ∷ "expiresAt" ∷ [];
  }

  -- the calls of `updateOne` of a synchronisation, in their order
  unfoldable pub upserts : ℕ → ℕ → Document → List Upsert
  unfolding email_key
  upserts now now' user =
      primary_upsert user ∷ when (has_previous now user) (previous_upsert user)
      ++ when (has_pending now' user) (pending_upsert user)
      ++ when (has_oauth user) (oauth_upsert user)

module _ (D : IndexDb) where
  open D use {State, row, update, insert, delete, delete_stale}

  -- the text of a field in `$set`
  abbrev pub set_text : String → List (String × Value) → String
  set_text field sets = text_of (assign sets no_row field)

  -- `doc.kind ?? 'oauth'`
  abbrev pub kind_or_oauth : List (String × Value) → String
  kind_or_oauth sets = elim (assign sets no_row "kind") [ text k ↦ k | _ ↦ "oauth" ]

  abbrev pub upsert_missing : Upsert → State → State × Result (Unit {0})
  upsert_missing u s =
      if str_eq u.key "" || str_eq (kind_or_oauth u.set) "" || str_eq (set_text "userId" u.set) ""
      then (s, thrown "identity index upsert requires key, kind, userId")
      else (insert u.key (("key", text u.key) ∷ written u) s, ok tt)

  abbrev pub upsert_found : Upsert → Option Row → State → State × Result (Unit {0})
  upsert_found u none s = upsert_missing u s
  upsert_found u (some r) s = (update u.key (written u) s, ok tt)

  -- `UserIdentityIndex.updateOne(…, { upsert: true })`: looked up first, then written
  unfoldable pub update_one : Upsert → State → State × Result (Unit {0})
  update_one u s = upsert_found u (row u.key s) s

  abbrev pub and_then :
      State × Result (Unit {0}) → (State → State × Result (Unit {0})) → State × Result (Unit {0})
  and_then (s, ok done) f = f s
  and_then (s, thrown message) f = (s, thrown message)

  abbrev pub update_all : List Upsert → State → State × Result (Unit {0})
  update_all [] s = (s, ok tt)
  update_all (u ∷ us) s = and_then (update_one u s) (update_all us)

  module _ (K : Keys) where
    -- `syncIdentityIndexesFromUser`; `start` is the time of the expected keys, `now` that after the
    -- first write, `now'` that after the second
    unfoldable pub sync_identity_indexes_from_user :
        ℕ → ℕ → ℕ → Document → State → State × Result (Unit {0})
    unfolding upserts expected_keys_for_user
    sync_identity_indexes_from_user start now now' user s =
        and_then (update_all (upserts K now now' user) s) (λ s'.
          (delete_stale (text_of (read "id" user)) (expected_keys_for_user K start user) s', ok tt))
