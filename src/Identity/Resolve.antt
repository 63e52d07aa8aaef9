-- ===== src/Identity/Resolve.antt =====
-- The look-ups of uam-backend/src/services/identity-index.service.ts and the deletions by key.
use routiq.Base.{ℕ, String, Option, none, some, if◌then◌else◌}
use routiq.Users.{Value, Row, text_of}
use routiq.Identity.{IndexDb, Keys, normalize_email, email_key, oauth_key, is_later, is_active}

-- `EmailResolveMatch`
pub data Match : Type 0 where
  primary previous pending_migration : Match

-- `ResolvedEmailIdentity`
pub record Resolved : Type 0 where
  pub user_id : String
  pub by : Match
  pub verified : Value

module _ (D : IndexDb) (K : Keys) where
  open D use {State, row, delete}

  abbrev pub resolved : ℕ → Match → Option Row → Option Resolved → Option Resolved
  resolved now by none rest = rest
  resolved now by (some r) rest =
      if is_active now r
      then some (record { user_id = text_of (r "userId"); by = by; verified = r "verified" })
      else rest

  -- `resolveEmailIdentity`
  unfoldable pub resolve_email_identity : ℕ → String → State → Option Resolved
  unfolding normalize_email email_key is_active
  resolve_email_identity now email s =
      let normalized : String = normalize_email K email in
      resolved now primary (row (email_key K "primary_email:" normalized) s) (
        resolved now previous (row (email_key K "previous_email:" normalized) s) (
          resolved now pending_migration (row (email_key K "pending_migration:" normalized) s)
            none))

  abbrev pub active_user : ℕ → Option Row → Option String
  active_user now none = none
  active_user now (some r) = if is_active now r then some (text_of (r "userId")) else none

  -- `findUserIdByPrimaryEmail`
  unfoldable pub find_user_id_by_primary_email : ℕ → String → State → Option String
  unfolding email_key is_active
  find_user_id_by_primary_email now email s =
      active_user now (row (email_key K "primary_email:" email) s)

  -- a row without an expiry does not meet `expiresAt: { $gt: … }`
  abbrev pub pending_user : ℕ → Option Row → Option String
  pending_user now none = none
  pending_user now (some r) =
      if is_later now (r "expiresAt") then some (text_of (r "userId")) else none

  -- `findPendingMigrationHolder`
  unfoldable pub find_pending_migration_holder : ℕ → String → State → Option String
  unfolding email_key
  find_pending_migration_holder now email s =
      pending_user now (row (email_key K "pending_migration:" email) s)

  abbrev pub row_user : Option Row → Option String
  row_user none = none
  row_user (some r) = some (text_of (r "userId"))

  -- `findUserIdByOAuth`
  unfoldable pub find_user_id_by_oauth : String → String → State → Option String
  find_user_id_by_oauth provider id s = row_user (row (oauth_key provider id) s)

  -- `releasePrimaryEmail`, `clearPendingMigration` and `clearPreviousEmail`
  unfoldable pub release_primary_email : String → State → State
  unfolding email_key
  release_primary_email email s = delete (email_key K "primary_email:" email) s

  unfoldable pub clear_pending_migration : String → State → State
  unfolding email_key
  clear_pending_migration email s = delete (email_key K "pending_migration:" email) s

  unfoldable pub clear_previous_email : String → State → State
  unfolding email_key
  clear_previous_email email s = delete (email_key K "previous_email:" email) s
