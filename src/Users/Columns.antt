-- ===== src/Users/Columns.antt =====
-- uam-backend/src/db/columns.ts: the fields of a user and their columns.
use routiq.Base.{String, Bool, false, ◌||◌, Option, some, List, [], ◌∷◌, str_eq, if◌then◌else◌}
use routiq.Base.Dict.{Dict, lookup}

abbrev pub field_to_column : Dict String
field_to_column =
    ("id", "id")
    ∷ ("email", "email")
    ∷ ("previousEmail", "previous_email")
    ∷ ("password", "password")
    ∷ ("displayName", "display_name")
    ∷ ("avatar", "avatar")
    ∷ ("bio", "bio")
    ∷ ("isEmailVerified", "is_email_verified")
    ∷ ("loginCount", "login_count")
    ∷ ("lastLogin", "last_login")
    ∷ ("emailVerificationToken", "email_verification_token")
    ∷ ("emailVerificationExpires", "email_verification_expires")
    ∷ ("passwordResetToken", "password_reset_token")
    ∷ ("passwordResetExpires", "password_reset_expires")
    ∷ ("provider", "provider")
    ∷ ("providerId", "provider_id")
    ∷ ("refreshTokens", "refresh_tokens")
    ∷ ("activeAccessJtis", "active_access_jtis")
    ∷ ("tokenVersion", "token_version")
    ∷ ("migrationExpiry", "migration_expiry")
    ∷ ("migrationToken", "migration_token")
    ∷ ("migrationTokenExpires", "migration_token_expires")
    ∷ ("newEmailPending", "new_email_pending")
    ∷ ("lastMigrationDate", "last_migration_date")
    ∷ ("currentEmailVerified", "current_email_verified")
    ∷ ("newEmailVerified", "new_email_verified")
    ∷ ("currentEmailToken", "current_email_token")
    ∷ ("newEmailToken", "new_email_token")
    ∷ ("lastMigrationEmailSent", "last_migration_email_sent")
    ∷ ("migrationHistory", "migration_history")
    ∷ ("createdAt", "created_at")
    ∷ ("updatedAt", "updated_at")
    ∷ []

-- `Object.fromEntries(Object.entries(…).map(([k, v]) => [v, k]))`
abbrev pub flipped : Dict String → Dict String
flipped [] = []
flipped ((k, v) ∷ d) = (v, k) ∷ flipped d

abbrev pub column_to_field : Dict String
column_to_field = flipped field_to_column

abbrev pub keys : Dict String → List String
keys [] = []
keys ((k, v) ∷ d) = k ∷ keys d

abbrev pub all_fields : List String
all_fields = keys field_to_column

abbrev pub elem : String → List String → Bool
elem x [] = false
elem x (y ∷ ys) = str_eq x y || elem x ys

abbrev pub is_sensitive : String → Bool
is_sensitive field = elem field ("password" ∷ "refreshTokens" ∷ "activeAccessJtis" ∷ [])

abbrev pub is_jsonb : String → Bool
is_jsonb field = elem field ("refreshTokens" ∷ "activeAccessJtis" ∷ "migrationHistory" ∷ [])

-- `none` is the error "Unknown field"
unfoldable pub column_name : String → Option String
column_name field = if str_eq field "_id" then some "id" else lookup field field_to_column

-- `none` is the error "Unknown column"
unfoldable pub field_name : String → Option String
field_name column = lookup column column_to_field
