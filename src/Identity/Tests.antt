-- ===== src/Identity/Tests.antt =====
-- The theorem on the index at an input that meets its hypotheses.
use routiq.Base.{
  leb→le, not, ◌&&◌, String, ◌&&◌, not, Option, none, some, [], ◌∷◌, ◌≡◌, refl, str_eq,
  if◌then◌else◌,
}
use mathlib.Core.Option
use routiq.Codes.{ok}
use routiq.Users.{Row, assign, text}
use routiq.Users.Columns.{elem, all_fields}
use routiq.Users.Document.{Document, hydrate}
use routiq.Users.Sample.{ann}
use routiq.Identity.{
  IndexDb, IsIndexDb, no_row, owner, is_owner, Keys, expected_keys_for_user,
  sync_identity_indexes_from_user, keys_at,
}
use routiq.Identity.Sync.{sync_identity_indexes_from_user-owner}

abbrev index : IndexDb
index = record {
  State = String → Option Row;
  row = λ k s. s k;
  update = λ k sets s j. if str_eq k j then Option.map (assign sets) (s k) else s j;
  insert = λ k sets s j. if str_eq k j then some (assign sets no_row) else s j;
  delete = λ k s j. if str_eq k j then none else s j;
  delete_stale = λ id kept s j. if is_owner id (s j) && not (elem j kept) then none else s j;
}

index-IsIndexDb : IsIndexDb index
index-IsIndexDb = record {
  row-update = λ k j sets s. refl;
  row-insert = λ k j sets s h. refl;
  row-delete_stale = λ id j kept s. refl;
}

abbrev keys : Keys
keys = record { trim = λ s. s; lower = λ s. s; hmac = λ s. s }

-- An index where an old address of the user is left.
abbrev entries : String → Option Row
entries key =
    if str_eq key "primary_email:old@example.org"
    then some (assign (("userId", text "u1") ∷ []) no_row)
    else none

abbrev user : Document
user = hydrate all_fields ann

sync_identity_indexes_from_user-owner_example :
    ((sync_identity_indexes_from_user index keys 5 6 7 user entries).1 ≡ ok tt)
    × (owner (
          (sync_identity_indexes_from_user index keys 5 6 7 user entries).0
            "primary_email:old@example.org")
        ≡ (if elem "primary_email:old@example.org" (keys_at keys 6 7 user)
            then some "u1"
            else if is_owner "u1" (entries "primary_email:old@example.org")
                && not (elem "primary_email:old@example.org" (expected_keys_for_user keys 5 user))
            then none
            else owner (entries "primary_email:old@example.org")))
sync_identity_indexes_from_user-owner_example =
    sync_identity_indexes_from_user-owner index index-IsIndexDb keys 5 6 7 user
      "primary_email:old@example.org" entries (λ h. cc h) (leb→le 5 6 refl) (leb→le 5 7 refl)
