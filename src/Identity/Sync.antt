-- ===== src/Identity/Sync.antt =====
-- What a synchronisation leaves in the index: who owns each key, and what a look-up then finds.
use routiq.Base.{
  ℕ, String, true, ◌&&◌, not, Option, none, some, List, ◌++◌, ◌≡◌, ◌≢◌, refl, sym, ap, ◌∙◌, arith,
  All, All-append, ◌≤◌, if◌then◌else◌,
}
use routiq.Codes.{Result, ok}
use routiq.Users.{text_of}
use routiq.Users.Columns.{elem}
use routiq.Users.Document.{Document, read}
use routiq.Identity.{
  IndexDb, IsIndexDb, owner, is_owner, Keys, email_key, Upsert, when, has_previous, has_pending,
  has_oauth, keys_at, oauth_key_of, expected_keys_for_user, primary_upsert, previous_upsert,
  pending_upsert, oauth_upsert, upserts, update_all, sync_identity_indexes_from_user,
}
use routiq.Identity.Owners.{
  IsFor, keys_of, keys-when, and_then-ok, update_all-owner, All-when, prefixed-IsPresent, is_id,
  is_owner-owner, owner-if, kept_or_stale, elem-keys, is_later_before,
}

module _ (D : IndexDb) (law : IsIndexDb D) (K : Keys) where
  open D use {State, row}

  upserts-IsFor :
      (now now' : ℕ) (user : Document)
      → All (IsFor D (text_of (read "id" user))) (upserts K now now' user)
  unfolding upserts email_key
  upserts-IsFor now now' user =
      let P : Upsert → Type 0 = IsFor D (text_of (read "id" user)) in
      (
        (prefixed-IsPresent "primary_email:" _ (omega arith), refl, refl, λ r. refl),
        All-append P
            (when (has_previous now user) (previous_upsert K user)
              ++ when (has_pending now' user) (pending_upsert K user))
            (when (has_oauth user) (oauth_upsert K user))
            (All-append P (when (has_previous now user) (previous_upsert K user))
              (when (has_pending now' user) (pending_upsert K user))
              (All-when P (has_previous now user) (previous_upsert K user)
                (prefixed-IsPresent "previous_email:" _ (omega arith), refl, refl, λ r. refl))
              (All-when P (has_pending now' user) (pending_upsert K user)
                (prefixed-IsPresent "pending_migration:" _ (omega arith), refl, refl, λ r. refl)))
            (All-when P (has_oauth user) (oauth_upsert K user)
              (prefixed-IsPresent "oauth:" _ (omega arith), refl, refl, λ r. refl)),
      )

  keys-upserts :
      (now now' : ℕ) (user : Document) → keys_of (upserts K now now' user) ≡ keys_at K now now' user
  unfolding upserts
  keys-upserts now now' user =
      keys-when (primary_upsert K user) (previous_upsert K user) (pending_upsert K user)
        (oauth_upsert K user) (has_previous now user) (has_pending now' user) (has_oauth user)

  elem-keys_at :
      (start now now' : ℕ) (user : Document) (key : String)
      → start ≤ now
      → start ≤ now'
      → elem key (keys_at K now now' user) ≡ true
      → elem key (expected_keys_for_user K start user) ≡ true
  unfolding expected_keys_for_user
  elem-keys_at start now now' user key le le' h =
      let previous = is_later_before start now (read "migrationExpiry" user) le in
      let pending = is_later_before start now' (read "migrationTokenExpires" user) le' in
      elem-keys key _ _ _ (when (has_oauth user) (oauth_key_of K user)) (has_previous now user)
        (has_pending now' user) (has_previous start user) (has_pending start user)
        (λ q. ground (arith, q, previous)) (λ q. ground (arith, q, pending)) h

  -- What the last statement leaves of a key.
  stale-owner :
      (id key : String) (own kept : List String) (before : Option String) (s : State)
      → (elem key own ≡ true → elem key kept ≡ true)
      → owner (row key s) ≡ (if elem key own then some id else before)
      → owner (row key (D.delete_stale id kept s)) ≡ (
          if elem key own
          then some id
          else if is_id id before && not (elem key kept)
          then none
          else before)
  stale-owner id key own kept before s within h =
      ap owner (law.row-delete_stale id key kept s)
      ∙ owner-if (is_owner id (row key s) && not (elem key kept)) (row key s)
      ∙ ap (λ b. if b && not (elem key kept) then none else owner (row key s))
          (is_owner-owner id (row key s))
      ∙ ap (λ o. if is_id id o && not (elem key kept) then none else o) h
      ∙ kept_or_stale (elem key own) (elem key kept) id before within

  -- A synchronisation with a user whose id is not empty, whose first time is its earliest,
  -- succeeds. Afterwards the user's keys at the times of their tests are the user's, whosever
  -- they were; the other keys that were the user's are gone, apart from those that were among the
  -- expected ones when it started and are no longer; and all other keys keep their owner.
  pub sync_identity_indexes_from_user-owner :
      (start now now' : ℕ) (user : Document) (key : String) (s : State)
      → text_of (read "id" user) ≢ ""
      → start ≤ now
      → start ≤ now'
      → let id : String = text_of (read "id" user) in
        let (s', result) = sync_identity_indexes_from_user D K start now now' user s in
        (result ≡ ok tt)
        × (owner (row key s') ≡ (
            if elem key (keys_at K now now' user)
            then some id
            else if is_owner id (row key s) && not (elem key (expected_keys_for_user K start user))
            then none
            else owner (row key s)))
  unfolding sync_identity_indexes_from_user
  sync_identity_indexes_from_user-owner start now now' user key s n le le' =
      let id : String = text_of (read "id" user) in
      let expected : List String = expected_keys_for_user K start user in
      let own : List String = keys_at K now now' user in
      let ups : List Upsert = upserts K now now' user in
      let (done, owns) = update_all-owner D law id key ups s (upserts-IsFor now now' user) n in
      let s' : State = (update_all D ups s).0 in
      let finish : State → State × Result (Unit {0}) = λ x. (D.delete_stale id expected x, ok tt) in
      let e = and_then-ok D law (update_all D ups s) finish done in
      (
        ap (λ x. x.1) e,
        ap (λ x. owner (row key x.0)) e
            ∙ stale-owner id key own expected (owner (row key s)) s'
                (elem-keys_at start now now' user key le le')
                (owns
                  ∙ ap (λ ks. if elem key ks then some id else owner (row key s))
                      (keys-upserts now now' user))
            ∙ ap
                (λ b.
                  if elem key own
                  then some id
                  else if b && not (elem key expected)
                  then none
                  else owner (row key s))
                (sym (is_owner-owner id (row key s))),
      )
