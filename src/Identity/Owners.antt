-- ===== src/Identity/Owners.antt =====
-- Who owns a key of the index after upserts (uam-backend/src/services/identity-index.service.ts).
use Prim.Native.String
use Prim.Native.String.{len}
use package.text.Mathlib.TextPositions.{len-append}
use routiq.Base.{
  ℕ, String, Bool, true, false, ◌&&◌, not, Option, none, some, List, [], ◌∷◌, ◌++◌, str_eq, eq_iff,
  ◌≡◌, ◌≢◌, refl, ap, ◌∙◌, arith, All, ◌<◌, ◌≤◌, if◌then◌else◌, inl, inr, Bool-cases,
}
use routiq.Codes.{Result, ok, thrown}
use routiq.Users.{Value, null, text, number, flag, date, items, Row, set_field, assign, text_of}
use routiq.Users.Columns.{elem}
use routiq.Identity.{
  IndexDb, IsIndexDb, no_row, owner, is_owner, Upsert, written, when, is_later, set_text,
  kind_or_oauth, upsert_missing, upsert_found, update_one, and_then, update_all,
}

-- An upsert with all that an insert needs, after which the row is that user's.
abbrev pub IsFor : IndexDb → String → Upsert → Type 0
IsFor D id u =
    (u.key ≢ "")
    × (str_eq (kind_or_oauth D u.set) "" ≡ false)
    × (set_text D "userId" u.set ≡ id)
    × ((r : Row) → text_of (assign (written u) r "userId") ≡ id)

abbrev pub keys_of : List Upsert → List String
keys_of [] = []
keys_of (u ∷ us) = u.key ∷ keys_of us

pub keys-when :
    (p x y z : Upsert) (b c d : Bool)
    → keys_of (p ∷ when b x ++ when c y ++ when d z)
      ≡ p.key ∷ when b x.key ++ when c y.key ++ when d z.key
keys-when p x y z true true true = refl
keys-when p x y z true true false = refl
keys-when p x y z true false true = refl
keys-when p x y z true false false = refl
keys-when p x y z false true true = refl
keys-when p x y z false true false = refl
keys-when p x y z false false true = refl
keys-when p x y z false false false = refl

module _ (D : IndexDb) (law : IsIndexDb D) where
  open D use {State, row, update, insert}

  is_empty_false : (t : String) → t ≢ "" → str_eq t "" ≡ false
  is_empty_false t h = ground (arith, eq_iff t "")

  upsert_missing-insert :
      (id : String) (u : Upsert) (s : State)
      → IsFor D id u
      → id ≢ ""
      → upsert_missing D u s ≡ (insert u.key (("key", text u.key) ∷ written u) s, ok tt)
  upsert_missing-insert id u s (k, kind, user, after) n =
      rw (is_empty_false u.key k, kind, user, is_empty_false id n) refl

  upsert_found-owner :
      (id j : String) (u : Upsert) (o : Option Row) (s : State)
      → IsFor D id u
      → id ≢ ""
      → row u.key s ≡ o
      → ((upsert_found D u o s).1 ≡ ok tt)
        × (owner (row j (upsert_found D u o s).0)
            ≡ (if str_eq u.key j then some id else owner (row j s)))
  upsert_found-owner id j u none s (k, kind, user, after) n h =
      let e = upsert_missing-insert id u s (k, kind, user, after) n in
      let sets : List (String × Value) = ("key", text u.key) ∷ written u in
      (
        ap (λ x. x.1) e,
        ap (λ x. owner (row j x.0)) e ∙ elim (Bool-cases (str_eq u.key j)) [
          | inl q ↦
              rw (law.row-insert u.key j sets s h, q)
                (ap some (after (set_field "key" (text u.key) no_row)))
          | inr q ↦ rw (law.row-insert u.key j sets s h, q) refl
        ],
      )
  upsert_found-owner id j u (some r) s (k, kind, user, after) n h = (
    refl,
    elim (Bool-cases (str_eq u.key j)) [
      | inl e ↦ rw (law.row-update u.key j (written u) s, e, h) (ap some (after r))
      | inr e ↦ rw (law.row-update u.key j (written u) s, e) refl
    ],
  )

  -- After an upsert its key is that user's; the other keys keep their owner.
  update_one-owner :
      (id j : String) (u : Upsert) (s : State)
      → IsFor D id u
      → id ≢ ""
      → ((update_one D u s).1 ≡ ok tt)
        × (owner (row j (update_one D u s).0)
            ≡ (if str_eq u.key j then some id else owner (row j s)))
  unfolding update_one
  update_one-owner id j u s f n = upsert_found-owner id j u (row u.key s) s f n refl

  pub and_then-ok :
      (x : State × Result (Unit {0})) (f : State → State × Result (Unit {0}))
      → x.1 ≡ ok tt
      → and_then D x f ≡ f x.0
  and_then-ok (s, ok done) f h = refl
  and_then-ok (s, thrown message) f h = absurd (cc h)

  pub update_all-owner :
      (id j : String) (us : List Upsert) (s : State)
      → All (IsFor D id) us
      → id ≢ ""
      → ((update_all D us s).1 ≡ ok tt)
        × (owner (row j (update_all D us s).0)
            ≡ (if elem j (keys_of us) then some id else owner (row j s)))
  update_all-owner id j [] s fs n = (refl, refl)
  update_all-owner id j (u ∷ us) s (f, fs) n =
      let (done, own) = update_one-owner id j u s f n in
      let s' : State = (update_one D u s).0 in
      let (rest, owns) = update_all-owner id j us s' fs n in
      let e = and_then-ok (update_one D u s) (update_all D us) done in
      (
        ap (λ x. x.1) e ∙ rest,
        ap (λ x. owner (row j x.0)) e
            ∙ owns
            ∙ ap (λ o. if elem j (keys_of us) then some id else o) own
            ∙ ground (arith, eq_iff u.key j, eq_iff j u.key),
      )

pub All-when : {A : Type 0} (P : A → Type 0) (b : Bool) (a : A) → P a → All P (when b a)
All-when P true a p = (p, tt)
All-when P false a p = tt

pub prefixed-IsPresent : (p t : String) → 0 < len p → String.◌++◌ p t ≢ ""
prefixed-IsPresent p t h e =
    let zero_len : len (String.◌++◌ p t) ≡ 0 = ap len e in
    omega (arith, h, len-append p t, zero_len)

abbrev pub is_id : String → Option String → Bool
is_id id none = false
is_id id (some t) = str_eq t id

pub is_owner-owner : (id : String) (o : Option Row) → is_owner id o ≡ is_id id (owner o)
is_owner-owner id none = refl
is_owner-owner id (some r) = refl

pub owner-if :
    (b : Bool) (o : Option Row) → owner (if b then none else o) ≡ (if b then none else owner o)
owner-if true o = refl
owner-if false o = refl

pub kept_or_stale :
    (b c : Bool) (id : String) (o : Option String)
    → (b ≡ true → c ≡ true)
    → (if is_id id (if b then some id else o) && not c then none else if b then some id else o)
      ≡ (if b then some id else if is_id id o && not c then none else o)
kept_or_stale true c id o h = ground (arith, h refl)
kept_or_stale false c id o h = refl

elem-when :
    (k x : String) (b : Bool) (rest : List String)
    → elem k (when b x ++ rest) ≡ (if b then elem k (x ∷ rest) else elem k rest)
elem-when k x true rest = refl
elem-when k x false rest = refl

pub elem-keys :
    (k p x y : String) (zs : List String) (b c b' c' : Bool)
    → (b ≡ true → b' ≡ true)
    → (c ≡ true → c' ≡ true)
    → elem k (p ∷ when b x ++ when c y ++ zs) ≡ true
    → elem k (p ∷ when b' x ++ when c' y ++ zs) ≡ true
elem-keys k p x y zs b c b' c' h h' e = ground (
  arith,
  h,
  h',
  e,
  elem-when k x b (when c y ++ zs),
  elem-when k x b' (when c' y ++ zs),
  elem-when k y c zs,
  elem-when k y c' zs,
)

-- What is later than a time is later than one before.
pub is_later_before :
    (start now : ℕ) (v : Value) → start ≤ now → is_later now v ≡ true → is_later start v ≡ true
is_later_before start now (date t) le h = ground (arith, le, h)
is_later_before start now null le h = h
is_later_before start now (text t) le h = h
is_later_before start now (number n) le h = h
is_later_before start now (flag b) le h = h
is_later_before start now (items xs) le h = h
