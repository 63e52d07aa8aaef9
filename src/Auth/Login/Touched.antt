-- ===== src/Auth/Login/Touched.antt =====
-- The fields that a login assigns to, and that no other is marked as modified.
use routiq.Base.{
  ℕ, String, Bool, true, false, ◌&&◌, Option, none, some, List, [], ◌∷◌, ◌++◌, str_eq, eq_iff, ◌≡◌,
  refl, ap, arith, if_both,
}
use routiq.Users.{Row}
use routiq.Users.Columns.{elem}
use routiq.Users.Document.{Document, mark, reloaded}
use routiq.Auth.Login.{finalized}

-- The fields that a login assigns to and saves.
abbrev pub touched : List String
touched =
    "password" ∷ "previousEmail" ∷ "email" ∷ "migrationExpiry" ∷ "lastMigrationDate"
    ∷ "isEmailVerified" ∷ "newEmailPending" ∷ "currentEmailVerified" ∷ "newEmailVerified"
    ∷ "currentEmailToken" ∷ "newEmailToken" ∷ "refreshTokens" ∷ "activeAccessJtis"
    ∷ "migrationHistory" ∷ []

differs :
    (f g : String) (xs : List String) → elem f xs ≡ false → elem g xs ≡ true → str_eq f g ≡ false
differs f g [] h k = absurd (cc k)
differs f g (x ∷ xs) h k = ground (arith, h, k, differs f g xs, eq_iff f g, eq_iff g x, eq_iff f x)

-- The field was not assigned to.
abbrev pub Untouched : String → Document → Type 0
Untouched f d = elem f d.modified ≡ false

pub some-injective : {A : Type 0} {a b : A} → some a ≡ some b → a ≡ b
some-injective {A} {a} {b} h = ap (λ o. elim o [ none ↦ a | some x ↦ x ]) h

abbrev pub included : List String → List String → Bool
included [] ys = true
included (x ∷ xs) ys = elem x ys && included xs ys

both_true : (a b : Bool) → (a && b) ≡ true → (a ≡ true) × (b ≡ true)
both_true true b h = (refl, h)
both_true false b h = absurd (cc h)

pub included-free :
    (f : String) (xs ys : List String)
    → included xs ys ≡ true
    → elem f ys ≡ false
    → elem f xs ≡ false
included-free f [] ys h k = refl
included-free f (x ∷ xs) ys h k =
    let (here, rest) = both_true (elem x ys) (included xs ys) h in
    rw (differs f x ys k here) (included-free f xs ys rest k)

elem-snoc :
    (f g : String) (xs : List String)
    → elem f xs ≡ false
    → str_eq f g ≡ false
    → elem f (xs ++ g ∷ []) ≡ false
elem-snoc f g [] h k = rw (k) refl
elem-snoc f g (x ∷ xs) h k = ground (arith, h, elem-snoc f g xs, k)

pub elem-mark :
    (f g : String) (m : List String)
    → elem f touched ≡ false
    → elem g touched ≡ true
    → elem f m ≡ false
    → elem f (mark g m) ≡ false
elem-mark f g m h k u =
    if_both (λ xs. elem f xs ≡ false) (elem g m) m (m ++ g ∷ []) u
      (elem-snoc f g m u (differs f g touched h k))

pub reloaded-Untouched : (f : String) (d : Document) (o : Option Row) → Untouched f (reloaded d o)
reloaded-Untouched f d none = refl
reloaded-Untouched f d (some r) = refl

abbrev pub mark_all : List String → List String → List String
mark_all [] m = m
mark_all (g ∷ gs) m = mark_all gs (mark g m)

elem-mark_all :
    (f : String) (gs m : List String)
    → elem f touched ≡ false
    → included gs touched ≡ true
    → elem f m ≡ false
    → elem f (mark_all gs m) ≡ false
elem-mark_all f [] m h k u = u
elem-mark_all f (g ∷ gs) m h k u =
    let (here, rest) = both_true (elem g touched) (included gs touched) k in
    elem-mark_all f gs (mark g m) h rest (elem-mark f g m h here u)

pub finalized-Untouched :
    (f : String) (now : ℕ) (d : Document)
    → elem f touched ≡ false
    → Untouched f d
    → Untouched f (finalized now d)
finalized-Untouched f now d h u =
    elem-mark_all f
      ("previousEmail" ∷ "email" ∷ "migrationExpiry" ∷ "lastMigrationDate" ∷ "isEmailVerified"
        ∷ "newEmailPending" ∷ "currentEmailVerified" ∷ "newEmailVerified" ∷ "currentEmailToken"
        ∷ "newEmailToken" ∷ [])
      d.modified h refl u
