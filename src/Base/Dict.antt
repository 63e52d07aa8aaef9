-- ===== src/Base/Dict.antt =====
-- JavaScript's `Map` and plain objects with string keys. `set` on a present key keeps its place.
use Prim.Native.String.{String}
use mathlib.Core.Path.{◌≡◌, refl, sym, subst}
use mathlib.Core.Logic.{◌≢◌, inl, inr}
use mathlib.Core.Bool.{Bool}
use mathlib.Core.Option.{Option, none, some}
use mathlib.Core.List.{List, [], ◌∷◌}
use native.Mathlib.Omega.{arith}
use text.Mathlib.Text.{◌==◌}
use text.Mathlib.TextEquality.{eq_iff}
use routiq.Base.Tests.{if◌then◌else◌, if_both, Bool-cases}

abbrev pub Dict {ℓ} : Type ℓ → Type ℓ
Dict V = List (String × V)

module _ {ℓ} {V : Type ℓ} where
  unfoldable pub lookup : String → Dict V → Option V
  lookup key [] = none
  lookup key ((name, value) ∷ pairs) = if name == key then some value else lookup key pairs

  unfoldable pub insert : String → V → Dict V → Dict V
  insert key value [] = (key, value) ∷ []
  insert key value ((name, old) ∷ pairs) =
      if name == key then (key, value) ∷ pairs else (name, old) ∷ insert key value pairs

  unfoldable pub remove : String → Dict V → Dict V
  remove key [] = []
  remove key ((name, value) ∷ pairs) =
      let tail = remove key pairs in if name == key then tail else (name, value) ∷ tail

  -- the loop `for (const [k, v] of map) if (drop(v)) map.delete(k)`
  unfoldable pub prune : (V → Bool) → Dict V → Dict V
  prune drop [] = []
  prune drop ((name, value) ∷ pairs) =
      let tail = prune drop pairs in if drop value then tail else (name, value) ∷ tail

  pub lookup-insert :
      (key name : String) (value : V) (pairs : Dict V)
      → lookup name (insert key value pairs)
        ≡ (if key == name then some value else lookup name pairs)
  unfolding lookup insert
  lookup-insert key name value [] = refl
  lookup-insert key name value ((first, old) ∷ pairs) = ground (
    arith,
    lookup-insert key name value pairs,
    eq_iff first name,
    eq_iff first key,
    eq_iff key name,
  )

  pub lookup-remove :
      (key name : String) (pairs : Dict V)
      → lookup name (remove key pairs) ≡ (if key == name then none else lookup name pairs)
  unfolding lookup remove
  lookup-remove key name [] = ground arith
  lookup-remove key name ((first, value) ∷ pairs) =
      ground
        (arith, lookup-remove key name pairs, eq_iff first key, eq_iff first name, eq_iff key name)

pub ruleset dict_laws = (lookup-insert, lookup-remove)

-- No key stands twice, as in every map that was built by `insert`.
abbrev pub HasNot {ℓ} : {V : Type ℓ} → String → Dict V → Type 0
HasNot key [] = Unit
HasNot key ((name, value) ∷ pairs) = (name ≢ key) × HasNot key pairs

abbrev pub IsDistinct {ℓ} : {V : Type ℓ} → Dict V → Type 0
IsDistinct [] = Unit
IsDistinct ((name, value) ∷ pairs) = HasNot name pairs × IsDistinct pairs

-- an entry that stays unless it is dropped
abbrev pub unless {ℓ} : {V : Type ℓ} → (V → Bool) → Option V → Option V
unless drop none = none
unless drop (some value) = if drop value then none else some value

module _ {ℓ} {V : Type ℓ} where
  lookup-HasNot : (key : String) (pairs : Dict V) → HasNot key pairs → lookup key pairs ≡ none
  unfolding lookup
  lookup-HasNot key [] h = refl
  lookup-HasNot key ((name, value) ∷ pairs) (ne, h) =
      ground (arith, eq_iff name key, lookup-HasNot key pairs h)

  HasNot-prune :
      (key : String) (drop : V → Bool) (pairs : Dict V)
      → HasNot key pairs
      → HasNot key (prune drop pairs)
  unfolding prune
  HasNot-prune key drop [] h = tt
  HasNot-prune key drop ((name, value) ∷ pairs) (ne, h) =
      if_both (HasNot key) (drop value) _ _ (HasNot-prune key drop pairs h)
        (ne, HasNot-prune key drop pairs h)

  pub IsDistinct-prune :
      (drop : V → Bool) (pairs : Dict V) → IsDistinct pairs → IsDistinct (prune drop pairs)
  unfolding prune
  IsDistinct-prune drop [] h = tt
  IsDistinct-prune drop ((name, value) ∷ pairs) (ne, h) =
      if_both IsDistinct (drop value) _ _ (IsDistinct-prune drop pairs h)
        (HasNot-prune name drop pairs ne, IsDistinct-prune drop pairs h)

  HasNot-insert :
      (key name : String) (value : V) (pairs : Dict V)
      → key ≢ name
      → HasNot name pairs
      → HasNot name (insert key value pairs)
  unfolding insert
  HasNot-insert key name value [] ne h = (ne, tt)
  HasNot-insert key name value ((first, old) ∷ pairs) ne (ne', h) =
      if_both (HasNot name) (first == key) _ _ (ne, h)
        (ne', HasNot-insert key name value pairs ne h)

  pub IsDistinct-insert :
      (key : String) (value : V) (pairs : Dict V)
      → IsDistinct pairs
      → IsDistinct (insert key value pairs)
  unfolding insert
  IsDistinct-insert key value [] h = (tt, tt)
  IsDistinct-insert key value ((first, old) ∷ pairs) (ne, h) = elim (Bool-cases (first == key)) [
    | inl same ↦ rw same (subst (λ name. HasNot name pairs) ((eq_iff first key).0 same) ne, h)
    | inr other ↦ rw other (
      HasNot-insert key first value pairs (λ e. cc (other, (eq_iff first key).1 (sym e))) ne,
      IsDistinct-insert key value pairs h,
    )
  ]

  pub lookup-prune :
      (key : String) (drop : V → Bool) (pairs : Dict V)
      → IsDistinct pairs
      → lookup key (prune drop pairs) ≡ unless drop (lookup key pairs)
  unfolding lookup prune
  lookup-prune key drop [] h = refl
  lookup-prune key drop ((name, value) ∷ pairs) (ne, h) = elim (Bool-cases (name == key)) [
    | inl same ↦
        let e : name ≡ key = (eq_iff name key).0 same in
        ground (
          arith,
          same,
          lookup-HasNot key (prune drop pairs)
              (HasNot-prune key drop pairs (subst (λ first. HasNot first pairs) e ne)),
        )
    | inr other ↦ ground (arith, lookup-prune key drop pairs h)
  ]
