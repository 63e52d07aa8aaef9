-- ===== src/Users/Tests.antt =====
-- The theorems on users at inputs that meet their hypotheses.
use routiq.Base.{none, some, [], ◌∷◌, ◌≡◌, refl, ltb, arith}
use Prim.Native.String.{len}
use routiq.Users.Cursor.{cursor, cursor_yields_all}

cursor_yields_all_example :
    cursor (λ s. s) (λ a b. ltb (len a) (len b)) 4 ("a" ∷ "bb" ∷ "ccc" ∷ []) none
    ≡ some ("a" ∷ "bb" ∷ "ccc" ∷ [])
cursor_yields_all_example =
    cursor_yields_all (λ s. s) (λ a b. ltb (len a) (len b)) 4 ("a" ∷ "bb" ∷ "ccc" ∷ [])
      (refl, ((refl, refl), ((refl, refl), tt)), (refl, ((refl, refl), tt), (refl, tt, tt)))
      (omega arith)
