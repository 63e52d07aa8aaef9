-- ===== src/Session/Capped.antt =====
-- The capped lists of a session: `$push` with a `$slice` keeps the last entries, `$pull` drops one.
use routiq.Base.{
  ℕ, zero, suc, ◌-◌, ◌≤◌, String, true, false, List, [], ◌∷◌, ◌++◌, length, drop, length-drop,
  length-append, str_eq, eq_iff, eq_refl, ◌≡◌, ◌≢◌, refl, arith, if_both,
}
use routiq.Users.Columns.{elem}
use routiq.Users.Update.{take_last, without}

pub length-take_last : (n : ℕ) (xs : List String) → length (take_last n xs) ≤ n
length-take_last n xs = omega (arith, length-drop (length xs - n) xs)

pub length-without : (x : String) (xs : List String) → length (without x xs) ≤ length xs
unfolding without
length-without x [] = omega arith
length-without x (y ∷ ys) =
    if_both (λ zs. length zs ≤ length (y ∷ ys)) (str_eq y x) (without x ys) (y ∷ without x ys)
      (omega (arith, length-without x ys)) (omega (arith, length-without x ys))

-- What was taken out is not found.
pub elem-without : (x : String) (xs : List String) → elem x (without x xs) ≡ false
unfolding without
elem-without x [] = refl
elem-without x (y ∷ ys) = ground (arith, elem-without x ys, eq_iff x y, eq_iff y x)

-- What else was there is found still.
pub elem-without_other :
    (x y : String) (xs : List String) → x ≢ y → elem y xs ≡ true → elem y (without x xs) ≡ true
unfolding without
elem-without_other x y [] other h = h
elem-without_other x y (z ∷ zs) other h =
    ground (arith, elem-without_other x y zs other, eq_iff y z, eq_iff z x)

pub elem-append : (x : String) (xs ys : List String) → elem x ys ≡ true → elem x (xs ++ ys) ≡ true
elem-append x [] ys h = h
elem-append x (y ∷ xs) ys h = ground (arith, elem-append x xs ys h)

elem-drop_append :
    (n : ℕ) (x : String) (xs : List String) → n ≤ length xs → elem x (drop n (xs ++ x ∷ [])) ≡ true
elem-drop_append zero x xs h = elem-append x xs (x ∷ []) (rw (eq_refl x))
elem-drop_append (suc n) x [] h = absurd (omega arith)
elem-drop_append (suc n) x (y ∷ xs) h = elem-drop_append n x xs (omega arith)

-- The newest entry is among the last ones.
pub elem-take_last :
    (n : ℕ) (x : String) (xs : List String) → elem x (take_last (suc n) (xs ++ x ∷ [])) ≡ true
elem-take_last n x xs =
    elem-drop_append (length (xs ++ x ∷ []) - suc n) x xs (omega (arith, length-append xs (x ∷ [])))
