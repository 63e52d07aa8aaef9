-- ===== src/Users/Cursor.antt =====
-- `UserQuery.cursor` of uam-backend/src/db/User.ts: all users in pages of 500, each page from the id
-- on at which the last one ended. The rows are those that the filter lets through, in the order of
-- their ids, and do not change while the cursor runs.
use routiq.Base.{
  ℕ, zero, suc, ◌<◌, String, Bool, true, false, Option, none, some, List, [], ◌∷◌, ◌++◌, length,
  take, drop, take-drop, length-drop, All, All-imp, ◌≡◌, refl, sym, ap, ◌∙◌, subst, arith,
  if◌then◌else◌,
}
use mathlib.Core.Option
use mathlib.Core.List.{append_assoc}

-- `LIMIT 500`, less one
abbrev pub page_tail : ℕ
page_tail = 499

module _ {A : Type 0} (id : A → String) (less : String → String → Bool) where
  -- `WHERE id > lastId`
  abbrev pub after : Option String → List A → List A
  after none rows = rows
  after (some last_id) [] = []
  after (some last_id) (r ∷ rows) =
      let rest = after (some last_id) rows in if less last_id (id r) then r ∷ rest else rest

  abbrev pub page : Option String → List A → List A
  page last_id rows = take (suc page_tail) (after last_id rows)

  -- the id of the last row of a page
  abbrev pub last_row : A → List A → A
  last_row r [] = r
  last_row r (x ∷ xs) = last_row x xs

  abbrev pub last_id : A → List A → String
  last_id r rows = id (last_row r rows)

  abbrev pub yielded : List A → Option (List A) → Option (List A)
  yielded rows rest = Option.map (λ more. rows ++ more) rest

  abbrev pub continue : List A → (String → Option (List A)) → Option (List A)
  continue [] next = some []
  continue (r ∷ rows) next = yielded (r ∷ rows) (next (last_id r rows))

  -- the loop, on fuel; `none` where it runs out
  unfoldable pub cursor : ℕ → List A → Option String → Option (List A)
  cursor zero rows last = none
  cursor (suc n) rows last = continue (page last rows) (λ l. cursor n rows (some l))

  -- Rows in strictly ascending order of their ids.
  abbrev pub IsAscending : List A → Type 0
  IsAscending [] = Unit
  IsAscending (r ∷ rows) =
      (less (id r) (id r) ≡ false)
      × All (λ x. (less (id r) (id x) ≡ true) × (less (id x) (id r) ≡ false)) rows
      × IsAscending rows

  after-greater :
      (l : String) (rows : List A)
      → All (λ x. less l (id x) ≡ true) rows
      → after (some l) rows ≡ rows
  after-greater l [] h = refl
  after-greater l (r ∷ rows) (h, hs) = rw (h) (ap (λ xs. r ∷ xs) (after-greater l rows hs))

  All-middle : (P : A → Type 0) (xs : List A) (l : A) (rest : List A) → All P (xs ++ l ∷ rest) → P l
  All-middle P [] l rest (p, h) = p
  All-middle P (x ∷ xs) l rest (p, h) = All-middle P xs l rest h

  -- What comes after a row of an ascending list.
  after-split :
      (done : List A) (l : A) (rest : List A)
      → IsAscending (done ++ l ∷ rest)
      → after (some (id l)) (done ++ l ∷ rest) ≡ rest
  after-split [] l rest (irrefl, above, asc) = rw (irrefl) (
      after-greater (id l) rest (
        All-imp (λ x. (less (id l) (id x) ≡ true) × (less (id x) (id l) ≡ false))
          (λ x. less (id l) (id x) ≡ true) rest (λ x h. h.0) above))
  after-split (d ∷ ds) l rest (irrefl, above, asc) =
      rw
        (All-middle (λ x. (less (id d) (id x) ≡ true) × (less (id x) (id d) ≡ false)) ds l rest
          above).1
        (after-split ds l rest asc)

  -- all rows but the last
  abbrev front : A → List A → List A
  front r [] = []
  front r (x ∷ xs) = r ∷ front x xs

  front-last_row : (r : A) (xs : List A) → r ∷ xs ≡ front r xs ++ last_row r xs ∷ []
  front-last_row r [] = refl
  front-last_row r (x ∷ xs) = ap (λ ys. r ∷ ys) (front-last_row x xs)

  -- A split after a page.
  page-split :
      (done : List A) (r : A) (rs : List A)
      → done ++ r ∷ rs
        ≡ (done ++ front r (take page_tail rs))
          ++ last_row r (take page_tail rs) ∷ drop page_tail rs
  page-split done r rs =
      let first : List A = take page_tail rs in
      let rest : List A = drop page_tail rs in
      ap (λ xs. done ++ r ∷ xs) (sym (take-drop page_tail rs))
      ∙ ap (λ xs. done ++ (xs ++ rest)) (front-last_row r first)
      ∙ ap (λ xs. done ++ xs) (append_assoc (front r first) (last_row r first ∷ []) rest)
      ∙ sym (append_assoc done (front r first) (last_row r first ∷ rest))

  cursor-rest :
      (n : ℕ) (rows done rest : List A) (last : Option String)
      → IsAscending rows
      → rows ≡ done ++ rest
      → after last rows ≡ rest
      → length rest < n
      → cursor n rows last ≡ some rest
  unfolding cursor
  cursor-rest zero rows done rest last asc split h k = absurd (omega arith)
  cursor-rest (suc n) rows done [] last asc split h k =
      ap (λ xs. continue (take (suc page_tail) xs) (λ l. cursor n rows (some l))) h
  cursor-rest (suc n) rows done (r ∷ rs) last asc split h k =
      let l : A = last_row r (take page_tail rs) in
      let before : List A = done ++ front r (take page_tail rs) in
      let split' : rows ≡ before ++ l ∷ drop page_tail rs = split ∙ page-split done r rs in
      let split'' : rows ≡ (before ++ l ∷ []) ++ drop page_tail rs =
        split' ∙ sym (append_assoc before (l ∷ []) (drop page_tail rs)) in
      let next : after (some (id l)) rows ≡ drop page_tail rs =
        ap (after (some (id l))) split'
        ∙ after-split before l (drop page_tail rs) (subst IsAscending split' asc) in
      ap (λ xs. continue (take (suc page_tail) xs) (λ i. cursor n rows (some i))) h
      ∙ ap (yielded (r ∷ take page_tail rs)) (
          cursor-rest n rows (before ++ l ∷ []) (drop page_tail rs) (some (id l)) asc split'' next
            (omega (arith, length-drop page_tail rs, k)))
      ∙ ap (λ xs. some (r ∷ xs)) (take-drop page_tail rs)

  -- Over rows in strictly ascending order the cursor ends: more steps than there are rows are enough,
  -- and it yields every row once, in order.
  pub cursor_yields_all :
      (n : ℕ) (rows : List A) → IsAscending rows → length rows < n → cursor n rows none ≡ some rows
  cursor_yields_all n rows asc k = cursor-rest n rows [] rows none asc refl refl k
