-- ===== src/Users.antt =====
-- uam-backend/src/db/User.ts: user documents over a table of users, with the fields of
-- uam-backend/src/db/columns.ts. The table is a parameter.
pub mod Columns
pub mod Update
pub mod Document
pub mod Cursor
pub mod Sample
mod Tests
use routiq.Base.{
  ℕ, zero, suc, not, String, Bool, true, false, Option, none, some, List, [], ◌∷◌, ◌≡◌, str_eq,
  if◌then◌else◌,
}
use mathlib.Core.Option

-- What a field holds. `null` stands for both null and undefined; `items` is a JSON array, an item of
-- it given by its text.
pub data Value : Type 0 where
  null : Value
  text : String → Value
  number : ℕ → Value
  flag : Bool → Value
  date : ℕ → Value
  items : List String → Value

-- A row: what each field holds.
abbrev pub Row : Type 0
Row = String → Value

abbrev pub set_field : String → Value → Row → Row
set_field field v row g = if str_eq field g then v else row g

-- `SET a = …, b = …`
abbrev pub assign : List (String × Value) → Row → Row
assign [] row = row
assign ((field, v) ∷ sets) row = assign sets (set_field field v row)

-- `Array.isArray(v) ? v : []`
abbrev pub items_of : Value → List String
items_of (items xs) = xs
items_of _ = []

-- `typeof v === 'number' ? v : 0`
abbrev pub number_of : Value → ℕ
number_of (number n) = n
number_of _ = 0

-- whether a value counts as true
abbrev pub truthy : Value → Bool
truthy null = false
truthy (text s) = not (str_eq s "")
truthy (number zero) = false
truthy (number (suc n)) = true
truthy (flag b) = b
truthy (date t) = true
truthy (items xs) = true

-- a field that holds a text
abbrev pub text_of : Value → String
text_of (text s) = s
text_of _ = ""

-- The table `users`: the row of an id, `UPDATE users SET … WHERE id = …`, and whether that is refused
-- (a column that must be unique, or a lost connection).
pub record UserDb : Type 1 where
  pub State : Type 0
  pub row : String → State → Option Row
  pub write : String → List (String × Value) → State → State
  pub refuses : String → List (String × Value) → State → Bool

-- The documented behaviour of an UPDATE that is not refused: it sets the columns of that row, and
-- touches no other.
pub record IsTable (D : UserDb) : Type 0 where
  pub row-write :
      (i j : String) (sets : List (String × Value)) (s : D.State)
      → D.row j (D.write i sets s)
        ≡ (if str_eq i j then Option.map (assign sets) (D.row i s) else D.row j s)

-- A table that moreover refuses no UPDATE.
pub record IsUserDb (D : UserDb) : Type 0 where
  pub row-write :
      (i j : String) (sets : List (String × Value)) (s : D.State)
      → D.row j (D.write i sets s)
        ≡ (if str_eq i j then Option.map (assign sets) (D.row i s) else D.row j s)
  pub accepts :
      (i : String) (sets : List (String × Value)) (s : D.State) → D.refuses i sets s ≡ false
