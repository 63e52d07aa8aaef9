-- ===== src/Users/Update.antt =====
-- `applyUpdate` of uam-backend/src/db/User.ts: the update operators of a document, over one row. Only
-- updates by id occur; the transaction locks the row, so that an update is one step.
pub mod Laws
use routiq.Base.{
  ℕ, zero, suc, ◌+◌, ◌-◌, String, Bool, true, false, not, Option, none, some, List, [], ◌∷◌, ◌++◌,
  length, drop, take, str_eq, if◌then◌else◌,
}
use routiq.Users.{
  Value, null, text, number, flag, date, items, Row, set_field, assign, items_of, number_of, UserDb,
}
use routiq.Users.Columns.{elem, is_jsonb, column_name}

-- `$slice`: below 0 the last so many, otherwise the first
pub data Slice : Type 0 where
  last first : ℕ → Slice

-- the operand of `$push`: `{ $each, $slice }`, or one item
pub data PushSpec : Type 0 where
  each : List String → Option Slice → PushSpec
  one : String → PushSpec

pub record UpdateDoc : Type 0 where
  pub push : List (String × PushSpec)
  pub pull : List (String × String)
  pub set : List (String × Value)
  pub unset : List String
  pub inc : List (String × ℕ)

abbrev pub no_update : UpdateDoc
no_update = record { push = []; pull = []; set = []; unset = []; inc = [] }

-- `xs.slice(-n)` for a positive n
abbrev pub take_last : ℕ → List String → List String
take_last n xs = drop (length xs - n) xs

abbrev pub sliced : Option Slice → List String → List String
sliced none xs = xs
sliced (some (last n)) xs = take_last n xs
sliced (some (first n)) xs = take n xs

abbrev pub pushed : PushSpec → List String → List String
pushed (each xs slice) current = sliced slice (current ++ xs)
pushed (one x) current = current ++ x ∷ []

-- `current.filter((x) => x !== value)`
unfoldable pub without : String → List String → List String
without value [] = []
without value (x ∷ xs) = let rest = without value xs in if str_eq x value then rest else x ∷ rest

-- `values` and `changed`
pub record Draft : Type 0 where
  pub values : Row
  pub changed : List String

-- `values[field] = v; changed.add(field)`
abbrev pub edit : String → Value → Draft → Draft
edit field v d = record {
  values = set_field field v d.values;
  changed = if elem field d.changed then d.changed else d.changed ++ field ∷ [];
}

-- the five loops
abbrev pub push_all : List (String × PushSpec) → Draft → Draft
push_all [] d = d
push_all ((field, spec) ∷ rest) d =
    push_all rest (edit field (items (pushed spec (items_of (d.values field)))) d)

abbrev pub pull_all : List (String × String) → Draft → Draft
pull_all [] d = d
pull_all ((field, value) ∷ rest) d =
    pull_all rest (edit field (items (without value (items_of (d.values field)))) d)

abbrev pub set_all : List (String × Value) → Draft → Draft
set_all [] d = d
set_all ((field, v) ∷ rest) d = set_all rest (edit field v d)

abbrev pub unset_all : List String → Draft → Draft
unset_all [] d = d
unset_all (field ∷ rest) d = unset_all rest (edit field null d)

abbrev pub inc_all : List (String × ℕ) → Draft → Draft
inc_all [] d = d
inc_all ((field, n) ∷ rest) d =
    inc_all rest (edit field (number (number_of (d.values field) + n)) d)

unfoldable pub drafted : UpdateDoc → Row → Draft
drafted u row = inc_all u.inc (
    unset_all u.unset
      (set_all u.set (pull_all u.pull (push_all u.push (record { values = row; changed = [] })))))

-- what is written for a field: a JSON array is never null
abbrev pub or_empty : Value → Value
or_empty null = items []
or_empty v = v

abbrev pub stored : String → Value → Value
stored field v = if is_jsonb field then or_empty v else v

abbrev pub cons_known : {A : Type 0} → Option String → A → Option (List A) → Option (List A)
cons_known none a rest = none
cons_known (some column) a none = none
cons_known (some column) a (some rest) = some (a ∷ rest)

-- the loop that builds `sets`; `none` where `columnName` throws
unfoldable pub assignments : Row → List String → Option (List (String × Value))
unfolding column_name
assignments values [] = some []
assignments values (field ∷ fields) =
    let rest = assignments values fields in
    if str_eq field "id"
    then rest
    else cons_known (column_name field) (field, stored field (values field)) rest

-- the outcome of a query on one user: thrown, or the row that it gives back
pub data Updated : Type 0 where
  thrown : Updated
  updated : Option Row → Updated

module _ (D : UserDb) where
  open D use {State, row, write, refuses}

  -- the statement: where it is refused, the error of PostgreSQL or `translateDuplicateKey`'s is thrown
  abbrev pub attempted : String → List (String × Value) → State → State × Updated
  attempted i sets s =
      let s' = write i sets s in if refuses i sets s then (s, thrown) else (s', updated (row i s'))

  abbrev pub written : String → Option (List (String × Value)) → State → State × Updated
  written i none s = (s, thrown)
  written i (some sets) s = attempted i sets s

  abbrev pub updated_row : String → UpdateDoc → Option Row → State → State × Updated
  updated_row i u none s = (s, updated none)
  updated_row i u (some r) s =
      let d : Draft = drafted u r in written i (assignments d.values d.changed) s

  unfoldable pub find_by_id_and_update : String → UpdateDoc → State → State × Updated
  unfolding drafted assignments
  find_by_id_and_update i u s = updated_row i u (row i s) s
