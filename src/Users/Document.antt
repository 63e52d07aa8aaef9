-- ===== src/Users/Document.antt =====
-- The class `User` of uam-backend/src/db/User.ts: loading, dirty tracking and saving.
pub mod Laws
use routiq.Base.{
  String, Bool, true, false, ◌||◌, not, Option, none, some, List, [], ◌∷◌, ◌++◌, length, str_eq,
  ltb, if◌then◌else◌,
}
use Prim.Native.String.{count}
use routiq.Users.{Value, null, text, items, Row, assign, UserDb}
use routiq.Users.Columns.{elem, all_fields, is_sensitive, is_jsonb, column_name}
use routiq.Users.Update.{or_empty, cons_known, Updated, thrown, attempted}

-- `_values`, where `none` is a field that was not loaded, and `_modified`
pub record Document : Type 0 where
  pub values : String → Option Value
  pub modified : List String

-- reading a field gives undefined where it was not loaded
abbrev pub read : String → Document → Value
read field d = elim (d.values field) [ none ↦ null | some v ↦ v ]

-- `_modified.add(field)`
abbrev pub mark : String → List String → List String
mark field modified = if elem field modified then modified else modified ++ field ∷ []

-- `doc.field = v`
abbrev pub put : String → Value → Document → Document
put field v d = record {
  values = λ g. if str_eq field g then some v else d.values g;
  modified = mark field d.modified;
}

-- the tokens of `.select(spec)`: those with a `+`, and the others
pub record Projection : Type 0 where
  pub additive : List String
  pub inclusion : List String

abbrev pub only_public : List String → List String
only_public [] = []
only_public (f ∷ fs) = let rest = only_public fs in if is_sensitive f then rest else f ∷ rest

-- `resolveFields`
unfoldable pub resolve_fields : Option Projection → List String
resolve_fields none = only_public all_fields
resolve_fields (some p) = elim p.inclusion [
  | [] ↦ only_public all_fields ++ p.additive
  | f ∷ fs ↦ "id" ∷ f ∷ fs
]

-- `new User(rowToValues(row), { isNew: false })` for the selected fields
abbrev pub hydrate : List String → Row → Document
hydrate fields r = record {
  values = λ g. if elem g fields then some (r g) else none;
  modified = [];
}

abbrev pub loaded : List String → Option Row → Option Document
loaded fields none = none
loaded fields (some r) = some (hydrate fields r)

abbrev pub if_loaded : Option Value → String → List String → List String
if_loaded none field rest = rest
if_loaded (some v) field rest = field ∷ rest

abbrev pub add_loaded : Document → String → List String → List String
add_loaded d field rest =
    if elem field d.modified then rest else if_loaded (d.values field) field rest

-- the fields that `_update` writes besides those that were modified: the JSON arrays that are loaded
abbrev pub loaded_jsonb : Document → List String
loaded_jsonb d =
    add_loaded d "refreshTokens"
      (add_loaded d "activeAccessJtis" (add_loaded d "migrationHistory" []))

abbrev pub is_generated : String → Bool
is_generated field = elem field ("id" ∷ "createdAt" ∷ "updatedAt" ∷ [])

-- `hash` is `hashPassword`
abbrev pub saved_value : (String → String) → String → Value → Value
saved_value hash field (text p) =
    if str_eq field "password" then (if str_eq p "" then text p else text (hash p)) else text p
saved_value hash field null = if is_jsonb field then items [] else null
saved_value hash field v = v

-- the loop of `_update`
unfoldable pub saved_fields :
    (String → String) → Document → List String → Option (List (String × Value))
unfolding column_name
saved_fields hash d [] = some []
saved_fields hash d (field ∷ fields) =
    let rest = saved_fields hash d fields in
    if is_generated field
    then rest
    else cons_known (column_name field) (field, saved_value hash field (read field d)) rest

module _ (D : UserDb) where
  open D use {State, row}

  -- `User.findById(id).select(…)`
  unfoldable pub find_by_id : String → Option Projection → State → Option Document
  unfolding resolve_fields
  find_by_id i p s = loaded (resolve_fields p) (row i s)

module _ (D : UserDb) (hash : String → String) where
  open D use {State}

  abbrev pub saved : String → Option (List (String × Value)) → State → State × Updated
  saved i none s = (s, thrown)
  saved i (some sets) s = attempted D i sets s

  -- `user.save()` of a user that was loaded
  unfoldable pub save : String → Document → State → State × Updated
  unfolding saved_fields
  save i d s = saved i (saved_fields hash d (d.modified ++ loaded_jsonb d)) s

-- `save` reads the row back into the user
abbrev pub reloaded : Document → Option Row → Document
reloaded d none = record d { modified = [] }
reloaded d (some r) = hydrate all_fields r
