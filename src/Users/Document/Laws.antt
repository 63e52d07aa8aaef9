-- ===== src/Users/Document/Laws.antt =====
-- Which fields of which users a save and an update by id leave alone.
use routiq.Base.{
  Option-cases, String, false, Option, none, some, List, [], ◌∷◌, ◌++◌, str_eq, eq_iff, ◌≡◌, refl,
  sym, ap, ◌∙◌, subst, arith, if_both, Bool-cases, inl, inr,
}
use mathlib.Core.Option
use routiq.Users.{Value, Row, set_field, assign, UserDb, IsTable}
use routiq.Users.Columns.{elem, column_name}
use routiq.Users.Update.{
  UpdateDoc, Updated, drafted, assignments, attempted, written, updated_row, find_by_id_and_update,
  stored, cons_known,
}
use routiq.Users.Document.{
  Document, read, if_loaded, add_loaded, loaded_jsonb, is_generated, saved_value, saved_fields,
  saved, save,
}

abbrev pub fields_of : List (String × Value) → List String
fields_of [] = []
fields_of ((f, v) ∷ sets) = f ∷ fields_of sets

abbrev pub known_fields : Option (List (String × Value)) → List String
known_fields none = []
known_fields (some sets) = fields_of sets

assign-other :
    (f : String) (sets : List (String × Value)) (r : Row)
    → elem f (fields_of sets) ≡ false
    → assign sets r f ≡ r f
assign-other f [] r h = refl
assign-other f ((g, v) ∷ sets) r h =
    assign-other f sets (set_field g v r) (ground (arith, h))
    ∙ ground (arith, h, eq_iff f g, eq_iff g f)

known_fields-cons_known :
    (f g : String) (c : Option String) (v : Value) (rest : Option (List (String × Value)))
    → str_eq f g ≡ false
    → elem f (known_fields rest) ≡ false
    → elem f (known_fields (cons_known c (g, v) rest)) ≡ false
known_fields-cons_known f g none v rest h k = refl
known_fields-cons_known f g (some c) v none h k = refl
known_fields-cons_known f g (some c) v (some sets) h k = rw (h) k

-- A save writes only fields that it was given.
elem-saved_fields :
    (hash : String → String) (d : Document) (f : String) (fields : List String)
    → elem f fields ≡ false
    → elem f (known_fields (saved_fields hash d fields)) ≡ false
unfolding saved_fields
elem-saved_fields hash d f [] h = refl
elem-saved_fields hash d f (g ∷ fields) h =
    let ih : elem f (known_fields (saved_fields hash d fields)) ≡ false =
      elem-saved_fields hash d f fields (ground (arith, h)) in
    if_both (λ o. elem f (known_fields o) ≡ false) (is_generated g) (saved_fields hash d fields)
      (cons_known (column_name g) (g, saved_value hash g (read g d)) (saved_fields hash d fields))
      ih
      (known_fields-cons_known f g (column_name g) (saved_value hash g (read g d))
        (saved_fields hash d fields) (ground (arith, h)) ih)

elem-append_false :
    (f : String) (xs ys : List String)
    → elem f xs ≡ false
    → elem f ys ≡ false
    → elem f (xs ++ ys) ≡ false
elem-append_false f [] ys h k = k
elem-append_false f (x ∷ xs) ys h k = ground (arith, h, elem-append_false f xs ys)

elem-add_loaded :
    (f g : String) (d : Document) (rest : List String)
    → str_eq f g ≡ false
    → elem f rest ≡ false
    → elem f (add_loaded d g rest) ≡ false
elem-add_loaded f g d rest h k =
    if_both (λ xs. elem f xs ≡ false) (elem g d.modified) rest (if_loaded (d.values g) g rest) k
      (elim (Option-cases (d.values g)) [
        | inl q ↦ subst (λ o. elem f (if_loaded o g rest) ≡ false) (sym q) k
        | inr (v, q) ↦
            subst (λ o. elem f (if_loaded o g rest) ≡ false) (sym q) (ground (arith, h, k))
      ])

-- A field that is no JSON array is not written for being loaded.
elem-loaded_jsonb :
    (f : String) (d : Document)
    → elem f ("refreshTokens" ∷ "activeAccessJtis" ∷ "migrationHistory" ∷ []) ≡ false
    → elem f (loaded_jsonb d) ≡ false
elem-loaded_jsonb f d h =
    let last = add_loaded d "migrationHistory" [] in
    elem-add_loaded f "refreshTokens" d (add_loaded d "activeAccessJtis" last) (ground (arith, h)) (
      elem-add_loaded f "activeAccessJtis" d last (ground (arith, h))
        (elem-add_loaded f "migrationHistory" d [] (ground (arith, h)) refl))

field-assign :
    (f : String) (sets : List (String × Value)) (o : Option Row)
    → elem f (fields_of sets) ≡ false
    → Option.map (λ r. r f) (Option.map (assign sets) o) ≡ Option.map (λ r. r f) o
field-assign f sets none h = refl
field-assign f sets (some r) h = ap some (assign-other f sets r h)

module _ (D : UserDb) where
  -- A field of a user.
  abbrev pub field_of : String → String → D.State → Option Value
  field_of f id s = Option.map (λ r. r f) (D.row id s)

  -- A field that is the same in every row.
  abbrev pub Keeps : String → D.State → D.State → Type 0
  Keeps f s s' = (id : String) → field_of f id s' ≡ field_of f id s

  module _ (law : IsTable D) where
    write-Keeps :
        (f id : String) (sets : List (String × Value)) (s : D.State)
        → elem f (fields_of sets) ≡ false
        → Keeps f s (D.write id sets s)
    write-Keeps f id sets s h other = elim (Bool-cases (str_eq id other)) [
      | inl e ↦
          rw (law.row-write id other sets s, e)
            (field-assign f sets (D.row id s) h ∙ ap (λ i. field_of f i s) ((eq_iff id other).0 e))
      | inr e ↦ rw (law.row-write id other sets s, e) refl
    ]

    attempted-Keeps :
        (f id : String) (sets : List (String × Value)) (s : D.State)
        → elem f (fields_of sets) ≡ false
        → Keeps f s (attempted D id sets s).0
    attempted-Keeps f id sets s h other =
        if_both (λ (x : D.State × Updated). field_of f other x.0 ≡ field_of f other s)
          (D.refuses id sets s) _ _ refl (write-Keeps f id sets s h other)

    saved-Keeps :
        (hash : String → String) (f id : String) (o : Option (List (String × Value))) (s : D.State)
        → elem f (known_fields o) ≡ false
        → Keeps f s (saved D hash id o s).0
    saved-Keeps hash f id none s h other = refl
    saved-Keeps hash f id (some sets) s h other = attempted-Keeps f id sets s h other

    -- A save keeps every field that was not assigned to and is no JSON array.
    pub save-Keeps :
        (hash : String → String) (f id : String) (d : Document) (s : D.State)
        → elem f d.modified ≡ false
        → elem f ("refreshTokens" ∷ "activeAccessJtis" ∷ "migrationHistory" ∷ []) ≡ false
        → Keeps f s (save D hash id d s).0
    unfolding save
    save-Keeps hash f id d s h k other =
        saved-Keeps hash f id (saved_fields hash d (d.modified ++ loaded_jsonb d)) s
          (elem-saved_fields hash d f (d.modified ++ loaded_jsonb d)
            (elem-append_false f d.modified (loaded_jsonb d) h (elem-loaded_jsonb f d k)))
          other

    elem-assignments :
        (values : Row) (f : String) (fields : List String)
        → elem f fields ≡ false
        → elem f (known_fields (assignments values fields)) ≡ false
    unfolding assignments
    elem-assignments values f [] h = refl
    elem-assignments values f (g ∷ fields) h =
        let ih : elem f (known_fields (assignments values fields)) ≡ false =
          elem-assignments values f fields (ground (arith, h)) in
        if_both (λ o. elem f (known_fields o) ≡ false) (str_eq g "id") (assignments values fields)
          (cons_known (column_name g) (g, stored g (values g)) (assignments values fields)) ih
          (known_fields-cons_known f g (column_name g) (stored g (values g))
            (assignments values fields) (ground (arith, h)) ih)

    update_written-Keeps :
        (f id : String) (o : Option (List (String × Value))) (s : D.State)
        → elem f (known_fields o) ≡ false
        → Keeps f s (written D id o s).0
    update_written-Keeps f id none s h other = refl
    update_written-Keeps f id (some sets) s h other = attempted-Keeps f id sets s h other

    updated_row-Keeps :
        (f id : String) (u : UpdateDoc) (o : Option Row) (s : D.State)
        → ((r : Row) → elem f ((drafted u r).changed) ≡ false)
        → Keeps f s (updated_row D id u o s).0
    unfolding drafted
    updated_row-Keeps f id u none s h other = refl
    updated_row-Keeps f id u (some r) s h other =
        update_written-Keeps f id (assignments ((drafted u r).values) ((drafted u r).changed)) s
          (elem-assignments ((drafted u r).values) f ((drafted u r).changed) (h r)) other

    -- An update by id keeps every field that it does not name.
    pub find_by_id_and_update-Keeps :
        (f id : String) (u : UpdateDoc) (s : D.State)
        → ((r : Row) → elem f ((drafted u r).changed) ≡ false)
        → Keeps f s (find_by_id_and_update D id u s).0
    unfolding find_by_id_and_update
    find_by_id_and_update-Keeps f id u s h other = updated_row-Keeps f id u (D.row id s) s h other
