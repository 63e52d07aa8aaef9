-- ===== src/Users/Update/Laws.antt =====
-- What an update by id does to the table.
use routiq.Base.{String, Option, none, some, List, eq_refl, ◌≡◌, ◌≢◌, refl, ap, ◌∙◌, eq_iff, arith}
use routiq.Users.{Value, Row, assign, UserDb, IsUserDb}
use routiq.Users.Update.{
  UpdateDoc, Updated, updated, attempted, written, updated_row, drafted, assignments,
  find_by_id_and_update,
}

module _ (D : UserDb) (law : IsUserDb D) where
  open D use {State, row, write}

  -- The row of that user after a write.
  pub row-write_self :
      (id : String) (sets : List (String × Value)) (s : State) (r : Row)
      → row id s ≡ some r
      → row id (write id sets s) ≡ some (assign sets r)
  row-write_self id sets s r h = rw (law.row-write id id sets s, eq_refl id, h)

  pub row-write_other :
      (id other : String) (sets : List (String × Value)) (s : State)
      → id ≢ other
      → row other (write id sets s) ≡ row other s
  row-write_other id other sets s h = ground (arith, law.row-write id other sets s, eq_iff id other)

-- A statement that is not refused is one write.
pub attempted-write :
    (D : UserDb) (law : IsUserDb D) (id : String) (sets : List (String × Value)) (s : D.State)
    → attempted D id sets s ≡ (D.write id sets s, updated (D.row id (D.write id sets s)))
attempted-write D law id sets s = rw (law.accepts id sets s) refl

-- Where the user exists and every field of the update is known, it is one write.
pub find_by_id_and_update-write :
    (D : UserDb) (law : IsUserDb D) (id : String) (u : UpdateDoc) (s : D.State) (r : Row)
    (sets : List (String × Value))
    → D.row id s ≡ some r
    → assignments ((drafted u r).values) ((drafted u r).changed) ≡ some sets
    → find_by_id_and_update D id u s ≡ (D.write id sets s, updated (D.row id (D.write id sets s)))
unfolding find_by_id_and_update
find_by_id_and_update-write D law id u s r sets h k = rw (h, k) (attempted-write D law id sets s)

module _ (D : UserDb) (law : IsUserDb D) where
  open D use {State, row}

  written-other :
      (id other : String) (sets : Option (List (String × Value))) (s : State)
      → id ≢ other
      → row other (written D id sets s).0 ≡ row other s
  written-other id other none s h = refl
  written-other id other (some sets) s h =
      ap (λ (x : State × Updated). row other x.0) (attempted-write D law id sets s)
      ∙ row-write_other D law id other sets s h

  updated_row-other :
      (id other : String) (u : UpdateDoc) (o : Option Row) (s : State)
      → id ≢ other
      → row other (updated_row D id u o s).0 ≡ row other s
  unfolding drafted
  updated_row-other id other u none s h = refl
  updated_row-other id other u (some r) s h =
      written-other id other (assignments ((drafted u r).values) ((drafted u r).changed)) s h

  -- An update by id leaves the other users as they are.
  pub find_by_id_and_update-other :
      (id other : String) (u : UpdateDoc) (s : State)
      → id ≢ other
      → row other (find_by_id_and_update D id u s).0 ≡ row other s
  unfolding find_by_id_and_update
  find_by_id_and_update-other id other u s h = updated_row-other id other u (row id s) s h

  -- An update of a user that does not exist changes nothing.
  pub find_by_id_and_update-missing :
      (id : String) (u : UpdateDoc) (s : State)
      → row id s ≡ none
      → find_by_id_and_update D id u s ≡ (s, updated none)
  unfolding find_by_id_and_update
  find_by_id_and_update-missing id u s h = rw (h)
