-- ===== src/Users/Sample.antt =====
-- A table of users and a user, for the tests.
use routiq.Base.{String, true, false, Option, none, some, [], ◌∷◌, refl, str_eq, if◌then◌else◌}
use mathlib.Core.Option
use routiq.Users.{null, text, number, flag, items, Row, assign, UserDb, IsTable, IsUserDb}

abbrev pub table : UserDb
table = record {
  State = String → Option Row;
  row = λ i s. s i;
  write = λ i sets s j. if str_eq i j then Option.map (assign sets) (s i) else s j;
  refuses = λ i sets s. false;
}

pub table-IsUserDb : IsUserDb table
table-IsUserDb = record { row-write = λ i j sets s. refl; accepts = λ i sets s. refl }

pub table-IsTable : IsTable table
table-IsTable = record { row-write = λ i j sets s. refl }

abbrev pub empty_row : Row
empty_row field = null

-- A verified user with five sessions.
abbrev pub ann : Row
ann =
    assign
      (("id", text "u1")
        ∷ ("email", text "ann@example.org")
        ∷ ("provider", text "local")
        ∷ ("password", text "hash")
        ∷ ("isEmailVerified", flag true)
        ∷ ("tokenVersion", number 3)
        ∷ ("refreshTokens", items ("#t1" ∷ "#t2" ∷ "#t3" ∷ "#t4" ∷ "#t5" ∷ []))
        ∷ ("activeAccessJtis", items ("j1" ∷ []))
        ∷ [])
      empty_row

-- A user of an OAuth provider.
abbrev pub bob : Row
bob =
    assign
      (("id", text "u2")
        ∷ ("email", text "bob@example.org")
        ∷ ("provider", text "google")
        ∷ ("providerId", text "g7")
        ∷ ("isEmailVerified", flag true)
        ∷ [])
      empty_row

abbrev pub users : String → Option Row
users id = if str_eq id "u1" then some ann else if str_eq id "u2" then some bob else none
