-- ===== src/Persistence.antt =====
-- The database file and its schema (nightshift/persistence/database.py).
pub mod Recovery
use Prim.Native.String.{String}
use text.Mathlib.Text.{◌==◌ as str_eq}
use nightshift_opi.Prelude.{
  ℕ, suc, Bool, true, false, ◌||◌, Option, none, some, List, [], ◌∷◌, ◌++◌, if◌then◌else◌, Result,
  ok, err, drop, operational_error, runtime_error,
}
use nightshift_opi.Prelude.Exec.{Exec, ◌>>=◌, ◌>>◌, continue}

-- What a file holds of the schema: the names of the tables, and the rows of `schema_version`, which
-- are `none` before that table is there. The columns, which no statement changes, are left out.
pub record Schema : Type 0 where
  pub tables : List String
  pub versions : Option (List ℕ)

abbrev pub new_file : Schema
new_file = record { tables = []; versions = none }

-- The statements of the migrations: CREATE TABLE IF NOT EXISTS, and the two on `schema_version`.
pub data Statement : Type 0 where
  create_table : String → Statement
  create_version_table : Statement
  insert_version : ℕ → Statement
  update_version : ℕ → Statement

unfoldable pub has_table : String → List String → Bool
has_table name [] = false
has_table name (t ∷ tables) = str_eq t name || has_table name tables

unfoldable pub set_all : ℕ → List ℕ → List ℕ
set_all n [] = []
set_all n (v ∷ versions) = n ∷ set_all n versions

-- One statement; one on a table that is not there raises an OperationalError.
unfoldable pub apply : Statement → Exec Schema Unit
apply (create_table name) s =
    (ok tt, if has_table name s.tables then s else record s { tables = s.tables ++ name ∷ [] })
apply create_version_table s = elim s.versions [
  | none ↦ (ok tt, record s { versions = some [] })
  | some rows ↦ (ok tt, s)
]
apply (insert_version n) s = elim s.versions [
  | none ↦ (err operational_error, s)
  | some rows ↦ (ok tt, record s { versions = some (rows ++ n ∷ []) })
]
apply (update_version n) s = elim s.versions [
  | none ↦ (err operational_error, s)
  | some rows ↦ (ok tt, record s { versions = some (set_all n rows) })
]

-- Statements in order, up to the first that raises.
unfoldable pub run : List Statement → Exec Schema Unit
run [] s = (ok tt, s)
run (statement ∷ rest) s =
    let (r, s') = apply statement s in elim r [ ok _ ↦ run rest s' | err e ↦ (err e, s') ]

-- `_MIGRATIONS`
abbrev pub migrations : List (List Statement)
migrations =
    (create_table "tasks"
      ∷ create_table "notices"
      ∷ create_table "confirmations"
      ∷ create_version_table
      ∷ insert_version 0
      ∷ [])
    ∷ []

-- `_current_version() + 1`, the number of the migrations that are done: without the table or
-- without a row, the version is -1.
unfoldable pub next_version : Schema → ℕ
next_version s = elim s.versions [ none ↦ 0 | some rows ↦ elim rows [ [] ↦ 0 | v ∷ _ ↦ suc v ] ]

-- The statements of the loop over `range(current + 1, len(_MIGRATIONS))`, with `i` at its start.
unfoldable pub scripts : ℕ → List (List Statement) → List Statement
scripts i [] = []
scripts i (script ∷ rest) = script ++ update_version i ∷ scripts (suc i) rest

unfoldable pub due : Schema → List Statement
due s = scripts (next_version s) (drop (next_version s) migrations)

-- What the system and the library do with the path: whether its directory is there, what creating
-- that gives if it is not, what `aiosqlite.connect` gives once it is there, what the pragmas give, and
-- what the file holds of the schema, a new one nothing.
pub record Disk : Type 0 where
  pub has_parent : Bool
  pub creates : Result (Unit {0})
  pub connects : Result (Unit {0})
  pub pragmas : Result (Unit {0})
  pub file : Schema

-- `is_open` is `self._db is not None`.
pub record Database : Type 0 where
  pub disk : Disk
  pub is_open : Bool

-- The property `connection`
unfoldable pub connection : Exec Database Schema
connection db = if db.is_open then (ok db.disk.file, db) else (err runtime_error, db)

-- `self._path.parent.mkdir(parents=True, exist_ok=True)`
unfoldable pub make_parent : Exec Database Unit
make_parent db = if db.disk.has_parent then (ok tt, db) else elim db.disk.creates [
  | ok _ ↦ (ok tt, record db { disk = record db.disk { has_parent = true } })
  | err e ↦ (err e, db)
]

-- `self._db = await aiosqlite.connect(...)`, which cannot open a file where there is no directory
unfoldable pub connect : Exec Database Unit
connect db =
    if db.disk.has_parent
    then elim db.disk.connects [
      | ok _ ↦ (ok tt, record db { is_open = true })
      | err e ↦ (err e, db)
    ]
    else (err operational_error, db)

-- The three pragmas, which do not touch the schema.
unfoldable pub execute_pragmas : Exec Database Unit
execute_pragmas db = (db.disk.pragmas, db)

unfoldable pub migrate : Exec Database Unit
migrate db =
    let (r, file) = run (due db.disk.file) db.disk.file in
    (r, record db { disk = record db.disk { file = file } })

-- `open`
unfoldable pub open_file : Exec Database Unit
open_file = do make_parent; connect; execute_pragmas; migrate

unfoldable pub close : Database → Database
close db = record db { is_open = false }
