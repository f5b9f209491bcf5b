-- ===== src/Scripts/Migrate.antt =====
-- scripts/migrate.mjs: the migrations of the database, and its application user. The rest of the
-- database is a parameter, with what a text of SQL does to it, also where it fails on the way.
pub mod Again
use bf_techops.Prelude.{
  ℕ, Bool, true, false, not, ◌&&◌, ◌||◌, Option, none, some, List, [], ◌∷◌, ltb, leb, ◌==◌,
  if◌then◌else◌, length, every,
}
use bf_techops.Prelude.Table.{find_one}
use bf_techops.Js.{Text, codes, text_eq}
use bf_techops.Failure.{Result, ok, err, error, reject_if, ◌>>=◌, ◌>>◌}
use bf_techops.Config.{ProcessEnv, or_default, given, required}
use bf_techops.Domain.StableJson.{text_leb}
use bf_techops.Persistence.Database.{Env}

-- A file of the directory: its name and its text.
pub record MigrationFile : Type 0 where
  pub file : Text
  pub sql : Text

-- A row of schema_migrations; the time is left out.
pub record AppliedMigration : Type 0 where
  pub name : Text
  pub checksum : ℕ

pub record AppUser : Type 0 where
  pub user : Text
  pub password : Text
  pub database : Text

pub record MigrationWorld (S : Type 0) : Type 0 where
  pub schema : S
  pub applied : List AppliedMigration
  -- the users that were granted their rights, the last one first
  pub granted : List AppUser

abbrev pub is_digit : ℕ → Bool
is_digit c = leb b'0' c && leb c b'9'

abbrev pub is_line_end : ℕ → Bool
is_line_end c = c == 10 || c == 13 || c == 0x2028 || c == 0x2029

unfoldable pub ends_with : Text → Text → Bool
ends_with suffix [] = text_eq suffix []
ends_with suffix (c ∷ s) = let rest = ends_with suffix s in text_eq suffix (c ∷ s) || rest

abbrev pub starts_with_digit : Text → Bool
starts_with_digit [] = false
starts_with_digit (c ∷ s) = is_digit c

-- `\d+.*\.sql`
unfoldable pub is_migration : Text → Bool
is_migration s =
    starts_with_digit s && ends_with (codes ".sql") s && every (λ c. not (is_line_end c)) s

unfoldable pub insert_file : MigrationFile → List MigrationFile → List MigrationFile
insert_file f [] = f ∷ []
insert_file f (g ∷ files) =
    let rest = insert_file f files in if text_leb f.file g.file then f ∷ g ∷ files else g ∷ rest

-- The files whose names fit the pattern, in the order of their names.
unfoldable pub migration_files : List MigrationFile → List MigrationFile
migration_files [] = []
migration_files (f ∷ files) =
    let rest = migration_files files in if is_migration f.file then insert_file f rest else rest

-- `[A-Za-z0-9_]`
abbrev pub is_name_unit : ℕ → Bool
is_name_unit c = (leb b'A' c && leb c b'Z') || (leb b'a' c && leb c b'z') || is_digit c || c == b'_'

unfoldable pub safe_name : ℕ → Text → Bool
safe_name n s = leb 1 (length s) && leb (length s) n && every is_name_unit s

-- A user and a password that are not both missing.
unfoldable pub checked_user : ProcessEnv → Text → Text → Result (Option AppUser)
checked_user vars user password = do
  reject_if
      (not (given (vars "MYSQL_APP_USER"))
        || not (given (vars "MYSQL_APP_PASSWORD"))
        || not (safe_name 32 user))
      (error "MYSQL_APP_USER and MYSQL_APP_PASSWORD must be supplied together with a safe username")
  database ← required vars "MYSQL_DATABASE"
  reject_if (not (safe_name 64 database)) (error "Unsafe MYSQL_DATABASE value")
  ok (some record { user = user; password = password; database = database })

-- The checks of `provisionApplicationUser`, and the user if there is one.
unfoldable pub application_user : ProcessEnv → Result (Option AppUser)
application_user vars =
    if not (given (vars "MYSQL_APP_USER")) && not (given (vars "MYSQL_APP_PASSWORD"))
    then ok none
    else checked_user vars (or_default [] (vars "MYSQL_APP_USER"))
        (or_default [] (vars "MYSQL_APP_PASSWORD"))

module _ {S : Type 0} (env : Env) (execute : Text → S → Result (Unit {0}) × S) where
  abbrev pub Outcome : Type 0
  Outcome = Result (Unit {0}) × MigrationWorld S

  -- `SELECT checksum FROM schema_migrations WHERE name = ?`; the column has a collation.
  unfoldable pub find_applied : Text → List AppliedMigration → Option AppliedMigration
  find_applied name applied = find_one (λ m. env.collation m.name == env.collation name) applied

  abbrev pub as_applied : MigrationFile → AppliedMigration
  as_applied f = record { name = f.file; checksum = env.sha256 f.sql }

  -- After the migration has run.
  abbrev pub after_sql : MigrationFile → MigrationWorld S → Result (Unit {0}) × S → Outcome
  after_sql f w (err e, schema) = (err e, record w { schema = schema })
  after_sql f w (ok u, schema) =
      (ok tt, record w { schema = schema; applied = as_applied f ∷ w.applied })

  abbrev pub verify_or_apply : MigrationFile → MigrationWorld S → Option AppliedMigration → Outcome
  verify_or_apply f w none = after_sql f w (execute f.sql w.schema)
  verify_or_apply f w (some existing) =
      if not (existing.checksum == env.sha256 f.sql)
      then (err (error "Checksum drift detected for applied migration"), w)
      else (ok tt, w)

  -- The body of the loop over the files.
  unfoldable pub apply_file : MigrationFile → MigrationWorld S → Outcome
  apply_file f w = verify_or_apply f w (find_applied f.file w.applied)

  abbrev pub go_on : (MigrationWorld S → Outcome) → Outcome → Outcome
  go_on next (ok u, w) = next w
  go_on next (err e, w) = (err e, w)

  unfoldable pub apply_files : List MigrationFile → MigrationWorld S → Outcome
  apply_files [] w = (ok tt, w)
  apply_files (f ∷ files) w = go_on (apply_files files) (apply_file f w)

  abbrev pub grant : Result (Option AppUser) → MigrationWorld S → Outcome
  grant (err e) w = (err e, w)
  grant (ok none) w = (ok tt, w)
  grant (ok (some user)) w = (ok tt, record w { granted = user ∷ w.granted })

  -- The script, once it is connected, with the lock acquired or not.
  unfoldable pub migrate : Bool → ProcessEnv → List MigrationFile → MigrationWorld S → Outcome
  migrate acquired vars directory w =
      if not acquired
      then (err (error "Could not acquire the database migration lock"), w)
      else go_on (grant (application_user vars)) (apply_files (migration_files directory) w)
