-- ===== src/Scripts/Migrate/Again.antt =====
-- migrate.mjs: a second run finds everything done.
use bf_techops.Prelude.{
  ℕ, ◌≡◌, refl, sym, ap, ◌∙◌, true, Option, none, some, List, [], ◌∷◌, ◌==◌, ==_iff, ==_refl, All,
  Bool-cases, inl, inr,
}
use bf_techops.Prelude.Table.{find_one}
use bf_techops.Js.{Text}
use bf_techops.Prelude.Table.Unique
use bf_techops.Failure.{Failure, Result, ok, err}
use bf_techops.Config.{ProcessEnv}
use bf_techops.Persistence.Database.{Env}
use bf_techops.Scripts.Migrate.{
  MigrationFile, AppliedMigration, AppUser, MigrationWorld, migration_files, find_applied, Outcome,
  as_applied, after_sql, verify_or_apply, apply_file, apply_files, go_on, grant, migrate,
  application_user,
}

outcomes_differ {ℓ κ} : {A : Type ℓ} {C : Type κ} {a : A} {e : Failure} → err e ≡ ok a → C
outcomes_differ h = cc

found_nothing {ℓ κ} : {A : Type ℓ} {C : Type κ} {a : A} → none ≡ some a → C
found_nothing h = cc

module _ {S : Type 0} (env : Env) (execute : Text → S → Result (Unit {0}) × S) where
  -- The file is recorded with the checksum of its text.
  pub record IsRecorded (w : MigrationWorld S) (f : MigrationFile) : Type 0 where
    pub row : AppliedMigration
    pub found : find_applied env execute f.file w.applied ≡ some row
    pub unchanged : row.checksum ≡ env.sha256 f.sql

  verified :
      (f : MigrationFile) (w : MigrationWorld S)
      → IsRecorded w f
      → apply_file env execute f w ≡ (ok tt, w)
  unfolding apply_file
  verified f w r = rw r.found (rw r.unchanged (rw (==_refl (env.sha256 f.sql)) refl))

  verified-All :
      (files : List MigrationFile) (w : MigrationWorld S)
      → All (IsRecorded w) files
      → apply_files env execute files w ≡ (ok tt, w)
  unfolding apply_files
  verified-All [] w a = refl
  verified-All (f ∷ files) w a = rw (verified f w a.0) (verified-All files w a.1)

  -- A row under another name does not hide it.
  still_found :
      (f g : MigrationFile) (w w' : MigrationWorld S)
      → w'.applied ≡ as_applied env execute g ∷ w.applied
      → find_applied env execute g.file w.applied ≡ none
      → IsRecorded w f
      → IsRecorded w' f
  unfolding find_applied find_one
  still_found f g w w' grown new r =
      elim (Bool-cases (env.collation g.file == env.collation f.file)) [
        | inl same ↦ found_nothing (
            sym new
            ∙ ap (λ (k : ℕ). find_one (λ m. env.collation m.name == k) w.applied)
                ((==_iff (env.collation g.file) (env.collation f.file)).0 same)
            ∙ r.found)
        | inr other ↦ record {
          row = r.row;
          found = rw grown (rw other r.found);
          unchanged = r.unchanged;
        }
      ]

  kept_by_sql :
      (f g : MigrationFile) (w : MigrationWorld S) (p : Result (Unit {0}) × S)
      → find_applied env execute g.file w.applied ≡ none
      → IsRecorded w f
      → IsRecorded (after_sql env execute g w p).1 f
  kept_by_sql f g w (err e, schema) new r = record {
    row = r.row;
    found = r.found;
    unchanged = r.unchanged;
  }
  kept_by_sql f g w (ok u, schema) new r =
      still_found f g w (after_sql env execute g w (ok u, schema)).1 refl new r

  kept_by_check :
      (f g : MigrationFile) (w : MigrationWorld S) (o : Option AppliedMigration)
      → find_applied env execute g.file w.applied ≡ o
      → IsRecorded w f
      → IsRecorded (verify_or_apply env execute g w o).1 f
  kept_by_check f g w none new r = kept_by_sql f g w (execute g.sql w.schema) new r
  kept_by_check f g w (some existing) there r =
      elim (Bool-cases (existing.checksum == env.sha256 g.sql)) [ inl c ↦ rw c r | inr c ↦ rw c r ]

  then_kept :
      (f : MigrationFile) (next : MigrationWorld S → Outcome env execute)
      → ((w : MigrationWorld S) → IsRecorded w f → IsRecorded (next w).1 f)
      → (p : Outcome env execute) → IsRecorded p.1 f
      → IsRecorded (go_on env execute next p).1 f
  then_kept f next keeps (ok u, w) r = keeps w r
  then_kept f next keeps (err e, w) r = r

  kept :
      (f : MigrationFile) (files : List MigrationFile) (w : MigrationWorld S)
      → IsRecorded w f
      → IsRecorded (apply_files env execute files w).1 f
  unfolding apply_files apply_file
  kept f [] w r = r
  kept f (g ∷ files) w r =
      then_kept f (apply_files env execute files) (kept f files)
        (verify_or_apply env execute g w (find_applied env execute g.file w.applied))
        (kept_by_check f g w _ refl r)

  -- What a run that ended well has recorded.
  abbrev Recorded : List MigrationFile → Outcome env execute → Type 0
  Recorded files (ok u, w) = All (IsRecorded w) files
  Recorded files (err e, w) = Unit

  sql-Recorded :
      (f : MigrationFile) (w : MigrationWorld S) (p : Result (Unit {0}) × S)
      → Recorded (f ∷ []) (after_sql env execute f w p)
  unfolding find_applied find_one
  sql-Recorded f w (err e, schema) = tt
  sql-Recorded f w (ok u, schema) = (
    record {
      row = as_applied env execute f;
      found = rw (==_refl (env.collation f.file)) refl;
      unchanged = refl;
    },
    tt,
  )

  check-Recorded :
      (f : MigrationFile) (w : MigrationWorld S) (o : Option AppliedMigration)
      → find_applied env execute f.file w.applied ≡ o
      → Recorded (f ∷ []) (verify_or_apply env execute f w o)
  check-Recorded f w none new = sql-Recorded f w (execute f.sql w.schema)
  check-Recorded f w (some existing) there =
      elim (Bool-cases (existing.checksum == env.sha256 f.sql)) [
        | inl c ↦ rw c (
          record { row = existing; found = there; unchanged = (==_iff existing.checksum _).0 c },
          tt,
        )
        | inr c ↦ rw c tt
      ]

  both :
      (f : MigrationFile) (files : List MigrationFile) (p : Outcome env execute)
      → IsRecorded p.1 f
      → Recorded files p
      → Recorded (f ∷ files) p
  both f files (ok u, w) r a = (r, a)
  both f files (err e, w) r a = tt

  join-Recorded :
      (f : MigrationFile) (files : List MigrationFile) (p : Outcome env execute)
      → Recorded (f ∷ []) p
      → ((w : MigrationWorld S) → Recorded files (apply_files env execute files w))
      → Recorded (f ∷ files) (go_on env execute (apply_files env execute files) p)
  join-Recorded f files (err e, w) one more = tt
  join-Recorded f files (ok u, w) one more =
      both f files (apply_files env execute files w) (kept f files w one.0) (more w)

  apply_files-Recorded :
      (files : List MigrationFile) (w : MigrationWorld S)
      → Recorded files (apply_files env execute files w)
  unfolding apply_files apply_file
  apply_files-Recorded [] w = tt
  apply_files-Recorded (f ∷ files) w =
      join-Recorded f files _ (check-Recorded f w _ refl) (apply_files-Recorded files)

  granted_same :
      (r : Result (Option AppUser)) (w w' : MigrationWorld S)
      → (grant env execute r w).0 ≡ (grant env execute r w').0
  granted_same (err e) w w' = refl
  granted_same (ok none) w w' = refl
  granted_same (ok (some user)) w w' = refl

  granted_leaves :
      (r : Result (Option AppUser)) (w : MigrationWorld S)
      → ((grant env execute r w).1.schema ≡ w.schema)
        × ((grant env execute r w).1.applied ≡ w.applied)
  granted_leaves (err e) w = (refl, refl)
  granted_leaves (ok none) w = (refl, refl)
  granted_leaves (ok (some user)) w = (refl, refl)

  moved :
      (f : MigrationFile) (w w' : MigrationWorld S)
      → w.applied ≡ w'.applied
      → IsRecorded w f
      → IsRecorded w' f
  moved f w w' same r = record {
    row = r.row;
    found = ap (find_applied env execute f.file) (sym same) ∙ r.found;
    unchanged = r.unchanged;
  }

  -- The end of a first run.
  ended :
      (vars : ProcessEnv) (files : List MigrationFile) (p : Outcome env execute)
      {w' : MigrationWorld S}
      → Recorded files p
      → go_on env execute (grant env execute (application_user vars)) p ≡ (ok tt, w')
      → All (IsRecorded w') files × ((grant env execute (application_user vars) w').0 ≡ ok tt)
  ended vars files (err e, w) a h = outcomes_differ (ap (λ (p : Outcome env execute). p.0) h)
  ended vars files (ok u, w) {w'} a h =
      let same : w.applied ≡ w'.applied =
        sym (granted_leaves (application_user vars) w).1
        ∙ ap (λ (p : Outcome env execute). p.1.applied) h in
      (
        Unique.All-map (IsRecorded w') (λ f r. moved f w w' same r) files a,
        granted_same (application_user vars) w' w ∙ ap (λ (p : Outcome env execute). p.0) h,
      )

  -- After a run of the migrations that ended well, the same run on the same files ends well again,
  -- and changes neither the schema nor the record of the applied migrations: no SQL runs twice,
  -- whatever the files are and whatever SQL does.
  pub migrate_again :
      (vars : ProcessEnv) (directory : List MigrationFile) (w w' : MigrationWorld S)
      → migrate env execute true vars directory w ≡ (ok tt, w')
      → ((migrate env execute true vars directory w').0 ≡ ok tt)
        × ((migrate env execute true vars directory w').1.schema ≡ w'.schema)
        × ((migrate env execute true vars directory w').1.applied ≡ w'.applied)
  unfolding migrate
  migrate_again vars directory w w' first =
      let (recorded, granted) =
        ended vars (migration_files directory)
          (apply_files env execute (migration_files directory) w)
          (apply_files-Recorded (migration_files directory) w) first in
      rw (verified-All (migration_files directory) w' recorded) (
        granted,
        (granted_leaves (application_user vars) w').0,
        (granted_leaves (application_user vars) w').1,
      )
