-- ===== src/Store/Migrations/Tests.antt =====
-- A folder of two migrations, and the theorems at its runs.
use spin_the_wheel.Prelude.{
  ℕ, ◌≡◌, refl, true, false, some, [], ◌∷◌, text, same, sort_by, bytes_ltb, if◌then◌else◌, ◌==◌,
}
use spin_the_wheel.Store.Migrations.{
  Folder, Ledger, is_stem, is_migration_name, gathered, run_batch, migrate_one, migrate_all,
  migrate,
}
use spin_the_wheel.Store.Migrations.Once.{pending, IsRun, migrate-IsRun}
use spin_the_wheel.Store.Migrations.Again.{migrate-again}

running : Unit {0}
unfolding is_stem is_migration_name gathered run_batch migrate_one migrate_all migrate same sort_by
    bytes_ltb
running = tt

abbrev folder : Folder
folder = record {
  entries =
      some ((text "0002_b.sql", false) ∷ (text "old", true) ∷ (text "0001_a.sql", false) ∷ []);
  read = λ name. some (if same name (text "0001_a.sql") then text "A" else text "B");
}

abbrev empty : Ledger
empty = record { versions = []; scripts = []; faults = λ n. false; statements = 0 }

-- A connection that is lost at a statement.
abbrev lost : ℕ → Ledger
lost n = record empty { faults = λ m. m == n }

in_order : (migrate folder empty).1.scripts ≡ text "A" ∷ text "B" ∷ []
unfolding running
in_order = refl

stopped : (migrate folder (lost 3)).1.scripts ≡ text "A" ∷ []
unfolding running
stopped = refl

misnamed : is_migration_name (text "0001-a.sql") ≡ false
unfolding running
misnamed = refl

migrate-IsRun_example : IsRun folder (pending folder []) (lost 3) (migrate folder (lost 3))
migrate-IsRun_example = migrate-IsRun folder (lost 3)

migrate-again_example :
    ((migrate folder (migrate folder empty).1).1.versions ≡ (migrate folder empty).1.versions)
    × ((migrate folder (migrate folder empty).1).1.scripts ≡ (migrate folder empty).1.scripts)
unfolding running
migrate-again_example = migrate-again folder empty (migrate folder empty).1 refl refl
