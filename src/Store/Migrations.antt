-- ===== src/Store/Migrations.antt =====
-- `Migrate` of backend/internal/store/store.go. The embedded files are a parameter: the entries of the
-- folder, and what a file holds. What the SQL of a file does is left out: a ledger keeps the scripts that
-- took effect, and the rows of `schema_migrations`. A batch has its effect whole or not at all, and may fail
-- for any reason; a version is a primary key.
pub mod Once
pub mod Again
mod Tests
use spin_the_wheel.Prelude.{
  ℕ, ◌+◌, Bool, true, false, not, ◌&&◌, ◌||◌, Option, none, some, List, [], ◌∷◌, ◌++◌, Bytes, text,
  same, drop, take, length, all, any, select, between, sort_by, bytes_ltb, ◌==◌, if◌then◌else◌,
}

pub record Folder : Type 0 where
  pub entries : Option (List (Bytes × Bool))
  pub read : Bytes → Option Bytes

pub record Ledger : Type 0 where
  pub versions : List Bytes
  pub scripts : List Bytes
  pub faults : ℕ → Bool
  pub statements : ℕ

abbrev pub contains : List Bytes → Bytes → Bool
contains xs n = any (same n) xs

-- `migrationNameRe`: four digits, and then a name with its extension.
abbrev pub is_name_byte : ℕ → Bool
is_name_byte c = between 0x61 0x7a c || (between 0x30 0x39 c || c == 0x5f)

unfoldable pub is_stem : Bool → Bytes → Bool
is_stem begun [] = false
is_stem begun (c ∷ cs) =
    let rest = is_stem true cs in
    if is_name_byte c then rest else begun && same (c ∷ cs) (text ".sql")

unfoldable pub is_migration_name : Bytes → Bool
unfolding is_stem
is_migration_name (a ∷ b ∷ c ∷ d ∷ e ∷ rest) =
    all (λ x. between 0x30 0x39 x) (a ∷ b ∷ c ∷ d ∷ []) && (e == 0x5f && is_stem false rest)
is_migration_name _ = false

-- The loop over the entries: folders are passed over, and a name of another form ends it.
abbrev pub with_name : Bytes → Option (List Bytes) → Option (List Bytes)
with_name n none = none
with_name n (some ns) = some (n ∷ ns)

unfoldable pub gathered : List (Bytes × Bool) → Option (List Bytes)
unfolding is_migration_name
gathered [] = some []
gathered ((n, is_folder) ∷ es) =
    let rest = gathered es in
    if is_folder then rest else if is_migration_name n then with_name n rest else none

-- `sort.Strings`
abbrev pub by_name : Bytes → Bytes → Bool
by_name a b = not (bytes_ltb b a)

abbrev pub spent : Ledger → Ledger
spent l = record l { statements = l.statements + 1 }

-- The batch of a file.
unfoldable pub run_batch : Bytes → Option Bytes → Ledger → Bool × Ledger
run_batch n none l = (false, l)
run_batch n (some body) l =
    if l.faults l.statements || contains l.versions n then (false, spent l) else (
      true,
      record l {
        versions = l.versions ++ n ∷ [];
        scripts = l.scripts ++ body ∷ [];
        statements = l.statements + 1;
      },
    )

unfoldable pub migrate_one : Folder → List Bytes → Bytes → Ledger → Bool × Ledger
unfolding run_batch
migrate_one folder applied n l =
    if contains applied n then (true, l) else run_batch n (folder.read n) l

-- The loop over the names, with the versions that were applied at its start.
unfoldable pub migrate_all : Folder → List Bytes → List Bytes → Ledger → Bool × Ledger
unfolding migrate_one
migrate_all folder applied [] l = (true, l)
migrate_all folder applied (n ∷ ns) l =
    let (went, l') = migrate_one folder applied n l in
    elim went [ true ↦ migrate_all folder applied ns l' | false ↦ (false, l') ]

abbrev pub migrate_named : Folder → Option (List Bytes) → Ledger → Bool × Ledger
migrate_named folder none l = (false, l)
migrate_named folder (some names) l = migrate_all folder l.versions (sort_by by_name names) l

abbrev pub gathered_names : Folder → Option (List Bytes)
gathered_names folder = elim folder.entries [ none ↦ none | some es ↦ gathered es ]

-- `Migrate`: CREATE TABLE IF NOT EXISTS, the versions, the names, the loop.
unfoldable pub migrate : Folder → Ledger → Bool × Ledger
unfolding migrate_all gathered sort_by
migrate folder l =
    if l.faults l.statements
    then (false, spent l)
    else if l.faults (l.statements + 1)
    then (false, spent (spent l))
    else migrate_named folder (gathered_names folder) (spent (spent l))
