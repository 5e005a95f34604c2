-- ===== src/Images/Disk.antt =====
-- The volume of the image files. Any operation may fail, as a stream of faults says; a write that
-- fails leaves what the stream `partial` says, if anything.
pub mod Paths
pub mod Files
use spin_the_wheel.Prelude.{
  ℕ, ◌+◌, ◌≡◌, ◌≢◌, refl, sym, ap, ◌∙◌, Bool, true, false, Option, none, some, List, [], ◌∷◌, ◌++◌,
  Bytes, text, same, same_iff, same_refl, if◌then◌else◌, arith, Bool-cases, inl, inr,
}
use spin_the_wheel.Uid.{string}
use spin_the_wheel.Store.Monad.{Result, World, M}

-- The service: its database and its volume.
pub record Site : Type 0 where
  pub world : World
  pub files : Bytes → Option Bytes
  pub faults : ℕ → Bool
  pub partial : ℕ → Option Bytes
  pub operations : ℕ

-- The files with another content at a path.
abbrev pub put_file : Bytes → Option Bytes → (Bytes → Option Bytes) → Bytes → Option Bytes
put_file path content files p = if same p path then content else files p

abbrev after_operation : Site → (Bytes → Option Bytes) → Site
after_operation s files = record s { files = files; operations = s.operations + 1 }

-- os.WriteFile
unfoldable pub write_file : Bytes → Bytes → Site → Bool × Site
write_file path content s =
    if s.faults s.operations
    then (false, after_operation s (put_file path (s.partial s.operations) s.files))
    else (true, after_operation s (put_file path (some content) s.files))

abbrev move_file : Bytes → Bytes → Option Bytes → Site → Bool × Site
move_file from to none s = (false, after_operation s s.files)
move_file from to (some content) s =
    (true, after_operation s (put_file to (some content) (put_file from none s.files)))

-- os.Rename
unfoldable pub rename : Bytes → Bytes → Site → Bool × Site
rename from to s =
    if s.faults s.operations
    then (false, after_operation s s.files)
    else move_file from to (s.files from) s

-- os.Remove, whose error the source ignores or logs
unfoldable pub remove : Bytes → Site → Site
remove path s =
    if s.faults s.operations
    then after_operation s s.files
    else after_operation s (put_file path none s.files)

-- A call of the store.
abbrev pub on_store : {A : Type 0} → M A → Site → Result A × Site
on_store m s = ((m s.world).0, record s { world = (m s.world).1 })

-- `imagePath`; filepath.Join of a directory without a trailing slash
unfoldable pub image_path : Bytes → Bytes → Bytes
unfolding string
image_path dir id = dir ++ (text "/" ++ (string id ++ text ".png"))

abbrev pub temporary : Bytes → Bytes
temporary path = path ++ text ".tmp"
