-- ===== src/Images/Disk/Files.antt =====
-- The agreement of the rows of the images with the files of the volume.
use spin_the_wheel.Prelude.{◌≡◌, false, Option, some, List, [], ◌∷◌, Bytes, same, All}
use spin_the_wheel.Store.Tables.{ImageRow}
use spin_the_wheel.Images.Disk.{Site, image_path}

abbrev pub HasFile : Bytes → (Bytes → Option Bytes) → ImageRow → Type 0
HasFile dir files r = (content : Bytes) × (files (image_path dir r.id) ≡ some content)

-- Every row has its file.
abbrev pub HasFiles : Bytes → Site → Type 0
HasFiles dir s = All (HasFile dir s.files) s.world.db.images

-- The identifier names no file of a row.
abbrev pub IsFresh : Bytes → Bytes → List ImageRow → Type 0
IsFresh dir id rows = All (λ r. same (image_path dir r.id) (image_path dir id) ≡ false) rows

pub All-both :
    {A : Type 0} (P Q R : A → Type 0) (xs : List A)
    → ((x : A) → P x → Q x → R x)
    → All P xs
    → All Q xs
    → All R xs
All-both P Q R [] f p q = tt
All-both P Q R (x ∷ xs) f p q = (f x p.0 q.0, All-both P Q R xs f p.1 q.1)
