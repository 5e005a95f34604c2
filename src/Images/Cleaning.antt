-- ===== src/Images/Cleaning.antt =====
-- `PurgeOrphanImages`: rows first, under the condition of the DELETE, and then files.
pub mod Kept
pub mod Hourly
use spin_the_wheel.Prelude.{
  ℕ, ◌+◌, Bool, true, false, Option, none, some, List, [], ◌∷◌, Bytes, if◌then◌else◌,
}
use spin_the_wheel.Store.Monad.{Result, ok, err, World}
use spin_the_wheel.Store.Images.{list_orphan_images, delete_image_if_unused}
use spin_the_wheel.Images.Disk.{Site, remove, on_store, image_path}

-- One round of the loop, behind the DELETE: whether the image counts as removed.
abbrev pub cleaned : Bytes → Result Bool → Site → Bool × Site
cleaned path (err e) s = (false, s)
cleaned path (ok false) s = (false, s)
cleaned path (ok true) s = (true, remove path s)

unfoldable pub clean_one : Bytes → Bytes → Site → Bool × Site
clean_one dir id s =
    let (result, s') = on_store (delete_image_if_unused id) s in
    cleaned (image_path dir id) result s'

unfoldable pub clean_all : Bytes → List Bytes → Site → ℕ × Site
unfolding clean_one
clean_all dir [] s = (0, s)
clean_all dir (id ∷ ids) s =
    let (gone, s') = clean_one dir id s in
    let (n, s'') = clean_all dir ids s' in (if gone then 1 + n else n, s'')

abbrev pub clean_listed : Bytes → Result (List Bytes) → Site → ℕ × Site
clean_listed dir (err e) s = (0, s)
clean_listed dir (ok ids) s = clean_all dir ids s

-- `PurgeOrphanImages`
unfoldable pub purge_orphan_images : Bytes → ℕ → Site → ℕ × Site
unfolding clean_all
purge_orphan_images dir grace_period s =
    let (result, s') = on_store (list_orphan_images grace_period 200) s in
    clean_listed dir result s'
