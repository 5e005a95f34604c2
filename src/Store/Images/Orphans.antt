-- ===== src/Store/Images/Orphans.antt =====
-- The removal of images that no wheel shows.
use spin_the_wheel.Prelude.{
  ◌≡◌, refl, true, not, Option, List, [], ◌∷◌, Bytes, same, same_iff, length, select, find, ◌==◌,
  arith,
}
use spin_the_wheel.Store.Tables.{Db, ImageRow}
use spin_the_wheel.Store.Monad.{World, exec, pure}
use spin_the_wheel.Store.Runs.{bind-keeps, exec-keeps}
use spin_the_wheel.Store.Images.{is_shown, is_deletable, delete_image_if_unused}

abbrev pub image_row : Bytes → List ImageRow → Option ImageRow
image_row image rows = find (λ (r : ImageRow). same r.id image) rows

find-kept :
    (id image : Bytes) (db : Db) (rows : List ImageRow)
    → is_shown image db ≡ true
    → image_row image (select (λ r. not (is_deletable id db r)) rows) ≡ image_row image rows
unfolding is_deletable
find-kept id image db [] shown = refl
find-kept id image db (r ∷ rows) shown =
    ground (arith, same_iff r.id image, find-kept id image db rows shown)

-- `DeleteImageIfUnused`, of any image and whatever statements fail, keeps the row of every image that
-- a segment of a living wheel shows.
pub delete_image-keeps_shown :
    (id image : Bytes) (w : World)
    → is_shown image w.db ≡ true
    → image_row image (delete_image_if_unused id w).1.db.images ≡ image_row image w.db.images
unfolding delete_image_if_unused
delete_image-keeps_shown id image w shown =
    bind-keeps (λ v. image_row image v.db.images ≡ image_row image w.db.images)
      (exec λ now db. (
        length (select (is_deletable id db) db.images),
        record db { images = select (λ r. not (is_deletable id db r)) db.images },
      ))
      (λ touched. pure (touched == 1)) w
      (exec-keeps (λ v. image_row image v.db.images ≡ image_row image w.db.images) _ w refl
        (find-kept id image w.db w.db.images shown))
      λ touched v same_rows. same_rows
