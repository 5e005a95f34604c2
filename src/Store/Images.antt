-- ===== src/Store/Images.antt =====
-- The metadata of the images: backend/internal/store/images.go. The files are on a disk volume.
pub mod Orphans
use spin_the_wheel.Prelude.{
  ℕ, ◌+◌, Bool, true, false, not, ◌&&◌, Option, none, some, List, [], ◌∷◌, ◌++◌, map, Bytes, same,
  length, take, select, find, any, sort_by, bytes_ltb, leb, ltb, ◌==◌, if◌then◌else◌,
}
use spin_the_wheel.Store.Tables.{Db, WheelRow, SegmentRow, ImageRow, is_null}
use spin_the_wheel.Store.Monad.{M, ◌>>=◌, pure, throw, not_found, or_not_found, exec, query}
use spin_the_wheel.Store.Spins.{capped}

-- `Image`; the methods leave the digest in the table.
pub record ImageMeta : Type 0 where
  pub id : Bytes
  pub owner_id : Bytes
  pub byte_size : ℕ
  pub width : ℕ
  pub height : ℕ
  pub created_at : ℕ

abbrev pub to_meta : ImageRow → ImageMeta
to_meta r = record {
  id = r.id;
  owner_id = r.owner_id;
  byte_size = r.byte_size;
  width = r.width;
  height = r.height;
  created_at = r.created_at;
}

-- `CreateImage`
unfoldable pub create_image : Bytes → Bytes → Bytes → ℕ → ℕ → ℕ → M ImageMeta
create_image id owner sha256 byte_size width height = do
  row ← exec (λ now db.
      let row : ImageRow = record {
        id = id;
        owner_id = owner;
        sha256 = sha256;
        byte_size = byte_size;
        width = width;
        height = height;
        created_at = now;
      } in
      (row, record db { images = db.images ++ row ∷ [] }))
  pure (to_meta row)

-- `GetImage`
unfoldable pub get_image : Bytes → M ImageMeta
get_image id = do
  row ← query (λ now db. find (λ (r : ImageRow). same r.id id) db.images)
  r ← or_not_found row
  pure (to_meta r)

-- `ListImages`
unfoldable pub list_images : Bytes → ℕ → M (List ImageMeta)
list_images owner limit = query (λ now db. map to_meta (
    take (capped limit 200) (
      sort_by (λ (a b : ImageRow). not (bytes_ltb a.id b.id))
        (select (λ (r : ImageRow). same r.owner_id owner) db.images))))

-- `CountImagesSince`
unfoldable pub count_images_since : Bytes → ℕ → M ℕ
count_images_since owner since = query (λ now db.
    length (
      select (λ (r : ImageRow). same r.owner_id owner && ltb now (r.created_at + since)) db.images))

-- FROM segments sg JOIN wheels w … WHERE sg.image_id = i.id AND w.deleted_at IS NULL
abbrev pub has_image : Bytes → Option Bytes → Bool
has_image image none = false
has_image image (some i) = same i image

abbrev pub is_living : Bytes → WheelRow → Bool
is_living wheel w = same w.id wheel && is_null w.deleted_at

unfoldable pub is_shown : Bytes → Db → Bool
is_shown image db =
    any (λ (sg : SegmentRow). has_image image sg.image_id && any (is_living sg.wheel_id) db.wheels)
      db.segments

-- `ListOrphanImages`
unfoldable pub is_orphan : ℕ → ℕ → Db → ImageRow → Bool
unfolding is_shown
is_orphan older_than now db r = ltb (r.created_at + older_than) now && not (is_shown r.id db)

unfoldable pub list_orphan_images : ℕ → ℕ → M (List Bytes)
unfolding is_orphan
list_orphan_images older_than limit = query (λ now db.
    map (λ (r : ImageRow). r.id)
      (take limit (
        sort_by (λ (a b : ImageRow). bytes_ltb a.id b.id)
          (select (is_orphan older_than now db) db.images))))

-- DELETE FROM images … AND NOT EXISTS, with the number of rows that go.
unfoldable pub is_deletable : Bytes → Db → ImageRow → Bool
unfolding is_shown
is_deletable id db r = same r.id id && not (is_shown r.id db)

-- `DeleteImageIfUnused`. The schema's ON DELETE SET NULL, which takes the image from the segments of
-- deleted wheels, is left out: those segments keep the identifier here.
unfoldable pub delete_image_if_unused : Bytes → M Bool
unfolding is_deletable
delete_image_if_unused id = do
  touched ← exec (λ now db. (
    length (select (is_deletable id db) db.images),
    record db { images = select (λ r. not (is_deletable id db r)) db.images },
  ))
  pure (touched == 1)
