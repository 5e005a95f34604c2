-- ===== src/Store/Segments.antt =====
-- The segments of a wheel and its public view: backend/internal/store/wheels.go, lines 145 to 260.
pub mod Built
pub mod Replacing
pub mod Public
pub mod Withdrawn
use spin_the_wheel.Prelude.{
  ℕ, zero, suc, ◌+◌, Bool, true, false, not, ◌&&◌, Option, none, some, List, [], ◌∷◌, ◌++◌, map,
  Bytes, same, length, select, find, any, sort_by, leb, if◌then◌else◌,
}
use spin_the_wheel.Uid.{is_zero, nil_uuid}
use spin_the_wheel.Store.Tables.{Db, WheelRow, SegmentRow, ImageRow, is_null}
use spin_the_wheel.Store.Monad.{
  M, ◌>>=◌, ◌>>◌, pure, throw, not_found, or_not_found, new_uid, exec, query, transaction,
}
use spin_the_wheel.Store.Wheels.{Wheel, to_wheel, find_owned, update_where}

-- `Segment`; `image_id` is the nil UUID where there is no image.
pub record Segment : Type 0 where
  pub id : Bytes
  pub position : ℕ
  pub label : Bytes
  pub color : Bytes
  pub image_id : Bytes

-- COALESCE(image_id::text, '') and its parse: the column holds a UUID or NULL.
abbrev pub image_or_nil : Option Bytes → Bytes
image_or_nil none = nil_uuid
image_or_nil (some i) = i

abbrev pub to_segment : SegmentRow → Segment
to_segment r = record {
  id = r.id;
  position = r.position;
  label = r.label;
  color = r.color;
  image_id = image_or_nil r.image_id;
}

-- WHERE wheel_id = $1 ORDER BY position ASC
unfoldable pub segments_of : Bytes → Db → List Segment
segments_of wheel db = map to_segment (
    sort_by (λ a b. leb a.position b.position)
      (select (λ (r : SegmentRow). same r.wheel_id wheel) db.segments))

-- `ListSegments`
unfoldable pub list_segments : Bytes → M (List Segment)
unfolding segments_of
list_segments wheel = query (λ now db. segments_of wheel db)

-- The image check of `ReplaceSegments`.
unfoldable pub owns_image : Bytes → Bytes → Db → Bool
owns_image image owner db =
    any (λ (r : ImageRow). same r.id image && same r.owner_id owner) db.images

abbrev pub insert_segment : Bytes → Bytes → ℕ → Segment → Option Bytes → ℕ → Db → Unit {0} × Db
insert_segment id wheel i seg image now db = (
  tt,
  record db {
    segments =
        db.segments
        ++ record {
          id = id;
          wheel_id = wheel;
          position = i;
          label = seg.label;
          color = seg.color;
          image_id = image;
        }
          ∷ [];
  },
)

-- NULL, or an image that the owner has.
unfoldable pub checked_image : Bytes → Bytes → M (Option Bytes)
unfolding owns_image is_zero
checked_image owner image = if is_zero image then pure none else do
  owned ← query (λ now db. owns_image image owner db)
  if owned then pure (some image) else throw not_found

-- One round of the loop of `ReplaceSegments`, at the index `i`.
unfoldable pub insert_one : Bytes → Bytes → ℕ → Segment → M (Unit {0})
insert_one wheel owner i seg = do
  image ← checked_image owner seg.image_id
  id ← new_uid
  exec (insert_segment id wheel i seg image)

-- The loop, from the index `i` on.
unfoldable pub insert_segments : Bytes → Bytes → ℕ → List Segment → M (Unit {0})
insert_segments wheel owner i [] = pure tt
insert_segments wheel owner i (seg ∷ segs) = do
  insert_one wheel owner i seg
  insert_segments wheel owner (suc i) segs

abbrev pub without_segments : Bytes → Db → Db
without_segments wheel db = record db {
  segments = select (λ (r : SegmentRow). not (same r.wheel_id wheel)) db.segments;
}

abbrev pub touch_wheel : Bytes → ℕ → Db → Db
touch_wheel wheel now db = record db {
  wheels =
      update_where (λ (r : WheelRow). same r.id wheel) (λ r. record r { updated_at = now })
        db.wheels;
}

-- The body of the transaction of `ReplaceSegments`.
unfoldable pub replace_body : Bytes → Bytes → List Segment → M (Unit {0})
replace_body wheel owner segs = do
  row ← query (λ now db. find_owned wheel owner db)
  or_not_found row
  exec (λ now db. (tt, without_segments wheel db))
  insert_segments wheel owner 0 segs
  exec (λ now db. (tt, touch_wheel wheel now db))

-- `ReplaceSegments`
unfoldable pub replace_segments : Bytes → Bytes → List Segment → M (Unit {0})
replace_segments wheel owner segs = transaction (replace_body wheel owner segs)

-- WHERE id = $1 AND deleted_at IS NULL AND is_active
unfoldable pub is_public : Bytes → WheelRow → Bool
is_public id r = same r.id id && is_null r.deleted_at && r.is_active

-- The result for a row and its segments; the owner is left out.
unfoldable pub public_view : WheelRow → List Segment → Wheel × List Segment
public_view r segs = (record (to_wheel nil_uuid r) { segment_count = length segs }, segs)

-- `GetPublicWheel`
unfoldable pub get_public_wheel : Bytes → M (Wheel × List Segment)
unfolding public_view
get_public_wheel id = do
  row ← query (λ now db. find (is_public id) db.wheels)
  r ← or_not_found row
  segs ← list_segments id
  pure (public_view r segs)
