-- ===== src/Images/Cleaning/Hourly.antt =====
-- The hourly job of the service: a tick of `backgroundJanitor` of backend/cmd/server/main.go, and what
-- it leaves of the images. Its deadline is among the faults, and the log lines are left out.
use mathlib.Core.Path.{subst}
use spin_the_wheel.Prelude.{◌≡◌, refl, sym, ap, ◌∙◌, true, ◌&&◌, any, List, Bytes, All}
use spin_the_wheel.Store.Tables.{Db, ImageRow, WheelRow, SegmentRow}
use spin_the_wheel.Store.Monad.{World}
use spin_the_wheel.Store.Runs.{bind-keeps, exec-keeps}
use spin_the_wheel.Store.Images.{has_image, is_living, is_shown}
use spin_the_wheel.Store.Images.Orphans.{image_row}
use spin_the_wheel.Store.Sessions.{
  one_day, purge_sessions, purge_states, purge_audits, purge_expired,
}
use spin_the_wheel.Images.Disk.{Site, on_store}
use spin_the_wheel.Images.Disk.Paths.{IsUuid}
use spin_the_wheel.Images.Cleaning.{purge_orphan_images}
use spin_the_wheel.Images.Cleaning.Kept.{IsSpared, IsSpared-trans, purge_orphan_images-spares}

-- A tick of `backgroundJanitor`
unfoldable pub janitor_tick : Bytes → Site → Site
janitor_tick dir s = (purge_orphan_images dir one_day (on_store purge_expired s).1).1

-- The tables of the images and of the wheels that show them.
abbrev pictures : Db → List ImageRow × List WheelRow × List SegmentRow
pictures db = (db.images, db.wheels, db.segments)

pictures-purge_expired : (w : World) → pictures (purge_expired w).1.db ≡ pictures w.db
unfolding purge_expired purge_sessions purge_states purge_audits
pictures-purge_expired w =
    let P : World → Type 0 = λ v. pictures v.db ≡ pictures w.db in
    bind-keeps P purge_sessions _ w (exec-keeps P _ w refl refl) λ _ u h.
      bind-keeps P purge_states _ u (exec-keeps P _ u h h)
        λ _ v k. bind-keeps P purge_audits _ v (exec-keeps P _ v k k) λ _ x m. m

is_shown-pictures :
    (image : Bytes) (a b : Db) → pictures a ≡ pictures b → is_shown image a ≡ is_shown image b
unfolding is_shown
is_shown-pictures image a b e =
    ap
      (λ (x : List ImageRow × List WheelRow × List SegmentRow).
        any (λ (sg : SegmentRow). has_image image sg.image_id && any (is_living sg.wheel_id) x.1)
          x.2)
      e

-- A tick of the janitor, whatever fails in the database or on the disk, spares every image that a
-- segment of a living wheel shows: its row and its file are those from before. The identifiers of the
-- rows and of the image are UUIDs.
pub janitor_tick-spares :
    (dir image : Bytes) (s : Site)
    → All (λ (r : ImageRow). IsUuid r.id) s.world.db.images
    → IsUuid image
    → is_shown image s.world.db ≡ true
    → IsSpared dir image s (janitor_tick dir s)
unfolding janitor_tick
janitor_tick-spares dir image s valid vimage shown =
    let v = (on_store purge_expired s).1 in
    let same_tables = pictures-purge_expired s.world in
    let same_shown = is_shown-pictures image v.world.db s.world.db same_tables in
    let same_rows = ap (λ x. x.0) same_tables in
    IsSpared-trans dir image s v _
      (record {
        same_shown = same_shown;
        same_row = ap (image_row image) same_rows;
        same_file = refl;
      })
      (purge_orphan_images-spares dir image one_day v
        (subst (All (λ (r : ImageRow). IsUuid r.id)) (sym same_rows) valid) vimage
        (same_shown ∙ shown))
