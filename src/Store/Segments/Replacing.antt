-- ===== src/Store/Segments/Replacing.antt =====
-- `ReplaceSegments` replaces the segments of one wheel, whole or not at all.
use mathlib.Core.Path.{subst, subst₂}
use spin_the_wheel.Prelude.{ℕ, ◌≡◌, refl, sym, ap, ◌∙◌, some, List, map, Bytes, sort_by_sorted, leb}
use spin_the_wheel.Store.Tables.{Db, WheelRow, SegmentRow}
use spin_the_wheel.Store.Monad.{
  Result, ok, err, World, M, ◌>>◌, StoreError, or_not_found, exec, query, counted,
}
use spin_the_wheel.Store.Runs.{
  bind-eq-ok, exec-eq-ok, db-query, or_not_found-eq-ok, world-or_not_found, transaction-eq-err,
  transaction-eq-ok,
}
use spin_the_wheel.Store.Wheels.{find_owned}
use spin_the_wheel.Store.Segments.{
  Segment, segments_of, owns_image, insert_segments, without_segments, touch_wheel, replace_body,
  replace_segments,
}
use spin_the_wheel.Store.Segments.Built.{
  built, IsOwnImage, with_rows, insert_segments-IsLooped, rows_not_of, rows_of-built,
  rows_not_of-built, built-IsSorted, content, count_from, content-built,
}

-- A replacement that succeeded: the wheel was the owner's, its segments are the ones given, in
-- their order, under the positions from 0 on, every image is the owner's, the segments of the other
-- wheels are as before, and so are the images and the spins.
pub record IsReplaced (wheel owner : Bytes) (segs : List Segment) (before after : Db) : Type 0 where
  pub owned : (r : WheelRow) × (find_owned wheel owner before ≡ some r)
  pub contents : map content (segments_of wheel after) ≡ map content segs
  pub positions : map (λ s. s.position) (segments_of wheel after) ≡ count_from 0 segs
  pub own_images : IsOwnImage owner segs before
  pub others : rows_not_of wheel after.segments ≡ rows_not_of wheel before.segments
  pub images : after.images ≡ before.images
  pub spins : after.spins ≡ before.spins

-- The tables behind the loop, between the clearing of the wheel and the last UPDATE.
abbrev rebuilt : Bytes → List Segment → (ℕ → Bytes) → ℕ → Db → Db
rebuilt wheel segs uuids k db = with_rows (without_segments wheel db) (built wheel uuids k 0 segs)

rebuilt-IsReplaced :
    (wheel owner : Bytes) (segs : List Segment) (uuids : ℕ → Bytes) (k now : ℕ) (db : Db)
    → (r : WheelRow) × (find_owned wheel owner db ≡ some r)
    → IsOwnImage owner segs db
    → IsReplaced wheel owner segs db (touch_wheel wheel now (rebuilt wheel segs uuids k db))
unfolding segments_of
rebuilt-IsReplaced wheel owner segs uuids k now db owned own =
    let sorted =
      sort_by_sorted (λ (a b : SegmentRow). leb a.position b.position) (built wheel uuids k 0 segs)
        (built-IsSorted wheel uuids k 0 segs) in
    let mine = rows_of-built wheel db.segments uuids k 0 segs in
    let (c, p) = content-built wheel uuids k 0 segs in
    record {
      owned = owned;
      contents = rw (mine, sorted) c;
      positions = rw (mine, sorted) p;
      own_images = own;
      others = rows_not_of-built wheel db.segments uuids k 0 segs;
      images = refl;
      spins = refl;
    }

clear : Bytes → M (Unit {0})
clear wheel = exec (λ now db. (tt, without_segments wheel db))

finish_wheel : Bytes → M (Unit {0})
finish_wheel wheel = exec (λ now db. (tt, touch_wheel wheel now db))

-- The body behind the ownership query.
abbrev rewrite_rows : Bytes → Bytes → List Segment → M (Unit {0})
rewrite_rows wheel owner segs = do
  clear wheel
  insert_segments wheel owner 0 segs
  finish_wheel wheel

rewrite_rows-eq-ok :
    (wheel owner : Bytes) (segs : List Segment) (w : World)
    → (r : WheelRow) × (find_owned wheel owner w.db ≡ some r)
    → (rewrite_rows wheel owner segs w).0 ≡ ok tt
    → IsReplaced wheel owner segs w.db (rewrite_rows wheel owner segs w).1.db
unfolding clear finish_wheel owns_image
rewrite_rows-eq-ok wheel owner segs w owned e =
    let (_, cleared, whole1) =
      bind-eq-ok (clear wheel) (λ _. insert_segments wheel owner 0 segs >> finish_wheel wheel) w
        e in
    let w1 = (clear wheel w).1 in
    let e1 = rw whole1 at e in
    let (_, looped, whole2) =
      bind-eq-ok (insert_segments wheel owner 0 segs) (λ _. finish_wheel wheel) w1 e1 in
    let w2 = (insert_segments wheel owner 0 segs w1).1 in
    let e2 = rw whole2 at e1 in
    let emptied : w1.db ≡ without_segments wheel w.db =
      ap (λ (v : World). v.db)
        (exec-eq-ok (λ now db. (tt, without_segments wheel db)) w cleared).1 in
    let loop = insert_segments-IsLooped wheel owner 0 segs w1 looped in
    let filled : w2.db ≡ rebuilt wheel segs w1.uuids w1.drawn w.db =
      loop.inserted ∙ (λ j. with_rows (emptied j) (built wheel w1.uuids w1.drawn 0 segs)) in
    let total : (rewrite_rows wheel owner segs w).1.db
        ≡ touch_wheel wheel w2.now (rebuilt wheel segs w1.uuids w1.drawn w.db) =
      ap (λ (x : Result (Unit {0}) × World). x.1.db) whole1
      ∙ ap (λ (x : Result (Unit {0}) × World). x.1.db) whole2
      ∙ ap (λ (v : World). v.db) (exec-eq-ok (λ now db. (tt, touch_wheel wheel now db)) w2 e2).1
      ∙ ap (touch_wheel wheel w2.now) filled in
    subst (λ d. IsReplaced wheel owner segs w.db d) (sym total)
      (rebuilt-IsReplaced wheel owner segs w1.uuids w1.drawn w2.now w.db owned
        (subst (IsOwnImage owner segs) emptied loop.own_images))

replace_body-eq-ok :
    (wheel owner : Bytes) (segs : List Segment) (w : World)
    → (replace_body wheel owner segs w).0 ≡ ok tt
    → IsReplaced wheel owner segs w.db (replace_body wheel owner segs w).1.db
unfolding replace_body clear finish_wheel
replace_body-eq-ok wheel owner segs w e =
    let ask = query (λ now db. find_owned wheel owner db) in
    let (row, asked, whole1) =
      bind-eq-ok ask (λ row. or_not_found row >> rewrite_rows wheel owner segs) w e in
    let v = (ask w).1 in
    let e1 = rw whole1 at e in
    let (r, found, whole2) =
      bind-eq-ok (or_not_found row) (λ _. rewrite_rows wheel owner segs) v e1 in
    let same_v : (or_not_found row v).1 ≡ v = world-or_not_found row v in
    let e2 = rw (whole2, same_v) at e1 in
    let (answer, _) = exec-eq-ok (λ now db. (find_owned wheel owner db, db)) w asked in
    let same_db : v.db ≡ w.db = db-query (λ now db. find_owned wheel owner db) w in
    let owned : find_owned wheel owner w.db ≡ some r = answer ∙ or_not_found-eq-ok row v found in
    let owned' : find_owned wheel owner v.db ≡ some r =
      ap (find_owned wheel owner) same_db ∙ owned in
    let total : (replace_body wheel owner segs w).1.db ≡ (rewrite_rows wheel owner segs v).1.db =
      ap (λ (x : Result (Unit {0}) × World). x.1.db) (whole1 ∙ whole2)
      ∙ ap (λ (x : World). (rewrite_rows wheel owner segs x).1.db) same_v in
    subst₂ (IsReplaced wheel owner segs) same_db (sym total)
      (rewrite_rows-eq-ok wheel owner segs v (r, owned') e2)

-- `ReplaceSegments` is all or nothing: whatever statements fail, an error leaves every table as it
-- was, and a success replaces exactly the segments of the wheel, which was the owner's, by the given
-- ones in their order, with images of the owner alone.
pub replace_segments_atomic :
    (wheel owner : Bytes) (segs : List Segment) (w : World)
    → ((x : StoreError)
        → (replace_segments wheel owner segs w).0 ≡ err x
        → (replace_segments wheel owner segs w).1.db ≡ w.db)
      × ((replace_segments wheel owner segs w).0 ≡ ok tt
          → IsReplaced wheel owner segs w.db (replace_segments wheel owner segs w).1.db)
unfolding replace_segments
replace_segments_atomic wheel owner segs w = (
  transaction-eq-err (replace_body wheel owner segs) w,
  λ e.
      let (done, same_db) = transaction-eq-ok (replace_body wheel owner segs) w tt e in
      subst (IsReplaced wheel owner segs w.db) (sym same_db)
        (replace_body-eq-ok wheel owner segs (counted w) done),
)
