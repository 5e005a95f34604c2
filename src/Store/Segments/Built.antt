-- ===== src/Store/Segments/Built.antt =====
-- The rows that the loop of `ReplaceSegments` writes, and what is read back of them.
use mathlib.Core.Path.{subst}
use spin_the_wheel.Prelude.{
  ℕ, suc, ◌+◌, ◌≡◌, refl, sym, ap, ◌∙◌, true, not, Option, none, some, List, [], ◌∷◌, ◌++◌, map,
  append_assoc, append-nil, Bytes, same, same_iff, same_refl, select, All, IsSorted, leb,
  if◌then◌else◌, Bool-cases, inl, inr, arith, ◌⊎◌,
}
use spin_the_wheel.Uid.{is_zero, nil_uuid}
use spin_the_wheel.Store.Tables.{Db, SegmentRow}
use spin_the_wheel.Store.Monad.{ok, World, ◌>>=◌, new_uid, exec}
use spin_the_wheel.Store.Runs.{bind-eq-ok, exec-eq-ok}
use spin_the_wheel.Store.Segments.{
  Segment, image_or_nil, to_segment, owns_image, insert_segment, checked_image, insert_one,
  insert_segments,
}

-- The column that an image identifier is stored as.
abbrev pub image_column : Bytes → Option Bytes
image_column image = if is_zero image then none else some image

-- The rows of the loop, from an index and a count of drawn identifiers on.
pub built : Bytes → (ℕ → Bytes) → ℕ → ℕ → List Segment → List SegmentRow
built wheel uuids k i [] = []
built wheel uuids k i (seg ∷ segs) =
    record {
      id = uuids k;
      wheel_id = wheel;
      position = i;
      label = seg.label;
      color = seg.color;
      image_id = image_column seg.image_id;
    }
    ∷ built wheel uuids (k + 1) (suc i) segs

-- The image of a segment, if any, is one of the owner's.
abbrev pub IsOwnImage : Bytes → List Segment → Db → Type 0
IsOwnImage owner segs db =
    All (λ (s : Segment). (is_zero s.image_id ≡ true) ⊎ (owns_image s.image_id owner db ≡ true))
      segs

-- A passed image check, and the world behind it: only statements were counted.
pub checked_image-eq-ok :
    (owner image : Bytes) (w : World) (o : Option Bytes)
    → (checked_image owner image w).0 ≡ ok o
    → (o ≡ image_column image)
      × ((checked_image owner image w).1.db ≡ w.db)
      × ((checked_image owner image w).1.uuids ≡ w.uuids)
      × ((checked_image owner image w).1.drawn ≡ w.drawn)
      × ((is_zero image ≡ true) ⊎ (owns_image image owner w.db ≡ true))
unfolding checked_image exec
checked_image-eq-ok owner image w o e =
    (ground arith, ground arith, ground arith, ground arith, ground arith)

-- The tables with rows added to the segments.
abbrev pub with_rows : Db → List SegmentRow → Db
with_rows db rows = record db { segments = db.segments ++ rows }

abbrev pub row_for : Bytes → ℕ → Bytes → Segment → Option Bytes → SegmentRow
row_for wheel i id seg image = record {
  id = id;
  wheel_id = wheel;
  position = i;
  label = seg.label;
  color = seg.color;
  image_id = image;
}

pub record IsRound (wheel owner : Bytes) (i : ℕ) (seg : Segment) (w v : World) : Type 0 where
  pub inserted :
      v.db ≡ with_rows w.db (row_for wheel i (w.uuids w.drawn) seg (image_column seg.image_id) ∷ [])
  pub same_uuids : v.uuids ≡ w.uuids
  pub one_drawn : v.drawn ≡ w.drawn + 1
  pub own_image : (is_zero seg.image_id ≡ true) ⊎ (owns_image seg.image_id owner w.db ≡ true)

pub insert_one-IsRound :
    (wheel owner : Bytes) (i : ℕ) (seg : Segment) (w : World)
    → (insert_one wheel owner i seg w).0 ≡ ok tt
    → IsRound wheel owner i seg w (insert_one wheel owner i seg w).1
unfolding insert_one new_uid
insert_one-IsRound wheel owner i seg w e =
    let rest =
      λ (image : Option Bytes). new_uid >>= λ id. exec (insert_segment id wheel i seg image) in
    let (image, passed, whole) = bind-eq-ok (checked_image owner seg.image_id) rest w e in
    let (column, same_db, same_uuids, same_drawn, own) =
      checked_image-eq-ok owner seg.image_id w image passed in
    let v = (checked_image owner seg.image_id w).1 in
    let v' : World = record v { drawn = v.drawn + 1 } in
    let done = exec-eq-ok (insert_segment (v.uuids v.drawn) wheel i seg image) v' (rw whole at e) in
    rw (whole, done.1)
      (record {
        inserted = λ j.
            with_rows (same_db j)
              (row_for wheel i (same_uuids j (same_drawn j)) seg (column j) ∷ []);
        same_uuids = same_uuids;
        one_drawn = ap (λ (n : ℕ). n + 1) same_drawn;
        own_image = own;
      })

-- What the whole loop has done when it succeeds.
pub record IsLooped (wheel owner : Bytes) (i : ℕ) (segs : List Segment) (w v : World) : Type 0 where
  pub inserted : v.db ≡ with_rows w.db (built wheel w.uuids w.drawn i segs)
  pub own_images : IsOwnImage owner segs w.db

pub insert_segments-IsLooped :
    (wheel owner : Bytes) (i : ℕ) (segs : List Segment) (w : World)
    → (insert_segments wheel owner i segs w).0 ≡ ok tt
    → IsLooped wheel owner i segs w (insert_segments wheel owner i segs w).1
unfolding insert_segments built owns_image
insert_segments-IsLooped wheel owner i [] w e = record {
  inserted = λ j. record w.db { segments = sym (append-nil w.db.segments) j };
  own_images = tt;
}
insert_segments-IsLooped wheel owner i (seg ∷ segs) w e =
    let (_, first, whole) =
      bind-eq-ok (insert_one wheel owner i seg) (λ _. insert_segments wheel owner (suc i) segs) w
        e in
    let r = insert_one-IsRound wheel owner i seg w first in
    let v = (insert_one wheel owner i seg w).1 in
    let rest = insert_segments-IsLooped wheel owner (suc i) segs v (rw whole at e) in
    let first_row = row_for wheel i (w.uuids w.drawn) seg (image_column seg.image_id) in
    let last_rows = built wheel w.uuids (w.drawn + 1) (suc i) segs in
    rw whole (record {
      inserted =
          rest.inserted
          ∙ (λ j.
              with_rows (r.inserted j) (built wheel (r.same_uuids j) (r.one_drawn j) (suc i) segs))
          ∙ (λ j. record w.db {
            segments = append_assoc w.db.segments (first_row ∷ []) last_rows j;
          });
      own_images = (r.own_image, subst (IsOwnImage owner segs) r.inserted rest.own_images);
    })

-- The rows of a wheel, and those of the others.
abbrev pub rows_of : Bytes → List SegmentRow → List SegmentRow
rows_of wheel = select (λ (r : SegmentRow). same r.wheel_id wheel)

abbrev pub rows_not_of : Bytes → List SegmentRow → List SegmentRow
rows_not_of wheel = select (λ (r : SegmentRow). not (same r.wheel_id wheel))

pub rows_of-built :
    (wheel : Bytes) (old : List SegmentRow) (uuids : ℕ → Bytes) (k i : ℕ) (segs : List Segment)
    → rows_of wheel (rows_not_of wheel old ++ built wheel uuids k i segs)
      ≡ built wheel uuids k i segs
unfolding built
rows_of-built wheel [] uuids k i [] = refl
rows_of-built wheel [] uuids k i (seg ∷ segs) = rw (same_refl wheel) (
    ap (λ t. row_for wheel i (uuids k) seg (image_column seg.image_id) ∷ t)
      (rows_of-built wheel [] uuids (k + 1) (suc i) segs))
rows_of-built wheel (r ∷ old) uuids k i segs = elim (Bool-cases (same r.wheel_id wheel)) [
  | inl mine ↦ rw mine (rows_of-built wheel old uuids k i segs)
  | inr other ↦ rw (other, other) (rows_of-built wheel old uuids k i segs)
]

pub rows_not_of-built :
    (wheel : Bytes) (old : List SegmentRow) (uuids : ℕ → Bytes) (k i : ℕ) (segs : List Segment)
    → rows_not_of wheel (rows_not_of wheel old ++ built wheel uuids k i segs)
      ≡ rows_not_of wheel old
unfolding built
rows_not_of-built wheel [] uuids k i [] = refl
rows_not_of-built wheel [] uuids k i (seg ∷ segs) =
    rw (same_refl wheel) (rows_not_of-built wheel [] uuids (k + 1) (suc i) segs)
rows_not_of-built wheel (r ∷ old) uuids k i segs = elim (Bool-cases (same r.wheel_id wheel)) [
  | inl mine ↦ rw mine (rows_not_of-built wheel old uuids k i segs)
  | inr other ↦ rw (other, other) (ap (λ t. r ∷ t) (rows_not_of-built wheel old uuids k i segs))
]

pub built-IsSorted :
    (wheel : Bytes) (uuids : ℕ → Bytes) (k i : ℕ) (segs : List Segment)
    → IsSorted (λ (a b : SegmentRow). leb a.position b.position) (built wheel uuids k i segs)
unfolding built
built-IsSorted wheel uuids k i [] = tt
built-IsSorted wheel uuids k i (a ∷ []) = tt
built-IsSorted wheel uuids k i (a ∷ b ∷ segs) =
    (ground arith, built-IsSorted wheel uuids (k + 1) (suc i) (b ∷ segs))

-- What a client gives of a segment, in the order of display: its label, colour and image.
abbrev pub content : Segment → Bytes × Bytes × Bytes
content s = (s.label, s.color, s.image_id)

abbrev pub count_from : ℕ → List Segment → List ℕ
count_from i [] = []
count_from i (s ∷ segs) = i ∷ count_from (suc i) segs

pub image_or_nil-image_column : (image : Bytes) → image_or_nil (image_column image) ≡ image
unfolding is_zero
image_or_nil-image_column image = ground (arith, same_iff image nil_uuid)

pub content-built :
    (wheel : Bytes) (uuids : ℕ → Bytes) (k i : ℕ) (segs : List Segment)
    → (map content (map to_segment (built wheel uuids k i segs)) ≡ map content segs)
      × (map (λ s. s.position) (map to_segment (built wheel uuids k i segs)) ≡ count_from i segs)
unfolding built
content-built wheel uuids k i [] = (refl, refl)
content-built wheel uuids k i (s ∷ segs) =
    let (c, p) = content-built wheel uuids (k + 1) (suc i) segs in
    (rw (image_or_nil-image_column s.image_id, c), rw p)
