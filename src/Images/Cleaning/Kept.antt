-- ===== src/Images/Cleaning/Kept.antt =====
-- The cleaning removes no image that a living wheel shows.
use mathlib.Core.Path.{subst}
use spin_the_wheel.Prelude.{
  ℕ, ◌≡◌, ◌≢◌, refl, sym, ap, ◌∙◌, Bool, true, false, List, [], ◌∷◌, Bytes, same, same_iff, length,
  select, arith, Bool-cases, inl, inr, All, All-select, take, zero, suc, map, sort_by, bytes_ltb,
  All-sort_by,
}
use spin_the_wheel.Store.Tables.{Db, ImageRow}
use spin_the_wheel.Store.Monad.{Result, ok, err, World, exec}
use spin_the_wheel.Store.Runs.{exec-eq-ok, db-query}
use spin_the_wheel.Store.Images.Orphans.{image_row, delete_image-keeps_shown}
use spin_the_wheel.Store.Images.{
  is_shown, is_deletable, is_orphan, list_orphan_images, delete_image_if_unused,
}
use spin_the_wheel.Images.Disk.{Site, on_store, image_path}
use spin_the_wheel.Images.Disk.Paths.{IsUuid, image_path_injective, files-remove, world-remove}
use spin_the_wheel.Images.Cleaning.{
  cleaned, clean_one, clean_all, clean_listed, purge_orphan_images,
}

-- An image that is shown has no row to delete: its DELETE touches nothing.
select-deletable :
    (id : Bytes) (db : Db) (rows : List ImageRow)
    → is_shown id db ≡ true
    → length (select (is_deletable id db) rows) ≡ 0
unfolding is_deletable
select-deletable id db [] shown = refl
select-deletable id db (r ∷ rows) shown =
    ground (arith, same_iff r.id id, select-deletable id db rows shown)

-- So its DELETE never answers that a row went.
delete_shown :
    (id : Bytes) (w : World) → is_shown id w.db ≡ true → (delete_image_if_unused id w).0 ≢ ok true
unfolding delete_image_if_unused exec
delete_shown id w shown = elim (Bool-cases (w.faults w.statements)) [
  | inl fault ↦ rw fault (λ e. cc)
  | inr fine ↦ rw (fine, select-deletable id w.db w.db.images shown) (λ e. cc)
]

-- What the cleaning leaves: which images are shown, and one image with its file.
pub record IsSpared (dir image : Bytes) (s v : Site) : Type 0 where
  pub same_shown : is_shown image v.world.db ≡ is_shown image s.world.db
  pub same_row : image_row image v.world.db.images ≡ image_row image s.world.db.images
  pub same_file : v.files (image_path dir image) ≡ s.files (image_path dir image)

pub IsSpared-trans :
    (dir image : Bytes) (s u v : Site)
    → IsSpared dir image s u
    → IsSpared dir image u v
    → IsSpared dir image s v
IsSpared-trans dir image s u v p q = record {
  same_shown = q.same_shown ∙ p.same_shown;
  same_row = q.same_row ∙ p.same_row;
  same_file = q.same_file ∙ p.same_file;
}

same_shown-delete :
    (id image : Bytes) (w : World)
    → is_shown image (delete_image_if_unused id w).1.db ≡ is_shown image w.db
unfolding delete_image_if_unused exec is_shown
same_shown-delete id image w = elim (Bool-cases (w.faults w.statements)) [
  | inl fault ↦ rw fault
  | inr fine ↦ rw fine
]

IsSpared-delete :
    (dir id image : Bytes) (s : Site)
    → is_shown image s.world.db ≡ true
    → IsSpared dir image s (on_store (delete_image_if_unused id) s).1
IsSpared-delete dir id image s shown = record {
  same_shown = same_shown-delete id image s.world;
  same_row = delete_image-keeps_shown id image s.world shown;
  same_file = refl;
}

other_path :
    (dir id image : Bytes) (db : Db)
    → IsUuid id
    → IsUuid image
    → is_shown image db ≡ true
    → is_shown id db ≢ true
    → same (image_path dir image) (image_path dir id) ≡ false
other_path dir id image db vid vimage shown hidden =
    elim (Bool-cases (same (image_path dir image) (image_path dir id))) [
      | inr other ↦ other
      | inl equal ↦
          let e =
            image_path_injective dir image id vimage vid
              ((same_iff (image_path dir image) (image_path dir id)).0 equal) in
          absurd (hidden (ap (λ (i : Bytes). is_shown i db) (sym e) ∙ shown))
    ]

IsSpared-cleaned :
    (dir id image : Bytes) (result : Result Bool) (v : Site)
    → (result ≡ ok true → same (image_path dir image) (image_path dir id) ≡ false)
    → IsSpared dir image v (cleaned (image_path dir id) result v).1
IsSpared-cleaned dir id image (err x) v other = record {
  same_shown = refl;
  same_row = refl;
  same_file = refl;
}
IsSpared-cleaned dir id image (ok false) v other = record {
  same_shown = refl;
  same_row = refl;
  same_file = refl;
}
IsSpared-cleaned dir id image (ok true) v other = record {
  same_shown = ap (λ (w : World). is_shown image w.db) (world-remove (image_path dir id) v);
  same_row = ap (λ (w : World). image_row image w.db.images) (world-remove (image_path dir id) v);
  same_file = files-remove (image_path dir id) (image_path dir image) v (other refl);
}

IsSpared-clean_one :
    (dir id image : Bytes) (s : Site)
    → IsUuid id
    → IsUuid image
    → is_shown image s.world.db ≡ true
    → IsSpared dir image s (clean_one dir id s).1
unfolding clean_one
IsSpared-clean_one dir id image s vid vimage shown =
    let v = (on_store (delete_image_if_unused id) s).1 in
    IsSpared-trans dir image s v _ (IsSpared-delete dir id image s shown) (
      IsSpared-cleaned dir id image (delete_image_if_unused id s.world).0 v λ gone.
        other_path dir id image s.world.db vid vimage shown
          (λ shown_id. delete_shown id s.world shown_id gone))

IsSpared-clean_all :
    (dir image : Bytes) (ids : List Bytes) (s : Site)
    → All IsUuid ids
    → IsUuid image
    → is_shown image s.world.db ≡ true
    → IsSpared dir image s (clean_all dir ids s).1
unfolding clean_all
IsSpared-clean_all dir image [] s vids vimage shown = record {
  same_shown = refl;
  same_row = refl;
  same_file = refl;
}
IsSpared-clean_all dir image (id ∷ ids) s vids vimage shown =
    let v = (clean_one dir id s).1 in
    let first = IsSpared-clean_one dir id image s vids.0 vimage shown in
    IsSpared-trans dir image s v _ first
      (IsSpared-clean_all dir image ids v vids.1 vimage (first.same_shown ∙ shown))

-- The identifiers that the query lists are those of rows.
All-take : {A : Type 0} (P : A → Type 0) (n : ℕ) (xs : List A) → All P xs → All P (take n xs)
All-take P zero xs h = tt
All-take P (suc n) [] h = tt
All-take P (suc n) (x ∷ xs) h = (h.0, All-take P n xs h.1)

All-map :
    {A B : Type 0} (P : B → Type 0) (f : A → B) (xs : List A)
    → All (λ x. P (f x)) xs
    → All P (map f xs)
All-map P f [] h = tt
All-map P f (x ∷ xs) h = (h.0, All-map P f xs h.1)

listed-IsUuid :
    (older_than limit : ℕ) (w : World) (ids : List Bytes)
    → All (λ (r : ImageRow). IsUuid r.id) w.db.images
    → (list_orphan_images older_than limit w).0 ≡ ok ids
    → All IsUuid ids
unfolding list_orphan_images
listed-IsUuid older_than limit w ids h e =
    let f : ℕ → Db → List Bytes × Db = λ now db. (
      map (λ (r : ImageRow). r.id)
          (take limit (
            sort_by (λ (a b : ImageRow). bytes_ltb a.id b.id)
              (select (is_orphan older_than now db) db.images))),
      db,
    ) in
    let (shown, _) = exec-eq-ok f w e in
    let sorted =
      All-sort_by (λ (a b : ImageRow). bytes_ltb a.id b.id) (λ (r : ImageRow). IsUuid r.id)
        (select (is_orphan older_than w.now w.db) w.db.images)
        (All-select (λ (r : ImageRow). IsUuid r.id) (is_orphan older_than w.now w.db) w.db.images
          h) in
    subst (All IsUuid) shown (
      All-map IsUuid (λ (r : ImageRow). r.id) _
        (All-take (λ (r : ImageRow). IsUuid r.id) limit _ sorted))

db-list_orphan_images :
    (older_than limit : ℕ) (w : World) → (list_orphan_images older_than limit w).1.db ≡ w.db
unfolding list_orphan_images
db-list_orphan_images older_than limit w = db-query _ w

IsSpared-listed :
    (dir image : Bytes) (result : Result (List Bytes)) (s : Site)
    → ((ids : List Bytes) → result ≡ ok ids → All IsUuid ids)
    → IsUuid image
    → is_shown image s.world.db ≡ true
    → IsSpared dir image s (clean_listed dir result s).1
IsSpared-listed dir image (err x) s valid vimage shown = record {
  same_shown = refl;
  same_row = refl;
  same_file = refl;
}
IsSpared-listed dir image (ok ids) s valid vimage shown =
    IsSpared-clean_all dir image ids s (valid ids refl) vimage shown

-- `PurgeOrphanImages`, whatever fails in the database or on the disk, spares every image that a
-- segment of a living wheel shows: its row and its file are those from before. The identifiers of the
-- rows and of the image are UUIDs.
pub purge_orphan_images-spares :
    (dir image : Bytes) (grace_period : ℕ) (s : Site)
    → All (λ (r : ImageRow). IsUuid r.id) s.world.db.images
    → IsUuid image
    → is_shown image s.world.db ≡ true
    → IsSpared dir image s (purge_orphan_images dir grace_period s).1
unfolding purge_orphan_images
purge_orphan_images-spares dir image grace_period s valid vimage shown =
    let listing = list_orphan_images grace_period 200 in
    let v = (on_store listing s).1 in
    let same_db : v.world.db ≡ s.world.db = db-list_orphan_images grace_period 200 s.world in
    IsSpared-trans dir image s v _
      (record {
        same_shown = ap (is_shown image) same_db;
        same_row = ap (λ (db : Db). image_row image db.images) same_db;
        same_file = refl;
      })
      (IsSpared-listed dir image (listing s.world).0 v
        (λ ids e. listed-IsUuid grace_period 200 s.world ids valid e) vimage
        (ap (is_shown image) same_db ∙ shown))
