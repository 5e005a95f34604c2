-- ===== src/Images/Upload/Published.antt =====
-- What an upload leaves on the volume and in the database.
use mathlib.Core.Path.{subst}
use spin_the_wheel.Prelude.{
  ℕ, ◌≡◌, refl, ap, ◌∙◌, ◌⊎◌, false, some, [], ◌∷◌, ◌++◌, Bytes, text, same, length, Bool-cases,
  inl, inr,
}
use spin_the_wheel.Imgproc.{Image, Codec}
use spin_the_wheel.Store.Tables.{ImageRow, image_uploaded}
use spin_the_wheel.Store.Monad.{StoreError, failed, Result, ok, err, World, M, new_uid, exec}
use spin_the_wheel.Store.Accounts.{User}
use spin_the_wheel.Store.Images.{ImageMeta, to_meta, create_image}
use spin_the_wheel.Store.Audit.{AuditEntry, audit}
use spin_the_wheel.Api.Reply.{
  Refusal, Response, reply, refused, Request, refusal, internal_reply, entry,
}
use spin_the_wheel.Images.Disk.{Site, write_file, rename, remove, on_store, image_path, temporary}
use spin_the_wheel.Images.Disk.Paths.{
  same-temporary, files-write_file, files-remove, files-rename, files-written, files-renamed,
  world-write_file, world-remove, world-rename,
}
use spin_the_wheel.Images.Upload.{
  ImageConfig, ImageInfo, to_info, inserted, insert_image, publish_image, store_image,
}

abbrev pub new_image : Bytes → Bytes → Image → ℕ → ImageRow
new_image id owner img now = record {
  id = id;
  owner_id = owner;
  sha256 = img.sha256;
  byte_size = length img.png;
  width = img.width;
  height = img.height;
  created_at = now;
}

abbrev insertion : Bytes → Bytes → Image → M ImageMeta
insertion id owner img = create_image id owner img.sha256 (length img.png) img.width img.height

create_image-eq-ok :
    (id owner : Bytes) (img : Image) (w : World) (m : ImageMeta)
    → (insertion id owner img w).0 ≡ ok m
    → (m ≡ to_meta (new_image id owner img w.now))
      × ((insertion id owner img w).1.db.images ≡ w.db.images ++ new_image id owner img w.now ∷ [])
unfolding create_image exec
create_image-eq-ok id owner img w m e = elim (Bool-cases (w.faults w.statements)) [
  | inl fault ↦ let e' = rw fault at e in cc
  | inr fine ↦ let e' = rw fine at e in (cc, rw fine)
]

create_image-eq-err :
    (id owner : Bytes) (img : Image) (w : World) (x : StoreError)
    → (insertion id owner img w).0 ≡ err x
    → (insertion id owner img w).1.db.images ≡ w.db.images
unfolding create_image exec
create_image-eq-err id owner img w x e = elim (Bool-cases (w.faults w.statements)) [
  | inl fault ↦ rw fault
  | inr fine ↦ let e' = rw fine at e in cc
]

images-audit : (e : AuditEntry) (w : World) → (audit e w).1.db.images ≡ w.db.images
unfolding audit new_uid exec
images-audit e w = elim (Bool-cases (w.faults w.statements)) [
  | inl fault ↦ rw fault
  | inr fine ↦ rw fine
]

-- The state behind an upload, from the state at the start of `store_image`, under the identifier that
-- is next: nothing but the files of this identifier has changed; where it replies, its row is there
-- and its file holds the image; where it does not, there is no row.
pub record IsStored (dir owner : Bytes) (id : Bytes) (img : Image) (s : Site)
    (a : Response ImageInfo) (v : Site) : Type 0 where
  pub frame :
      (p : Bytes)
      → same p (image_path dir id) ≡ false
      → same p (temporary (image_path dir id)) ≡ false
      → v.files p ≡ s.files p
  pub outcome :
      ((r : Refusal) × (a ≡ refused r) × (v.world.db.images ≡ s.world.db.images))
      ⊎ ((a ≡ reply 201 (to_info (to_meta (new_image id owner img s.world.now))))
          × (v.world.db.images ≡ s.world.db.images ++ new_image id owner img s.world.now ∷ [])
          × (v.files (image_path dir id) ≡ some img.png))

module _ (codec : Codec) (sha256 : Bytes → Bytes) (cfg : ImageConfig) where
  inserted-IsStored :
      (u : User) (q : Request) (id : Bytes) (img : Image) (result : Result ImageMeta) (s v : Site)
      → (v.files ≡ s.files)
      → s.files (image_path cfg.image_dir id) ≡ some img.png
      → ((x : StoreError) → result ≡ err x → v.world.db.images ≡ s.world.db.images)
      → ((m : ImageMeta)
          → result ≡ ok m
          → (m ≡ to_meta (new_image id u.id img s.world.now))
            × (v.world.db.images ≡ s.world.db.images ++ new_image id u.id img s.world.now ∷ []))
      → IsStored cfg.image_dir u.id id img s
          (inserted codec sha256 cfg u q (image_path cfg.image_dir id) result v).0
          (inserted codec sha256 cfg u q (image_path cfg.image_dir id) result v).1
  inserted-IsStored u q id img (err x) s v same_files found bad good = record {
    frame = λ p other _.
        files-remove (image_path cfg.image_dir id) p v other ∙ ap (λ f. f p) same_files;
    outcome = inl (
      internal_reply x,
      refl,
      ap (λ (w : World). w.db.images) (world-remove (image_path cfg.image_dir id) v) ∙ bad x refl,
    );
  }
  inserted-IsStored u q id img (ok m) s v same_files found bad good =
      let (same_meta, row) = good m refl in
      record {
        frame = λ p _ _. ap (λ f. f p) same_files;
        outcome = inr (
          ap (λ (x : ImageMeta). reply 201 (to_info x)) same_meta,
          images-audit (entry sha256 cfg.ip_hash_salt q u.id image_uploaded (text "image") m.id)
                v.world
              ∙ row,
          ap (λ f. f (image_path cfg.image_dir id)) same_files ∙ found,
        );
      }

  insert_image-IsStored :
      (u : User) (q : Request) (id : Bytes) (img : Image) (s : Site)
      → s.files (image_path cfg.image_dir id) ≡ some img.png
      → IsStored cfg.image_dir u.id id img s
          (insert_image codec sha256 cfg u q id img s).0
          (insert_image codec sha256 cfg u q id img s).1
  unfolding insert_image
  insert_image-IsStored u q id img s found =
      inserted-IsStored u q id img (insertion id u.id img s.world).0 s
        (on_store (insertion id u.id img) s).1 refl found (create_image-eq-err id u.id img s.world)
        (create_image-eq-ok id u.id img s.world)

  IsStored-moved :
      (owner id : Bytes) (img : Image) (s u : Site) (a : Response ImageInfo) (v : Site)
      → u.world ≡ s.world
      → ((p : Bytes)
          → same p (image_path cfg.image_dir id) ≡ false
          → same p (temporary (image_path cfg.image_dir id)) ≡ false
          → u.files p ≡ s.files p)
      → IsStored cfg.image_dir owner id img u a v
      → IsStored cfg.image_dir owner id img s a v
  IsStored-moved owner id img s u a v same_world frame i = record {
    frame = λ p h k. i.frame p h k ∙ frame p h k;
    outcome =
        subst
          (λ (w : World).
            ((r : Refusal) × (a ≡ refused r) × (v.world.db.images ≡ w.db.images))
            ⊎ ((a ≡ reply 201 (to_info (to_meta (new_image id owner img w.now))))
                × (v.world.db.images ≡ w.db.images ++ new_image id owner img w.now ∷ [])
                × (v.files (image_path cfg.image_dir id) ≡ some img.png)))
          same_world i.outcome;
  }

  -- A refusal in a state of which only files have changed.
  refused-IsStored :
      (owner id : Bytes) (img : Image) (s v : Site) (r : Refusal)
      → v.world ≡ s.world
      → ((p : Bytes)
          → same p (image_path cfg.image_dir id) ≡ false
          → same p (temporary (image_path cfg.image_dir id)) ≡ false
          → v.files p ≡ s.files p)
      → IsStored cfg.image_dir owner id img s (refused r) v
  refused-IsStored owner id img s v r same_world frame = record {
    frame = frame;
    outcome = inl (r, refl, ap (λ (w : World). w.db.images) same_world);
  }

  publish_image-IsStored :
      (u : User) (q : Request) (id : Bytes) (img : Image) (s : Site)
      → IsStored cfg.image_dir u.id id img s
          (publish_image codec sha256 cfg u q id img s).0
          (publish_image codec sha256 cfg u q id img s).1
  unfolding publish_image
  publish_image-IsStored u q id img s =
      let path = image_path cfg.image_dir id in
      let s1 = (write_file (temporary path) img.png s).1 in
      let s2 = (rename (temporary path) path s1).1 in
      let world1 = world-write_file (temporary path) img.png s in
      let world2 = world-rename (temporary path) path s1 ∙ world1 in
      let frame1 = λ (p : Bytes) (h : same p path ≡ false) (k : same p (temporary path) ≡ false).
        files-write_file (temporary path) img.png p s k in
      let frame2 = λ (p : Bytes) (h : same p path ≡ false) (k : same p (temporary path) ≡ false).
        files-rename (temporary path) path p s1 k h ∙ frame1 p h k in
      elim (Bool-cases (write_file (temporary path) img.png s).0) [
        | inr unwritten ↦
            rw unwritten (refused-IsStored u.id id img s s1 (internal_reply failed) world1 frame1)
        | inl written ↦ elim (Bool-cases (rename (temporary path) path s1).0) [
          | inr kept ↦
              rw (written, kept)
                (refused-IsStored u.id id img s s2 (internal_reply failed) world2 frame2)
          | inl renamed ↦
              let there =
                files-renamed (temporary path) path img.png s1 renamed
                  (files-written (temporary path) img.png s written) in
              rw (written, renamed)
                (IsStored-moved u.id id img s s2 _ _ world2 frame2
                  (insert_image-IsStored u q id img s2 there))
        ]
      ]

  -- The deferred removal of the temporary file.
  IsStored-remove :
      (owner id : Bytes) (img : Image) (s : Site) (a : Response ImageInfo) (v : Site)
      → IsStored cfg.image_dir owner id img s a v
      → IsStored cfg.image_dir owner id img s a (remove (temporary (image_path cfg.image_dir id)) v)
  IsStored-remove owner id img s a v i =
      let path = image_path cfg.image_dir id in
      let same_images = ap (λ (w : World). w.db.images) (world-remove (temporary path) v) in
      record {
        frame = λ p h k. files-remove (temporary path) p v k ∙ i.frame p h k;
        outcome = elim i.outcome [
          | inl (r, refusal, images) ↦ inl (r, refusal, same_images ∙ images)
          | inr (answered, images, found) ↦ inr (
            answered,
            same_images ∙ images,
            files-remove (temporary path) path v (same-temporary cfg.image_dir id id) ∙ found,
          )
        ];
      }

  pub store_image-IsStored :
      (u : User) (q : Request) (img : Image) (s : Site)
      → IsStored cfg.image_dir u.id
          (s.world.uuids s.world.drawn)
          img
          s
          (store_image codec sha256 cfg u q img s).0
          (store_image codec sha256 cfg u q img s).1
  unfolding store_image new_uid
  store_image-IsStored u q img s =
      let id = s.world.uuids s.world.drawn in
      let s1 : Site = record s { world = (new_uid s.world).1 } in
      let i =
        IsStored-remove u.id id img s1 (publish_image codec sha256 cfg u q id img s1).0
          (publish_image codec sha256 cfg u q id img s1).1 (publish_image-IsStored u q id img s1) in
      record { frame = i.frame; outcome = i.outcome }
