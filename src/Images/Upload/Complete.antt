-- ===== src/Images/Upload/Complete.antt =====
-- The agreement of rows and files through an upload.
use mathlib.Core.Path.{subst}
use spin_the_wheel.Prelude.{
  ◌≡◌, sym, ◌∙◌, false, Option, List, Bytes, same, All, All-append, inl, inr,
}
use spin_the_wheel.Imgproc.{Codec}
use spin_the_wheel.Store.Tables.{ImageRow}
use spin_the_wheel.Store.Accounts.{User}
use spin_the_wheel.Api.Reply.{Response, Request}
use spin_the_wheel.Images.Disk.{Site, image_path, temporary}
use spin_the_wheel.Images.Disk.Paths.{same-temporary}
use spin_the_wheel.Images.Disk.Files.{HasFile, HasFiles, IsFresh, All-both}
use spin_the_wheel.Images.Upload.{Form, ImageConfig, ImageInfo, upload_image}
use spin_the_wheel.Images.Upload.Kept.{Upload, upload_image-Upload}

module _ (codec : Codec) (cfg : ImageConfig) where
  stored_rows :
      (owner id : Bytes) (s v : Site) (a : Response ImageInfo) (rows : List ImageRow)
      → ((p : Bytes)
          → same p (image_path cfg.image_dir id) ≡ false
          → same p (temporary (image_path cfg.image_dir id)) ≡ false
          → v.files p ≡ s.files p)
      → All (HasFile cfg.image_dir s.files) rows
      → IsFresh cfg.image_dir id rows
      → All (HasFile cfg.image_dir v.files) rows
  stored_rows owner id s v a rows frame h fresh =
      All-both (HasFile cfg.image_dir s.files)
        (λ r. same (image_path cfg.image_dir r.id) (image_path cfg.image_dir id) ≡ false)
        (HasFile cfg.image_dir v.files) rows
        (λ r file other. (
          file.0,
          frame (image_path cfg.image_dir r.id) other (same-temporary cfg.image_dir r.id id)
              ∙ file.1,
        ))
        h fresh

  Upload-HasFiles :
      (owner : Bytes) (f : Form) (s : Site) (a : Response ImageInfo) (v : Site)
      → Upload codec cfg owner f s a v
      → HasFiles cfg.image_dir s
      → IsFresh cfg.image_dir (s.world.uuids s.world.drawn) s.world.db.images
      → HasFiles cfg.image_dir v
  Upload-HasFiles owner f s a v (inl (r, _, same_files, same_images)) h fresh =
      subst (λ (rows : List ImageRow). All (HasFile cfg.image_dir v.files) rows) (sym same_images)
        (subst
          (λ (files : Bytes → Option Bytes). All (HasFile cfg.image_dir files) s.world.db.images)
          (sym same_files) h)
  Upload-HasFiles owner f s a v (inr (content, _, i)) h fresh =
      let id = s.world.uuids s.world.drawn in
      let old = stored_rows owner id s v a s.world.db.images i.stored.frame h fresh in
      elim i.stored.outcome [
        | inl (r, _, images) ↦
            subst (λ (rows : List ImageRow). All (HasFile cfg.image_dir v.files) rows) (sym images)
              old
        | inr (_, images, found) ↦
            subst (λ (rows : List ImageRow). All (HasFile cfg.image_dir v.files) rows) (sym images)
              (All-append (HasFile cfg.image_dir v.files) s.world.db.images _ old
                ((i.img.png, found), tt))
      ]

-- `uploadImage`, whatever fails on the disk or in the database, keeps a file for every row, where the
-- next identifier is that of no row.
pub upload_image-HasFiles :
    (codec : Codec) (sha256 : Bytes → Bytes) (cfg : ImageConfig) (u : User) (q : Request) (f : Form)
    (s : Site)
    → HasFiles cfg.image_dir s
    → IsFresh cfg.image_dir (s.world.uuids s.world.drawn) s.world.db.images
    → HasFiles cfg.image_dir (upload_image codec sha256 cfg u q f s).1
upload_image-HasFiles codec sha256 cfg u q f s =
    Upload-HasFiles codec cfg u.id f s (upload_image codec sha256 cfg u q f s).0
      (upload_image codec sha256 cfg u q f s).1 (upload_image-Upload codec sha256 cfg u q f s)
