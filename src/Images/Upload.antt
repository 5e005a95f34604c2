-- ===== src/Images/Upload.antt =====
-- `uploadImage`, `serveImage` and `listImages`. The form is what the multipart parser makes of the
-- body, up to the limits of MaxBody and MaxBytesReader.
pub mod Published
pub mod Kept
pub mod Complete
use spin_the_wheel.Prelude.{
  ℕ, ◌+◌, ◌*◌, Bool, true, false, Option, none, some, List, [], ◌∷◌, ◌++◌, map, Bytes, text, take,
  length, leb, ltb, if◌then◌else◌,
}
use spin_the_wheel.Uid.{parse, string}
use spin_the_wheel.Imgproc.{Image, Outcome, Codec, process}
use spin_the_wheel.Store.Tables.{image_uploaded}
use spin_the_wheel.Store.Monad.{StoreError, failed, Result, ok, err, World, new_uid}
use spin_the_wheel.Store.Accounts.{User}
use spin_the_wheel.Store.Sessions.{one_day}
use spin_the_wheel.Store.Images.{ImageMeta, create_image, list_images, count_images_since}
use spin_the_wheel.Store.Audit.{AuditEntry, audit}
use spin_the_wheel.Api.Reply.{
  bad_request, missing, too_large, rate_limited, internal, Refusal, Response, reply, refused,
  Handler, Request, refusal, not_found_reply, internal_reply, answer, attempt, entry,
}
use spin_the_wheel.Api.Spin.{image_url}
use spin_the_wheel.Images.Disk.{Site, write_file, rename, remove, on_store, image_path, temporary}

abbrev pub image_target_side : ℕ
image_target_side = 512

abbrev pub max_images_per_day : ℕ
max_images_per_day = 300

-- A multipart body: over the limit, unreadable, or a form. A form has the field « image » or not, and
-- the field can be read or not.
pub data Form : Type 0 where
  over_limit unreadable : Form
  form : Option (Option Bytes) → Form

pub record ImageConfig : Type 0 where
  pub image_dir : Bytes
  pub max_image_bytes : ℕ
  pub max_image_pixels : ℕ
  pub ip_hash_salt : Bytes

-- The payload of `uploadImage`, and each item of `listImages`.
pub record ImageInfo : Type 0 where
  pub id : Bytes
  pub url : Bytes
  pub width : ℕ
  pub height : ℕ

abbrev pub to_info : ImageMeta → ImageInfo
to_info m = record { id = string m.id; url = image_url m.id; width = m.width; height = m.height }

abbrev pub SiteHandler : Type 0 → Type 0
SiteHandler A = Site → Response A × Site

abbrev pub refuse_upload : Refusal → SiteHandler ImageInfo
refuse_upload r s = (refused r, s)

abbrev pub quota_reply : Refusal
quota_reply = record { status = 429; code = rate_limited; retry_after = some 3600 }

module _ (codec : Codec) (sha256 : Bytes → Bytes) (cfg : ImageConfig) where
  -- Behind the insertion of the row.
  abbrev pub inserted : User → Request → Bytes → Result ImageMeta → SiteHandler ImageInfo
  inserted u q path (err e) s = (refused (internal_reply e), remove path s)
  inserted u q path (ok img) s = (
    reply 201 (to_info img),
    record s {
      world =
          (audit (entry sha256 cfg.ip_hash_salt q u.id image_uploaded (text "image") img.id)
            s.world).1;
    },
  )

  -- CreateImage, and the removal of the file where it fails.
  unfoldable pub insert_image : User → Request → Bytes → Image → SiteHandler ImageInfo
  insert_image u q id img s =
      let (result, s') =
        on_store (create_image id u.id img.sha256 (length img.png) img.width img.height) s in
      inserted u q (image_path cfg.image_dir id) result s'

  -- The file: written under a temporary name, and renamed.
  unfoldable pub publish_image : User → Request → Bytes → Image → SiteHandler ImageInfo
  unfolding insert_image
  publish_image u q id img s =
      let path = image_path cfg.image_dir id in
      let (written, s1) = write_file (temporary path) img.png s in
      let (renamed, s2) = rename (temporary path) path s1 in
      if written
      then (if renamed then insert_image u q id img s2 else (refused (internal_reply failed), s2))
      else (refused (internal_reply failed), s1)

  -- With the deferred removal of the temporary file, on every path.
  unfoldable pub store_image : User → Request → Image → SiteHandler ImageInfo
  unfolding publish_image
  store_image u q img s =
      let id = s.world.uuids s.world.drawn in
      let s1 : Site = record s { world = (new_uid s.world).1 } in
      let (response, s2) = publish_image u q id img s1 in
      (response, remove (temporary (image_path cfg.image_dir id)) s2)

  abbrev pub processed : User → Request → Outcome → SiteHandler ImageInfo
  processed u q (Outcome.err e) = refuse_upload (refusal 400 bad_request)
  processed u q (Outcome.ok img) = store_image u q img

  -- The bytes of the field, of which one more than the limit is read.
  abbrev pub read_field : User → Request → Option (Option Bytes) → SiteHandler ImageInfo
  read_field u q none = refuse_upload (refusal 400 bad_request)
  read_field u q (some none) = refuse_upload (refusal 400 bad_request)
  read_field u q (some (some content)) =
      let raw = take (cfg.max_image_bytes + 1) content in
      if ltb cfg.max_image_bytes (length raw)
      then refuse_upload (refusal 413 too_large)
      else processed u q (process codec raw cfg.max_image_pixels image_target_side)

  abbrev pub counted_uploads :
      User → Request → Option (Option Bytes) → Result ℕ → SiteHandler ImageInfo
  counted_uploads u q field (err e) = refuse_upload (internal_reply e)
  counted_uploads u q field (ok recent) =
      if leb max_images_per_day recent then refuse_upload quota_reply else read_field u q field

  -- `uploadImage`
  unfoldable pub upload_image : User → Request → Form → SiteHandler ImageInfo
  unfolding store_image
  upload_image u q over_limit s = (refused (refusal 413 too_large), s)
  upload_image u q unreadable s = (refused (refusal 400 bad_request), s)
  upload_image u q (form field) s =
      let (result, s') = on_store (count_images_since u.id one_day) s in
      counted_uploads u q field result s'

-- `serveImage`; a path that cannot be opened, or that is a directory, is one without content. The
-- 404 is that of http.NotFound.
unfoldable pub serve_image : Bytes → Request → Site → Response Bytes
serve_image dir q s = elim (parse q.path_id) [
  | none ↦ refused (refusal 404 missing)
  | some id ↦ elim (s.files (image_path dir id)) [
    | none ↦ refused (refusal 404 missing)
    | some content ↦ reply 200 content
  ]
]

-- `listImages`
unfoldable pub list_images_handler : User → Request → Handler (List ImageInfo)
list_images_handler u q =
    attempt (list_images u.id 200) internal_reply λ images. answer 200 (map to_info images)
