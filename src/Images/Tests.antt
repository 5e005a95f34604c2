-- ===== src/Images/Tests.antt =====
-- Runs of uploads and cleanings on a small volume, and the theorems at those runs.
use spin_the_wheel.Prelude.{
  ℕ, sort_by, ◌+◌, ◌<◌, ◌==◌, if◌then◌else◌, ◌≡◌, refl, true, false, Option, none, some, [], ◌∷◌,
  map, Bytes, text, same, arith,
}
use spin_the_wheel.Uid.{string, is_zero}
use spin_the_wheel.Imgproc.{Header, Codec, is_accepted, fit, publish, resize, check_header, process}
use spin_the_wheel.Store.Tables.{Db, ImageRow, WheelRow, SegmentRow}
use spin_the_wheel.Store.Monad.{World, new_uid, exec}
use spin_the_wheel.Store.Accounts.{User, null_uuid}
use spin_the_wheel.Store.Images.{
  create_image, count_images_since, is_shown, is_orphan, list_orphan_images, is_deletable,
  delete_image_if_unused,
}
use spin_the_wheel.Store.Audit.{audit}
use spin_the_wheel.Utf8.{truncate}
use spin_the_wheel.Api.Reply.{refused, Request, refusal, too_large}
use spin_the_wheel.Images.Disk.{Site, write_file, rename, remove, image_path}
use spin_the_wheel.Images.Disk.Paths.{IsUuid}
use spin_the_wheel.Images.Disk.Files.{HasFiles}
use spin_the_wheel.Images.Upload.{
  form, Form, ImageConfig, insert_image, publish_image, store_image, upload_image,
}
use spin_the_wheel.Images.Upload.Kept.{Upload, upload_image-Upload}
use spin_the_wheel.Images.Upload.Complete.{upload_image-HasFiles}
use spin_the_wheel.Images.Cleaning.{clean_one, clean_all, purge_orphan_images}
use spin_the_wheel.Images.Cleaning.Hourly.{janitor_tick, janitor_tick-spares}
use spin_the_wheel.Images.Cleaning.Kept.{IsSpared}

running : Unit {0}
unfolding process check_header resize publish fit is_accepted same new_uid exec null_uuid is_zero
    truncate audit create_image count_images_since is_shown is_orphan list_orphan_images
    is_deletable delete_image_if_unused write_file rename remove image_path insert_image
    publish_image store_image upload_image clean_one clean_all purge_orphan_images string sort_by
running = tt

-- A codec whose files are two bytes, the sides, and whose pictures are their sides.
abbrev read_sides : Bytes → Option (ℕ × ℕ)
read_sides (w ∷ h ∷ []) = some (w, h)
read_sides _ = none

abbrev read_header : Bytes → Option Header
read_header (w ∷ h ∷ []) = some (record { width = w; height = h; format = text "png" })
read_header _ = none

abbrev toy : Codec
toy = record {
  Picture = ℕ × ℕ;
  decode_config = read_header;
  decode = read_sides;
  width_of = λ p. p.0;
  height_of = λ p. p.1;
  scale = λ p w h. (w, h);
  encode_png = λ p. some (p.0 ∷ p.1 ∷ []);
  sha256_sum = λ b. b;
}

abbrev config : ImageConfig
config = record {
  image_dir = text "/d";
  max_image_bytes = 4;
  max_image_pixels = 100;
  ip_hash_salt = text "salt";
}

-- The sixteen bytes of an identifier.
abbrev uuid_of : ℕ → Bytes
uuid_of n = n ∷ 0 ∷ 0 ∷ 0 ∷ 0 ∷ 0 ∷ 0 ∷ 0 ∷ 0 ∷ 0 ∷ 0 ∷ 0 ∷ 0 ∷ 0 ∷ 0 ∷ 0 ∷ []

abbrev image_of : ℕ → ImageRow
image_of n = record {
  id = uuid_of n;
  owner_id = text "ann";
  sha256 = [];
  byte_size = 2;
  width = 5;
  height = 5;
  created_at = 0;
}

abbrev wheel : WheelRow
wheel = record {
  id = text "w";
  owner_id = text "ann";
  title = text "Draw";
  is_active = true;
  created_at = 0;
  updated_at = 0;
  deleted_at = none;
}

abbrev slice : SegmentRow
slice = record {
  id = text "s";
  wheel_id = text "w";
  position = 0;
  label = text "one";
  color = text "#000000";
  image_id = some (uuid_of 1);
}

-- Two images: a segment shows the first one, and none the second.
abbrev tables : Db
tables = record {
  users = [];
  allowed_emails = [];
  oauth_states = [];
  sessions = [];
  images = image_of 1 ∷ image_of 2 ∷ [];
  wheels = wheel ∷ [];
  segments = slice ∷ [];
  spins = [];
  audit_log = [];
}

abbrev world : World
world = record {
  db = tables;
  now = 100000000;
  uuids = λ n. uuid_of (n + 3);
  drawn = 0;
  faults = λ _. false;
  statements = 0;
}

abbrev stored_files : Bytes → Option Bytes
stored_files p =
    if same p (image_path (text "/d") (uuid_of 1))
    then some (5 ∷ 5 ∷ [])
    else if same p (image_path (text "/d") (uuid_of 2))
    then some (6 ∷ 6 ∷ [])
    else none

abbrev site : Site
site = record {
  world = world;
  files = stored_files;
  faults = λ _. false;
  partial = λ _. none;
  operations = 0;
}

abbrev ann : User
ann = record { id = text "ann"; email = text "ann@x.fr"; display_name = text "Ann"; created_at = 0 }

abbrev request : Request
request = record {
  path_id = [];
  client_ip = text "10.0.0.1";
  user_agent = [];
  request_id = text "r";
}

abbrev sent : Bytes → Form
sent content = form (some (some content))

abbrev uploaded : Site
uploaded = (upload_image toy (λ b. b) config ann request (sent (40 ∷ 20 ∷ [])) site).1

three_rows :
    map (λ (r : ImageRow). r.id) uploaded.world.db.images ≡ uuid_of 1 ∷ uuid_of 2 ∷ uuid_of 3 ∷ []
unfolding running
three_rows = refl

new_file : uploaded.files (image_path (text "/d") (uuid_of 3)) ≡ some (40 ∷ 20 ∷ [])
unfolding running
new_file = refl

refused_long :
    (upload_image toy (λ b. b) config ann request (sent (1 ∷ 1 ∷ 1 ∷ 1 ∷ 1 ∷ [])) site).0
    ≡ refused (refusal 413 too_large)
unfolding running
refused_long = refl

-- The rename fails: no row, and no file.
abbrev unpublished : Site
unpublished =
    (upload_image toy (λ b. b) config ann request (sent (40 ∷ 20 ∷ []))
      (record site { faults = λ n. n == 1 })).1

no_new_row : unpublished.world.db.images ≡ site.world.db.images
unfolding running
no_new_row = refl

abbrev purged : Site
purged = (purge_orphan_images (text "/d") 1000 site).1

one_row : purged.world.db.images ≡ image_of 1 ∷ []
unfolding running
one_row = refl

orphan_file : purged.files (image_path (text "/d") (uuid_of 2)) ≡ none
unfolding running
orphan_file = refl

upload_image-Upload_example :
    Upload toy config
      (text "ann")
      (sent (40 ∷ 20 ∷ []))
      site
      (upload_image toy (λ b. b) config ann request (sent (40 ∷ 20 ∷ [])) site).0
      uploaded
upload_image-Upload_example =
    upload_image-Upload toy (λ b. b) config ann request (sent (40 ∷ 20 ∷ [])) site

all_have_files : HasFiles (text "/d") site
unfolding running
all_have_files = ((5 ∷ 5 ∷ [], refl), ((6 ∷ 6 ∷ [], refl), tt))

upload_image-HasFiles_example : HasFiles (text "/d") uploaded
unfolding running
upload_image-HasFiles_example =
    upload_image-HasFiles toy (λ b. b) config ann request (sent (40 ∷ 20 ∷ [])) site all_have_files
      (refl, (refl, tt))

one_shown : is_shown (uuid_of 1) tables ≡ true
unfolding running
one_shown = refl

uuid_of-IsUuid : (n : ℕ) → n < 256 → IsUuid (uuid_of n)
uuid_of-IsUuid n small =
    let z : 0 < 256 = omega arith in
    record {
      length_eq = refl;
      are_bytes =
          (small, (z, (z, (z, (z, (z, (z, (z, (z, (z, (z, (z, (z, (z, (z, (z, tt))))))))))))))));
    }

janitor_tick-spares_example : IsSpared (text "/d") (uuid_of 1) site (janitor_tick (text "/d") site)
janitor_tick-spares_example =
    janitor_tick-spares (text "/d") (uuid_of 1) site
      (uuid_of-IsUuid 1 (omega arith), (uuid_of-IsUuid 2 (omega arith), tt))
      (uuid_of-IsUuid 1 (omega arith)) one_shown
