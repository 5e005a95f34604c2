-- ===== src/Api/Wheels/Writing/Tests.antt =====
-- Writes on a small database, and the theorems at them.
use spin_the_wheel.Prelude.{
  ◌≡◌, refl, true, false, none, some, List, [], ◌∷◌, ◌++◌, map, Bytes, text, same, replicate,
  sort_by, arith,
}
use spin_the_wheel.Utf8.{truncate, encode, encode_rune, rune_bytes, is_rune}
use spin_the_wheel.Utf8.Decode.{next_rune, decode_steps, decode}
use spin_the_wheel.Uid.{
  parse, string, is_zero, has_dashes, hex_decode, hex_encode, hex_digit, from_hex,
}
use spin_the_wheel.Store.Tables.{WheelRow}
use spin_the_wheel.Store.Monad.{World, new_uid, exec, transaction}
use spin_the_wheel.Store.Wheels.{is_owned, get_wheel_owned, update_wheel}
use spin_the_wheel.Store.Segments.{
  segments_of, list_segments, owns_image, checked_image, insert_one, insert_segments, replace_body,
  replace_segments,
}
use spin_the_wheel.Store.Accounts.{User, null_uuid}
use spin_the_wheel.Store.Audit.{audit}
use spin_the_wheel.Api.Reply.{
  Response, refused, Request, invalid_reply, not_found_reply, hash_ip, audit_ip,
}
use spin_the_wheel.Api.Spin.{image_url}
use spin_the_wheel.Api.Validate.{is_hex, matches_color, lower_byte, valid_color}
use spin_the_wheel.Api.Validate.Text.{
  is_control, is_space, is_mark, clean_rune, map_runes, trim_left, trim_right, clean_text, bounded,
  valid_text,
}
use spin_the_wheel.Api.Digits.{write_digits, itoa, read_digits, IsNumeral, read_digits-itoa}
use spin_the_wheel.Api.Wheels.{SegmentOutput, to_segment_output}
use spin_the_wheel.Api.Wheels.Writing.{
  PatchInput, SegmentInput, Limits, valid_segment, valid_segments, patch_wheel, save_segments,
  put_segments,
}
use spin_the_wheel.Store.Shelf.{IsShelved}
use spin_the_wheel.Api.Wheels.Isolated.{segments, written, written-IsShelved}
use spin_the_wheel.Api.Wheels.Writing.Saved.{Put, put_segments-Put}

running : Unit {0}
unfolding truncate encode encode_rune rune_bytes is_rune next_rune decode_steps decode parse string
    is_zero has_dashes hex_decode hex_encode hex_digit from_hex new_uid exec transaction is_owned
    get_wheel_owned update_wheel segments_of list_segments owns_image checked_image insert_one
    insert_segments replace_body replace_segments null_uuid audit hash_ip audit_ip image_url is_hex
    matches_color lower_byte valid_color is_control is_space is_mark clean_rune map_runes trim_left
    trim_right clean_text bounded valid_text to_segment_output valid_segment valid_segments
    patch_wheel save_segments put_segments same sort_by
running = tt

abbrev wheel_id : Bytes
wheel_id = replicate 15 0 ++ 7 ∷ []

abbrev wheel_row : WheelRow
wheel_row = record {
  id = wheel_id;
  owner_id = text "ann";
  title = text "Draw";
  is_active = true;
  created_at = 0;
  updated_at = 0;
  deleted_at = none;
}

abbrev world : World
world = record {
  db = record {
    users = [];
    allowed_emails = [];
    oauth_states = [];
    sessions = [];
    images = [];
    wheels = wheel_row ∷ [];
    segments = [];
    spins = [];
    audit_log = [];
  };
  now = 10;
  uuids = λ n. replicate 15 2 ++ n ∷ [];
  drawn = 0;
  faults = λ _. false;
  statements = 0;
}

abbrev request : Request
request = record {
  path_id = text "00000000-0000-0000-0000-000000000007";
  client_ip = text "10.0.0.1";
  user_agent = [];
  request_id = text "r";
}

abbrev limits : Limits
limits = record { max_segments = 3; max_label_runes = 10; max_title_runes = 10 }

abbrev user : Bytes → User
user id = record { id = id; email = []; display_name = []; created_at = 0 }

abbrev part : Bytes → SegmentInput
part label = record { label = label; color = text "#00FF00"; image_id = [] }

abbrev parts : List SegmentInput
parts = part (text "yes ") ∷ part (text "no") ∷ []

abbrev put : Bytes → List SegmentInput → Response (List SegmentOutput) × World
put caller raws =
    put_segments (λ b. b) (λ b. b) (λ b. b) (text "salt") limits (user caller) request (some raws)
      world

saved_labels :
    map (λ s. s.label) (segments_of wheel_id (put (text "ann") parts).1.db)
    ≡ text "yes" ∷ text "no" ∷ []
unfolding running
saved_labels = refl

one_part : (put (text "ann") (part (text "yes") ∷ [])).0 ≡ refused invalid_reply
unfolding running
one_part = refl

foreign : (put (text "bob") parts).0 ≡ refused not_found_reply
unfolding running
foreign = refl

abbrev patch : PatchInput
patch = record { title = some (text " Lots "); is_active = none }

retitled :
    map
      (λ (r : WheelRow). r.title)
      (patch_wheel
        (λ b. b)
        (λ b. b)
        (λ b. b)
        (text "salt")
        limits
        (user (text "ann"))
        request
        (some patch)
        world).1.db.wheels
    ≡ text "Lots" ∷ []
unfolding running
retitled = refl

put_segments-Put_example :
    Put
      (λ b. b)
      (λ b. b)
      (λ b. b)
      (text "salt")
      limits
      (user (text "ann"))
      request
      parts
      world
      (put (text "ann") parts).0
      (put (text "ann") parts).1
put_segments-Put_example =
    put_segments-Put (λ b. b) (λ b. b) (λ b. b) (text "salt") limits (user (text "ann")) request
      parts world

-- A number in decimal.
hundred : itoa 100 ≡ some (text "100")
unfolding itoa write_digits
hundred = refl

itoa_zero : itoa 0 ≡ some (text "0")
unfolding itoa
itoa_zero = refl

read_digits-itoa_example :
    (out : Bytes) × (itoa 100 ≡ some out) × IsNumeral out × (read_digits 0 out ≡ 100)
read_digits-itoa_example = read_digits-itoa 100 (omega arith)

written-IsShelved_example : IsShelved (text "bob") wheel_id world.db (
    written
      (λ b. b)
      (λ b. b)
      (λ b. b)
      []
      limits
      (segments (some parts))
      (user (text "bob"))
      request
      world)
unfolding same
written-IsShelved_example =
    written-IsShelved (λ b. b) (λ b. b) (λ b. b) [] limits (user (text "bob")) request wheel_id
      world (segments (some parts)) refl
