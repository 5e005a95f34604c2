-- ===== src/Api/Wheels.antt =====
-- Handlers of the wheels and of the allow list: `segmentOutput`, `listWheels`, `getWheel`,
-- `deleteWheel`, `listSpins`, `listAllowed` and `deleteAllowed` of backend/internal/api/wheels.go. Each
-- is given the account of the context.
pub mod Deleted
pub mod Writing
pub mod Isolated
use spin_the_wheel.Prelude.{ℕ, List, map, ◌++◌, Bytes, text, length, if◌then◌else◌}
use spin_the_wheel.Uid.{parse, string, is_zero}
use spin_the_wheel.Store.Tables.{wheel_deleted, allowed_email_removed}
use spin_the_wheel.Store.Wheels.{Wheel, list_wheels, get_wheel_owned, soft_delete_wheel}
use spin_the_wheel.Store.Segments.{Segment, list_segments}
use spin_the_wheel.Store.Spins.{Spin, list_spins}
use spin_the_wheel.Store.Accounts.{User, AllowedEmail, list_allowed_emails, delete_allowed_email}
use spin_the_wheel.Api.Reply.{
  Handler, Request, not_found_reply, internal_reply, found_or_internal, answer, attempt, entry,
  audited, guarded,
}
use spin_the_wheel.Api.Spin.{image_url}

-- `segmentOutput`; an absent image has two empty texts.
pub record SegmentOutput : Type 0 where
  pub id : Bytes
  pub position : ℕ
  pub label : Bytes
  pub color : Bytes
  pub image_id : Bytes
  pub image_url : Bytes

-- `toSegmentOutputs`
unfoldable pub to_segment_output : Segment → SegmentOutput
unfolding is_zero string image_url
to_segment_output s = record {
  id = string s.id;
  position = s.position;
  label = s.label;
  color = s.color;
  image_id = if is_zero s.image_id then text "" else string s.image_id;
  image_url = image_url s.image_id;
}

-- The payload of `getWheel`.
pub record WheelPage : Type 0 where
  pub wheel : Wheel
  pub segments : List SegmentOutput
  pub embed_url : Bytes

-- `listWheels`
unfoldable pub list_wheels_handler : User → Request → Handler (List Wheel)
list_wheels_handler u q = attempt (list_wheels u.id) internal_reply λ wheels. answer 200 wheels

-- `getWheel`
unfoldable pub get_wheel : Bytes → User → Request → Handler WheelPage
unfolding to_segment_output
get_wheel base_url u q = guarded (parse q.path_id) not_found_reply λ id.
    attempt (get_wheel_owned id u.id) found_or_internal λ wheel.
      attempt (list_segments id) internal_reply λ segs. answer 200 (record {
        wheel = record wheel { segment_count = length segs };
        segments = map to_segment_output segs;
        embed_url = base_url ++ text "/embed/" ++ string wheel.id;
      })

-- `listSpins`
unfoldable pub list_spins_handler : User → Request → Handler (List Spin)
list_spins_handler u q =
    guarded (parse q.path_id) not_found_reply
      λ id. attempt (list_spins id u.id 100) internal_reply λ spins. answer 200 spins

-- `listAllowed`
unfoldable pub list_allowed : Request → Handler (List AllowedEmail)
list_allowed q = attempt list_allowed_emails internal_reply λ emails. answer 200 emails

module _ (sha256 : Bytes → Bytes) (ip_hash_salt : Bytes) where
  -- `deleteWheel`
  unfoldable pub delete_wheel : User → Request → Handler (Unit {0})
  delete_wheel u q = guarded (parse q.path_id) not_found_reply λ id.
      attempt (soft_delete_wheel id u.id) found_or_internal λ _.
        audited (entry sha256 ip_hash_salt q u.id wheel_deleted (text "wheel") id) (answer 200 tt)

  -- `deleteAllowed`
  unfoldable pub delete_allowed : User → Request → Handler (Unit {0})
  delete_allowed u q = guarded (parse q.path_id) not_found_reply λ id.
      attempt (delete_allowed_email id) found_or_internal λ email.
        audited (entry sha256 ip_hash_salt q u.id allowed_email_removed (text "allowed_email") id)
          (answer 200 tt)
