-- ===== src/Api/Wheels/Writing.antt =====
-- The handlers that write: `createWheel`, `patchWheel`, `putSegments` and `addAllowed` of
-- backend/internal/api/wheels.go. What `decodeJSON` makes of a body is an argument, nothing where it
-- refuses it; every validation error is a 400.
pub mod Saved
mod Tests
use spin_the_wheel.Prelude.{
  ◌>>=◌, ℕ, suc, ◌+◌, Bool, Option, none, some, List, [], ◌∷◌, map, Bytes, text, same, length, ltb,
  if◌then◌else◌,
}
use spin_the_wheel.Uid.{parse, nil_uuid}
use spin_the_wheel.Store.Tables.{wheel_created, wheel_updated, segments_saved, allowed_email_added}
use spin_the_wheel.Store.Wheels.{Wheel, create_wheel, get_wheel_owned, update_wheel}
use spin_the_wheel.Store.Segments.{Segment, list_segments, replace_segments}
use spin_the_wheel.Store.Accounts.{User, AllowedEmail, add_allowed_email}
use spin_the_wheel.Api.Reply.{
  Handler, Request, not_found_reply, invalid_reply, internal_reply, found_or_internal, answer,
  refuse, attempt, entry, audited, guarded,
}
use spin_the_wheel.Api.Validate.{valid_color}
use spin_the_wheel.Api.Validate.Text.{valid_text}
use spin_the_wheel.Api.Validate.Email.{valid_email}
use spin_the_wheel.Api.Wheels.{SegmentOutput, to_segment_output}

-- `patchWheelInput`, `segmentInput` and `addAllowedInput`
pub record PatchInput : Type 0 where
  pub title : Option Bytes
  pub is_active : Option Bool

pub record SegmentInput : Type 0 where
  pub label : Bytes
  pub color : Bytes
  pub image_id : Bytes

pub record AllowedInput : Type 0 where
  pub email : Bytes
  pub note : Bytes

-- The limits of the configuration.
pub record Limits : Type 0 where
  pub max_segments : ℕ
  pub max_label_runes : ℕ
  pub max_title_runes : ℕ

-- The nil UUID where the field is empty.
abbrev pub parsed_image : Bytes → Option Bytes
parsed_image [] = some nil_uuid
parsed_image (b ∷ bs) = parse (b ∷ bs)

-- The title of `patchWheel`, the current one where the body has none.
abbrev pub patched_title : Bytes → ℕ → Option Bytes → Option Bytes
patched_title current max_runes none = some current
patched_title current max_runes (some title) = valid_text title 1 max_runes

abbrev pub patched_active : Bool → Option Bool → Bool
patched_active current none = current
patched_active current (some b) = b

module _ (trim : Bytes → Bytes) (limits : Limits) where
  -- One round of the loop of `putSegments`, at an index.
  unfoldable pub valid_segment : ℕ → SegmentInput → Option Segment
  valid_segment i raw = do
    label ← valid_text raw.label 0 limits.max_label_runes
    color ← valid_color trim raw.color
    image ← parsed_image raw.image_id
    some (record { id = nil_uuid; position = i; label = label; color = color; image_id = image })

  -- The loop, from an index on.
  unfoldable pub valid_segments : ℕ → List SegmentInput → Option (List Segment)
  valid_segments i [] = some []
  valid_segments i (raw ∷ rest) = do
    seg ← valid_segment i raw
    segs ← valid_segments (suc i) rest
    some (seg ∷ segs)

module _ (sha256 lower trim : Bytes → Bytes) (ip_hash_salt : Bytes) (limits : Limits) where
  -- `createWheel`
  unfoldable pub create_wheel_handler : User → Request → Option Bytes → Handler Wheel
  create_wheel_handler u q input = guarded input invalid_reply λ raw.
      guarded (valid_text raw 1 limits.max_title_runes) invalid_reply λ title.
        attempt (create_wheel u.id title) internal_reply λ wheel.
          audited (entry sha256 ip_hash_salt q u.id wheel_created (text "wheel") wheel.id)
            (answer 201 wheel)

  -- `patchWheel`
  unfoldable pub patch_wheel : User → Request → Option PatchInput → Handler Wheel
  patch_wheel u q input = guarded (parse q.path_id) not_found_reply λ id.
      guarded input invalid_reply λ patch.
        attempt (get_wheel_owned id u.id) found_or_internal λ current.
          guarded (patched_title current.title limits.max_title_runes patch.title) invalid_reply
            λ title.
              attempt
                (update_wheel id u.id title (patched_active current.is_active patch.is_active))
                found_or_internal
                λ updated.
                  audited (entry sha256 ip_hash_salt q u.id wheel_updated (text "wheel") id)
                    (answer 200 updated)

  -- `putSegments`, behind the checks of the body.
  unfoldable pub save_segments :
      User → Request → Bytes → List Segment → Handler (List SegmentOutput)
  save_segments u q id segs = attempt (replace_segments id u.id segs) found_or_internal λ _.
      attempt (list_segments id) internal_reply λ saved.
        audited (entry sha256 ip_hash_salt q u.id segments_saved (text "wheel") id)
          (answer 200 (map to_segment_output saved))

  -- The number of the segments, and each of them.
  abbrev pub save_counted :
      User → Request → Bytes → List SegmentInput → Handler (List SegmentOutput)
  save_counted u q id raws =
      if ltb (length raws) 2
      then refuse invalid_reply
      else if ltb limits.max_segments (length raws)
      then refuse invalid_reply
      else guarded (valid_segments trim limits 0 raws) invalid_reply
          λ segs. save_segments u q id segs

  -- `putSegments`
  unfoldable pub put_segments :
      User → Request → Option (List SegmentInput) → Handler (List SegmentOutput)
  unfolding save_segments valid_segments
  put_segments u q input =
      guarded (parse q.path_id) not_found_reply
        λ id. guarded input invalid_reply λ raws. save_counted u q id raws

  -- `addAllowed`
  unfoldable pub add_allowed : User → Request → Option AllowedInput → Handler AllowedEmail
  add_allowed u q input = guarded input invalid_reply λ raw.
      guarded (valid_email lower trim raw.email) invalid_reply λ email.
        guarded (valid_text raw.note 0 200) invalid_reply λ note.
          attempt (add_allowed_email lower email note u.id) internal_reply λ added.
            audited
              (entry sha256 ip_hash_salt q u.id allowed_email_added (text "allowed_email") added.id)
              (answer 201 added)
