-- ===== src/Imgproc.antt =====
-- The normalisation of uploaded images: backend/internal/imgproc/imgproc.go.
-- Go's `int` is a natural number here, since `Process` rejects what is not positive before it
-- computes with it; 0 stands for the values that are not positive. The decoders, the scaling, the
-- PNG encoder and SHA-256 are library code and enter as the record `Codec`.
pub mod Laws
mod Tests
use spin_the_wheel.Prelude.{
  ℕ, ◌+◌, ◌*◌, ◌/◌, Bool, true, false, ◌&&◌, ◌||◌, Option, none, some, [], ◌∷◌, Bytes, text, same,
  leb, ltb, ◌==◌, if◌then◌else◌,
}

-- ErrEmpty, ErrFormat, ErrDimensions, ErrUndecodable, and the error of the PNG encoder.
pub data ImageError : Type 0 where
  empty format dimensions undecodable encoding : ImageError

-- `Result`
pub record Image : Type 0 where
  pub png : Bytes
  pub width : ℕ
  pub height : ℕ
  pub sha256 : Bytes

pub data Outcome : Type 0 where
  ok : Image → Outcome
  err : ImageError → Outcome

-- What image.DecodeConfig reads of a header.
pub record Header : Type 0 where
  pub width : ℕ
  pub height : ℕ
  pub format : Bytes

-- The library functions; a decoded image is a value of `Picture`.
pub record Codec : Type 1 where
  pub Picture : Type 0
  pub decode_config : Bytes → Option Header
  pub decode : Bytes → Option Picture
  pub width_of : Picture → ℕ
  pub height_of : Picture → ℕ
  -- draw.CatmullRom.Scale into a new image of a width and a height
  pub scale : Picture → ℕ → ℕ → Picture
  pub encode_png : Picture → Option Bytes
  pub sha256_sum : Bytes → Bytes

-- `acceptedFormats`
unfoldable pub is_accepted : Bytes → Bool
is_accepted f =
    same f (text "png") || same f (text "jpeg") || same f (text "gif") || same f (text "webp")

abbrev at_least_one : ℕ → ℕ
at_least_one n = if ltb n 1 then 1 else n

-- `fit`
unfoldable pub fit : ℕ → ℕ → ℕ → ℕ × ℕ
fit w h max =
    if leb max 0 || (leb w max && leb h max)
    then (w, h)
    else if leb h w
    then (max, at_least_one (h * max / w))
    else (at_least_one (w * max / h), max)

module _ (c : Codec) where
  open c use {Picture, decode_config, decode, width_of, height_of, scale, encode_png, sha256_sum}

  -- Step 4 of `Process`, for an output of `size`.
  unfoldable pub publish : Picture → ℕ × ℕ → Outcome
  publish src size = elim (encode_png (scale src size.0 size.1)) [
    | none ↦ err encoding
    | some out ↦ ok (record { png = out; width = size.0; height = size.1; sha256 = sha256_sum out })
  ]

  -- Steps 2 and 3.
  unfoldable pub resize : Bytes → ℕ → Outcome
  resize raw target_side = elim (decode raw) [
    | none ↦ err undecodable
    | some src ↦
        if leb (width_of src) 0 || leb (height_of src) 0
        then err undecodable
        else publish src (fit (width_of src) (height_of src) target_side)
  ]

  -- The checks of the header, before anything of the image's size is allocated.
  unfoldable pub check_header : Header → ℕ → Option ImageError
  check_header h max_source_side =
      if is_accepted h.format
      then (if leb h.width 0 || leb h.height 0
          then some undecodable
          else if ltb max_source_side h.width || ltb max_source_side h.height
          then some dimensions
          else none)
      else some format

  -- `Process`
  unfoldable pub process : Bytes → ℕ → ℕ → Outcome
  process [] max_source_side target_side = err empty
  process raw max_source_side target_side = elim (decode_config raw) [
    | none ↦ err undecodable
    | some h ↦ elim (check_header h max_source_side) [
      | some e ↦ err e
      | none ↦ resize raw target_side
    ]
  ]
