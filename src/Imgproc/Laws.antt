-- ===== src/Imgproc/Laws.antt =====
-- The sizes that `fit` computes, and what an image that `Process` returns went through.
use spin_the_wheel.Prelude.{
  ℕ, ◌*◌, ◌/◌, ◌≤◌, ◌<◌, ◌≡◌, refl, true, ◌&&◌, ◌||◌, none, some, [], ◌∷◌, ◌⊎◌, arith, Bytes, leb,
  leb→le, Bool-cases, Option-cases, inl, inr,
}
use spin_the_wheel.Imgproc.{
  dimensions, Image, ok, err, Header, Codec, is_accepted, at_least_one, fit, publish, resize,
  check_header, process,
}

-- q = a * m / b, for a ≤ b: at most m, and at most a where m ≤ b.
scaled-le : (a m b : ℕ) → a ≤ b → 0 < b → a * m / b ≤ m
scaled-le a m b h pos = let e : a * m ≤ b * m = grind arith in grind arith

scaled-le_self : (a m b : ℕ) → m ≤ b → 0 < b → a * m / b ≤ a
scaled-le_self a m b h pos = let e : a * m ≤ a * b = grind arith in grind arith

scaled_bounds :
    (a m b : ℕ)
    → 0 < a
    → a ≤ b
    → m ≤ b
    → 0 < m
    → (1 ≤ at_least_one (a * m / b))
      × (at_least_one (a * m / b) ≤ m)
      × (at_least_one (a * m / b) ≤ a)
scaled_bounds a m b pos le le' pm =
    let q = scaled-le a m b le (omega arith) in
    let r = scaled-le_self a m b le' (omega arith) in (ground arith, ground arith, ground arith)

-- The sides of an output of `fit`.
pub record Fits (w h max : ℕ) (size : ℕ × ℕ) : Type 0 where
  pub width_pos : 1 ≤ size.0
  pub height_pos : 1 ≤ size.1
  pub width_max : size.0 ≤ max
  pub height_max : size.1 ≤ max
  pub width_reduced : size.0 ≤ w
  pub height_reduced : size.1 ≤ h

-- For positive sides and a positive bound, both sides of the output are positive, within the
-- bound, and never larger than the input's.
pub fit-Fits : (w h max : ℕ) → 0 < w → 0 < h → 0 < max → Fits w h max (fit w h max)
unfolding fit
fit-Fits w h max pw ph pm = elim (Bool-cases (leb max 0 || (leb w max && leb h max))) [
  | inl small ↦ rw small (ground arith)
  | inr large ↦ elim (Bool-cases (leb h w)) [
    | inl wide ↦
        let shorter = leb→le h w wide in
        let bound : max ≤ w = ground arith in
        let (p, q, r) = scaled_bounds h max w ph shorter bound pm in
        rw (large, wide)
          (record {
            width_pos = pm;
            height_pos = p;
            width_max = omega arith;
            height_max = q;
            width_reduced = bound;
            height_reduced = r;
          })
    | inr tall ↦
        let shorter : w ≤ h = ground arith in
        let bound : max ≤ h = ground arith in
        let (p, q, r) = scaled_bounds w max h pw shorter bound pm in
        rw (large, tall)
          (record {
            width_pos = p;
            height_pos = pm;
            width_max = q;
            height_max = omega arith;
            width_reduced = r;
            height_reduced = bound;
          })
  ]
]

-- What an image that `Process` returns went through: a header of an accepted format whose sides
-- are positive and within the limit, a full decode, and the server's own encoding of the scaled
-- picture, whose digest is kept.
pub record IsNormalised (c : Codec) (raw : Bytes) (max_source_side target_side : ℕ) (img : Image)
    : Type 0 where
  pub header : Header
  pub header_read : c.decode_config raw ≡ some header
  pub accepted : is_accepted header.format ≡ true
  pub width_source : (0 < header.width) × (header.width ≤ max_source_side)
  pub height_source : (0 < header.height) × (header.height ≤ max_source_side)
  pub reencoded :
      (src : c.Picture) × (c.decode raw ≡ some src)
      × (c.encode_png (c.scale src img.width img.height) ≡ some img.png)
  pub digest : img.sha256 ≡ c.sha256_sum img.png
  pub sides :
      (1 ≤ img.width) × (img.width ≤ target_side) × (1 ≤ img.height) × (img.height ≤ target_side)

check_header_passed :
    (c : Codec) (h : Header) (most : ℕ)
    → check_header c h most ≡ none
    → (is_accepted h.format ≡ true)
      × (0 < h.width)
      × (h.width ≤ most)
      × (0 < h.height)
      × (h.height ≤ most)
unfolding check_header
check_header_passed c h most e =
    (ground arith, ground arith, ground arith, ground arith, ground arith)

-- What `publish` returned.
record IsPublished (c : Codec) (src : c.Picture) (size : ℕ × ℕ) (img : Image) : Type 0 where
  same_width : img.width ≡ size.0
  same_height : img.height ≡ size.1
  written : c.encode_png (c.scale src img.width img.height) ≡ some img.png
  digest : img.sha256 ≡ c.sha256_sum img.png

publish-IsPublished :
    (c : Codec) (src : c.Picture) (size : ℕ × ℕ) (img : Image)
    → publish c src size ≡ ok img
    → IsPublished c src size img
unfolding publish
publish-IsPublished c src size img e =
    elim (Option-cases (c.encode_png (c.scale src size.0 size.1))) [
      | inl failed ↦ let e' = rw (failed, publish) at e in cc
      | inr (out, written) ↦
          let e' = rw (written, publish) at e in
          let whole : img
              ≡ record { png = out; width = size.0; height = size.1; sha256 = c.sha256_sum out } =
            cc in
          rw whole
            (record { same_width = refl; same_height = refl; written = written; digest = refl })
    ]

resize-ok :
    (c : Codec) (raw : Bytes) (target : ℕ) (img : Image)
    → resize c raw target ≡ ok img
    → (src : c.Picture) × (c.decode raw ≡ some src)
      × (0 < c.width_of src)
      × (0 < c.height_of src)
      × (publish c src (fit (c.width_of src) (c.height_of src) target) ≡ ok img)
unfolding resize
resize-ok c raw target img e = elim (Option-cases (c.decode raw)) [
  | inl failed ↦ let e' = rw (failed, resize) at e in cc
  | inr (src, decoded) ↦
      let e' = rw (decoded, resize) at e in (src, decoded, ground arith, ground arith, ground arith)
]

process-ok :
    (c : Codec) (raw : Bytes) (most target : ℕ) (img : Image)
    → process c raw most target ≡ ok img
    → (h : Header) × (c.decode_config raw ≡ some h)
      × (check_header c h most ≡ none)
      × (resize c raw target ≡ ok img)
unfolding process
process-ok c [] most target img e = cc
process-ok c (b ∷ raw) most target img e = elim (Option-cases (c.decode_config (b ∷ raw))) [
  | inl failed ↦ let e' = rw (failed, process) at e in cc
  | inr (h, found) ↦
      let e' = rw (found, process) at e in
      elim (Option-cases (check_header c h most)) [
        | inl passed ↦ (h, found, passed, rw (passed) at e')
        | inr (x, refused) ↦ let e2 = rw refused at e' in cc
      ]
]

-- For a positive target, every image that `Process` returns is normalised: its header was of an
-- accepted format with positive sides within the limit, the bytes are the server's encoding of
-- the scaled picture, the digest is theirs, and both sides lie between 1 and the target.
pub process-IsNormalised :
    (c : Codec) (raw : Bytes) (most target : ℕ) (img : Image)
    → 0 < target
    → process c raw most target ≡ ok img
    → IsNormalised c raw most target img
process-IsNormalised c raw most target img pt e =
    let (h, found, passed, resized) = process-ok c raw most target img e in
    let (accepted, w0, w1, h0, h1) = check_header_passed c h most passed in
    let (src, decoded, pw, ph, published) = resize-ok c raw target img resized in
    let p = publish-IsPublished c src _ img published in
    let f = fit-Fits (c.width_of src) (c.height_of src) target pw ph pt in
    record {
      header = h;
      header_read = found;
      accepted = accepted;
      width_source = (w0, w1);
      height_source = (h0, h1);
      reencoded = (src, decoded, p.written);
      digest = p.digest;
      sides = (
        omega (arith, p.same_width, f.width_pos),
        omega (arith, p.same_width, f.width_max),
        omega (arith, p.same_height, f.height_pos),
        omega (arith, p.same_height, f.height_max),
      );
    }

check_header_large :
    (c : Codec) (h : Header) (most : ℕ)
    → is_accepted h.format ≡ true
    → 0 < h.width
    → 0 < h.height
    → (most < h.width) ⊎ (most < h.height)
    → check_header c h most ≡ some dimensions
unfolding check_header
check_header_large c h most accepted pw ph large = ground arith

-- A header of an accepted format that announces a side above the limit is refused with
-- ErrDimensions, whatever the decoder would do: the image is never decoded in full.
pub process_too_large :
    (c : Codec) (b : ℕ) (raw : Bytes) (h : Header) (most target : ℕ)
    → c.decode_config (b ∷ raw) ≡ some h
    → is_accepted h.format ≡ true
    → 0 < h.width
    → 0 < h.height
    → (most < h.width) ⊎ (most < h.height)
    → process c (b ∷ raw) most target ≡ err dimensions
unfolding process
process_too_large c b raw h most target found accepted pw ph large =
    rw (found, process) (rw (check_header_large c h most accepted pw ph large))
