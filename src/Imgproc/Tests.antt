-- ===== src/Imgproc/Tests.antt =====
-- Runs of the image checks, and the theorems at a codec of one pixel format.
use spin_the_wheel.Prelude.{
  ℕ, ◌≡◌, refl, Option, none, some, [], ◌∷◌, arith, Bytes, text, same, true,
}
use spin_the_wheel.Imgproc.{
  empty, Image, ok, err, Header, Codec, is_accepted, fit, publish, resize, check_header, process,
}
use spin_the_wheel.Imgproc.Laws.{IsNormalised, process-IsNormalised}

-- A codec whose files are two bytes, the sides, and whose pictures are their sides.
abbrev read_sides : Bytes → Option (ℕ × ℕ)
read_sides (w ∷ h ∷ []) = some (w, h)
read_sides _ = none

abbrev read_header : Bytes → Option Header
read_header (w ∷ h ∷ []) = some (record { width = w; height = h; format = text "png" })
read_header _ = none

abbrev toy : Codec
toy = record {
  Picture = ℕ × ℕ;
  decode_config = read_header;
  decode = read_sides;
  width_of = λ p. p.0;
  height_of = λ p. p.1;
  scale = λ p w h. (w, h);
  encode_png = λ p. some (p.0 ∷ p.1 ∷ []);
  sha256_sum = λ b. b;
}

running : Unit {0}
unfolding process check_header resize publish fit is_accepted same
running = tt

abbrev small : Image
small = record { png = 10 ∷ 5 ∷ []; width = 10; height = 5; sha256 = 10 ∷ 5 ∷ [] }

halved : process toy (40 ∷ 20 ∷ []) 50 10 ≡ ok small
unfolding running
halved = refl

nothing : process toy [] 50 10 ≡ err empty
unfolding running
nothing = refl

narrow : fit 1000 1 10 ≡ (10, 1)
unfolding running
narrow = refl

process-IsNormalised_example : IsNormalised toy (40 ∷ 20 ∷ []) 50 10 small
process-IsNormalised_example =
    process-IsNormalised toy (40 ∷ 20 ∷ []) 50 10 small (omega arith) halved

png_accepted : is_accepted (text "png") ≡ true
unfolding running
png_accepted = refl
