-- ===== src/Api/Validate/Text/Plain.antt =====
-- The runes that `cleanText` lets through, by their ranges: what its two tests leave.
use spin_the_wheel.Prelude.{
  ℕ, ◌≤◌, ◌<◌, ◌≡◌, ◌≢◌, ◌⊎◌, refl, Bool, true, false, ◌||◌, between, ltb, ◌==◌, arith, Bool-cases,
  inl, inr,
}
use spin_the_wheel.Api.Validate.Text.{is_control, is_mark}

-- Outside a range.
abbrev pub IsOutside : ℕ → ℕ → ℕ → Type 0
IsOutside low high r = (r < low) ⊎ (high < r)

-- No control character, and none of U+202A to U+202E, U+2066 to U+2069, U+200E, U+200F and U+FEFF.
abbrev pub IsPlain : ℕ → Type 0
IsPlain r =
    (0x20 ≤ r)
    × IsOutside 0x7f 0x9f r
    × IsOutside 0x202a 0x202e r
    × IsOutside 0x2066 0x2069 r
    × IsOutside 0x200e 0x200f r
    × (r ≢ 0xfeff)

pub space-IsPlain : IsPlain 0x20
space-IsPlain = (
  omega arith,
  inl (omega arith),
  inl (omega arith),
  inl (omega arith),
  inl (omega arith),
  omega arith,
)

outside : (low high r : ℕ) → between low high r ≡ false → IsOutside low high r
outside low high r h = elim (Bool-cases (ltb r low)) [
  | inl below ↦ inl (ground arith)
  | inr above ↦ inr (ground arith)
]

or-false : (a b : Bool) → (a || b) ≡ false → (a ≡ false) × (b ≡ false)
or-false true b e = cc
or-false false b e = (refl, e)

pub plain : (r : ℕ) → is_control r ≡ false → is_mark r ≡ false → IsPlain r
unfolding is_control is_mark
plain r h k =
    let (low, control) = or-false (ltb r 0x20) _ h in
    let (k1, e) = or-false _ (r == 0xfeff) k in
    let (k2, d) = or-false _ (r == 0x200f) k1 in
    let (k3, c) = or-false _ (r == 0x200e) k2 in
    let (a, b) = or-false (between 0x202a 0x202e r) (between 0x2066 0x2069 r) k3 in
    let other : between 0x200e 0x200f r ≡ false = ground arith in
    (
      ground arith,
      outside 0x7f 0x9f r control,
      outside 0x202a 0x202e r a,
      outside 0x2066 0x2069 r b,
      outside 0x200e 0x200f r other,
      ground arith,
    )

outside_between : (low high r : ℕ) → IsOutside low high r → between low high r ≡ false
outside_between low high r (inl below) = ground arith
outside_between low high r (inr above) = ground arith

pub plain_tests : (r : ℕ) → IsPlain r → (is_control r ≡ false) × (is_mark r ≡ false)
unfolding is_control is_mark
plain_tests r (c, d, e, f, g, b) =
    let low : ltb r 0x20 ≡ false = ground arith in
    let left : (r == 0x200e) ≡ false = let g' = outside_between 0x200e 0x200f r g in ground arith in
    let right : (r == 0x200f) ≡ false =
      let g' = outside_between 0x200e 0x200f r g in ground arith in
    let bom : (r == 0xfeff) ≡ false = ground arith in
    (
      rw (low, outside_between 0x7f 0x9f r d) refl,
      rw (outside_between 0x202a 0x202e r e, outside_between 0x2066 0x2069 r f, left, right, bom)
          refl,
    )
