-- ===== src/Api/Validate.antt =====
-- The validation of what users send, and `validColor` of backend/internal/api/validate.go.
-- `strings.TrimSpace` is the parameter `trim`.
pub mod Text
pub mod Email
mod Tests
use mathlib.Core.Path.{subst}
use spin_the_wheel.Prelude.{
  ℕ, ◌+◌, ◌≡◌, refl, ◌∙◌, Bool, true, false, ◌&&◌, ◌||◌, Option, none, some, [], ◌∷◌, map, Bytes,
  between, ◌==◌, all, All, length, if◌then◌else◌, if-eq-some, and-eq-true, arith,
}

-- [0-9a-fA-F]
unfoldable pub is_hex : ℕ → Bool
is_hex c = between 0x30 0x39 c || between 0x61 0x66 c || between 0x41 0x46 c

-- `colorRe`: ^#[0-9a-fA-F]{6}$
unfoldable pub matches_color : Bytes → Bool
unfolding is_hex
matches_color [] = false
matches_color (c ∷ cs) = (c == 0x23) && (length cs == 6) && all is_hex cs

-- `strings.ToLower` on the ASCII text that the expression matches.
unfoldable pub lower_byte : ℕ → ℕ
lower_byte c = if between 0x41 0x5a c then c + 32 else c

module _ (trim : Bytes → Bytes) where
  -- `validColor`
  unfoldable pub valid_color : Bytes → Option Bytes
  unfolding matches_color lower_byte
  valid_color s = if matches_color (trim s) then some (map lower_byte (trim s)) else none

-- [0-9a-f]
abbrev pub IsLowerHex : ℕ → Type 0
IsLowerHex c = between 0x30 0x39 c || between 0x61 0x66 c ≡ true

-- #rrggbb in lower case.
abbrev pub IsColor : Bytes → Type 0
IsColor [] = ⊥
IsColor (c ∷ cs) = (c ≡ 0x23) × (length cs ≡ 6) × All IsLowerHex cs

lower_byte-IsLowerHex : (c : ℕ) → is_hex c ≡ true → IsLowerHex (lower_byte c)
unfolding is_hex lower_byte
lower_byte-IsLowerHex c h = ground arith

lower_bytes-IsLowerHex :
    (cs : Bytes)
    → all is_hex cs ≡ true
    → All IsLowerHex (map lower_byte cs) × (length (map lower_byte cs) ≡ length cs)
lower_bytes-IsLowerHex [] h = (tt, refl)
lower_bytes-IsLowerHex (c ∷ cs) h =
    let (first, others) = and-eq-true (is_hex c) (all is_hex cs) h in
    let (rest, same_length) = lower_bytes-IsLowerHex cs others in
    ((lower_byte-IsLowerHex c first, rest), rw same_length)

lowered-IsColor : (cs : Bytes) → matches_color cs ≡ true → IsColor (map lower_byte cs)
unfolding matches_color lower_byte
lowered-IsColor [] h = absurd (ground arith)
lowered-IsColor (c ∷ cs) h =
    let (shape, digits) = and-eq-true ((c == 0x23) && (length cs == 6)) (all is_hex cs) h in
    let (hash, six) = and-eq-true (c == 0x23) (length cs == 6) shape in
    let (rest, same_length) = lower_bytes-IsLowerHex cs digits in
    (ground arith, same_length ∙ ground arith, rest)

-- Whatever text it is given, a colour that `validColor` returns is # and six hexadecimal digits in
-- lower case.
pub valid_color-IsColor :
    (trim : Bytes → Bytes) (s c : Bytes) → valid_color trim s ≡ some c → IsColor c
unfolding valid_color
valid_color-IsColor trim s c e =
    let (matched, same_text) =
      if-eq-some (matches_color (trim s)) (some (map lower_byte (trim s))) e in
    let shown : map lower_byte (trim s) ≡ c = cc in
    subst IsColor shown (lowered-IsColor (trim s) matched)
