-- ===== src/Api/Validate/Text.antt =====
-- Texts that users enter: `cleanText` and `validText` of backend/internal/api/validate.go, with
-- unicode.IsControl and unicode.IsSpace written out.
pub mod Clean
pub mod Plain
use spin_the_wheel.Prelude.{
  ℕ, ◌≡◌, Bool, true, false, ◌&&◌, ◌||◌, Option, none, some, [], ◌∷◌, Bytes, ltb, between, ◌==◌,
  if◌then◌else◌, length,
}
use spin_the_wheel.Utf8.{Runes, encode}
use spin_the_wheel.Utf8.Decode.{decode}

-- `unicode.IsControl`
unfoldable pub is_control : ℕ → Bool
is_control r = ltb r 0x20 || between 0x7f 0x9f r

-- `unicode.IsSpace`
unfoldable pub is_space : ℕ → Bool
is_space r =
    between 0x09 0x0d r
    || (r == 0x20)
    || (r == 0x85)
    || (r == 0xa0)
    || (r == 0x1680)
    || between 0x2000 0x200a r
    || between 0x2028 0x2029 r
    || (r == 0x202f)
    || (r == 0x205f)
    || (r == 0x3000)

-- Marks of direction, and the byte order mark.
unfoldable pub is_mark : ℕ → Bool
is_mark r =
    between 0x202a 0x202e r
    || between 0x2066 0x2069 r
    || (r == 0x200e)
    || (r == 0x200f)
    || (r == 0xfeff)

-- The function that `cleanText` maps over a text; nothing stands for -1.
unfoldable pub clean_rune : ℕ → Option ℕ
unfolding is_control is_mark
clean_rune r =
    if (r == 0x0a) || (r == 0x0d) || (r == 0x09)
    then some 0x20
    else if is_control r
    then none
    else if is_mark r
    then none
    else some r

-- `strings.Map`
abbrev pub put_rune : Option ℕ → Runes → Runes
put_rune none rs = rs
put_rune (some r) rs = r ∷ rs

unfoldable pub map_runes : (ℕ → Option ℕ) → Runes → Runes
map_runes f [] = []
map_runes f (r ∷ rs) = put_rune (f r) (map_runes f rs)

-- `strings.TrimSpace`, on the left and on the right.
unfoldable pub trim_left : Runes → Runes
unfolding is_space
trim_left [] = []
trim_left (r ∷ rs) = let rest = trim_left rs in if is_space r then rest else r ∷ rs

abbrev pub put_left : ℕ → Runes → Runes
put_left r [] = if is_space r then [] else r ∷ []
put_left r (x ∷ xs) = r ∷ x ∷ xs

unfoldable pub trim_right : Runes → Runes
trim_right [] = []
trim_right (r ∷ rs) = put_left r (trim_right rs)

-- `cleanText`
unfoldable pub clean_text : Runes → Runes
unfolding map_runes clean_rune trim_left trim_right
clean_text rs = trim_right (trim_left (map_runes clean_rune rs))

unfoldable pub bounded : ℕ → ℕ → Runes → Option Bytes
bounded min_runes max_runes rs =
    if ltb (length rs) min_runes
    then none
    else if ltb max_runes (length rs)
    then none
    else some (encode rs)

abbrev pub cleaned_text : ℕ → ℕ → Option Runes → Option Bytes
cleaned_text min_runes max_runes none = none
cleaned_text min_runes max_runes (some rs) = bounded min_runes max_runes (clean_text rs)

-- `validText`
unfoldable pub valid_text : Bytes → ℕ → ℕ → Option Bytes
unfolding bounded clean_text
valid_text s min_runes max_runes = cleaned_text min_runes max_runes (decode s)
