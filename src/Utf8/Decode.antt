-- ===== src/Utf8/Decode.antt =====
-- Reading UTF-8: the runes of a text, one after the other, as Go's `range` and unicode/utf8 read
-- them. An ill-formed text has none: `utf8.ValidString` says which is one.
pub mod Exact
pub mod Whole
use mathlib.Core.Option
use spin_the_wheel.Prelude.{
  ℕ, zero, suc, ◌+◌, ◌-◌, ◌*◌, Bool, true, false, ◌&&◌, Option, none, some, List, [], ◌∷◌, Bytes,
  ltb, between, ◌==◌, if◌then◌else◌, length,
}
use spin_the_wheel.Utf8.{Runes}

-- A continuation byte.
abbrev pub is_tail : ℕ → Bool
is_tail c = between 0x80 0xbf c

unfoldable pub two_bytes : ℕ → Bytes → Option (ℕ × Bytes)
two_bytes b (c ∷ bs) = if is_tail c then some ((b - 0xc0) * 64 + (c - 0x80), bs) else none
two_bytes b _ = none

-- No surrogate, and nothing that two bytes can say.
unfoldable pub three_bytes : ℕ → Bytes → Option (ℕ × Bytes)
three_bytes b (c ∷ d ∷ bs) =
    if between (if b == 0xe0 then 0xa0 else 0x80) (if b == 0xed then 0x9f else 0xbf) c && is_tail d
    then some ((b - 0xe0) * 4096 + (c - 0x80) * 64 + (d - 0x80), bs)
    else none
three_bytes b _ = none

-- Nothing above 0x10FFFF, and nothing that three bytes can say.
unfoldable pub four_bytes : ℕ → Bytes → Option (ℕ × Bytes)
four_bytes b (c ∷ d ∷ e ∷ bs) =
    if between (if b == 0xf0 then 0x90 else 0x80) (if b == 0xf4 then 0x8f else 0xbf) c
      && (is_tail d && is_tail e)
    then some ((b - 0xf0) * 262144 + (c - 0x80) * 4096 + (d - 0x80) * 64 + (e - 0x80), bs)
    else none
four_bytes b _ = none

-- `utf8.DecodeRune`: the first rune and the rest, or nothing where it finds an error.
unfoldable pub next_rune : Bytes → Option (ℕ × Bytes)
unfolding two_bytes three_bytes four_bytes
next_rune [] = none
next_rune (b ∷ bs) =
    if ltb b 0x80
    then some (b, bs)
    else if between 0xc2 0xdf b
    then two_bytes b bs
    else if between 0xe0 0xef b
    then three_bytes b bs
    else if between 0xf0 0xf4 b
    then four_bytes b bs
    else none

-- One round of the loop, with the rounds behind it.
abbrev pub prepend : Option (ℕ × Bytes) → (Bytes → Option Runes) → Option Runes
prepend none rest = none
prepend (some (r, bs)) rest = Option.map (λ rs. r ∷ rs) (rest bs)

-- The loop over a text, on fuel.
unfoldable pub decode_steps : ℕ → Bytes → Option Runes
decode_steps n [] = some []
decode_steps zero (b ∷ bs) = none
decode_steps (suc n) (b ∷ bs) = prepend (next_rune (b ∷ bs)) (decode_steps n)

-- The runes of a text; a rune takes a byte at least, so its length is fuel enough.
unfoldable pub decode : Bytes → Option Runes
unfolding decode_steps
decode s = decode_steps (length s) s
