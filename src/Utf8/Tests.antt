-- ===== src/Utf8/Tests.antt =====
-- Runs of the cut, and its theorems at a text with a character of two bytes.
use spin_the_wheel.Prelude.{◌≡◌, refl, none, [], ◌∷◌}
use spin_the_wheel.Utf8.Decode.{three_bytes, next_rune, decode_steps, decode}
use spin_the_wheel.Utf8.{Runes, encode, encode_rune, rune_bytes, truncate}
use spin_the_wheel.Utf8.Cut.{fitting_prefix, truncate-encode}

-- "aé"
abbrev word : Runes
word = 0x61 ∷ 0xe9 ∷ []

encoded : encode word ≡ 0x61 ∷ 0xc3 ∷ 0xa9 ∷ []
unfolding encode encode_rune rune_bytes
encoded = refl

cut : truncate (encode word) 2 ≡ 0x61 ∷ []
unfolding encode encode_rune rune_bytes truncate
cut = refl

truncate-encode_example : truncate (encode word) 2 ≡ encode (fitting_prefix word 2)
truncate-encode_example = truncate-encode word 2

-- An overlong slash, and a surrogate.
overlong : decode (0xc0 ∷ 0xaf ∷ []) ≡ none
unfolding decode decode_steps next_rune
overlong = refl

surrogate : decode (0xed ∷ 0xa0 ∷ 0x80 ∷ []) ≡ none
unfolding decode decode_steps next_rune three_bytes
surrogate = refl
