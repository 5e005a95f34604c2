-- ===== src/Uid/Tests.antt =====
-- Runs of the UUID code, and the theorems at concrete inputs.
use spin_the_wheel.Prelude.{
  ◌≡◌, refl, arith, none, some, [], ◌∷◌, map, Bytes, AreBytes, text, length,
}
use spin_the_wheel.Uid.{new_at, set_version, set_variant, time, string, parse}
use spin_the_wheel.Uid.Order.{Precedes}
use spin_the_wheel.Uid.Hex.{lower_digit}
use spin_the_wheel.Uid.Stamp.{IsVersion7, time-new_at, new_at-IsVersion7, new_at-Precedes}
use spin_the_wheel.Uid.Text.{string-parse}

abbrev drawn : Bytes
drawn = 0xff ∷ 1 ∷ 0xff ∷ 3 ∷ 4 ∷ 5 ∷ 6 ∷ 7 ∷ 8 ∷ 9 ∷ []

abbrev sample : Bytes
sample = 0x01 ∷ 0x8f ∷ 0 ∷ 0 ∷ 0xab ∷ 0xcd ∷ 0x7f ∷ 1 ∷ 0xbf ∷ 3 ∷ 4 ∷ 5 ∷ 6 ∷ 7 ∷ 8 ∷ 9 ∷ []

stamped : new_at 0x018f0000abcd drawn ≡ sample
unfolding new_at set_version set_variant
stamped = refl

printed : string sample ≡ text "018f0000-abcd-7f01-bf03-040506070809"
unfolding string
printed = refl

refused : parse (text "018f0000abcd-7f01-bf03-040506070809-") ≡ none
unfolding parse
refused = refl

time-new_at_example : time (new_at 1732600000000 drawn) ≡ 1732600000000
time-new_at_example = time-new_at 1732600000000 drawn (omega arith)

new_at-IsVersion7_example : IsVersion7 (new_at 5 drawn)
new_at-IsVersion7_example = new_at-IsVersion7 5 drawn refl (omega arith)

new_at-Precedes_example : Precedes (new_at 255 drawn) (new_at 256 drawn)
new_at-Precedes_example = new_at-Precedes 255 256 drawn drawn (omega arith) (omega arith)

upper_accepted : parse (text "018F0000-abcd-7F01-bf03-040506070809") ≡ some sample
unfolding parse
upper_accepted = refl

string-parse_example :
    (length sample ≡ 16)
    × AreBytes sample
    × (string sample ≡ map lower_digit (text "018F0000-abcd-7F01-bf03-040506070809"))
string-parse_example =
    string-parse (text "018F0000-abcd-7F01-bf03-040506070809") sample upper_accepted
