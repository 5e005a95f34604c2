-- ===== src/Api/Validate/Tests.antt =====
-- Texts and addresses that are accepted and refused, and the theorems at them.
use spin_the_wheel.Prelude.{◌≡◌, ◌↔◌, refl, true, none, some, [], ◌∷◌, ◌++◌, text}
use spin_the_wheel.Utf8.{encode, encode_rune, rune_bytes, is_rune}
use spin_the_wheel.Utf8.Decode.{two_bytes, three_bytes, next_rune, decode_steps, decode}
use spin_the_wheel.Api.Validate.Text.{
  is_control, is_space, is_mark, clean_rune, map_runes, trim_left, trim_right, clean_text, bounded,
  valid_text,
}
use spin_the_wheel.Api.Validate.Text.Clean.{IsText, valid_text-IsText}
use spin_the_wheel.Api.Validate.Email.{
  is_letter, is_domain, is_local, matches_top, matches_domain, matches_host, matches_local,
  matches_email, valid_email,
}
use spin_the_wheel.Api.Validate.Email.Matches.{IsEmail, matches_email_iff}

running : Unit {0}
unfolding encode encode_rune rune_bytes is_rune two_bytes three_bytes next_rune decode_steps decode
    is_control is_space is_mark clean_rune map_runes trim_left trim_right clean_text bounded
    valid_text is_letter is_domain is_local matches_top matches_domain matches_host matches_local
    matches_email valid_email
running = tt

-- A text with spaces around it, a bell, a line feed, and a mark of direction in the middle.
trimmed : valid_text (text " a\n" ++ 0x07 ∷ 0xe2 ∷ 0x80 ∷ 0xae ∷ text "b ") 1 10 ≡ some (text "a b")
unfolding running
trimmed = refl

only_spaces : valid_text (text "  ") 1 10 ≡ none
unfolding running
only_spaces = refl

ill_formed : valid_text (0xff ∷ []) 0 10 ≡ none
unfolding running
ill_formed = refl

-- U+061C, a mark of direction that is none of those of `cleanText`.
arabic_letter_mark : valid_text (0xd8 ∷ 0x9c ∷ []) 1 10 ≡ some (0xd8 ∷ 0x9c ∷ [])
unfolding running
arabic_letter_mark = refl

valid_text-IsText_example :
    IsText 1 10 (text "a b") × (valid_text (text "a b") 1 10 ≡ some (text "a b"))
valid_text-IsText_example =
    valid_text-IsText (text " a\n" ++ 0x07 ∷ 0xe2 ∷ 0x80 ∷ 0xae ∷ text "b ") (text "a b") 1 10
      trimmed

accepted : valid_email (λ s. s) (λ s. s) (text "ann.b@x.co.fr") ≡ some (text "ann.b@x.co.fr")
unfolding running
accepted = refl

no_top : valid_email (λ s. s) (λ s. s) (text "ann@x") ≡ none
unfolding running
no_top = refl

two_signs : valid_email (λ s. s) (λ s. s) (text "ann@b@x.fr") ≡ none
unfolding running
two_signs = refl

matches_email_iff_example : (matches_email (text "a@b.fr") ≡ true) ↔ IsEmail (text "a@b.fr")
matches_email_iff_example = matches_email_iff (text "a@b.fr")
