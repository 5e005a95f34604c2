-- ===== src/Utf8/Decode/Whole.antt =====
-- The loop over a text: it reads the runes of every encoding, and of nothing else.
use mathlib.Core.Option
use mathlib.Core.Path.{subst}
use spin_the_wheel.Prelude.{
  ℕ, zero, suc, ◌≤◌, ◌≡◌, ◌↔◌, refl, ap, ◌∙◌, true, Option, none, some, [], ◌∷◌, ◌++◌, Bytes,
  length, length-append, arith, All,
}
use spin_the_wheel.Utf8.{Runes, is_rune, rune_bytes, encode_rune, encode}
use spin_the_wheel.Utf8.Laws.{length-encode_rune}
use spin_the_wheel.Utf8.Decode.{next_rune, prepend, decode_steps, decode}
use spin_the_wheel.Utf8.Decode.Exact.{next_rune-encode_rune, next_rune-IsRead, IsRead}

-- Runes that UTF-8 can encode.
abbrev pub AreRunes : Runes → Type 0
AreRunes rs = All (λ r. is_rune r ≡ true) rs

nothing_read : next_rune [] ≡ none
unfolding next_rune
nothing_read = refl

decode_steps-read :
    (n : ℕ) (s : Bytes) (r : ℕ) (rest : Bytes)
    → next_rune s ≡ some (r, rest)
    → decode_steps (suc n) s ≡ Option.map (λ rs. r ∷ rs) (decode_steps n rest)
unfolding decode_steps
decode_steps-read n [] r rest e = let none_read = nothing_read in cc
decode_steps-read n (b ∷ bs) r rest e = ap (λ o. prepend o (decode_steps n)) e

decode_steps-encode :
    (rs : Runes) (n : ℕ)
    → AreRunes rs
    → length (encode rs) ≤ n
    → decode_steps n (encode rs) ≡ some rs
unfolding encode decode_steps
decode_steps-encode [] n valid fuel = refl
decode_steps-encode (r ∷ rs) zero valid fuel =
    absurd (omega (arith, length-encode_rune r, length-append (encode_rune r) (encode rs)))
decode_steps-encode (r ∷ rs) (suc n) valid fuel =
    decode_steps-read n (encode_rune r ++ encode rs) r (encode rs)
      (next_rune-encode_rune r (encode rs) valid.0)
    ∙ ap (Option.map (λ rs. r ∷ rs)) (
        decode_steps-encode rs n valid.1
          (omega (arith, length-encode_rune r, length-append (encode_rune r) (encode rs))))

abbrev IsDecoded : Bytes → Option Runes → Type 0
IsDecoded s none = Unit {0}
IsDecoded s (some rs) = (s ≡ encode rs) × AreRunes rs

IsDecoded-cons :
    (s rest : Bytes) (r : ℕ) (o : Option Runes)
    → is_rune r ≡ true
    → s ≡ rune_bytes r ++ rest
    → IsDecoded rest o
    → IsDecoded s (Option.map (λ rs. r ∷ rs) o)
unfolding encode encode_rune
IsDecoded-cons s rest r none valid e h = tt
IsDecoded-cons s rest r (some rs) valid e (same_rest, valids) =
    (rw valid (e ∙ ap (λ xs. rune_bytes r ++ xs) same_rest), (valid, valids))

decode_steps-IsDecoded : (n : ℕ) (s : Bytes) → IsDecoded s (decode_steps n s)
unfolding decode_steps encode
decode_steps-IsDecoded zero [] = (refl, tt)
decode_steps-IsDecoded (suc n) [] = (refl, tt)
decode_steps-IsDecoded zero (b ∷ bs) = tt
decode_steps-IsDecoded (suc n) (b ∷ bs) =
    elim (next_rune (b ∷ bs))
        as (λ o. IsRead (b ∷ bs) o → IsDecoded (b ∷ bs) (prepend o (decode_steps n))) [
          | none ↦ λ _. tt
          | some (r, rest) ↦ λ read.
              IsDecoded-cons (b ∷ bs) rest r (decode_steps n rest) read.0 read.1
                (decode_steps-IsDecoded n rest)
        ]
      (next_rune-IsRead (b ∷ bs))

-- A text is read as a list of runes exactly where it is their encoding and each is a rune that UTF-8
-- can encode.
pub decode_iff : (s : Bytes) (rs : Runes) → (decode s ≡ some rs) ↔ ((s ≡ encode rs) × AreRunes rs)
unfolding decode
decode_iff s rs = (
  λ e. subst (IsDecoded s) e (decode_steps-IsDecoded (length s) s),
  λ h.
      ap (λ x. decode_steps (length x) x) h.0
      ∙ decode_steps-encode rs (length (encode rs)) h.1 (omega arith),
)
