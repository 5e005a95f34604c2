-- ===== src/Api/Validate/Text/Clean.antt =====
-- A text that `validText` accepts is clean, within its bounds, and accepted as it is.
use mathlib.Core.Path.{subst}
use spin_the_wheel.Prelude.{
  ℕ, ◌≤◌, ◌≡◌, ◌⊎◌, refl, sym, ap, ◌∙◌, true, false, ◌||◌, Option, none, some, [], ◌∷◌, Bytes, ltb,
  ◌==◌, length, All, arith, Bool-cases, Option-cases, inl, inr,
}
use spin_the_wheel.Utf8.{Runes, is_rune, encode}
use spin_the_wheel.Utf8.Decode.{decode}
use spin_the_wheel.Utf8.Decode.Whole.{AreRunes, decode_iff}
use spin_the_wheel.Api.Validate.Text.Plain.{IsPlain, space-IsPlain, plain, plain_tests}
use spin_the_wheel.Api.Validate.Text.{
  is_control, is_space, is_mark, clean_rune, put_rune, map_runes, trim_left, put_left, trim_right,
  clean_text, bounded, cleaned_text, valid_text,
}

-- No space at the start, and none at the end.
abbrev pub Starts : Runes → Type 0
Starts [] = Unit {0}
Starts (r ∷ rs) = is_space r ≡ false

abbrev pub Ends : Runes → Type 0
Ends [] = Unit {0}
Ends (r ∷ []) = is_space r ≡ false
Ends (r ∷ x ∷ xs) = Ends (x ∷ xs)

kept_rune : (r c : ℕ) → clean_rune r ≡ some c → (c ≡ 0x20) ⊎ ((c ≡ r) × IsPlain r)
unfolding clean_rune
kept_rune r c e = elim (Bool-cases ((r == 0x0a) || (r == 0x0d) || (r == 0x09))) [
  | inl h ↦ let e' = rw h at e in inl (cc)
  | inr h1 ↦ elim (Bool-cases (is_control r)) [
    | inl h ↦ let e' = rw (h1, h) at e in cc
    | inr h2 ↦ elim (Bool-cases (is_mark r)) [
      | inl h ↦ let e' = rw (h1, h2, h) at e in cc
      | inr h3 ↦ let e' = rw (h1, h2, h3) at e in inr (cc, plain r h2 h3)
    ]
  ]
]

clean_rune-IsPlain : (r c : ℕ) → clean_rune r ≡ some c → IsPlain c
clean_rune-IsPlain r c e = elim (kept_rune r c e) [
  | inl h ↦ subst IsPlain (sym h) space-IsPlain
  | inr h ↦ subst IsPlain (sym h.0) h.1
]

plain_fixed : (r : ℕ) → IsPlain r → clean_rune r ≡ some r
unfolding clean_rune is_control
plain_fixed r h = let (control, mark) = plain_tests r h in ground arith

is_rune-clean_rune : (r c : ℕ) → is_rune r ≡ true → clean_rune r ≡ some c → is_rune c ≡ true
unfolding is_rune
is_rune-clean_rune r c h e = elim (kept_rune r c e) [
  | inl space ↦ ground arith
  | inr same_rune ↦ ap is_rune same_rune.0 ∙ h
]

-- What each rune of a cleaned text has.
abbrev pub IsCleanRune : ℕ → Type 0
IsCleanRune r = (is_rune r ≡ true) × IsPlain r

map_runes-IsCleanRune : (rs : Runes) → AreRunes rs → All IsCleanRune (map_runes clean_rune rs)
unfolding map_runes
map_runes-IsCleanRune [] h = tt
map_runes-IsCleanRune (r ∷ rs) h = elim (Option-cases (clean_rune r)) [
  | inl gone ↦ rw gone (map_runes-IsCleanRune rs h.1)
  | inr (c, kept) ↦
      rw kept (
        (is_rune-clean_rune r c h.0 kept, clean_rune-IsPlain r c kept),
        map_runes-IsCleanRune rs h.1,
      )
]

All-trim_left : (P : ℕ → Type 0) (rs : Runes) → All P rs → All P (trim_left rs)
unfolding trim_left
All-trim_left P [] h = tt
All-trim_left P (r ∷ rs) h = elim (Bool-cases (is_space r)) [
  | inl space ↦ rw space (All-trim_left P rs h.1)
  | inr other ↦ rw other h
]

trim_left-Starts : (rs : Runes) → Starts (trim_left rs)
unfolding trim_left
trim_left-Starts [] = tt
trim_left-Starts (r ∷ rs) = elim (Bool-cases (is_space r)) [
  | inl space ↦ rw space (trim_left-Starts rs)
  | inr other ↦ rw other other
]

Starts-fixed : (rs : Runes) → Starts rs → trim_left rs ≡ rs
unfolding trim_left
Starts-fixed [] h = refl
Starts-fixed (r ∷ rs) h = rw h refl

All-put_left : (P : ℕ → Type 0) (r : ℕ) (rs : Runes) → P r → All P rs → All P (put_left r rs)
All-put_left P r [] p h = elim (Bool-cases (is_space r)) [
  | inl space ↦ rw space tt
  | inr other ↦ rw other (p, tt)
]
All-put_left P r (x ∷ xs) p h = (p, h)

All-trim_right : (P : ℕ → Type 0) (rs : Runes) → All P rs → All P (trim_right rs)
unfolding trim_right
All-trim_right P [] h = tt
All-trim_right P (r ∷ rs) h = All-put_left P r (trim_right rs) h.0 (All-trim_right P rs h.1)

put_left-Starts : (r : ℕ) (rs : Runes) → is_space r ≡ false → Starts (put_left r rs)
put_left-Starts r [] h = rw h h
put_left-Starts r (x ∷ xs) h = h

put_left-Ends : (r : ℕ) (rs : Runes) → Ends rs → Ends (put_left r rs)
put_left-Ends r [] h = elim (Bool-cases (is_space r)) [
  | inl space ↦ rw space tt
  | inr other ↦ rw other other
]
put_left-Ends r (x ∷ xs) h = h

trim_right-Starts : (rs : Runes) → Starts rs → Starts (trim_right rs)
unfolding trim_right
trim_right-Starts [] h = tt
trim_right-Starts (r ∷ rs) h = put_left-Starts r (trim_right rs) h

trim_right-Ends : (rs : Runes) → Ends (trim_right rs)
unfolding trim_right
trim_right-Ends [] = tt
trim_right-Ends (r ∷ rs) = put_left-Ends r (trim_right rs) (trim_right-Ends rs)

Ends-fixed : (rs : Runes) → Ends rs → trim_right rs ≡ rs
unfolding trim_right
Ends-fixed [] h = refl
Ends-fixed (r ∷ []) h = rw h refl
Ends-fixed (r ∷ x ∷ xs) h = ap (put_left r) (Ends-fixed (x ∷ xs) h)

plain_runes_fixed : (rs : Runes) → All IsCleanRune rs → map_runes clean_rune rs ≡ rs
unfolding map_runes
plain_runes_fixed [] h = refl
plain_runes_fixed (r ∷ rs) h =
    ap (λ o. put_rune o (map_runes clean_rune rs)) (plain_fixed r h.0.1)
    ∙ ap (λ xs. r ∷ xs) (plain_runes_fixed rs h.1)

-- A clean text: the encoding of plain runes, with no space around them, and as many as the bounds
-- allow.
pub record IsText (min_runes max_runes : ℕ) (t : Bytes) : Type 0 where
  pub runes : Runes
  pub encoded : t ≡ encode runes
  pub clean : All IsCleanRune runes
  pub starts : Starts runes
  pub ends : Ends runes
  pub at_least : min_runes ≤ length runes
  pub at_most : length runes ≤ max_runes

clean_text_fixed : (rs : Runes) → All IsCleanRune rs → Starts rs → Ends rs → clean_text rs ≡ rs
unfolding clean_text
clean_text_fixed rs clean starts ends =
    ap (λ xs. trim_right (trim_left xs)) (plain_runes_fixed rs clean)
    ∙ ap trim_right (Starts-fixed rs starts)
    ∙ Ends-fixed rs ends

bounded-eq-some :
    (low high : ℕ) (rs : Runes) (t : Bytes)
    → bounded low high rs ≡ some t
    → (t ≡ encode rs) × (low ≤ length rs) × (length rs ≤ high)
unfolding bounded
bounded-eq-some low high rs t e = elim (Bool-cases (ltb (length rs) low)) [
  | inl few ↦ let e' = rw few at e in cc
  | inr h1 ↦ elim (Bool-cases (ltb high (length rs))) [
    | inl many ↦ let e' = rw (h1, many) at e in cc
    | inr h2 ↦ let e' = rw (h1, h2) at e in (cc, ground arith, ground arith)
  ]
]

some_bounded :
    (low high : ℕ) (rs : Runes)
    → low ≤ length rs
    → length rs ≤ high
    → bounded low high rs ≡ some (encode rs)
unfolding bounded
some_bounded low high rs h1 h2 = ground arith

all_runes : (rs : Runes) → All IsCleanRune rs → AreRunes rs
all_runes [] h = tt
all_runes (r ∷ rs) h = (h.0.0, all_runes rs h.1)

cleaned-IsText :
    (s t : Bytes) (low high : ℕ) (o : Option Runes)
    → decode s ≡ o
    → cleaned_text low high o ≡ some t
    → IsText low high t × (cleaned_text low high (decode t) ≡ some t)
unfolding clean_text
cleaned-IsText s t low high none read e = cc
cleaned-IsText s t low high (some rs) read e =
    let cs = clean_text rs in
    let mapped = map_runes clean_rune rs in
    let (shown, enough, few) = bounded-eq-some low high cs t e in
    let clean =
      All-trim_right IsCleanRune (trim_left mapped) (
        All-trim_left IsCleanRune mapped (map_runes-IsCleanRune rs ((decode_iff s rs).0 read).1)) in
    let starts = trim_right-Starts (trim_left mapped) (trim_left-Starts mapped) in
    let ends = trim_right-Ends (trim_left mapped) in
    (
      record {
        runes = cs;
        encoded = shown;
        clean = clean;
        starts = starts;
        ends = ends;
        at_least = enough;
        at_most = few;
      },
      ap (cleaned_text low high) ((decode_iff t cs).1 (shown, all_runes cs clean))
          ∙ ap (bounded low high) (clean_text_fixed cs clean starts ends)
          ∙ some_bounded low high cs enough few
          ∙ ap some (sym shown),
    )

-- A text that `validText` returns is clean and within its bounds, and `validText` returns it again as
-- it is: it is the encoding of runes among which there is no control character and none of U+202A to
-- U+202E, U+2066 to U+2069, U+200E, U+200F and U+FEFF, with no space at either end, and there are as
-- many as the bounds allow. The mark U+061C is not one of those.
pub valid_text-IsText :
    (s t : Bytes) (min_runes max_runes : ℕ)
    → valid_text s min_runes max_runes ≡ some t
    → IsText min_runes max_runes t × (valid_text t min_runes max_runes ≡ some t)
unfolding valid_text
valid_text-IsText s t min_runes max_runes = cleaned-IsText s t min_runes max_runes (decode s) refl
