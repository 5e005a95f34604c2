-- ===== src/Utf8/Cut.antt =====
-- `truncate` keeps the longest prefix of whole runes that fits.
use spin_the_wheel.Prelude.{
  ℕ, zero, suc, ◌+◌, ◌-◌, ◌≤◌, ◌<◌, ◌≡◌, refl, ap, ◌∙◌, true, false, [], ◌∷◌, ◌++◌, arith, Bytes,
  leb, leb→le, le→leb, length, get_or, take, All, if◌then◌else◌, Bool-cases, inl, inr,
  length-append,
}
use spin_the_wheel.Utf8.{Runes, rune_start, encode_rune, encode, cut_position, truncate}
use spin_the_wheel.Utf8.Laws.{IsCharacter, encode_rune-IsCharacter, length-encode_rune}

-- The longest prefix whose encoding has at most `n` bytes.
unfoldable pub fitting_prefix : Runes → ℕ → Runes
fitting_prefix [] n = []
fitting_prefix (r ∷ rs) n =
    let rest = fitting_prefix rs (n - length (encode_rune r)) in
    if leb (length (encode_rune r)) n then r ∷ rest else []

get_or-append : (c s : Bytes) (p i d : ℕ) → p ≡ length c + i → get_or (c ++ s) p d ≡ get_or s i d
get_or-append [] s p i d e = ap (λ (j : ℕ). get_or s j d) (omega arith)
get_or-append (b ∷ c) s zero i d e = absurd (omega arith)
get_or-append (b ∷ c) s (suc p) i d e = get_or-append c s p i d (omega arith)

take-append : (c s : Bytes) (p i : ℕ) → p ≡ length c + i → take p (c ++ s) ≡ c ++ take i s
take-append [] s p i e = ap (λ (j : ℕ). take j s) (omega arith)
take-append (b ∷ c) s zero i e = absurd (omega arith)
take-append (b ∷ c) s (suc p) i e = ap (λ t. b ∷ t) (take-append c s p i (omega arith))

continuation_inside :
    (bs s : Bytes) (n d : ℕ)
    → All (λ c. rune_start c ≡ false) bs
    → n < length bs
    → rune_start (get_or (bs ++ s) n d) ≡ false
continuation_inside [] s n d h lt = absurd (omega arith)
continuation_inside (b ∷ bs) s zero d (h, hs) lt = h
continuation_inside (b ∷ bs) s (suc n) d (h, hs) lt = continuation_inside bs s n d hs (omega arith)

-- A position inside the first character goes back to its start.
cut_position_inside :
    (b : ℕ) (bs s : Bytes) (n : ℕ)
    → All (λ c. rune_start c ≡ false) bs
    → n ≤ length bs
    → cut_position (b ∷ (bs ++ s)) n ≡ 0
unfolding cut_position
cut_position_inside b bs s zero h le = refl
cut_position_inside b bs s (suc n) h le =
    rw (continuation_inside bs s n 0 h le) (cut_position_inside b bs s n h (omega arith))

-- A position behind the first character stays behind it.
cut_position_behind :
    (c s : Bytes) (p i : ℕ)
    → 0 < length c
    → rune_start (get_or s 0 0) ≡ true
    → p ≡ length c + i
    → cut_position (c ++ s) p ≡ length c + cut_position s i
unfolding cut_position
cut_position_behind c s zero i pos start e = absurd (omega arith)
cut_position_behind c s (suc p) zero pos start e =
    rw (get_or-append c s (suc p) zero 0 e, start) (omega arith)
cut_position_behind c s (suc p) (suc i) pos start e =
    let back = cut_position_behind c s p i pos start (omega arith) in
    elim (Bool-cases (rune_start (get_or s (suc i) 0))) [
      | inl h ↦ rw (get_or-append c s (suc p) (suc i) 0 e, h) (omega arith)
      | inr h ↦ rw (get_or-append c s (suc p) (suc i) 0 e, h) back
    ]

-- A text of whole characters starts with a start byte, or is empty.
character_start : (c s : Bytes) → IsCharacter c → rune_start (get_or (c ++ s) 0 0) ≡ true
character_start [] s h = absurd h
character_start (b ∷ bs) s h = h.0

encode_start : (rs : Runes) → rune_start (get_or (encode rs) 0 0) ≡ true
unfolding encode rune_start
encode_start [] = refl
encode_start (r ∷ rs) = character_start (encode_rune r) (encode rs) (encode_rune-IsCharacter r)

take_inside :
    (c s : Bytes) (n : ℕ)
    → IsCharacter c
    → n < length c
    → take (cut_position (c ++ s) n) (c ++ s) ≡ []
take_inside [] s n h lt = absurd h
take_inside (b ∷ bs) s n (start, h) lt = rw (cut_position_inside b bs s n h (omega arith))

take_behind :
    (c s : Bytes) (n : ℕ)
    → 0 < length c
    → rune_start (get_or s 0 0) ≡ true
    → length c ≤ n
    → take (cut_position (c ++ s) n) (c ++ s) ≡ c ++ take (cut_position s (n - length c)) s
take_behind c s n pos start le =
    take-append c s (cut_position (c ++ s) n) (cut_position s (n - length c))
      (cut_position_behind c s n (n - length c) pos start (omega arith))

take_nil : (n : ℕ) → take {A = ℕ} n [] ≡ []
take_nil zero = refl
take_nil (suc n) = refl

take-cut_position :
    (rs : Runes) (n : ℕ)
    → take (cut_position (encode rs) n) (encode rs) ≡ encode (fitting_prefix rs n)
unfolding encode fitting_prefix
take-cut_position [] n = take_nil (cut_position [] n)
take-cut_position (r ∷ rs) n = elim (Bool-cases (leb (length (encode_rune r)) n)) [
  | inl fits ↦ rw fits (
      take_behind (encode_rune r) (encode rs) n (length-encode_rune r).0 (encode_start rs)
        (leb→le _ _ fits)
      ∙ ap (λ t. encode_rune r ++ t) (take-cut_position rs (n - length (encode_rune r))))
  | inr over ↦
      rw over (take_inside (encode_rune r) (encode rs) n (encode_rune-IsCharacter r) (ground arith))
]

pub fitting_prefix_all : (rs : Runes) (n : ℕ) → length (encode rs) ≤ n → fitting_prefix rs n ≡ rs
unfolding encode fitting_prefix
fitting_prefix_all [] n h = refl
fitting_prefix_all (r ∷ rs) n h =
    let total = length-append (encode_rune r) (encode rs) in
    rw (le→leb (length (encode_rune r)) n (omega arith))
      (ap (λ t. r ∷ t) (fitting_prefix_all rs (n - length (encode_rune r)) (omega arith)))

-- Of a text of whole runes `truncate` keeps a text of whole runes, the longest prefix of at most
-- `n` bytes: it never leaves a part of a character.
pub truncate-encode : (rs : Runes) (n : ℕ) → truncate (encode rs) n ≡ encode (fitting_prefix rs n)
unfolding truncate
truncate-encode rs n = elim (Bool-cases (leb (length (encode rs)) n)) [
  | inl short ↦ rw (short, fitting_prefix_all rs n (leb→le _ _ short))
  | inr long ↦ rw long (take-cut_position rs n)
]

cut_position-le : (s : Bytes) (n : ℕ) → cut_position s n ≤ n
unfolding cut_position
cut_position-le s zero = omega arith
cut_position-le s (suc n) = ground (arith, cut_position-le s n)

length-take-le : (n : ℕ) (s : Bytes) → length (take n s) ≤ n
length-take-le zero s = omega arith
length-take-le (suc n) [] = omega arith
length-take-le (suc n) (b ∷ s) = omega (arith, length-take-le n s)

-- Whatever bytes it is given, `truncate` returns at most `n` of them.
pub length-truncate-le : (s : Bytes) (n : ℕ) → length (truncate s n) ≤ n
unfolding truncate
length-truncate-le s n = ground (arith, length-take-le (cut_position s n) s, cut_position-le s n)
