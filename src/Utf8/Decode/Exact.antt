-- ===== src/Utf8/Decode/Exact.antt =====
-- A text is read as runes exactly where it is their encoding.
use spin_the_wheel.Prelude.{
  ℕ, ◌+◌, ◌-◌, ◌*◌, ◌/◌, ◌%◌, ◌≤◌, ◌<◌, ◌≡◌, ◌⊎◌, refl, ap, ◌∙◌, true, ◌&&◌, Option, none, some, [],
  ◌∷◌, ◌++◌, Bytes, ltb, between, ◌==◌, if◌then◌else◌, arith, Bool-cases, inl, inr,
}
use spin_the_wheel.Utf8.{is_rune, rune_bytes, encode_rune}
use spin_the_wheel.Utf8.Decode.{two_bytes, three_bytes, four_bytes, next_rune}

abbrev found : ℕ → Bytes → Option (ℕ × Bytes)
found r bs = some (r, bs)

next_ascii : (b : ℕ) (bs : Bytes) → ltb b 0x80 ≡ true → next_rune (b ∷ bs) ≡ found b bs
unfolding next_rune
next_ascii b bs h = rw h refl

two_lem :
    (b c : ℕ) (bs : Bytes)
    → 0xc2 ≤ b
    → b ≤ 0xdf
    → 0x80 ≤ c
    → c ≤ 0xbf
    → next_rune (b ∷ c ∷ bs) ≡ found ((b - 0xc0) * 64 + (c - 0x80)) bs
unfolding next_rune two_bytes
two_lem b c bs h1 h2 h3 h4 = ground arith

three_lem :
    (b c d : ℕ) (bs : Bytes)
    → 0xe0 ≤ b
    → b ≤ 0xef
    → 0x80 ≤ c
    → c ≤ 0xbf
    → (b ≡ 0xe0 → 0xa0 ≤ c)
    → (b ≡ 0xed → c ≤ 0x9f)
    → 0x80 ≤ d
    → d ≤ 0xbf
    → next_rune (b ∷ c ∷ d ∷ bs) ≡ found ((b - 0xe0) * 4096 + (c - 0x80) * 64 + (d - 0x80)) bs
unfolding next_rune three_bytes
three_lem b c d bs h1 h2 h3 h4 h5 h6 h7 h8 = ground arith

four_lem :
    (b c d e : ℕ) (bs : Bytes)
    → 0xf0 ≤ b
    → b ≤ 0xf4
    → 0x80 ≤ c
    → c ≤ 0xbf
    → (b ≡ 0xf0 → 0x90 ≤ c)
    → (b ≡ 0xf4 → c ≤ 0x8f)
    → 0x80 ≤ d
    → d ≤ 0xbf
    → 0x80 ≤ e
    → e ≤ 0xbf
    → next_rune (b ∷ c ∷ d ∷ e ∷ bs)
      ≡ found ((b - 0xf0) * 262144 + (c - 0x80) * 4096 + (d - 0x80) * 64 + (e - 0x80)) bs
unfolding next_rune four_bytes
four_lem b c d e bs h1 h2 h3 h4 h5 h6 h7 h8 h9 h10 = ground arith

two_bytes-rune :
    (r : ℕ) (bs : Bytes)
    → 0x80 ≤ r
    → r < 0x800
    → next_rune ((0xc0 + r / 64) ∷ (0x80 + r % 64) ∷ bs) ≡ some (r, bs)
two_bytes-rune r bs low high =
    two_lem (0xc0 + r / 64) (0x80 + r % 64) bs (omega arith) (omega arith) (omega arith)
      (omega arith)
    ∙ ap (λ x. found x bs) (omega arith)

three_bytes-rune :
    (r : ℕ) (bs : Bytes)
    → is_rune r ≡ true
    → 0x800 ≤ r
    → r < 0x10000
    → next_rune ((0xe0 + r / 4096) ∷ (0x80 + r / 64 % 64) ∷ (0x80 + r % 64) ∷ bs) ≡ some (r, bs)
unfolding is_rune
three_bytes-rune r bs valid low high =
    let outside : (r < 0xd800) ⊎ (0xe000 ≤ r) = ground arith in
    three_lem (0xe0 + r / 4096) (0x80 + r / 64 % 64) (0x80 + r % 64) bs (omega arith) (omega arith)
      (omega arith) (omega arith) (λ h. omega arith) (λ h. ground arith) (omega arith) (omega arith)
    ∙ ap (λ x. found x bs) (omega arith)

four_bytes-rune :
    (r : ℕ) (bs : Bytes)
    → is_rune r ≡ true
    → 0x10000 ≤ r
    → next_rune
        ((0xf0 + r / 262144) ∷ (0x80 + r / 4096 % 64) ∷ (0x80 + r / 64 % 64) ∷ (0x80 + r % 64) ∷ bs)
      ≡ some (r, bs)
unfolding is_rune
four_bytes-rune r bs valid low =
    let below : r ≤ 0x10ffff = ground arith in
    four_lem (0xf0 + r / 262144) (0x80 + r / 4096 % 64) (0x80 + r / 64 % 64) (0x80 + r % 64) bs
      (omega arith) (omega arith) (omega arith) (omega arith) (λ h. omega arith) (λ h. omega arith)
      (omega arith) (omega arith) (omega arith) (omega arith)
    ∙ ap (λ x. found x bs) (omega arith)

pub next_rune-encode_rune :
    (r : ℕ) (bs : Bytes) → is_rune r ≡ true → next_rune (encode_rune r ++ bs) ≡ some (r, bs)
unfolding encode_rune rune_bytes
next_rune-encode_rune r bs valid = rw valid (elim (Bool-cases (ltb r 0x80)) [
  | inl h ↦ rw h (next_ascii r bs h)
  | inr h1 ↦ elim (Bool-cases (ltb r 0x800)) [
    | inl h ↦ rw (h1, h) (two_bytes-rune r bs (ground arith) (ground arith))
    | inr h2 ↦ elim (Bool-cases (ltb r 0x10000)) [
      | inl h ↦ rw (h1, h2, h) (three_bytes-rune r bs valid (ground arith) (ground arith))
      | inr h3 ↦ rw (h1, h2, h3) (four_bytes-rune r bs valid (ground arith))
    ]
  ]
])

-- What has been read is well-formed, and its encoding was there.
abbrev pub IsRead : Bytes → Option (ℕ × Bytes) → Type 0
IsRead s none = Unit {0}
IsRead s (some (r, rest)) = (is_rune r ≡ true) × (s ≡ rune_bytes r ++ rest)

two_of :
    (r b c : ℕ)
    → 0x80 ≤ r
    → r < 0x800
    → b ≡ 0xc0 + r / 64
    → c ≡ 0x80 + r % 64
    → b ∷ c ∷ [] ≡ rune_bytes r
unfolding rune_bytes
two_of r b c low high eb ec = ground arith

three_of :
    (r b c d : ℕ)
    → 0x800 ≤ r
    → r < 0x10000
    → b ≡ 0xe0 + r / 4096
    → c ≡ 0x80 + r / 64 % 64
    → d ≡ 0x80 + r % 64
    → b ∷ c ∷ d ∷ [] ≡ rune_bytes r
unfolding rune_bytes
three_of r b c d low high eb ec ed = ground arith

four_of :
    (r b c d e : ℕ)
    → 0x10000 ≤ r
    → b ≡ 0xf0 + r / 262144
    → c ≡ 0x80 + r / 4096 % 64
    → d ≡ 0x80 + r / 64 % 64
    → e ≡ 0x80 + r % 64
    → b ∷ c ∷ d ∷ e ∷ [] ≡ rune_bytes r
unfolding rune_bytes
four_of r b c d e low eb ec ed ee = ground arith

ascii-IsRead : (b : ℕ) (bs : Bytes) → ltb b 0x80 ≡ true → IsRead (b ∷ bs) (found b bs)
unfolding is_rune rune_bytes
ascii-IsRead b bs h = (ground arith, rw h refl)

two_bytes-IsRead : (b : ℕ) (bs : Bytes) → 0xc2 ≤ b → b ≤ 0xdf → IsRead (b ∷ bs) (two_bytes b bs)
unfolding two_bytes is_rune
two_bytes-IsRead b [] h1 h2 = tt
two_bytes-IsRead b (c ∷ bs) h1 h2 = elim (Bool-cases (between 0x80 0xbf c)) [
  | inl h ↦
      let low : 0x80 ≤ c = ground arith in
      let high : c ≤ 0xbf = ground arith in
      rw h (
        ground arith,
        ap (λ xs. xs ++ bs) (two_of _ b c (omega arith) (omega arith) (omega arith) (omega arith)),
      )
  | inr h ↦ rw h tt
]

three_bytes-IsRead : (b : ℕ) (bs : Bytes) → 0xe0 ≤ b → b ≤ 0xef → IsRead (b ∷ bs) (three_bytes b bs)
unfolding three_bytes is_rune
three_bytes-IsRead b [] h1 h2 = tt
three_bytes-IsRead b (c ∷ []) h1 h2 = tt
three_bytes-IsRead b (c ∷ d ∷ bs) h1 h2 =
    elim (Bool-cases (
      between (if b == 0xe0 then 0xa0 else 0x80) (if b == 0xed then 0x9f else 0xbf) c
      && between 0x80 0xbf d)) [
        | inl h ↦
            let range : (0x80 ≤ c) × (c ≤ 0xbf) × (b ≡ 0xe0 → 0xa0 ≤ c) × (b ≡ 0xed → c ≤ 0x9f) =
              ground arith in
            let tail : (0x80 ≤ d) × (d ≤ 0xbf) = ground arith in
            rw h (
              ground arith,
              ap (λ xs. xs ++ bs)
                  (three_of _ b c d (ground arith) (omega (arith, range, tail))
                    (omega (arith, range, tail)) (omega (arith, range, tail))
                    (omega (arith, range, tail))),
            )
        | inr h ↦ rw h tt
      ]

four_bytes-IsRead : (b : ℕ) (bs : Bytes) → 0xf0 ≤ b → b ≤ 0xf4 → IsRead (b ∷ bs) (four_bytes b bs)
unfolding four_bytes is_rune
four_bytes-IsRead b [] h1 h2 = tt
four_bytes-IsRead b (c ∷ []) h1 h2 = tt
four_bytes-IsRead b (c ∷ d ∷ []) h1 h2 = tt
four_bytes-IsRead b (c ∷ d ∷ e ∷ bs) h1 h2 =
    elim (Bool-cases (
      between (if b == 0xf0 then 0x90 else 0x80) (if b == 0xf4 then 0x8f else 0xbf) c
      && (between 0x80 0xbf d && between 0x80 0xbf e))) [
        | inl h ↦
            let range : (0x80 ≤ c) × (c ≤ 0xbf) × (b ≡ 0xf0 → 0x90 ≤ c) × (b ≡ 0xf4 → c ≤ 0x8f) =
              ground arith in
            let tail : (0x80 ≤ d) × (d ≤ 0xbf) × (0x80 ≤ e) × (e ≤ 0xbf) = ground arith in
            rw h (
              ground arith,
              ap (λ xs. xs ++ bs)
                  (four_of _ b c d e (ground arith) (omega (arith, range, tail))
                    (omega (arith, range, tail)) (omega (arith, range, tail))
                    (omega (arith, range, tail))),
            )
        | inr h ↦ rw h tt
      ]

pub next_rune-IsRead : (s : Bytes) → IsRead s (next_rune s)
unfolding next_rune
next_rune-IsRead [] = tt
next_rune-IsRead (b ∷ bs) = elim (Bool-cases (ltb b 0x80)) [
  | inl h ↦ rw h (ascii-IsRead b bs h)
  | inr h1 ↦ elim (Bool-cases (between 0xc2 0xdf b)) [
    | inl h ↦ rw (h1, h) (two_bytes-IsRead b bs (ground arith) (ground arith))
    | inr h2 ↦ elim (Bool-cases (between 0xe0 0xef b)) [
      | inl h ↦ rw (h1, h2, h) (three_bytes-IsRead b bs (ground arith) (ground arith))
      | inr h3 ↦ elim (Bool-cases (between 0xf0 0xf4 b)) [
        | inl h ↦ rw (h1, h2, h3, h) (four_bytes-IsRead b bs (ground arith) (ground arith))
        | inr h4 ↦ rw (h1, h2, h3, h4) tt
      ]
    ]
  ]
]
