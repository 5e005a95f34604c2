-- ===== src/Utf8/Laws.antt =====
-- The bytes of a rune: the first one starts it, the others continue it.
use spin_the_wheel.Prelude.{
  ℕ, ◌+◌, ◌≤◌, ◌<◌, ◌%◌, ◌≡◌, true, false, [], ◌∷◌, arith, Bytes, ltb, length, All, Bool-cases, inl,
  inr, ◌⊎◌, if◌then◌else◌,
}
use spin_the_wheel.Utf8.{is_rune, rune_start, rune_bytes, encode_rune}

-- A start byte, and then continuation bytes.
abbrev pub IsCharacter : Bytes → Type 0
IsCharacter [] = ⊥
IsCharacter (b ∷ bs) = (rune_start b ≡ true) × All (λ c. rune_start c ≡ false) bs

start_lem : (b : ℕ) → (b < 0x80) ⊎ (0xc0 ≤ b) → rune_start b ≡ true
unfolding rune_start
start_lem b h = ground arith

continue_lem : (x : ℕ) → rune_start (0x80 + x % 64) ≡ false
unfolding rune_start
continue_lem x = ground arith

pub rune_bytes-IsCharacter : (r : ℕ) → IsCharacter (rune_bytes r)
unfolding rune_bytes
rune_bytes-IsCharacter r = elim (Bool-cases (ltb r 0x80)) [
  | inl h ↦ rw h (start_lem r (inl (ground arith)), tt)
  | inr h1 ↦ elim (Bool-cases (ltb r 0x800)) [
    | inl h ↦ rw (h1, h) (start_lem _ (inr (omega arith)), (continue_lem r, tt))
    | inr h2 ↦ elim (Bool-cases (ltb r 0x10000)) [
      | inl h ↦
          rw (h1, h2, h) (start_lem _ (inr (omega arith)), (continue_lem _, (continue_lem r, tt)))
      | inr h3 ↦
          rw (h1, h2, h3)
            (
              start_lem _ (inr (omega arith)),
              (continue_lem _, (continue_lem _, (continue_lem r, tt))),
            )
    ]
  ]
]

length-rune_bytes : (r : ℕ) → (1 ≤ length (rune_bytes r)) × (length (rune_bytes r) ≤ 4)
unfolding rune_bytes
length-rune_bytes r = ground arith

pub encode_rune-IsCharacter : (r : ℕ) → IsCharacter (encode_rune r)
unfolding encode_rune
encode_rune-IsCharacter r = rune_bytes-IsCharacter (if is_rune r then r else 0xfffd)

pub length-encode_rune : (r : ℕ) → (1 ≤ length (encode_rune r)) × (length (encode_rune r) ≤ 4)
unfolding encode_rune
length-encode_rune r = length-rune_bytes (if is_rune r then r else 0xfffd)
