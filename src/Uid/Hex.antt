-- ===== src/Uid/Hex.antt =====
-- Hexadecimal digits: decoding undoes encoding, and encoding undoes decoding up to the case.
use spin_the_wheel.Prelude.{
  ℕ, ◌+◌, ◌*◌, ◌/◌, ◌%◌, ◌<◌, ◌≡◌, refl, Option, none, some, [], ◌∷◌, ◌++◌, map, arith, Bytes,
  AreBytes, between, if◌then◌else◌, length,
}
use spin_the_wheel.Uid.{hex_digit, hex_encode, from_hex, join_pair, hex_decode}

-- The lower case of a hexadecimal digit.
unfoldable pub lower_digit : ℕ → ℕ
lower_digit c = if between b'A' b'F' c then c + 32 else c

pub from_hex-hex_digit : (n : ℕ) → n < 16 → from_hex (hex_digit n) ≡ some n
unfolding from_hex hex_digit
from_hex-hex_digit n h = ground arith

pub hex_digit-from_hex : (c n : ℕ) → from_hex c ≡ some n → (hex_digit n ≡ lower_digit c) × (n < 16)
unfolding from_hex hex_digit lower_digit
hex_digit-from_hex c n h = (ground arith, ground arith)

pub hex_decode-hex_encode : (bs : Bytes) → AreBytes bs → hex_decode (hex_encode bs) ≡ some bs
unfolding hex_encode hex_decode
hex_decode-hex_encode [] h = refl
hex_decode-hex_encode (b ∷ bs) (h, hs) =
    rw
      (
        from_hex-hex_digit (b / 16) (omega arith),
        from_hex-hex_digit (b % 16) (omega arith),
        hex_decode-hex_encode bs hs,
      )
      (ground arith)

pub hex_encode-append : (xs ys : Bytes) → hex_encode (xs ++ ys) ≡ hex_encode xs ++ hex_encode ys
unfolding hex_encode
hex_encode-append [] ys = refl
hex_encode-append (x ∷ xs) ys = rw (hex_encode-append xs ys)

-- A decoded text is the encoding of its value, up to the case of its digits, and the value is a list of bytes of half its length.
pub record IsDecoded (cs bs : Bytes) : Type 0 where
  pub encoded : hex_encode bs ≡ map lower_digit cs
  pub halved : length cs ≡ length bs + length bs
  pub are_bytes : AreBytes bs

join_pair-eq-some :
    (h l : Option ℕ) (rest : Option Bytes) (bs : Bytes)
    → join_pair h l rest ≡ some bs
    → (x : ℕ) × (y : ℕ) × (tail : Bytes) × (h ≡ some x)
      × (l ≡ some y)
      × (rest ≡ some tail)
      × (bs ≡ (x * 16 + y) ∷ tail)
join_pair-eq-some (some x) (some y) (some tail) bs e = (x, y, tail, refl, refl, refl, cc)
join_pair-eq-some (some x) (some y) none bs e = cc
join_pair-eq-some (some x) none rest bs e = cc
join_pair-eq-some none l rest bs e = cc

IsDecoded-pair :
    (h l x y : ℕ) (cs tail : Bytes)
    → from_hex h ≡ some x
    → from_hex l ≡ some y
    → IsDecoded cs tail
    → IsDecoded (h ∷ l ∷ cs) ((x * 16 + y) ∷ tail)
unfolding hex_encode
IsDecoded-pair h l x y cs tail p q d =
    let (dh, bh) = hex_digit-from_hex h x p in
    let (dl, bl) = hex_digit-from_hex l y q in
    let eh : (x * 16 + y) / 16 ≡ x = omega arith in
    let el : (x * 16 + y) % 16 ≡ y = omega arith in
    record {
      encoded = rw (eh, el, dh, dl, d.encoded);
      halved = omega (arith, d.halved);
      are_bytes = (omega arith, d.are_bytes);
    }

-- A decoded text is the encoding of its value, up to the case of its digits.
pub hex_decode-IsDecoded : (cs bs : Bytes) → hex_decode cs ≡ some bs → IsDecoded cs bs
unfolding hex_decode hex_encode
hex_decode-IsDecoded [] bs e =
    let empty : bs ≡ [] = cc in
    rw empty (record { encoded = refl; halved = omega arith; are_bytes = tt })
hex_decode-IsDecoded (c ∷ []) bs e = cc
hex_decode-IsDecoded (h ∷ l ∷ cs) bs e =
    let (x, y, tail, p, q, r, whole) = join_pair-eq-some _ _ _ bs e in
    rw whole (IsDecoded-pair h l x y cs tail p q (hex_decode-IsDecoded cs tail r))
