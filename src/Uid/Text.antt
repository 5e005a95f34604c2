-- ===== src/Uid/Text.antt =====
-- The canonical text of a UUID: `Parse` undoes `String`, and `String` undoes `Parse` up to case.
use spin_the_wheel.Prelude.{
  ◌≡◌, refl, ap, ◌∙◌, some, [], ◌∷◌, ◌++◌, map, arith, Bytes, AreBytes, length, ==_iff, ◌==◌, true,
  get_or, if-eq-some, and-eq-true,
}
use spin_the_wheel.Uid.{slice, string, hex_encode, hex_decode, has_dashes, without_dashes, parse}
use spin_the_wheel.Uid.Hex.{hex_decode-hex_encode, hex_decode-IsDecoded, lower_digit}

-- Every UUID is read back from its canonical text.
pub parse-string : (u : Bytes) → length u ≡ 16 → AreBytes u → parse (string u) ≡ some u
unfolding parse string
parse-string
      (b0 ∷ b1 ∷ b2 ∷ b3 ∷ b4 ∷ b5 ∷ b6 ∷ b7 ∷ b8 ∷ b9 ∷ b10 ∷ b11 ∷ b12 ∷ b13 ∷ b14 ∷ b15 ∷ []) h
      a =
    hex_decode-hex_encode _ a
parse-string u h a = absurd (omega arith)

-- The text with its dashes, from its thirty-two digits.
abbrev with_dashes : Bytes → Bytes
with_dashes h =
    slice 0 8 h
    ++ (b'-'
        ∷ (slice 8 12 h
            ++ (b'-' ∷ (slice 12 16 h ++ (b'-' ∷ (slice 16 20 h ++ (b'-' ∷ slice 20 32 h)))))))

string-with_dashes : (u : Bytes) → length u ≡ 16 → string u ≡ with_dashes (hex_encode u)
unfolding string
string-with_dashes
      (b0 ∷ b1 ∷ b2 ∷ b3 ∷ b4 ∷ b5 ∷ b6 ∷ b7 ∷ b8 ∷ b9 ∷ b10 ∷ b11 ∷ b12 ∷ b13 ∷ b14 ∷ b15 ∷ []) h =
    refl
string-with_dashes u h = absurd (omega arith)

has_dashes-eq-true :
    (s : Bytes)
    → has_dashes s ≡ true
    → (get_or s 8 0 ≡ b'-')
      × (get_or s 13 0 ≡ b'-')
      × (get_or s 18 0 ≡ b'-')
      × (get_or s 23 0 ≡ b'-')
unfolding has_dashes
has_dashes-eq-true s e =
    let (q18, p23) = and-eq-true _ (get_or s 23 0 == b'-') e in
    let (q13, p18) = and-eq-true _ (get_or s 18 0 == b'-') q18 in
    let (p8, p13) = and-eq-true (get_or s 8 0 == b'-') (get_or s 13 0 == b'-') q13 in
    ((==_iff _ _).0 p8, (==_iff _ _).0 p13, (==_iff _ _).0 p18, (==_iff _ _).0 p23)

-- What an accepted text satisfied.
record IsAccepted (s u : Bytes) : Type 0 where
  length_eq : length s ≡ 36
  dash8 : get_or s 8 0 ≡ b'-'
  dash13 : get_or s 13 0 ≡ b'-'
  dash18 : get_or s 18 0 ≡ b'-'
  dash23 : get_or s 23 0 ≡ b'-'
  decoded : hex_decode (without_dashes s) ≡ some u

parse-IsAccepted : (s u : Bytes) → parse s ≡ some u → IsAccepted s u
unfolding parse
parse-IsAccepted s u e =
    let (size, e1) = if-eq-some (length s == 36) _ e in
    let (dashed, decoded) = if-eq-some (has_dashes s) (hex_decode (without_dashes s)) e1 in
    let (d8, d13, d18, d23) = has_dashes-eq-true s dashed in
    record {
      length_eq = (==_iff _ _).0 size;
      dash8 = d8;
      dash13 = d13;
      dash18 = d18;
      dash23 = d23;
      decoded = decoded;
    }

with_dashes-map :
    (s : Bytes)
    → length s ≡ 36
    → get_or s 8 0 ≡ b'-'
    → get_or s 13 0 ≡ b'-'
    → get_or s 18 0 ≡ b'-'
    → get_or s 23 0 ≡ b'-'
    → (length (without_dashes s) ≡ 32)
      × (with_dashes (map lower_digit (without_dashes s)) ≡ map lower_digit s)
unfolding lower_digit
with_dashes-map
      (c0 ∷ c1 ∷ c2 ∷ c3 ∷ c4 ∷ c5 ∷ c6 ∷ c7 ∷ c8 ∷ c9 ∷ c10 ∷ c11 ∷ c12 ∷ c13 ∷ c14 ∷ c15 ∷ c16
        ∷ c17 ∷ c18 ∷ c19 ∷ c20 ∷ c21 ∷ c22 ∷ c23 ∷ c24 ∷ c25 ∷ c26 ∷ c27 ∷ c28 ∷ c29 ∷ c30 ∷ c31
        ∷ c32 ∷ c33 ∷ c34 ∷ c35 ∷ [])
      h d8 d13 d18 d23 =
    (refl, rw (d8, d13, d18, d23))
with_dashes-map s h d8 d13 d18 d23 = absurd (omega arith)

-- Whatever text `Parse` accepts, the UUID has sixteen bytes, and its canonical text is the one that
-- was read, with its letters in lower case. So nothing is accepted but canonical texts up to the case
-- of their digits.
pub string-parse :
    (s u : Bytes) → parse s ≡ some u → (length u ≡ 16) × AreBytes u × (string u ≡ map lower_digit s)
string-parse s u e =
    let w = parse-IsAccepted s u e in
    let d = hex_decode-IsDecoded (without_dashes s) u w.decoded in
    let (size, dashed) = with_dashes-map s w.length_eq w.dash8 w.dash13 w.dash18 w.dash23 in
    let full : length u ≡ 16 = omega (arith, d.halved) in
    (full, d.are_bytes, string-with_dashes u full ∙ ap with_dashes d.encoded ∙ dashed)
