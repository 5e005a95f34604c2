-- ===== src/Api/Digits.antt =====
-- `itoa` of backend/internal/api/wheels.go: the decimal digits of a number, written from the end of a
-- buffer of twenty bytes.
use mathlib.Core.Path.{subst}
use native.Mathlib.Decide.{ℕ_discrete}
use spin_the_wheel.Prelude.{
  ℕ, zero, suc, ◌+◌, ◌-◌, ◌*◌, ◌/◌, ◌%◌, ◌<◌, ◌≤◌, ◌≢◌, ◌⊎◌, All, sym, ◌≡◌, refl, ap, ◌∙◌, Option,
  none, some, [], ◌∷◌, Bytes, text, ◌==◌, if◌then◌else◌, arith, Bool-cases, inl, inr,
}

-- The loop, with the bytes that are left in front of the digits; a write in front of the buffer would
-- panic.
unfoldable pub write_digits : ℕ → ℕ → Bytes → Option Bytes
write_digits zero n digits = if n == 0 then some digits else none
write_digits (suc room) n digits =
    let rest = write_digits room (n / 10) ((48 + n % 10) ∷ digits) in
    if n == 0 then some digits else rest

-- `itoa`
unfoldable pub itoa : ℕ → Option Bytes
itoa n = if n == 0 then some (text "0") else write_digits 20 n []

-- The number that digits say, behind the number that is read already.
abbrev pub read_digits : ℕ → Bytes → ℕ
read_digits n [] = n
read_digits n (d ∷ ds) = read_digits (10 * n + (d - 48)) ds

abbrev ten_to : ℕ → ℕ
ten_to zero = 1
ten_to (suc k) = 10 * ten_to k

-- A decimal digit, and a numeral that starts with another digit than 0.
abbrev pub IsDigit : ℕ → Type 0
IsDigit d = (48 ≤ d) × (d ≤ 57)

abbrev pub IsPositive : Bytes → Type 0
IsPositive [] = ⊥
IsPositive (d ∷ ds) = 49 ≤ d

-- A canonical numeral: digits alone, and no 0 in front but that of the number 0.
abbrev pub IsNumeral : Bytes → Type 0
IsNumeral out = All IsDigit out × ((out ≡ text "0") ⊎ IsPositive out)

-- The digits of a number fit in the room where it is below that power of ten.
record IsWritten (n : ℕ) (digits : Bytes) (o : Option Bytes) : Type 0 where
  out : Bytes
  done : o ≡ some out
  same_number : read_digits 0 out ≡ read_digits n digits
  are_digits : All IsDigit out
  nothing_more : n ≡ 0 → out ≡ digits
  positive : n ≢ 0 → IsPositive out

write_digits-IsWritten :
    (room n : ℕ) (digits : Bytes)
    → n < ten_to room
    → All IsDigit digits
    → IsWritten n digits (write_digits room n digits)
unfolding write_digits
write_digits-IsWritten zero n digits h all =
    let nothing : n ≡ 0 = omega arith in
    record {
      out = digits;
      done = ground arith;
      same_number = ap (λ m. read_digits m digits) (omega arith);
      are_digits = all;
      nothing_more = λ e. refl;
      positive = λ ne. elim (ne nothing) [ ];
    }
write_digits-IsWritten (suc room) n digits h all = elim (Bool-cases (n == 0)) [
  | inl e ↦
      let nothing : n ≡ 0 = ground arith in
      rw e (record {
        out = digits;
        done = refl;
        same_number = ap (λ m. read_digits m digits) (ground arith);
        are_digits = all;
        nothing_more = λ e'. refl;
        positive = λ ne. elim (ne nothing) [ ];
      })
  | inr e ↦
      let some_left : n ≢ 0 = ground arith in
      let rest =
        write_digits-IsWritten room (n / 10) ((48 + n % 10) ∷ digits) (omega arith)
          ((omega arith, omega arith), all) in
      rw e (record {
        out = rest.out;
        done = rest.done;
        same_number = rest.same_number ∙ ap (λ m. read_digits m digits) (omega arith);
        are_digits = rest.are_digits;
        nothing_more = λ nothing. elim (some_left nothing) [ ];
        positive = λ ne. elim (ℕ_discrete (n / 10) 0) [
          | yes last ↦ subst IsPositive (sym (rest.nothing_more last)) (omega arith)
          | no more ↦ rest.positive more
        ];
      })
]

-- `itoa` writes every number below 2 ^ 63, so its buffer is large enough, as the canonical numeral of
-- that number: decimal digits alone, at least one, the first of them 0 for the number 0 only, which
-- say that number.
pub read_digits-itoa :
    (n : ℕ)
    → n < 9223372036854775808
    → (out : Bytes) × (itoa n ≡ some out) × IsNumeral out × (read_digits 0 out ≡ n)
unfolding itoa
read_digits-itoa n h = elim (Bool-cases (n == 0)) [
  | inl e ↦ rw e (text "0", refl, (((omega arith, omega arith), tt), inl refl), ground arith)
  | inr e ↦
      let some_left : n ≢ 0 = ground arith in
      let w = write_digits-IsWritten 20 n [] (omega arith) tt in
      rw e (w.out, w.done, (w.are_digits, inr (w.positive some_left)), w.same_number)
]
