-- ===== src/Uid/Stamp.antt =====
-- The fields of a fresh UUID: the time, the version and the variant.
use spin_the_wheel.Prelude.{
  ℕ, zero, suc, ◌+◌, ◌/◌, ◌%◌, ◌^◌, ◌<◌, ◌≤◌, ◌≡◌, refl, Bool, true, ◌&&◌, ◌⊎◌, inl, inr, [], ◌∷◌,
  arith, Bytes, AreBytes, ◌==◌, ==_iff, length, get_or,
}
use native.Mathlib.Decide.{dec_lt, dec_le}
use spin_the_wheel.Uid.{set_version, set_variant, new_at, time, version}
use spin_the_wheel.Uid.Order.{Precedes}

-- A test of bytes that passes from a value down to zero, by evaluation, and at each of them.
module _ (test : ℕ → Bool) where
  passes_to : ℕ → Bool
  passes_to zero = test zero
  passes_to (suc top) = passes_to top && test (suc top)

  passes_to-at : (top b : ℕ) → passes_to top ≡ true → b ≤ top → test b ≡ true
  unfolding passes_to
  passes_to-at zero b passed le = ground arith
  passes_to-at (suc top) b passed le = elim (dec_le b top) [
    | yes below ↦ passes_to-at top b (ground arith) below
    | no above ↦ ground arith
  ]

version_table : passes_to (λ x. set_version x == 0x70 + x % 16) 255 ≡ true
unfolding passes_to set_version
version_table = refl

variant_table : passes_to (λ x. set_variant x == 0x80 + x % 64) 255 ≡ true
unfolding passes_to set_variant
variant_table = refl

pub set_version_lem : (x : ℕ) → x < 256 → set_version x ≡ 0x70 + x % 16
set_version_lem x h =
    (==_iff _ _).0
      (passes_to-at (λ x. set_version x == 0x70 + x % 16) 255 x version_table (omega arith))

pub set_variant_lem : (x : ℕ) → x < 256 → set_variant x ≡ 0x80 + x % 64
set_variant_lem x h =
    (==_iff _ _).0
      (passes_to-at (λ x. set_variant x == 0x80 + x % 64) 255 x variant_table (omega arith))

-- `Time` reads the time that `NewAt` wrote, for every time below 2 ^ 48 milliseconds, whatever the
-- random bytes.
pub time-new_at : (ms : ℕ) (rnd : Bytes) → ms < 2 ^ 48 → time (new_at ms rnd) ≡ ms
unfolding time new_at
time-new_at ms rnd h = omega arith

-- The form of a UUIDv7: sixteen bytes, version 7, and the variant bits 10.
pub record IsVersion7 (u : Bytes) : Type 0 where
  pub length_eq : length u ≡ 16
  pub are_bytes : AreBytes u
  pub version_eq : version u ≡ 7
  pub variant_eq : get_or u 8 0 / 64 ≡ 2

-- From ten random bytes `NewAt` makes sixteen bytes, of version 7 and of the RFC's variant.
pub new_at-IsVersion7 :
    (ms : ℕ) (rnd : Bytes) → length rnd ≡ 10 → AreBytes rnd → IsVersion7 (new_at ms rnd)
unfolding new_at version
new_at-IsVersion7 ms [] h a = absurd (omega arith)
new_at-IsVersion7 ms (_ ∷ []) h a = absurd (omega arith)
new_at-IsVersion7 ms (_ ∷ _ ∷ []) h a = absurd (omega arith)
new_at-IsVersion7 ms (r0 ∷ r1 ∷ r2 ∷ rest) h (a0, (a1, (a2, a))) =
    let e0 = set_version_lem r0 a0 in
    let e2 = set_variant_lem r2 a2 in
    record {
      length_eq = omega arith;
      are_bytes = (
        omega arith,
        (
          omega arith,
          (
            omega arith,
            (omega arith, (omega arith, (omega arith, (omega arith, (a1, (omega arith, a)))))),
          ),
        ),
      );
      version_eq = omega arith;
      variant_eq = omega arith;
    }

-- One byte of the comparison, where the bytes above it are equal.
compare_byte :
    {P : Type 0} (x y : ℕ)
    → x ≤ y
    → x / 256 ≡ y / 256
    → (x ≡ y → P)
    → (x % 256 < y % 256) ⊎ ((x % 256 ≡ y % 256) × P)
compare_byte x y le e rest = elim (dec_lt (x % 256) (y % 256)) [
  | yes h ↦ inl h
  | no h ↦ inr (omega arith, rest (omega arith))
]

-- Identifiers are chronological: of two UUIDs made at different milliseconds below 2 ^ 48, the
-- earlier one precedes the later one, whatever their random bytes.
pub new_at-Precedes :
    (ms ms' : ℕ) (rnd rnd' : Bytes)
    → ms < ms'
    → ms' < 2 ^ 48
    → Precedes (new_at ms rnd) (new_at ms' rnd')
unfolding new_at
new_at-Precedes ms ms' rnd rnd' h k =
    compare_byte (ms / 2 ^ 40) (ms' / 2 ^ 40) (omega arith) (omega arith) λ e1.
      compare_byte (ms / 2 ^ 32) (ms' / 2 ^ 32) (omega arith) (omega arith) λ e2.
        compare_byte (ms / 2 ^ 24) (ms' / 2 ^ 24) (omega arith) (omega arith) λ e3.
          compare_byte (ms / 2 ^ 16) (ms' / 2 ^ 16) (omega arith) (omega arith) λ e4.
            compare_byte (ms / 2 ^ 8) (ms' / 2 ^ 8) (omega arith) (omega arith) λ e5.
              compare_byte (ms / 2 ^ 0) (ms' / 2 ^ 0) (omega arith) (omega arith)
                λ e6. absurd (omega arith)
