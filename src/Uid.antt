-- ===== src/Uid.antt =====
-- UUIDv7 identifiers: backend/internal/uid/uid.go.
-- A UUID is the list of its 16 bytes in network order, a string the list of its bytes, and a
-- time the number of milliseconds since the epoch. `rand.Read` is an argument: the ten bytes drawn.
pub mod Order
pub mod Stamp
pub mod Hex
pub mod Text
pub mod Canonical
mod Tests
use spin_the_wheel.Prelude.{
  ℕ, ◌+◌, ◌*◌, ◌-◌, ◌/◌, ◌%◌, ◌^◌, bit_and, bit_or, Bool, true, false, ◌&&◌, Option, none, some,
  List, [], ◌∷◌, ◌++◌, Bytes, same, ◌==◌, if◌then◌else◌, between, length, get_or, take, drop,
  replicate,
}

-- `var Nil UUID`
abbrev pub nil_uuid : Bytes
nil_uuid = replicate 16 0

-- byte(ms >> k)
abbrev byte_at : ℕ → ℕ → ℕ
byte_at k ms = ms / 2 ^ k % 256

-- u[6] and u[8] are rewritten after the draw.
unfoldable pub set_version : ℕ → ℕ
set_version b = bit_or (bit_and b 0x0f) 0x70

unfoldable pub set_variant : ℕ → ℕ
set_variant b = bit_or (bit_and b 0x3f) 0x80

stamp_random : Bytes → Bytes
stamp_random (b6 ∷ b7 ∷ b8 ∷ rest) = set_version b6 ∷ b7 ∷ set_variant b8 ∷ rest
stamp_random rnd = rnd

-- `NewAt`: the time in milliseconds and the ten random bytes of u[6:].
unfoldable pub new_at : ℕ → Bytes → Bytes
unfolding stamp_random
new_at ms rnd =
    byte_at 40 ms
    ∷ byte_at 32 ms
    ∷ byte_at 24 ms
    ∷ byte_at 16 ms
    ∷ byte_at 8 ms
    ∷ byte_at 0 ms
    ∷ stamp_random rnd

-- `UUID.Time`, in milliseconds. The bits that the source joins by `|` are disjoint: their sum.
unfoldable pub time : Bytes → ℕ
time u =
    get_or u 0 0 * 2 ^ 40
    + get_or u 1 0 * 2 ^ 32
    + get_or u 2 0 * 2 ^ 24
    + get_or u 3 0 * 2 ^ 16
    + get_or u 4 0 * 2 ^ 8
    + get_or u 5 0

-- `UUID.Version`
unfoldable pub version : Bytes → ℕ
version u = get_or u 6 0 / 16

-- `UUID.IsZero`
unfoldable pub is_zero : Bytes → Bool
is_zero u = same u nil_uuid

-- `hex.Encode` writes two lower-case digits for a byte.
unfoldable pub hex_digit : ℕ → ℕ
hex_digit n = if between 0 9 n then b'0' + n else b'a' + (n - 10)

unfoldable pub hex_encode : Bytes → Bytes
unfolding hex_digit
hex_encode [] = []
hex_encode (b ∷ bs) = hex_digit (b / 16) ∷ hex_digit (b % 16) ∷ hex_encode bs

-- `hex.Decode` reads digits of either case, in pairs.
unfoldable pub from_hex : ℕ → Option ℕ
from_hex c =
    if between b'0' b'9' c
    then some (c - b'0')
    else if between b'a' b'f' c
    then some (c - b'a' + 10)
    else if between b'A' b'F' c
    then some (c - b'A' + 10)
    else none

abbrev join_pair : Option ℕ → Option ℕ → Option Bytes → Option Bytes
join_pair (some h) (some l) (some bs) = some ((h * 16 + l) ∷ bs)
join_pair (some h) (some l) none = none
join_pair (some h) none _ = none
join_pair none _ _ = none

unfoldable pub hex_decode : Bytes → Option Bytes
unfolding from_hex
hex_decode [] = some []
hex_decode (_ ∷ []) = none
hex_decode (h ∷ l ∷ cs) = join_pair (from_hex h) (from_hex l) (hex_decode cs)

-- s[i:j]
abbrev pub slice : ℕ → ℕ → Bytes → Bytes
slice i j s = take (j - i) (drop i s)

-- `UUID.String`
unfoldable pub string : Bytes → Bytes
unfolding hex_encode
string u =
    hex_encode (slice 0 4 u)
    ++ (b'-'
        ∷ (hex_encode (slice 4 6 u)
            ++ (b'-'
                ∷ (hex_encode (slice 6 8 u)
                    ++ (b'-'
                        ∷ (hex_encode (slice 8 10 u) ++ (b'-' ∷ hex_encode (slice 10 16 u))))))))

-- The tests of `Parse` before `hex.Decode`.
unfoldable pub has_dashes : Bytes → Bool
has_dashes s =
    (get_or s 8 0 == b'-')
    && (get_or s 13 0 == b'-')
    && (get_or s 18 0 == b'-')
    && (get_or s 23 0 == b'-')

abbrev without_dashes : Bytes → Bytes
without_dashes s =
    slice 0 8 s ++ (slice 9 13 s ++ (slice 14 18 s ++ (slice 19 23 s ++ slice 24 36 s)))

-- `Parse`; `none` is ErrInvalid.
unfoldable pub parse : Bytes → Option Bytes
unfolding hex_decode has_dashes
parse s =
    if length s == 36 then (if has_dashes s then hex_decode (without_dashes s) else none) else none

-- What decoding leaves in the receiver: whether it succeeded, and the receiver's value.
abbrev pub store_uuid : Bytes → Option Bytes → Bool × Bytes
store_uuid u (some v) = (true, v)
store_uuid u none = (false, u)

-- `UnmarshalText` on a receiver `u`.
unfoldable pub unmarshal_text : Bytes → Bytes → Bool × Bytes
unfolding parse
unmarshal_text u b = store_uuid u (parse b)

-- The dynamic types that `Scan` tells apart.
pub data Source : Type 0 where
  null : Source
  string_src : Bytes → Source
  bytes_src : Bytes → Source
  array_src : Bytes → Source
  other : Source

-- `UUID.Scan` on a receiver `u`.
unfoldable pub scan : Bytes → Source → Bool × Bytes
unfolding unmarshal_text
scan u null = (true, nil_uuid)
scan u (string_src v) = unmarshal_text u v
scan u (bytes_src v) = if length v == 16 then (true, v) else unmarshal_text u v
scan u (array_src v) = (true, v)
scan u other = (false, u)
