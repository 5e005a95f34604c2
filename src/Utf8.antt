-- ===== src/Utf8.antt =====
-- UTF-8, as Go's unicode/utf8 and its string loops read and write it, and the byte-bounded cut of
-- client text: `truncate` of backend/internal/store/users.go and of
-- backend/internal/httpx/middleware.go, which are the same function.
-- A rune is a number; surrogates and numbers above 0x10FFFF are none.
pub mod Laws
pub mod Cut
pub mod Decode
mod Tests
use spin_the_wheel.Prelude.{
  ℕ, zero, suc, ◌+◌, ◌-◌, ◌*◌, ◌/◌, ◌%◌, ◌<◌, Bool, true, false, not, ◌&&◌, ◌||◌, Option, none,
  some, List, [], ◌∷◌, ◌++◌, Bytes, leb, ltb, between, if◌then◌else◌, length, get_or, take,
}

abbrev pub Runes : Type 0
Runes = List ℕ

-- `utf8.ValidRune`
unfoldable pub is_rune : ℕ → Bool
is_rune r = ltb r 0xd800 || between 0xe000 0x10ffff r

-- `utf8.RuneStart`: not a continuation byte.
unfoldable pub rune_start : ℕ → Bool
rune_start b = not (between 0x80 0xbf b)

-- One to four bytes, by the size of the number.
unfoldable pub rune_bytes : ℕ → Bytes
rune_bytes r =
    if ltb r 0x80
    then r ∷ []
    else if ltb r 0x800
    then (0xc0 + r / 64) ∷ (0x80 + r % 64) ∷ []
    else if ltb r 0x10000
    then (0xe0 + r / 4096) ∷ (0x80 + r / 64 % 64) ∷ (0x80 + r % 64) ∷ []
    else (0xf0 + r / 262144) ∷ (0x80 + r / 4096 % 64) ∷ (0x80 + r / 64 % 64) ∷ (0x80 + r % 64) ∷ []

-- `utf8.AppendRune` writes utf8.RuneError for what is no rune.
unfoldable pub encode_rune : ℕ → Bytes
unfolding is_rune
encode_rune r = rune_bytes (if is_rune r then r else 0xfffd)

-- string(runes)
unfoldable pub encode : Runes → Bytes
encode [] = []
encode (r ∷ rs) = encode_rune r ++ encode rs

-- The loop of `truncate`: `n` goes down to a byte that starts a rune.
unfoldable pub cut_position : Bytes → ℕ → ℕ
unfolding rune_start
cut_position s zero = 0
cut_position s (suc n) =
    let back = cut_position s n in if rune_start (get_or s (suc n) 0) then suc n else back

-- `truncate`
unfoldable pub truncate : Bytes → ℕ → Bytes
unfolding cut_position
truncate s n = if leb (length s) n then s else take (cut_position s n) s
