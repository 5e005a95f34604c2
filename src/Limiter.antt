-- ===== src/Limiter.antt =====
-- The token buckets of the rate limiter: backend/internal/httpx/ratelimit.go.
-- A time is a number of nanoseconds. The source counts tokens in float64; here they are exact, in
-- units of which one token has 60 * 10 ^ 9, so that `perMinute` units come in a nanosecond.
pub mod Table
pub mod Bounds
pub mod View
pub mod Rate
mod Tests
use Prim.Native.Nat.{min}
use spin_the_wheel.Prelude.{
  ℕ, ◌+◌, ◌-◌, ◌*◌, ◌/◌, Bool, true, false, not, Option, none, some, List, [], ◌∷◌, Bytes, same,
  ltb, leb, if◌then◌else◌, length, select,
}

-- What one token counts.
abbrev pub unit : ℕ
unit = 60 * 1_000_000_000

abbrev pub minute : ℕ
minute = 60 * 1_000_000_000

-- const maxBuckets
abbrev pub max_buckets : ℕ
max_buckets = 50_000

pub record Bucket : Type 0 where
  pub tokens : ℕ
  pub last : ℕ

-- The `mu` of the source makes each operation one step on this state.
pub record Limiter : Type 0 where
  pub buckets : List (Bytes × Bucket)
  pub per_minute : ℕ
  pub burst : ℕ
  pub idle : ℕ
  pub max : ℕ

-- `NewLimiter`; an argument below 1, a negative one included, counts as 1.
unfoldable pub new_limiter : ℕ → ℕ → Limiter
new_limiter per_minute burst = record {
  buckets = [];
  per_minute = if ltb per_minute 1 then 1 else per_minute;
  burst = if ltb burst 1 then 1 else burst;
  idle = 10 * minute;
  max = max_buckets;
}

-- The capacity of a bucket.
abbrev pub capacity : Limiter → ℕ
capacity l = l.burst * unit

-- l.buckets[key]
unfoldable pub lookup : Bytes → List (Bytes × Bucket) → Option Bucket
lookup key [] = none
lookup key ((k, b) ∷ rest) = if same k key then some b else lookup key rest

-- l.buckets[key] = b, or a write through the pointer that the map holds.
unfoldable pub put : Bytes → Bucket → List (Bytes × Bucket) → List (Bytes × Bucket)
put key b [] = (key, b) ∷ []
put key b ((k, c) ∷ rest) = if same k key then (k, b) ∷ rest else (k, c) ∷ put key b rest

-- `purgeLocked`
unfoldable pub purge_locked : ℕ → Limiter → Limiter
purge_locked cutoff l = record l { buckets = select (λ e. not (ltb e.1.last cutoff)) l.buckets }

-- The refill of `Allow`: nothing when the clock has not advanced.
unfoldable pub refill : Limiter → Bucket → ℕ → Bucket
refill l b now =
    if ltb b.last now
    then record { tokens = min (capacity l) (b.tokens + (now - b.last) * l.per_minute); last = now }
    else b

-- The verdict and the delay in nanoseconds, with the bucket that stays.
unfoldable pub take_token : Limiter → Bucket → (Bool × ℕ) × Bucket
take_token l b =
    if leb unit b.tokens
    then ((true, 0), record b { tokens = b.tokens - unit })
    else ((false, (unit - b.tokens) / l.per_minute), b)

-- The part of `Allow` after a bucket was found or made.
unfoldable pub spend : Limiter → Bytes → Bucket → ℕ → (Bool × ℕ) × Limiter
spend l key b now =
    let (verdict, b') = take_token l (refill l b now) in
    (verdict, record l { buckets = put key b' l.buckets })

abbrev fresh : Limiter → ℕ → Bucket
fresh l now = record { tokens = capacity l; last = now }

abbrev pub is_full : Limiter → Bool
is_full l = leb l.max (length l.buckets)

-- A key without a bucket: a full table is purged first, and a table that stays full refuses.
unfoldable pub admit : Limiter → Bytes → ℕ → (Bool × ℕ) × Limiter
admit l key now =
    if is_full l
    then (let purged = purge_locked (now - l.idle) l in
        if is_full purged
        then ((false, minute), purged)
        else spend purged key (fresh purged now) now)
    else spend l key (fresh l now) now

-- `Allow` at the time `now`.
unfoldable pub allow : Limiter → Bytes → ℕ → (Bool × ℕ) × Limiter
allow l key now = elim (lookup key l.buckets) [
  | none ↦ admit l key now
  | some b ↦ spend l key b now
]

-- One tick of `StartJanitor`.
unfoldable pub sweep : Limiter → ℕ → Limiter
sweep l now = purge_locked (now - l.idle) l

-- `Size`
unfoldable pub size : Limiter → ℕ
size l = length l.buckets
