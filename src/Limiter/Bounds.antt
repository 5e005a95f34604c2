-- ===== src/Limiter/Bounds.antt =====
-- The invariant of a limiter: no bucket above its capacity or from the future, no key twice, and
-- no more buckets than the table may hold.
use spin_the_wheel.Prelude.{
  ℕ, ◌≤◌, ◌<◌, ◌-◌, ◌≡◌, Bool, false, not, none, some, [], ◌∷◌, arith, Bytes, ltb, if◌then◌else◌,
  length, All, All-select, length-select-le, Bool-cases, Option-cases, inl, inr,
}
use spin_the_wheel.Limiter.{
  Bucket, Limiter, minute, lookup, put, capacity, fresh, refill, take_token, spend, admit, allow,
  purge_locked, sweep, new_limiter, is_full,
}
use spin_the_wheel.Limiter.Table.{
  Table, HasDistinctKeys, put-HasDistinctKeys, length-put_present, length-put_absent, All-put,
  lookup-All, lookup-survivors_absent, survivors-HasDistinctKeys,
}

abbrev pub IsBounded : ℕ → ℕ → Bucket → Type 0
IsBounded cap now b = (b.tokens ≤ cap) × (b.last ≤ now)

pub record IsValid (l : Limiter) (now : ℕ) : Type 0 where
  pub distinct : HasDistinctKeys l.buckets
  pub bounded : All (λ e. IsBounded (capacity l) now e.1) l.buckets
  pub sized : length l.buckets ≤ l.max
  pub rate_pos : 0 < l.per_minute
  pub burst_pos : 0 < l.burst

-- The settings that no operation changes.
pub record SameSettings (l m : Limiter) : Type 0 where
  pub per_minute : m.per_minute ≡ l.per_minute
  pub burst : m.burst ≡ l.burst
  pub idle : m.idle ≡ l.idle
  pub max : m.max ≡ l.max

pub new_limiter-IsValid : (per_minute burst now : ℕ) → IsValid (new_limiter per_minute burst) now
unfolding new_limiter
new_limiter-IsValid per_minute burst now = record {
  distinct = tt;
  bounded = tt;
  sized = omega arith;
  rate_pos = ground arith;
  burst_pos = ground arith;
}

All-later :
    (cap now later : ℕ) (t : Table)
    → now ≤ later
    → All (λ e. IsBounded cap now e.1) t
    → All (λ e. IsBounded cap later e.1) t
All-later cap now later [] le h = tt
All-later cap now later (e ∷ t) le ((p, q), h) = ((p, omega arith), All-later cap now later t le h)

-- Time alone keeps the invariant.
pub IsValid-later : (l : Limiter) (now later : ℕ) → now ≤ later → IsValid l now → IsValid l later
IsValid-later l now later le v = record {
  distinct = v.distinct;
  bounded = All-later (capacity l) now later l.buckets le v.bounded;
  sized = v.sized;
  rate_pos = v.rate_pos;
  burst_pos = v.burst_pos;
}

pub purge_locked-IsValid :
    (l : Limiter) (cutoff now : ℕ) → IsValid l now → IsValid (purge_locked cutoff l) now
unfolding purge_locked
purge_locked-IsValid l cutoff now v = record {
  distinct = survivors-HasDistinctKeys cutoff l.buckets v.distinct;
  bounded =
      All-select (λ e. IsBounded (capacity l) now e.1) (λ e. not (ltb e.1.last cutoff)) l.buckets
        v.bounded;
  sized = omega (arith, v.sized, length-select-le (λ e. not (ltb e.1.last cutoff)) l.buckets);
  rate_pos = v.rate_pos;
  burst_pos = v.burst_pos;
}

-- A refill at the present, and a token taken from a bucket of the present, stay in bounds.
pub refill-IsBounded :
    (l : Limiter) (b : Bucket) (now : ℕ)
    → IsBounded (capacity l) now b
    → IsBounded (capacity l) now (refill l b now) × ((refill l b now).last ≡ now)
unfolding refill
refill-IsBounded l b now h = ground arith

pub take_token-IsBounded :
    (l : Limiter) (b : Bucket) (cap now : ℕ)
    → IsBounded cap now b
    → IsBounded cap now (take_token l b).1 × ((take_token l b).1.last ≡ b.last)
unfolding take_token
take_token-IsBounded l b cap now h = ground arith

-- The bucket that `spend` leaves under its key.
abbrev pub spent : Limiter → Bucket → ℕ → Bucket
spent l b now = (take_token l (refill l b now)).1

spent-IsBounded :
    (l : Limiter) (b : Bucket) (now : ℕ)
    → IsBounded (capacity l) now b
    → IsBounded (capacity l) now (spent l b now)
spent-IsBounded l b now h =
    (take_token-IsBounded l (refill l b now) (capacity l) now (refill-IsBounded l b now h).0).0

spend-IsValid :
    (l : Limiter) (key : Bytes) (b : Bucket) (now : ℕ)
    → IsBounded (capacity l) now b
    → length (put key (spent l b now) l.buckets) ≤ l.max
    → IsValid l now
    → IsValid (spend l key b now).1 now
unfolding spend
spend-IsValid l key b now h size v = record {
  distinct = put-HasDistinctKeys key (spent l b now) l.buckets v.distinct;
  bounded =
      All-put (IsBounded (capacity l) now) key (spent l b now) l.buckets (spent-IsBounded l b now h)
        v.bounded;
  sized = size;
  rate_pos = v.rate_pos;
  burst_pos = v.burst_pos;
}

spend_found-IsValid :
    (l : Limiter) (key : Bytes) (b : Bucket) (now : ℕ)
    → lookup key l.buckets ≡ some b
    → IsValid l now
    → IsValid (spend l key b now).1 now
spend_found-IsValid l key b now e v =
    spend-IsValid l key b now (lookup-All (IsBounded (capacity l) now) key b l.buckets v.bounded e)
      (omega (arith, v.sized, length-put_present key (spent l b now) b l.buckets e)) v

spend_new-IsValid :
    (l : Limiter) (key : Bytes) (now : ℕ)
    → lookup key l.buckets ≡ none
    → is_full l ≡ false
    → IsValid l now
    → IsValid (spend l key (fresh l now) now).1 now
spend_new-IsValid l key now e room v =
    spend-IsValid l key (fresh l now) now (omega arith, omega arith)
      (let more : length l.buckets < l.max = ground arith in
        omega (arith, length-put_absent key (spent l (fresh l now) now) l.buckets e))
      v

pub lookup-purge_locked_absent :
    (l : Limiter) (cutoff : ℕ) (key : Bytes)
    → lookup key l.buckets ≡ none
    → lookup key (purge_locked cutoff l).buckets ≡ none
unfolding purge_locked
lookup-purge_locked_absent l cutoff key e = lookup-survivors_absent cutoff key l.buckets e

-- The second half of `admit`, after the purge.
abbrev pub retry : Limiter → Bytes → ℕ → (Bool × ℕ) × Limiter
retry m key now = if is_full m then ((false, minute), m) else spend m key (fresh m now) now

purged_admit-IsValid :
    (m : Limiter) (key : Bytes) (now : ℕ)
    → lookup key m.buckets ≡ none
    → IsValid m now
    → IsValid (retry m key now).1 now
purged_admit-IsValid m key now e v = elim (Bool-cases (is_full m)) [
  | inl full ↦ rw full v
  | inr room ↦ rw room (spend_new-IsValid m key now e room v)
]

admit-IsValid :
    (l : Limiter) (key : Bytes) (now : ℕ)
    → lookup key l.buckets ≡ none
    → IsValid l now
    → IsValid (admit l key now).1 now
unfolding admit
admit-IsValid l key now e v = elim (Bool-cases (is_full l)) [
  | inr room ↦ rw room (spend_new-IsValid l key now e room v)
  | inl full ↦ rw full (
      purged_admit-IsValid (purge_locked (now - l.idle) l) key now
        (lookup-purge_locked_absent l (now - l.idle) key e)
        (purge_locked-IsValid l (now - l.idle) now v))
]

-- `Allow` keeps the invariant, on each of its branches: no bucket exceeds the burst, and the
-- table never holds more than its maximum of buckets, whatever keys are asked for.
pub allow-IsValid :
    (l : Limiter) (key : Bytes) (now : ℕ) → IsValid l now → IsValid (allow l key now).1 now
unfolding allow
allow-IsValid l key now v = elim (Option-cases (lookup key l.buckets)) [
  | inl e ↦ rw (e, allow) (admit-IsValid l key now e v)
  | inr (b, e) ↦ rw (e, allow) (spend_found-IsValid l key b now e v)
]

pub sweep-IsValid : (l : Limiter) (now : ℕ) → IsValid l now → IsValid (sweep l now) now
unfolding sweep
sweep-IsValid l now v = purge_locked-IsValid l (now - l.idle) now v

pub allow-SameSettings : (l : Limiter) (key : Bytes) (now : ℕ) → SameSettings l (allow l key now).1
unfolding allow admit spend purge_locked
allow-SameSettings l key now = ground arith
