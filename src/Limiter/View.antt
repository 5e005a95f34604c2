-- ===== src/Limiter/View.antt =====
-- What the limiter promises: each key has one ideal bucket, which starts full and fills at its
-- rate for ever. The table, the purges and the janitor only implement it.
use Prim.Native.Nat.{min}
use spin_the_wheel.Prelude.{
  ℕ, ◌+◌, ◌≤◌, ◌<◌, ◌-◌, ◌*◌, ◌≡◌, ◌⊎◌, refl, sym, ap, ap₂, ◌∙◌, Bool, true, false, Option, none,
  some, arith, Bytes, same, ltb, leb, if◌then◌else◌, Bool-cases, Option-cases, inl, inr,
}
use spin_the_wheel.Limiter.{
  Bucket, Limiter, minute, lookup, put, capacity, unit, fresh, refill, take_token, spend, admit,
  allow, purge_locked, is_full,
}
use spin_the_wheel.Limiter.Table.{lookup-put, lookup-All, lookup-survivors, lookup-survivors_absent}
use spin_the_wheel.Limiter.Bounds.{
  IsBounded, IsValid, lookup-purge_locked_absent, refill-IsBounded, take_token-IsBounded, spent,
  retry,
}

-- The tokens of a bucket at a time, with the refill that is due; without a bucket, a full one.
abbrev pub level : ℕ → ℕ → Option Bucket → ℕ → ℕ
level cap rate none t = cap
level cap rate (some b) t = min cap (b.tokens + (t - b.last) * rate)

unfoldable pub tokens_at : Limiter → Bytes → ℕ → ℕ
tokens_at l key t = level (capacity l) l.per_minute (lookup key l.buckets) t

-- The ideal bucket's step.
abbrev pub ideal_take : ℕ → ℕ
ideal_take n = if leb unit n then n - unit else n

-- The pause before a purge is long enough to fill a bucket.
abbrev pub IsPatient : Limiter → Type 0
IsPatient l = capacity l ≤ l.idle * l.per_minute

pub mul_mono : (a b c : ℕ) → a ≤ b → a * c ≤ b * c
mul_mono a b c h = grind arith

level_idle :
    (cap rate idle now t : ℕ) (b : Bucket)
    → cap ≤ idle * rate
    → b.last < now - idle
    → now ≤ t
    → level cap rate (some b) t ≡ cap
level_idle cap rate idle now t b h old le =
    let far : idle * rate ≤ (t - b.last) * rate = mul_mono idle (t - b.last) rate (omega arith) in
    omega arith

level-purged :
    (cap rate idle now t : ℕ) (b : Bucket)
    → cap ≤ idle * rate
    → now ≤ t
    → level cap rate (if ltb b.last (now - idle) then none else some b) t
      ≡ level cap rate (some b) t
level-purged cap rate idle now t b h le = elim (Bool-cases (ltb b.last (now - idle))) [
  | inl old ↦ rw old (sym (level_idle cap rate idle now t b h (ground arith) le))
  | inr recent ↦ rw recent
]

-- A purge is invisible: no key has more or fewer tokens after it.
pub tokens_at-purge_locked :
    (l : Limiter) (key : Bytes) (now t : ℕ)
    → IsValid l now
    → IsPatient l
    → now ≤ t
    → tokens_at (purge_locked (now - l.idle) l) key t ≡ tokens_at l key t
unfolding tokens_at purge_locked
tokens_at-purge_locked l key now t v p le = elim (Option-cases (lookup key l.buckets)) [
  | inl e ↦ rw (e, lookup-survivors_absent (now - l.idle) key l.buckets e)
  | inr (b, e) ↦
      rw (e, lookup-survivors (now - l.idle) key b l.buckets v.distinct e)
        (level-purged (capacity l) l.per_minute l.idle now t b p le)
]

-- An answered request: the verdict is the ideal bucket's, its bucket takes the ideal step, and
-- no other key is touched.
pub record Answers (l : Limiter) (key : Bytes) (now : ℕ) (reply : (Bool × ℕ) × Limiter)
    : Type 0 where
  pub verdict : reply.0.0 ≡ leb unit (tokens_at l key now)
  pub after :
      (j : Bytes) (t : ℕ)
      → now ≤ t
      → tokens_at reply.1 j t ≡ (
          if same key j
          then min (capacity l) (ideal_take (tokens_at l key now) + (t - now) * l.per_minute)
          else tokens_at l j t)

-- A request refused because the table is full: a minute's delay, and nothing changes.
pub record Refuses (l : Limiter) (now : ℕ) (reply : (Bool × ℕ) × Limiter) : Type 0 where
  pub verdict : reply.0 ≡ (false, minute)
  pub full : is_full reply.1 ≡ true
  pub after : (j : Bytes) (t : ℕ) → now ≤ t → tokens_at reply.1 j t ≡ tokens_at l j t

tokens-refill :
    (l : Limiter) (b : Bucket) (now : ℕ)
    → IsBounded (capacity l) now b
    → (refill l b now).tokens ≡ level (capacity l) l.per_minute (some b) now
unfolding refill
tokens-refill l b now h = elim (Bool-cases (ltb b.last now)) [
  | inl later ↦ rw later
  | inr present ↦
      let none_due : now - b.last ≡ 0 = ground arith in rw (present, none_due) (omega arith)
]

tokens-take_token :
    (l : Limiter) (b : Bucket)
    → ((take_token l b).0.0 ≡ leb unit b.tokens) × ((take_token l b).1.tokens ≡ ideal_take b.tokens)
unfolding take_token
tokens-take_token l b = ground arith

level-spent :
    (l : Limiter) (b : Bucket) (now t n : ℕ)
    → IsBounded (capacity l) now b
    → level (capacity l) l.per_minute (some b) now ≡ n
    → level (capacity l) l.per_minute (some (spent l b now)) t
      ≡ min (capacity l) (ideal_take n + (t - now) * l.per_minute)
level-spent l b now t n h e =
    let (_, dated) = refill-IsBounded l b now h in
    let same_date =
      (take_token-IsBounded l (refill l b now) (capacity l) now (refill-IsBounded l b now h).0).1 in
    rw (same_date, dated, (tokens-take_token l (refill l b now)).1, tokens-refill l b now h, e)

spent_after :
    (l : Limiter) (key : Bytes) (b : Bucket) (now : ℕ)
    → IsBounded (capacity l) now b
    → level (capacity l) l.per_minute (some b) now ≡ tokens_at l key now
    → (j : Bytes) (t : ℕ)
    → level (capacity l) l.per_minute (lookup j (put key (spent l b now) l.buckets)) t ≡ (
        if same key j
        then min (capacity l) (ideal_take (tokens_at l key now) + (t - now) * l.per_minute)
        else level (capacity l) l.per_minute (lookup j l.buckets) t)
spent_after l key b now h e j t = elim (Bool-cases (same key j)) [
  | inl mine ↦ rw (lookup-put, mine) (level-spent l b now t (tokens_at l key now) h e)
  | inr other ↦ rw (lookup-put, other)
]

spend-Answers :
    (l : Limiter) (key : Bytes) (b : Bucket) (now : ℕ)
    → IsBounded (capacity l) now b
    → level (capacity l) l.per_minute (some b) now ≡ tokens_at l key now
    → Answers l key now (spend l key b now)
unfolding spend tokens_at
spend-Answers l key b now h e = record {
  verdict = (tokens-take_token l (refill l b now)).0 ∙ ap (leb unit) (tokens-refill l b now h ∙ e);
  after = λ j t le. spent_after l key b now h e j t;
}

-- A found bucket is bounded, and a new one is full: both are what the view shows.
spend_found-Answers :
    (l : Limiter) (key : Bytes) (b : Bucket) (now : ℕ)
    → IsValid l now
    → lookup key l.buckets ≡ some b
    → Answers l key now (spend l key b now)
unfolding tokens_at
spend_found-Answers l key b now v e =
    spend-Answers l key b now (lookup-All (IsBounded (capacity l) now) key b l.buckets v.bounded e)
      (rw e)

spend_new-Answers :
    (l : Limiter) (key : Bytes) (now : ℕ)
    → lookup key l.buckets ≡ none
    → Answers l key now (spend l key (fresh l now) now)
unfolding tokens_at
spend_new-Answers l key now e =
    spend-Answers l key (fresh l now) now (omega arith, omega arith) (rw e (omega arith))

-- What holds after a purge holds before it.
module _ (l : Limiter) (key : Bytes) (now : ℕ) (v : IsValid l now) (p : IsPatient l) where
  Answers-purged :
      (r : (Bool × ℕ) × Limiter)
      → Answers (purge_locked (now - l.idle) l) key now r
      → Answers l key now r
  unfolding purge_locked
  Answers-purged r a = record {
    verdict = a.verdict ∙ ap (leb unit) (tokens_at-purge_locked l key now now v p (omega arith));
    after = λ j t le.
        a.after j t le
        ∙ ap₂
            (λ (n : ℕ) (o : ℕ).
              if same key j then min (capacity l) (ideal_take n + (t - now) * l.per_minute) else o)
            (tokens_at-purge_locked l key now now v p (omega arith))
            (tokens_at-purge_locked l j now t v p le);
  }

  abbrev purged : Limiter
  purged = purge_locked (now - l.idle) l

  retry-implements :
      lookup key purged.buckets ≡ none
      → Answers l key now (retry purged key now) ⊎ Refuses l now (retry purged key now)
  retry-implements e = elim (Bool-cases (is_full purged)) [
    | inl full ↦ rw full (
        inr (record {
          verdict = refl;
          full = full;
          after = λ j t le. tokens_at-purge_locked l j now t v p le;
        }))
    | inr room ↦ rw room (inl (Answers-purged _ (spend_new-Answers purged key now e)))
  ]

  admit-implements :
      lookup key l.buckets ≡ none
      → Answers l key now (admit l key now) ⊎ Refuses l now (admit l key now)
  unfolding admit
  admit-implements e = elim (Bool-cases (is_full l)) [
    | inl full ↦ rw full (retry-implements (lookup-purge_locked_absent l (now - l.idle) key e))
    | inr room ↦ rw room (inl (spend_new-Answers l key now e))
  ]

-- `Allow` implements the ideal buckets, on a valid limiter whose purges are patient: it answers
-- as the ideal bucket of its key does and touches no other key, or it refuses for a full table
-- and changes nothing that a later request could see.
pub allow-implements :
    (l : Limiter) (key : Bytes) (now : ℕ)
    → IsValid l now
    → IsPatient l
    → Answers l key now (allow l key now) ⊎ Refuses l now (allow l key now)
unfolding allow
allow-implements l key now v p = elim (Option-cases (lookup key l.buckets)) [
  | inr (b, e) ↦ rw (e, allow) (inl (spend_found-Answers l key b now v e))
  | inl e ↦ rw (e, allow) (admit-implements l key now v p e)
]
