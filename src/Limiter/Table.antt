-- ===== src/Limiter/Table.antt =====
-- The map of the buckets: reads after writes and after a purge.
use spin_the_wheel.Prelude.{
  ℕ, suc, ◌≡◌, refl, not, none, some, List, [], ◌∷◌, arith, Bytes, same, same_iff, ltb,
  if◌then◌else◌, length, select, All, Bool-cases, inl, inr,
}
use spin_the_wheel.Limiter.{Bucket, lookup, put}

abbrev pub Table : Type 0
Table = List (Bytes × Bucket)

pub lookup-put :
    (k j : Bytes) (b : Bucket) (t : Table)
    → lookup j (put k b t) ≡ (if same k j then some b else lookup j t)
unfolding lookup put
lookup-put k j b [] = refl
lookup-put k j b ((i, c) ∷ t) =
    ground (arith, same_iff i k, same_iff i j, same_iff k j, lookup-put k j b t)

-- No key stands twice.
abbrev pub Fresh : Bytes → Table → Type 0
Fresh k t = lookup k t ≡ none

abbrev pub HasDistinctKeys : Table → Type 0
HasDistinctKeys [] = Unit
HasDistinctKeys ((k, b) ∷ t) = Fresh k t × HasDistinctKeys t

pub put-HasDistinctKeys :
    (k : Bytes) (b : Bucket) (t : Table) → HasDistinctKeys t → HasDistinctKeys (put k b t)
unfolding put lookup
put-HasDistinctKeys k b [] h = (refl, tt)
put-HasDistinctKeys k b ((i, c) ∷ t) (fresh, h) =
    ground (arith, same_iff i k, same_iff k i, lookup-put k i b t, put-HasDistinctKeys k b t h)

-- A write under a key that is there keeps the size, and a new key adds one.
pub length-put_present :
    (k : Bytes) (b c : Bucket) (t : Table) → lookup k t ≡ some c → length (put k b t) ≡ length t
unfolding put lookup
length-put_present k b c [] h = cc
length-put_present k b c ((i, d) ∷ t) h = ground (arith, length-put_present k b c t)

pub length-put_absent :
    (k : Bytes) (b : Bucket) (t : Table) → lookup k t ≡ none → length (put k b t) ≡ suc (length t)
unfolding put lookup
length-put_absent k b [] h = refl
length-put_absent k b ((i, d) ∷ t) h = ground (arith, length-put_absent k b t)

pub All-put :
    (P : Bucket → Type 0) (k : Bytes) (b : Bucket) (t : Table)
    → P b
    → All (λ e. P e.1) t
    → All (λ e. P e.1) (put k b t)
unfolding put
All-put P k b [] p h = (p, tt)
All-put P k b ((i, c) ∷ t) p (q, h) = elim (Bool-cases (same i k)) [
  | inl e ↦ rw e (p, h)
  | inr e ↦ rw e (q, All-put P k b t p h)
]

pub lookup-All :
    (P : Bucket → Type 0) (k : Bytes) (b : Bucket) (t : Table)
    → All (λ e. P e.1) t
    → lookup k t ≡ some b
    → P b
unfolding lookup
lookup-All P k b [] h e = cc
lookup-All P k b ((i, c) ∷ t) (p, h) e = elim (Bool-cases (same i k)) [
  | inl q ↦ let found : c ≡ b = ground arith in rw (← found) p
  | inr q ↦ lookup-All P k b t h (ground arith)
]

-- The entries that a purge at `cutoff` keeps.
abbrev pub survivors : ℕ → Table → Table
survivors cutoff t = select (λ e. not (ltb e.1.last cutoff)) t

pub lookup-survivors_absent :
    (cutoff : ℕ) (k : Bytes) (t : Table) → lookup k t ≡ none → lookup k (survivors cutoff t) ≡ none
unfolding lookup
lookup-survivors_absent cutoff k [] h = refl
lookup-survivors_absent cutoff k ((i, c) ∷ t) h = ground (arith, lookup-survivors_absent cutoff k t)

pub survivors-HasDistinctKeys :
    (cutoff : ℕ) (t : Table) → HasDistinctKeys t → HasDistinctKeys (survivors cutoff t)
unfolding lookup
survivors-HasDistinctKeys cutoff [] h = tt
survivors-HasDistinctKeys cutoff ((i, c) ∷ t) (fresh, h) =
    ground (arith, survivors-HasDistinctKeys cutoff t h, lookup-survivors_absent cutoff i t)

-- A purge drops exactly the buckets last used before the cutoff.
pub lookup-survivors :
    (cutoff : ℕ) (k : Bytes) (b : Bucket) (t : Table)
    → HasDistinctKeys t
    → lookup k t ≡ some b
    → lookup k (survivors cutoff t) ≡ (if ltb b.last cutoff then none else some b)
unfolding lookup
lookup-survivors cutoff k b [] d h = cc
lookup-survivors cutoff k b ((i, c) ∷ t) (fresh, d) h =
    ground
      (arith, same_iff i k, lookup-survivors cutoff k b t d, lookup-survivors_absent cutoff k t)
