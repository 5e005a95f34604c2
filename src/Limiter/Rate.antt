-- ===== src/Limiter/Rate.antt =====
-- The rate that the limiter enforces over any sequence of requests and janitor ticks.
use Prim.Native.Nat.{min}
use spin_the_wheel.Prelude.{
  ℕ, ◌+◌, ◌≤◌, ◌-◌, ◌*◌, ◌≡◌, refl, Bool, false, Option, none, some, List, [], ◌∷◌, arith, Bytes,
  same, same_iff, same_refl, ap, ◌∙◌, leb, if◌then◌else◌, Bool-cases, inl, inr, ◌&&◌,
}
use spin_the_wheel.Limiter.{Bucket, Limiter, lookup, capacity, unit, allow, sweep, purge_locked}
use spin_the_wheel.Limiter.Bounds.{
  IsValid, IsValid-later, allow-IsValid, sweep-IsValid, allow-SameSettings,
}
use spin_the_wheel.Limiter.View.{
  mul_mono, level, tokens_at, ideal_take, IsPatient, allow-implements, tokens_at-purge_locked,
}

pub data Event : Type 0 where
  request : Bytes → Event
  tick : Event

abbrev pub Trace : Type 0
Trace = List (ℕ × Event)

abbrev one_if : Bool → ℕ
one_if b = if b then 1 else 0

-- How many requests of one key the trace's requests are granted.
pub granted : Bytes → Limiter → Trace → ℕ
granted k l [] = 0
granted k l ((t, request j) ∷ es) =
    one_if (same j k && (allow l j t).0.0) + granted k (allow l j t).1 es
granted k l ((t, tick) ∷ es) = granted k (sweep l t) es

-- The times of the trace do not go back, from a start on.
abbrev pub IsOrdered : ℕ → Trace → Type 0
IsOrdered t0 [] = Unit
IsOrdered t0 ((t, e) ∷ es) = (t0 ≤ t) × IsOrdered t es

abbrev pub end_of : ℕ → Trace → ℕ
end_of t0 [] = t0
end_of t0 ((t, e) ∷ es) = end_of t es

end_of-ge : (t0 : ℕ) (es : Trace) → IsOrdered t0 es → t0 ≤ end_of t0 es
end_of-ge t0 [] h = omega arith
end_of-ge t0 ((t, e) ∷ es) (le, h) = omega (arith, end_of-ge t es h)

level-later :
    (cap rate t0 t : ℕ) (o : Option Bucket)
    → t0 ≤ t
    → level cap rate o t ≤ level cap rate o t0 + (t - t0) * rate
level-later cap rate t0 t none le = omega arith
level-later cap rate t0 t (some b) le =
    let d : (t - b.last) * rate ≤ (t0 - b.last + (t - t0)) * rate =
      mul_mono (t - b.last) (t0 - b.last + (t - t0)) rate (omega arith) in
    omega arith

tokens_at-later :
    (l : Limiter) (k : Bytes) (t0 t : ℕ)
    → t0 ≤ t
    → tokens_at l k t ≤ tokens_at l k t0 + (t - t0) * l.per_minute
unfolding tokens_at
tokens_at-later l k t0 t le = level-later (capacity l) l.per_minute t0 t (lookup k l.buckets) le

own_cost :
    (n cap rate t after : ℕ) (v : Bool)
    → v ≡ leb unit n
    → after ≡ min cap (ideal_take n + (t - t) * rate)
    → unit * one_if v + after ≤ n
own_cost n cap rate t after v e f =
    let still : (t - t) * rate ≡ 0 * rate = ap (λ (d : ℕ). d * rate) (omega arith) in
    elim (Bool-cases (leb unit n)) [
      | inl enough ↦ rw (e, f, enough, still) (ground arith)
      | inr short ↦ rw (e, f, short, still) (omega arith)
    ]

-- One request costs its key a token if it is granted, and no other key anything.
allow-cost :
    (l : Limiter) (j k : Bytes) (t : ℕ)
    → IsValid l t
    → IsPatient l
    → unit * one_if (same j k && (allow l j t).0.0) + tokens_at (allow l j t).1 k t
      ≤ tokens_at l k t
allow-cost l j k t v p = elim (allow-implements l j t v p) [
  | inl a ↦ elim (Bool-cases (same j k)) [
    | inl mine ↦
        let e : j ≡ k = (same_iff j k).0 mine in
        rw (mine, ← e)
          (own_cost (tokens_at l j t) (capacity l) l.per_minute t _ _ a.verdict
            (a.after j t (omega arith) ∙ rw same_refl))
    | inr other ↦
        rw other
          (let kept = a.after k t (omega arith) in let e = rw other at kept in omega (arith, e))
  ]
  | inr r ↦
      let denied : (allow l j t).0.0 ≡ false = ap (λ (x : Bool × ℕ). x.0) r.verdict in
      let kept = r.after k t (omega arith) in
      elim (Bool-cases (same j k)) [
        | inl mine ↦ rw (mine, denied) (omega (arith, kept))
        | inr other ↦ rw other (omega (arith, kept))
      ]
]

-- What a step leaves of the hypotheses for the rest of the trace.
record Carries (l m : Limiter) (t : ℕ) : Type 0 where
  valid : IsValid m t
  patient : IsPatient m
  same_rate : m.per_minute ≡ l.per_minute

allow-Carries :
    (l : Limiter) (j : Bytes) (t : ℕ) → IsValid l t → IsPatient l → Carries l (allow l j t).1 t
allow-Carries l j t v p =
    let s = allow-SameSettings l j t in
    record {
      valid = allow-IsValid l j t v;
      patient = rw (s.burst, s.idle, s.per_minute) p;
      same_rate = s.per_minute;
    }

sweep-Carries : (l : Limiter) (t : ℕ) → IsValid l t → IsPatient l → Carries l (sweep l t) t
unfolding sweep purge_locked
sweep-Carries l t v p = record { valid = sweep-IsValid l t v; patient = p; same_rate = refl }

tokens_at-sweep :
    (l : Limiter) (k : Bytes) (t : ℕ)
    → IsValid l t
    → IsPatient l
    → tokens_at (sweep l t) k t ≡ tokens_at l k t
unfolding sweep
tokens_at-sweep l k t v p = tokens_at-purge_locked l k t t v p (omega arith)

-- The arithmetic of one step: `cost` is spent at the time `t`, the rest from there to the end.
add_step :
    (cost rest later n0 n t0 t e rate rate' : ℕ)
    → cost + later ≤ n
    → n ≤ n0 + (t - t0) * rate
    → rest ≤ later + (e - t) * rate'
    → rate' ≡ rate
    → t0 ≤ t
    → t ≤ e
    → cost + rest ≤ n0 + (e - t0) * rate
add_step cost rest later n0 n t0 t e rate rate' h1 h2 h3 same_rate le le' =
    let whole : (e - t0) * rate ≡ (e - t + (t - t0)) * rate =
      ap (λ (d : ℕ). d * rate) (omega arith) in
    let tail : (e - t) * rate' ≡ (e - t) * rate = ap (λ (r : ℕ). (e - t) * r) same_rate in
    omega arith

-- Over any sequence of requests of any clients and of janitor ticks, whose times do not go back,
-- a valid and patient limiter grants a key at most the tokens that it has at the start and those
-- that its rate makes until the end.
pub granted-le :
    (k : Bytes) (l : Limiter) (t0 : ℕ) (es : Trace)
    → IsValid l t0
    → IsPatient l
    → IsOrdered t0 es
    → unit * granted k l es ≤ tokens_at l k t0 + (end_of t0 es - t0) * l.per_minute
unfolding granted
granted-le k l t0 [] v p o = omega arith
granted-le k l t0 ((t, request j) ∷ es) v p (le, o) =
    let v' = IsValid-later l t0 t le v in
    let c = allow-Carries l j t v' p in
    let step =
      add_step (unit * one_if (same j k && (allow l j t).0.0)) (unit * granted k (allow l j t).1 es)
        (tokens_at (allow l j t).1 k t) (tokens_at l k t0) (tokens_at l k t) t0 t (end_of t es)
        l.per_minute (allow l j t).1.per_minute (allow-cost l j k t v' p)
        (tokens_at-later l k t0 t le) (granted-le k (allow l j t).1 t es c.valid c.patient o)
        c.same_rate le (end_of-ge t es o) in
    omega (arith, step)
granted-le k l t0 ((t, tick) ∷ es) v p (le, o) =
    let v' = IsValid-later l t0 t le v in
    let c = sweep-Carries l t v' p in
    let step =
      add_step 0 (unit * granted k (sweep l t) es) (tokens_at (sweep l t) k t) (tokens_at l k t0)
        (tokens_at l k t) t0 t (end_of t es) l.per_minute (sweep l t).per_minute
        (omega (arith, tokens_at-sweep l k t v' p)) (tokens_at-later l k t0 t le)
        (granted-le k (sweep l t) t es c.valid c.patient o) c.same_rate le (end_of-ge t es o) in
    omega (arith, step)
