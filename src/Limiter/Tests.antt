-- ===== src/Limiter/Tests.antt =====
-- Runs of the limiter, and the theorems at the limits that the router sets for logins.
use spin_the_wheel.Prelude.{
  ◌*◌, ◌+◌, ◌≤◌, ◌≡◌, ◌⊎◌, refl, true, false, [], ◌∷◌, arith, Bytes, same, text,
}
use spin_the_wheel.Limiter.{
  Limiter, new_limiter, lookup, put, refill, take_token, spend, admit, allow, purge_locked, sweep,
  size, unit,
}
use spin_the_wheel.Limiter.Bounds.{IsValid, new_limiter-IsValid, allow-IsValid}
use spin_the_wheel.Limiter.View.{Answers, Refuses, allow-implements, tokens_at}
use spin_the_wheel.Limiter.Rate.{request, tick, granted, granted-le}

running : Unit {0}
unfolding new_limiter allow admit spend refill take_token lookup put purge_locked sweep same size
running = tt

-- authLimiter, with a reserve of ten for twenty a minute.
abbrev auth_limiter : Limiter
auth_limiter = new_limiter 20 10

abbrev alice : Bytes
alice = text "10.0.0.1"

first_request :
    ((allow auth_limiter alice 5).0 ≡ (true, 0)) × (size (allow auth_limiter alice 5).1 ≡ 1)
unfolding running
first_request = (refl, refl)

-- With a reserve of one the second request at the same time waits three seconds.
second_request : (allow (allow (new_limiter 20 1) alice 5).1 alice 5).0 ≡ (false, 3 * 1_000_000_000)
unfolding running
second_request = refl

allow-IsValid_example : IsValid (allow auth_limiter alice 7).1 7
allow-IsValid_example = allow-IsValid auth_limiter alice 7 (new_limiter-IsValid 20 10 7)

allow-implements_example :
    Answers auth_limiter alice 7 (allow auth_limiter alice 7)
    ⊎ Refuses auth_limiter 7 (allow auth_limiter alice 7)
unfolding new_limiter
allow-implements_example =
    allow-implements auth_limiter alice 7 (new_limiter-IsValid 20 10 7) (omega arith)

granted-le_example :
    unit * granted alice auth_limiter ((7, request alice) ∷ (9, tick) ∷ (9, request alice) ∷ [])
    ≤ tokens_at auth_limiter alice 0 + 9 * 20
unfolding new_limiter
granted-le_example =
    granted-le alice auth_limiter 0 ((7, request alice) ∷ (9, tick) ∷ (9, request alice) ∷ [])
      (new_limiter-IsValid 20 10 0) (omega arith) (omega arith)
