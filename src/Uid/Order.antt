-- ===== src/Uid/Order.antt =====
-- The order of UUIDs as byte strings, by which PostgreSQL sorts the primary keys.
use spin_the_wheel.Prelude.{◌<◌, ◌≡◌, ◌⊎◌, [], ◌∷◌, Bytes}

-- The first byte that differs decides.
abbrev pub Precedes : Bytes → Bytes → Type 0
Precedes [] [] = ⊥
Precedes [] (b ∷ bs) = Unit
Precedes (a ∷ as') [] = ⊥
Precedes (a ∷ as') (b ∷ bs) = (a < b) ⊎ ((a ≡ b) × Precedes as' bs)
