-- ===== src/Store/Spins.antt =====
-- The history of spins: backend/internal/store/wheels.go, lines 264 to 326.
pub mod Recording
use spin_the_wheel.Prelude.{
  ℕ, ◌+◌, Bool, true, false, not, ◌&&◌, ◌||◌, Option, none, some, List, [], ◌∷◌, ◌++◌, map, Bytes,
  same, length, take, select, any, sort_by, bytes_ltb, ltb, ◌==◌, if◌then◌else◌,
}
use spin_the_wheel.Utf8.{truncate}
use spin_the_wheel.Store.Tables.{Db, WheelRow, SpinRow}
use spin_the_wheel.Store.Monad.{M, ◌>>=◌, ◌>>◌, pure, new_uid, exec, query}
use spin_the_wheel.Store.Accounts.{null_uuid}

-- `Spin`
pub record Spin : Type 0 where
  pub id : Bytes
  pub segment_index : ℕ
  pub segment_label : Bytes
  pub created_at : ℕ

abbrev pub to_spin : SpinRow → Spin
to_spin r = record {
  id = r.id;
  segment_index = r.segment_index;
  segment_label = r.segment_label;
  created_at = r.created_at;
}

-- NULL for an empty digest.
abbrev pub hash_or_null : Bytes → Option Bytes
hash_or_null [] = none
hash_or_null (b ∷ bs) = some (b ∷ bs)

abbrev pub spin_row : Bytes → Bytes → Option Bytes → ℕ → Bytes → Option Bytes → Bytes → ℕ → SpinRow
spin_row id wheel segment index label hash user_agent now = record {
  id = id;
  wheel_id = wheel;
  segment_id = segment;
  segment_index = index;
  segment_label = label;
  ip_hash = hash;
  user_agent = user_agent;
  created_at = now;
}

-- `InsertSpin`
unfoldable pub insert_spin : Bytes → Bytes → ℕ → Bytes → Bytes → Bytes → M Bytes
unfolding null_uuid
insert_spin wheel segment index label ip_hash user_agent = do
  id ← new_uid
  exec (λ now db. (
    tt {0},
    record db {
      spins =
          db.spins
          ++ spin_row id wheel (null_uuid segment) index label (hash_or_null ip_hash)
              (truncate user_agent 512) now
            ∷ [];
    },
  ))
  pure id

-- The limit of a listing: `fallback` where it is 0 or more than 500.
abbrev pub capped : ℕ → ℕ → ℕ
capped limit fallback = if limit == 0 || ltb 500 limit then fallback else limit

-- JOIN wheels … WHERE sp.wheel_id = $1 AND w.owner_id = $2
unfoldable pub is_spin_of : Bytes → Bytes → Db → SpinRow → Bool
is_spin_of wheel owner db sp =
    same sp.wheel_id wheel
    && any (λ (w : WheelRow). same w.id sp.wheel_id && same w.owner_id owner) db.wheels

unfoldable pub spins_of : Bytes → Bytes → ℕ → Db → List Spin
unfolding is_spin_of
spins_of wheel owner limit db = map to_spin (
    take limit (
      sort_by (λ (a b : SpinRow). not (bytes_ltb a.id b.id))
        (select (is_spin_of wheel owner db) db.spins)))

-- `ListSpins`
unfoldable pub list_spins : Bytes → Bytes → ℕ → M (List Spin)
unfolding spins_of
list_spins wheel owner limit = query (λ now db. spins_of wheel owner (capped limit 100) db)

-- created_at > now() - interval
unfoldable pub is_recent_spin : Bytes → ℕ → ℕ → SpinRow → Bool
is_recent_spin wheel since now sp = same sp.wheel_id wheel && ltb now (sp.created_at + since)

-- `CountSpinsSince`
unfoldable pub count_spins_since : Bytes → ℕ → M ℕ
unfolding is_recent_spin
count_spins_since wheel since =
    query (λ now db. length (select (is_recent_spin wheel since now) db.spins))
