-- ===== src/Api/Spin.antt =====
-- The spin of a public wheel: backend/internal/api/embed.go. `rand.Int` and SHA-256 are parameters:
-- `rand_int n` is the number below n that the system draws for the request, or nothing where its
-- generator fails.
pub mod Recorded
pub mod Refused
pub mod Answered
use mathlib.Core.Option
use spin_the_wheel.Prelude.{
  ℕ, ◌+◌, Option, none, some, List, [], ◌∷◌, ◌++◌, Bytes, text, length, get_elem?, map, leb, ltb,
  ◌==◌, if◌then◌else◌,
}
use spin_the_wheel.Uid.{parse, string, is_zero, nil_uuid}
use spin_the_wheel.Store.Tables.{spun}
use spin_the_wheel.Store.Monad.{failed, World}
use spin_the_wheel.Store.Wheels.{Wheel}
use spin_the_wheel.Store.Segments.{Segment, get_public_wheel}
use spin_the_wheel.Store.Sessions.{one_hour}
use spin_the_wheel.Store.Spins.{count_spins_since, insert_spin}
use spin_the_wheel.Api.Reply.{
  bad_request, rate_limited, Refusal, Handler, Request, refusal, not_found_reply, internal_reply,
  found_or_internal, answer, refuse, attempt, entry, audited, hash_ip, guarded,
}

abbrev pub max_spins_per_wheel_per_hour : ℕ
max_spins_per_wheel_per_hour = 3000

-- `imageURL`
unfoldable pub image_url : Bytes → Bytes
unfolding is_zero string
image_url id = if is_zero id then [] else text "/img/" ++ string id

-- `embedSegment`
pub record EmbedSegment : Type 0 where
  pub index : ℕ
  pub label : Bytes
  pub color : Bytes
  pub image_url : Bytes

abbrev pub embed_segments : ℕ → List Segment → List EmbedSegment
embed_segments i [] = []
embed_segments i (seg ∷ segs) =
    record { index = i; label = seg.label; color = seg.color; image_url = image_url seg.image_id }
    ∷ embed_segments (1 + i) segs

-- The payload of `getEmbedWheel`.
pub record EmbedWheel : Type 0 where
  pub id : Bytes
  pub title : Bytes
  pub segments : List EmbedSegment

-- `getEmbedWheel`
unfoldable pub get_embed_wheel : Request → Handler EmbedWheel
get_embed_wheel q = guarded (parse q.path_id) not_found_reply λ id.
    attempt (get_public_wheel id) found_or_internal λ (wheel, segs).
      answer 200
        (record { id = string wheel.id; title = wheel.title; segments = embed_segments 0 segs })

-- The payload of `spin`.
pub record SpinResult : Type 0 where
  pub spin_id : Bytes
  pub index : ℕ
  pub label : Bytes
  pub image_url : Bytes

abbrev pub too_many_spins : Refusal
too_many_spins = record { status = 429; code = rate_limited; retry_after = some 300 }

-- `secureIndex`
unfoldable pub secure_index : (ℕ → Option ℕ) → ℕ → Option ℕ
secure_index rand_int n = if n == 0 then none else rand_int n

abbrev pub spin_result : ℕ → Segment → Bytes → SpinResult
spin_result index chosen spin_id = record {
  spin_id = string spin_id;
  index = index;
  label = chosen.label;
  image_url = image_url chosen.image_id;
}

module _ (rand_int : ℕ → Option ℕ) (sha256 : Bytes → Bytes) (ip_hash_salt : Bytes) where
  -- The record of a draw, its audit and the answer.
  abbrev pub save_draw : Request → Bytes → ℕ → Segment → Handler SpinResult
  save_draw q wheel index chosen =
      attempt
        (insert_spin wheel chosen.id index chosen.label (hash_ip sha256 ip_hash_salt q.client_ip)
          q.user_agent)
        internal_reply
        λ spin_id.
          audited (entry sha256 ip_hash_salt q nil_uuid spun (text "wheel") wheel)
            (answer 200 (spin_result index chosen spin_id))

  -- The draw. An index out of range would be a panic, which the middleware `Recover` answers by a
  -- 500.
  unfoldable pub draw : Request → Bytes → List Segment → Handler SpinResult
  unfolding secure_index
  draw q wheel segs =
      guarded (secure_index rand_int (length segs)) (internal_reply failed)
        λ index. guarded (get_elem? segs index) (internal_reply failed) (save_draw q wheel index)

  -- The guard of the hour.
  unfoldable pub limited_draw : Request → Bytes → List Segment → Handler SpinResult
  unfolding draw
  limited_draw q wheel segs = attempt (count_spins_since wheel one_hour) internal_reply λ recent.
      if leb max_spins_per_wheel_per_hour recent then refuse too_many_spins else draw q wheel segs

  -- The guard on the number of segments.
  unfoldable pub spin_wheel : Request → Wheel × List Segment → Handler SpinResult
  unfolding limited_draw
  spin_wheel q (wheel, segs) =
      if ltb (length segs) 2 then refuse (refusal 409 bad_request) else limited_draw q wheel.id segs

  -- `spin`
  unfoldable pub spin : Request → Handler SpinResult
  unfolding spin_wheel
  spin q =
      guarded (parse q.path_id) not_found_reply
        λ id. attempt (get_public_wheel id) found_or_internal (spin_wheel q)
