-- ===== src/Api/Spin/Answered.antt =====
-- A spin is answered where no statement fails.
use spin_the_wheel.Prelude.{
  ℕ, ◌+◌, ◌≤◌, ◌<◌, ◌≡◌, ◌==◌, Bool-cases, inl, inr, refl, ap, ◌∙◌, false, Option, some, List,
  Bytes, length, get_elem?, leb, ltb, select, find, arith,
}
use spin_the_wheel.Uid.{parse, nil_uuid}
use spin_the_wheel.Store.Tables.{WheelRow}
use spin_the_wheel.Store.Monad.{failed, ok, StoreError, World, M, new_uid, exec}
use spin_the_wheel.Store.Wheels.{Wheel, to_wheel}
use spin_the_wheel.Store.Sessions.{one_hour}
use spin_the_wheel.Store.Segments.{
  Segment, is_public, segments_of, list_segments, public_view, get_public_wheel,
}
use spin_the_wheel.Store.Spins.{is_recent_spin, count_spins_since, insert_spin}
use spin_the_wheel.Api.Reply.{
  Refusal, Response, reply, Handler, Request, attempt, guarded, hash_ip, internal_reply,
}
use spin_the_wheel.Api.Spin.{
  SpinResult, spin_result, secure_index, save_draw, draw, limited_draw, spin_wheel, spin,
}

-- No statement fails.
abbrev pub IsHealthy : World → Type 0
IsHealthy w = (n : ℕ) → w.faults n ≡ false

attempt-running :
    {A B : Type 0} (m : M A) (failing : StoreError → Refusal) (rest : A → Handler B) (w : World)
    (a : A)
    → (m w).0 ≡ ok a
    → attempt m failing rest w ≡ rest a (m w).1
attempt-running m failing rest w a e = rw e refl

guarded-running :
    {A B : Type 0} (o : Option A) (bad : Refusal) (rest : A → Handler B) (w : World) (a : A)
    → o ≡ some a
    → guarded o bad rest w ≡ rest a w
guarded-running o bad rest w a e = rw e refl

secure_index_runs :
    (rand_int : ℕ → Option ℕ) (n index : ℕ)
    → 2 ≤ n
    → rand_int n ≡ some index
    → secure_index rand_int n ≡ some index
unfolding secure_index
secure_index_runs rand_int n index two drawn = elim (Bool-cases (n == 0)) [
  | inl none_there ↦ absurd (ground arith)
  | inr some_there ↦ rw some_there drawn
]

public_runs :
    (id : Bytes) (r : WheelRow) (w : World)
    → IsHealthy w
    → find (is_public id) w.db.wheels ≡ some r
    → get_public_wheel id w
      ≡ (ok (public_view r (segments_of id w.db)), record w { statements = w.statements + 1 + 1 })
unfolding get_public_wheel list_segments exec
public_runs id r w healthy found = rw (healthy w.statements, found, healthy (w.statements + 1)) refl

count_runs :
    (wheel : Bytes) (since : ℕ) (w : World)
    → IsHealthy w
    → count_spins_since wheel since w ≡ (
      ok (length (select (is_recent_spin wheel since w.now) w.db.spins)),
      record w { statements = w.statements + 1 },
    )
unfolding count_spins_since exec
count_runs wheel since w healthy = rw (healthy w.statements) refl

insert_runs :
    (wheel segment label ip agent : Bytes) (index : ℕ) (w : World)
    → IsHealthy w
    → (insert_spin wheel segment index label ip agent w).0 ≡ ok (w.uuids w.drawn)
unfolding insert_spin new_uid exec
insert_runs wheel segment label ip agent index w healthy = rw (healthy w.statements) refl

module _ (rand_int : ℕ → Option ℕ) (sha256 : Bytes → Bytes) (salt : Bytes) where
  draw_answers :
      (q : Request) (wheel : Bytes) (segs : List Segment) (index : ℕ) (chosen : Segment) (w : World)
      → IsHealthy w
      → 2 ≤ length segs
      → rand_int (length segs) ≡ some index
      → get_elem? segs index ≡ some chosen
      → (draw rand_int sha256 salt q wheel segs w).0
        ≡ reply 200 (spin_result index chosen (w.uuids w.drawn))
  unfolding draw
  draw_answers q wheel segs index chosen w healthy two drawn at =
      ap (λ (x : Response SpinResult × World). x.0)
        (guarded-running (secure_index rand_int (length segs)) (internal_reply failed)
            (λ i.
              guarded (get_elem? segs i) (internal_reply failed)
                (save_draw rand_int sha256 salt q wheel i))
            w index (secure_index_runs rand_int (length segs) index two drawn)
          ∙ guarded-running (get_elem? segs index) (internal_reply failed)
              (save_draw rand_int sha256 salt q wheel index) w chosen at
          ∙ attempt-running
              (insert_spin wheel chosen.id index chosen.label (hash_ip sha256 salt q.client_ip)
                q.user_agent)
              internal_reply _ w (w.uuids w.drawn)
              (insert_runs wheel chosen.id chosen.label (hash_ip sha256 salt q.client_ip)
                q.user_agent index w healthy))

  limited_answers :
      (q : Request) (wheel : Bytes) (segs : List Segment) (index : ℕ) (chosen : Segment) (w : World)
      → IsHealthy w
      → 2 ≤ length segs
      → length (select (is_recent_spin wheel one_hour w.now) w.db.spins) < 3000
      → rand_int (length segs) ≡ some index
      → get_elem? segs index ≡ some chosen
      → (limited_draw rand_int sha256 salt q wheel segs w).0
        ≡ reply 200 (spin_result index chosen (w.uuids w.drawn))
  unfolding limited_draw
  limited_answers q wheel segs index chosen w healthy two few drawn at =
      let recent = length (select (is_recent_spin wheel one_hour w.now) w.db.spins) in
      let room : leb 3000 recent ≡ false = ground arith in
      rw (count_runs wheel one_hour w healthy, room)
        (draw_answers q wheel segs index chosen (record w { statements = w.statements + 1 }) healthy
          two drawn at)

  wheel_answers :
      (q : Request) (wheel : Wheel) (segs : List Segment) (index : ℕ) (chosen : Segment) (w : World)
      → IsHealthy w
      → 2 ≤ length segs
      → length (select (is_recent_spin wheel.id one_hour w.now) w.db.spins) < 3000
      → rand_int (length segs) ≡ some index
      → get_elem? segs index ≡ some chosen
      → (spin_wheel rand_int sha256 salt q (wheel, segs) w).0
        ≡ reply 200 (spin_result index chosen (w.uuids w.drawn))
  unfolding spin_wheel
  wheel_answers q wheel segs index chosen w healthy two few drawn at =
      let enough : ltb (length segs) 2 ≡ false = ground arith in
      rw enough (limited_answers q wheel.id segs index chosen w healthy two few drawn at)

  -- A spin is answered where no statement fails: where the path names a public wheel with two segments
  -- at least and fewer than 3000 spins in the last hour, and the generator gives the index of one of its
  -- segments, the reply is that segment's.
  pub spin_answers :
      (q : Request) (id : Bytes) (r : WheelRow) (index : ℕ) (chosen : Segment) (w : World)
      → IsHealthy w
      → parse q.path_id ≡ some id
      → find (is_public id) w.db.wheels ≡ some r
      → 2 ≤ length (segments_of id w.db)
      → length (select (is_recent_spin r.id one_hour w.now) w.db.spins) < 3000
      → rand_int (length (segments_of id w.db)) ≡ some index
      → get_elem? (segments_of id w.db) index ≡ some chosen
      → (spin rand_int sha256 salt q w).0 ≡ reply 200 (spin_result index chosen (w.uuids w.drawn))
  unfolding spin public_view
  spin_answers q id r index chosen w healthy parsed found two few drawn at =
      rw (parsed, public_runs id r w healthy found)
        (wheel_answers q
          (record (to_wheel nil_uuid r) { segment_count = length (segments_of id w.db) })
          (segments_of id w.db) index chosen (record w { statements = w.statements + 1 + 1 })
          healthy two few drawn at)
