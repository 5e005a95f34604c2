-- ===== src/Api/Spin/Refused.antt =====
-- A spin that is refused.
use spin_the_wheel.Prelude.{
  ℕ, ◌≡◌, refl, ◌∙◌, Option, none, some, List, Bytes, text, length, get_elem?, select, leb, ltb,
  if◌then◌else◌, Bool-cases, inl, inr,
}
use spin_the_wheel.Uid.{parse, nil_uuid}
use spin_the_wheel.Store.Tables.{spun}
use spin_the_wheel.Store.Monad.{failed, World}
use spin_the_wheel.Store.Runs.{db-query}
use spin_the_wheel.Store.Wheels.{Wheel}
use spin_the_wheel.Store.Segments.{Segment, get_public_wheel}
use spin_the_wheel.Store.Segments.Public.{db-get_public_wheel}
use spin_the_wheel.Store.Sessions.{one_hour}
use spin_the_wheel.Store.Spins.{is_recent_spin, count_spins_since, insert_spin}
use spin_the_wheel.Store.Spins.Recording.{db-insert_spin-eq-err}
use spin_the_wheel.Api.Reply.{
  Refusal, Response, refused, Handler, Request, not_found_reply, internal_reply, found_or_internal,
  answer, refuse, attempt, entry, audited, hash_ip, guarded, attempt-keeps,
}
use spin_the_wheel.Api.Spin.{
  SpinResult, max_spins_per_wheel_per_hour, too_many_spins, secure_index, spin_result, save_draw,
  draw, limited_draw, spin_wheel, spin,
}

module _ (rand_int : ℕ → Option ℕ) (sha256 : Bytes → Bytes) (ip_hash_salt : Bytes) where
  -- A refused request has changed no table.
  abbrev LeavesTables : World → Response SpinResult → World → Type 0
  LeavesTables w a v = (r : Refusal) → a ≡ refused r → v.db ≡ w.db

  save_draw-LeavesTables :
      (q : Request) (wheel : Bytes) (index : ℕ) (chosen : Segment) (w : World)
      → LeavesTables w
          (save_draw rand_int sha256 ip_hash_salt q wheel index chosen w).0
          (save_draw rand_int sha256 ip_hash_salt q wheel index chosen w).1
  save_draw-LeavesTables q wheel index chosen w =
      attempt-keeps (LeavesTables w)
        (insert_spin wheel chosen.id index chosen.label (hash_ip sha256 ip_hash_salt q.client_ip)
          q.user_agent)
        internal_reply
        (λ spin_id.
          audited (entry sha256 ip_hash_salt q nil_uuid spun (text "wheel") wheel)
            (answer 200 (spin_result index chosen spin_id)))
        w
        (λ x failing r e.
          db-insert_spin-eq-err wheel chosen.id index chosen.label
            (hash_ip sha256 ip_hash_salt q.client_ip) q.user_agent w x failing)
        (λ id done r e. cc)

  guarded-LeavesTables :
      {A : Type 0} (o : Option A) (x : Refusal) (rest : A → Handler SpinResult) (w : World)
      → ((a : A) → LeavesTables w (rest a w).0 (rest a w).1)
      → LeavesTables w (guarded o x rest w).0 (guarded o x rest w).1
  guarded-LeavesTables none x rest w h = λ r e. refl
  guarded-LeavesTables (some a) x rest w h = h a

  draw-LeavesTables :
      (q : Request) (wheel : Bytes) (segs : List Segment) (w : World)
      → LeavesTables w
          (draw rand_int sha256 ip_hash_salt q wheel segs w).0
          (draw rand_int sha256 ip_hash_salt q wheel segs w).1
  unfolding draw
  draw-LeavesTables q wheel segs w =
      guarded-LeavesTables (secure_index rand_int (length segs)) (internal_reply failed)
        (λ index.
          guarded (get_elem? segs index) (internal_reply failed)
            (save_draw rand_int sha256 ip_hash_salt q wheel index))
        w
        λ index.
          guarded-LeavesTables (get_elem? segs index) (internal_reply failed)
            (save_draw rand_int sha256 ip_hash_salt q wheel index) w
            λ chosen. save_draw-LeavesTables q wheel index chosen w

  LeavesTables-from :
      (w v : World) (a : Response SpinResult) (u : World)
      → v.db ≡ w.db
      → LeavesTables v a u
      → LeavesTables w a u
  LeavesTables-from w v a u same h r e = h r e ∙ same

  limited_draw-LeavesTables :
      (q : Request) (wheel : Bytes) (segs : List Segment) (w : World)
      → LeavesTables w
          (limited_draw rand_int sha256 ip_hash_salt q wheel segs w).0
          (limited_draw rand_int sha256 ip_hash_salt q wheel segs w).1
  unfolding limited_draw count_spins_since
  limited_draw-LeavesTables q wheel segs w =
      let v = (count_spins_since wheel one_hour w).1 in
      let same : v.db ≡ w.db =
        db-query (λ now db. length (select (is_recent_spin wheel one_hour now) db.spins)) w in
      attempt-keeps (LeavesTables w) (count_spins_since wheel one_hour) internal_reply
        (λ recent.
          if leb max_spins_per_wheel_per_hour recent
          then refuse too_many_spins
          else draw rand_int sha256 ip_hash_salt q wheel segs)
        w (λ x failing r e. same)
        (λ recent done. elim (Bool-cases (leb max_spins_per_wheel_per_hour recent)) [
          | inl full ↦ rw full (λ r e. same)
          | inr room ↦ rw room (
              LeavesTables-from w v (draw rand_int sha256 ip_hash_salt q wheel segs v).0
                (draw rand_int sha256 ip_hash_salt q wheel segs v).1 same
                (draw-LeavesTables q wheel segs v))
        ])

  spin_wheel-LeavesTables :
      (q : Request) (view : Wheel × List Segment) (w : World)
      → LeavesTables w
          (spin_wheel rand_int sha256 ip_hash_salt q view w).0
          (spin_wheel rand_int sha256 ip_hash_salt q view w).1
  unfolding spin_wheel
  spin_wheel-LeavesTables q (wheel, segs) w = elim (Bool-cases (ltb (length segs) 2)) [
    | inl few ↦ rw few (λ r e. refl)
    | inr enough ↦ rw enough (limited_draw-LeavesTables q wheel.id segs w)
  ]

  attempt_spin-LeavesTables :
      (q : Request) (id : Bytes) (w : World)
      → LeavesTables w
          (attempt
            (get_public_wheel id)
            found_or_internal
            (spin_wheel rand_int sha256 ip_hash_salt q)
            w).0
          (attempt
            (get_public_wheel id)
            found_or_internal
            (spin_wheel rand_int sha256 ip_hash_salt q)
            w).1
  attempt_spin-LeavesTables q id w =
      let v = (get_public_wheel id w).1 in
      attempt-keeps (LeavesTables w) (get_public_wheel id) found_or_internal
        (spin_wheel rand_int sha256 ip_hash_salt q) w (λ x failing r e. db-get_public_wheel id w)
        λ view done.
          LeavesTables-from w v (spin_wheel rand_int sha256 ip_hash_salt q view v).0
            (spin_wheel rand_int sha256 ip_hash_salt q view v).1 (db-get_public_wheel id w)
            (spin_wheel-LeavesTables q view v)

  -- A spin that is refused, at whatever guard or failing statement, has changed no table: no spin is
  -- recorded without an answer that shows it.
  pub db-spin-refused :
      (q : Request) (w : World) (r : Refusal)
      → (spin rand_int sha256 ip_hash_salt q w).0 ≡ refused r
      → (spin rand_int sha256 ip_hash_salt q w).1.db ≡ w.db
  unfolding spin
  db-spin-refused q w r e =
      guarded-LeavesTables (parse q.path_id) not_found_reply
        (λ id.
          attempt (get_public_wheel id) found_or_internal
            (spin_wheel rand_int sha256 ip_hash_salt q))
        w (λ id. attempt_spin-LeavesTables q id w) r e
