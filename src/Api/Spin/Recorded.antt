-- ===== src/Api/Spin/Recorded.antt =====
-- What a spin that is answered has drawn and recorded, and that a refused one changes nothing.
use mathlib.Core.Path.{subst, subst₂}
use spin_the_wheel.Prelude.{
  ℕ, ◌≤◌, ◌<◌, ◌≡◌, refl, sym, ap, ◌∙◌, Option, some, List, [], ◌∷◌, ◌++◌, Bytes, text, length,
  get_elem?, find, select, leb, ltb, if◌then◌else◌, Bool-cases, inl, inr, arith,
}
use spin_the_wheel.Uid.{parse, string, nil_uuid}
use spin_the_wheel.Store.Tables.{Db, WheelRow, SpinRow, spun}
use spin_the_wheel.Store.Monad.{failed, World}
use spin_the_wheel.Store.Runs.{after_exec}
use spin_the_wheel.Store.Wheels.{Wheel}
use spin_the_wheel.Store.Segments.{Segment, segments_of, is_public, get_public_wheel}
use spin_the_wheel.Store.Segments.Public.{IsRead, get_public-eq-ok}
use spin_the_wheel.Store.Sessions.{one_hour}
use spin_the_wheel.Store.Spins.{is_recent_spin, count_spins_since, insert_spin}
use spin_the_wheel.Store.Spins.Recording.{
  new_spin, new_spin-moved, insert_spin-eq-ok, count_spins_since-eq-ok, spins-audit, Logged,
  audit_log-audit,
}
use spin_the_wheel.Api.Reply.{
  Response, reply, Handler, Request, not_found_reply, internal_reply, found_or_internal, answer,
  refuse, attempt, entry, audited, hash_ip, guarded, attempt-eq-reply, guarded-eq-reply,
}
use spin_the_wheel.Api.Spin.{
  image_url, SpinResult, max_spins_per_wheel_per_hour, too_many_spins, secure_index, spin_result,
  save_draw, draw, limited_draw, spin_wheel, spin,
}

reply-injective : {A : Type 0} {s t : ℕ} {a b : A} → Response.reply s a ≡ reply t b → a ≡ b
reply-injective e = cc

abbrev IsBelow : Bytes → ℕ → Db → Type 0
IsBelow wheel now db =
    length (select (is_recent_spin wheel one_hour now) db.spins) < max_spins_per_wheel_per_hour

module _ (rand_int : ℕ → Option ℕ) (sha256 : Bytes → Bytes) (ip_hash_salt : Bytes) where
  -- The answer to a draw among some segments, with the rows that it adds.
  pub record IsDrawn (q : Request) (wheel : Bytes) (segs : List Segment) (w : World)
      (s : SpinResult) (v : World) : Type 0 where
    pub chosen : Segment
    pub drawn : rand_int (length segs) ≡ some s.index
    pub at_index : get_elem? segs s.index ≡ some chosen
    pub same_label : s.label ≡ chosen.label
    pub same_image : s.image_url ≡ image_url chosen.image_id
    pub same_id : s.spin_id ≡ string (w.uuids w.drawn)
    pub recorded :
        v.db.spins
        ≡ w.db.spins
          ++ new_spin wheel chosen.id s.index s.label
              (hash_ip sha256 ip_hash_salt q.client_ip)
              q.user_agent
              w
            ∷ []
    pub logged :
        Logged
          (entry sha256 ip_hash_salt q nil_uuid spun (text "wheel") wheel)
          w.db.audit_log
          v.db.audit_log

  abbrev save : Request → Bytes → ℕ → Segment → Handler SpinResult
  save = save_draw rand_int sha256 ip_hash_salt

  save_draw-IsDrawn :
      (q : Request) (wheel : Bytes) (segs : List Segment) (index : ℕ) (chosen : Segment) (w : World)
      (st : ℕ) (s : SpinResult)
      → rand_int (length segs) ≡ some index
      → get_elem? segs index ≡ some chosen
      → (save q wheel index chosen w).0 ≡ reply st s
      → IsDrawn q wheel segs w s (save q wheel index chosen w).1
  save_draw-IsDrawn q wheel segs index chosen w st s drawn at e =
      let hash = hash_ip sha256 ip_hash_salt q.client_ip in
      let insertion = insert_spin wheel chosen.id index chosen.label hash q.user_agent in
      let e_audit = entry sha256 ip_hash_salt q nil_uuid spun (text "wheel") wheel in
      let (id, inserted, whole) =
        attempt-eq-reply insertion internal_reply
          (λ spin_id. audited e_audit (answer 200 (spin_result index chosen spin_id))) w e in
      let (same_id, recorded, same_log) =
        insert_spin-eq-ok wheel chosen.id index chosen.label hash q.user_agent w id inserted in
      let world = ap (λ (p : Response SpinResult × World). p.1) whole in
      let shown : spin_result index chosen id ≡ s =
        reply-injective (sym (ap (λ (p : Response SpinResult × World). p.0) whole) ∙ e) in
      subst (λ (t : SpinResult). IsDrawn q wheel segs w t (save q wheel index chosen w).1) shown
        (record {
          chosen = chosen;
          drawn = drawn;
          at_index = at;
          same_label = refl;
          same_image = refl;
          same_id = ap string (sym same_id);
          recorded =
              ap (λ (v : World). v.db.spins) world ∙ spins-audit e_audit (insertion w).1 ∙ recorded;
          logged =
              subst₂ (Logged e_audit) same_log (ap (λ (v : World). v.db.audit_log) (sym world))
                (audit_log-audit e_audit (insertion w).1);
        })

  secure_index-eq-some : (n i : ℕ) → secure_index rand_int n ≡ some i → rand_int n ≡ some i
  unfolding secure_index
  secure_index-eq-some n i e = ground arith

  draw-IsDrawn :
      (q : Request) (wheel : Bytes) (segs : List Segment) (w : World) (st : ℕ) (s : SpinResult)
      → (draw rand_int sha256 ip_hash_salt q wheel segs w).0 ≡ reply st s
      → IsDrawn q wheel segs w s (draw rand_int sha256 ip_hash_salt q wheel segs w).1
  unfolding draw
  draw-IsDrawn q wheel segs w st s e =
      let (index, drawn, first) =
        guarded-eq-reply (secure_index rand_int (length segs)) (internal_reply failed)
          (λ index. guarded (get_elem? segs index) (internal_reply failed) (save q wheel index)) w
          e in
      let (chosen, at, second) =
        guarded-eq-reply (get_elem? segs index) (internal_reply failed) (save q wheel index) w
          (rw first at e) in
      let total : draw rand_int sha256 ip_hash_salt q wheel segs w ≡ save q wheel index chosen w =
        first ∙ second in
      let saved =
        save_draw-IsDrawn q wheel segs index chosen w st s
          (secure_index-eq-some (length segs) index drawn) at
          (sym (ap (λ (p : Response SpinResult × World). p.0) total) ∙ e) in
      subst (λ (p : Response SpinResult × World). IsDrawn q wheel segs w s p.1) (sym total) saved

  IsDrawn-moved :
      (q : Request) (wheel : Bytes) (segs : List Segment) (w v : World) (s : SpinResult) (u : World)
      → IsRead w v
      → IsDrawn q wheel segs v s u
      → IsDrawn q wheel segs w s u
  IsDrawn-moved q wheel segs w v s u read d = record {
    chosen = d.chosen;
    drawn = d.drawn;
    at_index = d.at_index;
    same_label = d.same_label;
    same_image = d.same_image;
    same_id = d.same_id ∙ ap string read.same_next;
    recorded =
        d.recorded
        ∙ ap
            (λ (db : Db).
              db.spins
              ++ new_spin wheel d.chosen.id s.index s.label
                  (hash_ip sha256 ip_hash_salt q.client_ip) q.user_agent v
                ∷ [])
            read.same_db
        ∙ ap (λ (r : SpinRow). w.db.spins ++ r ∷ [])
            (new_spin-moved wheel d.chosen.id s.index s.label
              (hash_ip sha256 ip_hash_salt q.client_ip) q.user_agent w v read.same_now
              read.same_next);
    logged =
        subst
          (λ (db : Db).
            Logged (entry sha256 ip_hash_salt q nil_uuid spun (text "wheel") wheel) db.audit_log
              u.db.audit_log)
          read.same_db d.logged;
  }

  -- The answer to a request: the wheel is public, it has two segments at least, and fewer than the
  -- maximum of spins in the last hour.
  pub record IsSpun (q : Request) (w : World) (s : SpinResult) (v : World) : Type 0 where
    pub wheel : Bytes
    pub parsed : parse q.path_id ≡ some wheel
    pub row : WheelRow
    pub published : find (is_public wheel) w.db.wheels ≡ some row
    pub enough : 2 ≤ length (segments_of wheel w.db)
    pub below :
        length (select (is_recent_spin wheel one_hour w.now) w.db.spins)
        < max_spins_per_wheel_per_hour
    pub result : IsDrawn q wheel (segments_of wheel w.db) w s v

  limited_draw-IsDrawn :
      (q : Request) (wheel : Bytes) (segs : List Segment) (w : World) (st : ℕ) (s : SpinResult)
      → (limited_draw rand_int sha256 ip_hash_salt q wheel segs w).0 ≡ reply st s
      → (length (select (is_recent_spin wheel one_hour w.now) w.db.spins)
          < max_spins_per_wheel_per_hour)
        × IsDrawn q wheel segs w s (limited_draw rand_int sha256 ip_hash_salt q wheel segs w).1
  unfolding limited_draw
  limited_draw-IsDrawn q wheel segs w st s e =
      let go : ℕ → Handler SpinResult = λ recent.
        if leb max_spins_per_wheel_per_hour recent
        then refuse too_many_spins
        else draw rand_int sha256 ip_hash_salt q wheel segs in
      let (recent, counted, whole) =
        attempt-eq-reply (count_spins_since wheel one_hour) internal_reply go w e in
      let (count, world) = count_spins_since-eq-ok wheel one_hour w recent counted in
      let v = after_exec (λ now db. (recent, db)) w in
      let total : limited_draw rand_int sha256 ip_hash_salt q wheel segs w ≡ go recent v =
        whole ∙ ap (go recent) world in
      let e' : (go recent v).0 ≡ reply st s =
        sym (ap (λ (p : Response SpinResult × World). p.0) total) ∙ e in
      elim (Bool-cases (leb max_spins_per_wheel_per_hour recent)) [
        | inl full ↦ let e2 = rw full at e' in cc
        | inr room ↦
            let drawn = draw-IsDrawn q wheel segs v st s (rw room at e') in
            let same : limited_draw rand_int sha256 ip_hash_salt q wheel segs w
                ≡ draw rand_int sha256 ip_hash_salt q wheel segs v =
              total ∙ rw room in
            (
              ground arith,
              subst (λ (p : Response SpinResult × World). IsDrawn q wheel segs w s p.1) (sym same)
                  (IsDrawn-moved q wheel segs w v s
                    (draw rand_int sha256 ip_hash_salt q wheel segs v).1
                    (record { same_db = refl; same_now = refl; same_next = refl }) drawn),
            )
      ]

  spin_wheel-IsDrawn :
      (q : Request) (wheel : Wheel) (segs : List Segment) (w : World) (st : ℕ) (s : SpinResult)
      → (spin_wheel rand_int sha256 ip_hash_salt q (wheel, segs) w).0 ≡ reply st s
      → (2 ≤ length segs)
        × (length (select (is_recent_spin wheel.id one_hour w.now) w.db.spins)
            < max_spins_per_wheel_per_hour)
        × IsDrawn q wheel.id segs w s (spin_wheel rand_int sha256 ip_hash_salt q (wheel, segs) w).1
  unfolding spin_wheel
  spin_wheel-IsDrawn q wheel segs w st s e = elim (Bool-cases (ltb (length segs) 2)) [
    | inl few ↦ let e2 = rw few at e in cc
    | inr enough ↦
        let (below, drawn) = limited_draw-IsDrawn q wheel.id segs w st s (rw enough at e) in
        (ground arith, below, rw enough drawn)
  ]

  -- A spin that is answered: the path names a public wheel with two segments at least and fewer than
  -- 3000 spins in the last hour; the answer is the label and image of the segment at the index that
  -- the generator drew, and the one row that is added to the spins records that index and label,
  -- under the identifier answered, with the digest of the caller's address. An audit
  -- row is added too, or none, and it has the digest in place of the address of a caller.
  pub spin-IsSpun :
      (q : Request) (w : World) (st : ℕ) (s : SpinResult)
      → (spin rand_int sha256 ip_hash_salt q w).0 ≡ reply st s
      → IsSpun q w s (spin rand_int sha256 ip_hash_salt q w).1
  unfolding spin
  spin-IsSpun q w st s e =
      let go : Bytes → Handler SpinResult = λ id.
        attempt (get_public_wheel id) found_or_internal
          (spin_wheel rand_int sha256 ip_hash_salt q) in
      let (id, parsed, first) = guarded-eq-reply (parse q.path_id) not_found_reply go w e in
      let (view, got, second) =
        attempt-eq-reply (get_public_wheel id) found_or_internal
          (spin_wheel rand_int sha256 ip_hash_salt q) w (rw first at e) in
      let (public, read) = get_public-eq-ok id w view got in
      let v = (get_public_wheel id w).1 in
      let total : spin rand_int sha256 ip_hash_salt q w
          ≡ spin_wheel rand_int sha256 ip_hash_salt q view v =
        first ∙ second in
      let (enough, below, drawn) =
        spin_wheel-IsDrawn q view.0 view.1 v st s
          (sym (ap (λ (p : Response SpinResult × World). p.0) total) ∙ e) in
      let moved =
        IsDrawn-moved q view.0.id view.1 w v s (spin_wheel rand_int sha256 ip_hash_salt q view v).1
          read drawn in
      record {
        wheel = id;
        parsed = parsed;
        row = public.row;
        published = public.found;
        enough = rw (sym public.same_segments) enough;
        below =
            subst₂ (IsBelow id) read.same_now read.same_db
              (subst (λ (i : Bytes). IsBelow i v.now v.db) public.same_id below);
        result =
            subst (λ (p : Response SpinResult × World). IsDrawn q id (segments_of id w.db) w s p.1)
              (sym total)
              (subst₂
                (λ (i : Bytes) (segs : List Segment).
                  IsDrawn q i segs w s (spin_wheel rand_int sha256 ip_hash_salt q view v).1)
                public.same_id public.same_segments moved);
      }
