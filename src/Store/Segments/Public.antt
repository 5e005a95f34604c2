-- ===== src/Store/Segments/Public.antt =====
-- What a read of a public wheel returns.
use mathlib.Core.Path.{subst}
use spin_the_wheel.Prelude.{
  ℕ, ◌≡◌, refl, sym, ap, ◌∙◌, Bool, true, Option, some, List, [], ◌∷◌, Bytes, same_iff, find,
  Bool-cases, inl, inr, arith,
}
use spin_the_wheel.Store.Tables.{Db, WheelRow}
use spin_the_wheel.Store.Monad.{Result, ok, World, ◌>>=◌, pure, or_not_found, query}
use spin_the_wheel.Store.Runs.{
  bind-eq-ok, exec-eq-ok, after_exec, found-eq-ok, bind-keeps, db-query, world-or_not_found,
}
use spin_the_wheel.Store.Wheels.{Wheel}
use spin_the_wheel.Store.Segments.{
  Segment, segments_of, list_segments, is_public, public_view, get_public_wheel,
}

pub find-eq-true {ℓ} :
    {A : Type ℓ} (p : A → Bool) (xs : List A) {x : A} → find p xs ≡ some x → p x ≡ true
find-eq-true p [] e = cc
find-eq-true p (y ∷ ys) {x} e = elim (Bool-cases (p y)) [
  | inl hit ↦ let e' = rw hit at e in cc
  | inr miss ↦ find-eq-true p ys (rw miss at e)
]

ok-injective : {A : Type 0} {a b : A} → Result.ok a ≡ ok b → a ≡ b
ok-injective e = cc

-- The world has moved on by statements that changed no table.
pub record IsRead (w v : World) : Type 0 where
  pub same_db : v.db ≡ w.db
  pub same_now : v.now ≡ w.now
  pub same_next : v.uuids v.drawn ≡ w.uuids w.drawn

pub record IsPublicView (id : Bytes) (w : World) (view : Wheel × List Segment) : Type 0 where
  pub row : WheelRow
  pub found : find (is_public id) w.db.wheels ≡ some row
  pub same_id : view.0.id ≡ id
  pub same_segments : view.1 ≡ segments_of id w.db

IsPublicView-row :
    (id : Bytes) (w : World) (r : WheelRow) (segs : List Segment)
    → find (is_public id) w.db.wheels ≡ some r
    → segs ≡ segments_of id w.db
    → IsPublicView id w (public_view r segs)
unfolding is_public public_view
IsPublicView-row id w r segs found same_segs =
    let p = find-eq-true (is_public id) w.db.wheels found in
    record {
      row = r;
      found = found;
      same_id = ground (arith, same_iff r.id id);
      same_segments = same_segs;
    }

-- A public read that succeeds returns a wheel that is public, with its segments, and changes
-- nothing.
pub get_public-eq-ok :
    (id : Bytes) (w : World) (view : Wheel × List Segment)
    → (get_public_wheel id w).0 ≡ ok view
    → IsPublicView id w view × IsRead w (get_public_wheel id w).1
unfolding get_public_wheel list_segments
get_public-eq-ok id w view e =
    let f : ℕ → Db → Option WheelRow × Db = λ now db. (find (is_public id) db.wheels, db) in
    let (r, found, whole) =
      found-eq-ok f (λ r. list_segments id >>= λ segs. pure (public_view r segs)) w e in
    let v = after_exec f w in
    let (s, listed, last) =
      bind-eq-ok (list_segments id) (λ segs. pure (public_view r segs)) v (rw whole at e) in
    let (answer, world) = exec-eq-ok (λ now (db : Db). (segments_of id db, db)) v listed in
    let total : get_public_wheel id w ≡ (ok (public_view r s), (list_segments id v).1) =
      whole ∙ last in
    let same_view : public_view r s ≡ view =
      ok-injective (sym (ap (λ (x : Result (Wheel × List Segment) × World). x.0) total) ∙ e) in
    (
      subst (IsPublicView id w) same_view (IsPublicView-row id w r s found (sym answer)),
      subst (IsRead w) (sym (ap (λ (x : Result (Wheel × List Segment) × World). x.1) total ∙ world))
          (record { same_db = refl; same_now = refl; same_next = refl }),
    )

-- A public read, whether it succeeds or not, changes no table.
pub db-get_public_wheel : (id : Bytes) (w : World) → (get_public_wheel id w).1.db ≡ w.db
unfolding get_public_wheel list_segments
db-get_public_wheel id w =
    bind-keeps (λ (v : World). v.db ≡ w.db) (query λ now db. find (is_public id) db.wheels)
      (λ row. or_not_found row >>= λ r. list_segments id >>= λ segs. pure (public_view r segs)) w
      (db-query (λ now db. find (is_public id) db.wheels) w)
      λ row v same_v.
        bind-keeps (λ (u : World). u.db ≡ w.db) (or_not_found row)
          (λ r. list_segments id >>= λ segs. pure (public_view r segs)) v
          (ap (λ (u : World). u.db) (world-or_not_found row v) ∙ same_v)
          λ r u same_u.
            bind-keeps (λ (t : World). t.db ≡ w.db) (list_segments id)
              (λ segs. pure (public_view r segs)) u
              (db-query (λ now db. segments_of id db) u ∙ same_u) λ segs t same_t. same_t
