-- ===== src/Store/Shelf.antt =====
-- The rows under the identifier of a wheel that is not an owner's, and the actions of this owner on wheels.
pub mod Replaced
use mathlib.Core.Path.{subst}
use spin_the_wheel.Prelude.{
  ℕ, zero, suc, ◌≡◌, ◌≢◌, refl, sym, ap, ◌∙◌, Bool, true, false, not, ◌&&◌, ◌⊎◌, inl, inr, Option,
  none, some, List, [], ◌∷◌, ◌++◌, map, Bytes, same, same_iff, same_refl, select, find, Bool-cases,
  arith, if◌then◌else◌, ◌==◌, length,
}
use spin_the_wheel.Uid.{is_zero}
use spin_the_wheel.Store.Tables.{Db, WheelRow, SegmentRow, is_null}
use spin_the_wheel.Store.Monad.{
  StoreError, Result, ok, err, World, M, ◌>>=◌, ◌>>◌, pure, throw, not_found, or_not_found, new_uid,
  exec, query, transaction, finish, counted,
}
use spin_the_wheel.Store.Runs.{after_exec, bind-keeps, exec-keeps, db-query, world-or_not_found}
use spin_the_wheel.Store.Wheels.{
  Wheel, to_wheel, create_wheel, is_owned, find_owned, get_wheel_owned, update_where, retitle,
  update_row, update_wheel, bury, bury_rows, soft_delete_wheel,
}
use spin_the_wheel.Store.Segments.{
  Segment, checked_image, owns_image, insert_one, insert_segment, insert_segments, without_segments,
  touch_wheel, replace_body, replace_segments, list_segments, segments_of,
}

module _ (owner v : Bytes) where
  -- A wheel of the identifier that another owner has.
  abbrev pub is_other : WheelRow → Bool
  is_other r = same r.id v && not (same r.owner_id owner)

  abbrev pub is_under : SegmentRow → Bool
  is_under r = same r.wheel_id v

  -- What stands under the identifier.
  pub record Shelf : Type 0 where
    pub wheels : List WheelRow
    pub segments : List SegmentRow

abbrev pub shelf : (owner v : Bytes) → Db → Shelf owner v
shelf owner v db = record {
  wheels = select (is_other owner v) db.wheels;
  segments = select (is_under owner v) db.segments;
}

-- No wheel of the identifier is the owner's.
abbrev pub IsForeign : Bytes → Bytes → Db → Type 0
IsForeign owner v db =
    select (λ (r : WheelRow). same r.id v && same r.owner_id owner) db.wheels ≡ []

abbrev pub IsShelved : Bytes → Bytes → Db → World → Type 0
IsShelved owner v before w = shelf owner v w.db ≡ shelf owner v before

pub select-update_where :
    {A : Type 0} (p q : A → Bool) (f : A → A) (xs : List A)
    → ((x : A) → q x ≡ true → (p x ≡ false) × (p (f x) ≡ false))
    → select p (update_where q f xs) ≡ select p xs
select-update_where p q f [] h = refl
select-update_where p q f (x ∷ xs) h = elim (Bool-cases (q x)) [
  | inl hit ↦
      let (before, after) = h x hit in rw (hit, after, before, select-update_where p q f xs h)
  | inr miss ↦ rw (miss, select-update_where p q f xs h)
]

pub select-snoc :
    {A : Type 0} (p : A → Bool) (xs : List A) (x : A)
    → p x ≡ false
    → select p (xs ++ x ∷ []) ≡ select p xs
select-snoc p [] x e = rw e
select-snoc p (y ∷ ys) x e = rw (select-snoc p ys x e)

pub select-select :
    {A : Type 0} (p q : A → Bool) (xs : List A)
    → ((x : A) → p x ≡ true → q x ≡ true)
    → select p (select q xs) ≡ select p xs
select-select p q [] h = refl
select-select p q (x ∷ xs) h = elim (Bool-cases (q x)) [
  | inl kept ↦ rw (kept, select-select p q xs h)
  | inr gone ↦ elim (Bool-cases (p x)) [
    | inl wanted ↦ let e = h x wanted in cc
    | inr other ↦ rw (gone, other, select-select p q xs h)
  ]
]

pub same_sym : (a b : Bytes) → same a b ≡ false → same b a ≡ false
same_sym a b e = elim (Bool-cases (same b a)) [
  | inl equal ↦ let e' = rw ((same_iff b a).0 equal, same_refl a) at e in cc
  | inr apart ↦ apart
]

module _ (owner v : Bytes) where
  others-owned :
      (id : Bytes) (f : WheelRow → WheelRow) (rows : List WheelRow)
      → ((r : WheelRow) → ((f r).id ≡ r.id) × ((f r).owner_id ≡ r.owner_id))
      → select (is_other owner v) (update_where (is_owned id owner) f rows)
        ≡ select (is_other owner v) rows
  unfolding is_owned
  others-owned id f rows h =
      select-update_where (is_other owner v) (is_owned id owner) f rows λ r e.
        let mine : same r.owner_id owner ≡ true = ground arith in
        let (kept, held) = h r in (ground arith, rw (kept, held) (ground arith))

  module _ (before : Db) where
    abbrev P : World → Type 0
    P = IsShelved owner v before

    pub query-keeps :
        {A B : Type 0} (f : ℕ → Db → A) (k : A → M B) (w : World)
        → P w
        → P (k (f w.now w.db) (counted w)).1
        → P ((query f >>= k) w).1
    unfolding exec
    query-keeps f k w h j = elim (Bool-cases (w.faults w.statements)) [
      | inl fault ↦ rw fault h
      | inr fine ↦ rw fine j
    ]

    pub or_not_found-keeps :
        {A B : Type 0} (o : Option A) (k : A → M B) (w : World)
        → P w
        → ((a : A) → o ≡ some a → P (k a w).1)
        → P ((or_not_found o >>= k) w).1
    or_not_found-keeps none k w h j = h
    or_not_found-keeps (some a) k w h j = j a refl

    pub create_wheel-IsShelved :
        (title : Bytes) (w : World) → P w → P (create_wheel owner title w).1
    unfolding create_wheel new_uid
    create_wheel-IsShelved title w h =
        bind-keeps P (exec _) (λ row. pure (to_wheel owner row)) (new_uid w).1
          (exec-keeps P _ (new_uid w).1 h (
            ap
              (λ rows. record { wheels = rows; segments = select (is_under owner v) w.db.segments })
              (select-snoc (is_other owner v) w.db.wheels _ (ground (arith, same_refl owner)))
            ∙ h))
          (λ row x k. k)

    pub update_wheel-IsShelved :
        (id title : Bytes) (active : Bool) (w : World)
        → P w
        → P (update_wheel id owner title active w).1
    unfolding update_wheel
    update_wheel-IsShelved id title active w h =
        bind-keeps P (exec (update_row id owner title active)) _ w
          (exec-keeps P (update_row id owner title active) w h (
            ap
              (λ rows. record { wheels = rows; segments = select (is_under owner v) w.db.segments })
              (others-owned id (retitle title active w.now) w.db.wheels λ r. (refl, refl))
            ∙ h))
          (λ row x k. or_not_found-keeps row (λ r. pure (to_wheel owner r)) x k λ r e. k)

    pub soft_delete_wheel-IsShelved :
        (id : Bytes) (w : World) → P w → P (soft_delete_wheel id owner w).1
    unfolding soft_delete_wheel
    soft_delete_wheel-IsShelved id w h =
        bind-keeps P (exec (bury_rows id owner)) _ w
          (exec-keeps P (bury_rows id owner) w h (
            ap
              (λ rows. record { wheels = rows; segments = select (is_under owner v) w.db.segments })
              (others-owned id (bury w.now) w.db.wheels λ r. (refl, refl))
            ∙ h))
          λ touched x k. elim (Bool-cases (touched == 0)) [ inl b ↦ rw b k | inr b ↦ rw b k ]

    pub get_wheel_owned-IsShelved :
        (id : Bytes) (w : World) → P w → P (get_wheel_owned id owner w).1
    unfolding get_wheel_owned
    get_wheel_owned-IsShelved id w h =
        query-keeps (λ now db. find_owned id owner db) _ w h
          (or_not_found-keeps (find_owned id owner w.db) (λ r. pure (to_wheel owner r)) (counted w)
            h λ r e. h)

    pub list_segments-IsShelved : (id : Bytes) (w : World) → P w → P (list_segments id w).1
    unfolding list_segments
    list_segments-IsShelved id w h =
        ap (shelf owner v) (db-query (λ now db. segments_of id db) w) ∙ h
