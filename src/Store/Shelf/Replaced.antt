-- ===== src/Store/Shelf/Replaced.antt =====
-- A replacement of segments by an owner, and the rows under other identifiers.
use mathlib.Core.Path.{subst}
use spin_the_wheel.Prelude.{
  ℕ, suc, ◌≡◌, refl, ap, ◌∙◌, false, not, ◌&&◌, inl, inr, none, List, [], ◌∷◌, Bytes, same,
  same_iff, select, find, Bool-cases, arith,
}
use spin_the_wheel.Uid.{is_zero}
use spin_the_wheel.Store.Tables.{Db, WheelRow, SegmentRow}
use spin_the_wheel.Store.Monad.{Result, ok, err, World, new_uid, exec, transaction, finish, counted}
use spin_the_wheel.Store.Runs.{bind-keeps, exec-keeps}
use spin_the_wheel.Store.Wheels.{is_owned, find_owned}
use spin_the_wheel.Store.Segments.{
  Segment, checked_image, owns_image, insert_one, insert_segments, without_segments, touch_wheel,
  replace_body, replace_segments,
}
use spin_the_wheel.Store.Shelf.{
  is_other, is_under, IsForeign, IsShelved, select-update_where, select-snoc, select-select,
  same_sym, query-keeps, or_not_found-keeps,
}

module _ (owner v : Bytes) where
  module _ (before : Db) where
    abbrev P : World → Type 0
    P = IsShelved owner v before

    -- The steps of a replacement of the segments of another identifier.
    module _ (wheel : Bytes) (apart : same v wheel ≡ false) where
      kept_rows :
          (rows : List SegmentRow)
          → select
              (is_under owner v)
              (select (λ (r : SegmentRow). not (same r.wheel_id wheel)) rows)
            ≡ select (is_under owner v) rows
      kept_rows rows =
          select-select (is_under owner v) (λ (r : SegmentRow). not (same r.wheel_id wheel)) rows
            λ r e. rw ((same_iff r.wheel_id v).0 e, apart) refl

      without_segments-IsShelved :
          (w : World) → P w → P (exec (λ now db. (tt, without_segments wheel db)) w).1
      without_segments-IsShelved w h = exec-keeps P _ w h (
          ap (λ rows. record { wheels = select (is_other owner v) w.db.wheels; segments = rows })
            (kept_rows w.db.segments)
          ∙ h)

      checked_image-IsShelved :
          (image : Bytes) (w : World) → P w → P (checked_image owner image w).1
      unfolding checked_image
      checked_image-IsShelved image w h = elim (Bool-cases (is_zero image)) [
        | inl zero_image ↦ rw zero_image h
        | inr given ↦ rw given (
            query-keeps owner v before (λ now db. owns_image image owner db) _ w h
              (elim (Bool-cases (owns_image image owner w.db)) [ inl b ↦ rw b h | inr b ↦ rw b h ]))
      ]

      insert_one-IsShelved :
          (i : ℕ) (seg : Segment) (w : World) → P w → P (insert_one wheel owner i seg w).1
      unfolding insert_one new_uid
      insert_one-IsShelved i seg w h =
          bind-keeps P (checked_image owner seg.image_id) _ w
            (checked_image-IsShelved seg.image_id w h)
            λ image x k. exec-keeps P _ (new_uid x).1 k (
              ap
                (λ rows. record { wheels = select (is_other owner v) x.db.wheels; segments = rows })
                (select-snoc (is_under owner v) x.db.segments _ (same_sym v wheel apart))
              ∙ k)

      insert_segments-IsShelved :
          (i : ℕ) (segs : List Segment) (w : World)
          → P w
          → P (insert_segments wheel owner i segs w).1
      unfolding insert_segments
      insert_segments-IsShelved i [] w h = h
      insert_segments-IsShelved i (seg ∷ segs) w h =
          bind-keeps P (insert_one wheel owner i seg)
            (λ _. insert_segments wheel owner (suc i) segs) w (insert_one-IsShelved i seg w h)
            λ u x k. insert_segments-IsShelved (suc i) segs x k

      touch_wheel-IsShelved :
          (w : World) → P w → P (exec (λ now db. (tt, touch_wheel wheel now db)) w).1
      touch_wheel-IsShelved w h = exec-keeps P _ w h (
          ap (λ rows. record { wheels = rows; segments = select (is_under owner v) w.db.segments })
            (select-update_where (is_other owner v) (λ (r : WheelRow). same r.id wheel) _
              w.db.wheels
              λ r e.
                let away : same r.id v ≡ false =
                  rw ((same_iff r.id wheel).0 e) (same_sym v wheel apart) in
                (rw away refl, rw away refl))
          ∙ h)

  none-owned :
      (rows : List WheelRow)
      → select (λ (r : WheelRow). same r.id v && same r.owner_id owner) rows ≡ []
      → find (is_owned v owner) rows ≡ none
  unfolding is_owned
  none-owned [] e = refl
  none-owned (r ∷ rows) e = elim (Bool-cases (same r.id v && same r.owner_id owner)) [
    | inl mine ↦ let e' = rw mine at e in cc
    | inr other ↦
        let unowned : is_owned v owner r ≡ false = ground arith in
        rw unowned (none-owned rows (rw other at e))
  ]

  replace_body-IsShelved :
      (wheel : Bytes) (segs : List Segment) (w : World)
      → IsForeign owner v w.db
      → IsShelved owner v w.db (replace_body wheel owner segs w).1
  unfolding replace_body
  replace_body-IsShelved wheel segs w foreign =
      query-keeps owner v w.db (λ now db. find_owned wheel owner db) _ w refl
        (or_not_found-keeps owner v w.db (find_owned wheel owner w.db) _ (counted w) refl λ r found.
          elim (Bool-cases (same v wheel)) [
            | inl mine ↦
                let missing : find_owned wheel owner w.db ≡ none =
                  subst (λ x. find (is_owned x owner) w.db.wheels ≡ none)
                    ((same_iff v wheel).0 mine) (none-owned w.db.wheels foreign) in
                cc
            | inr apart ↦
                bind-keeps (IsShelved owner v w.db)
                  (exec (λ now db. (tt, without_segments wheel db))) _ (counted w)
                  (without_segments-IsShelved w.db wheel apart (counted w) refl)
                  λ u x k.
                    bind-keeps (IsShelved owner v w.db) (insert_segments wheel owner 0 segs) _ x
                      (insert_segments-IsShelved w.db wheel apart 0 segs x k)
                      λ u' y j. touch_wheel-IsShelved w.db wheel apart y j
          ])

  finish-IsShelved :
      {A : Type 0} (before : Db) (r : Result A) (x : World)
      → IsShelved owner v before x
      → IsShelved owner v before (finish before r x).1
  finish-IsShelved before (err e) x h = refl
  finish-IsShelved before (ok a) x h = elim (Bool-cases (x.faults x.statements)) [
    | inl fault ↦ rw fault refl
    | inr fine ↦ rw fine h
  ]

  -- A replacement by an owner, whatever fails, leaves what stands under an identifier that is not
  -- one of the owner's wheels.
  pub replace_segments-IsShelved :
      (wheel : Bytes) (segs : List Segment) (w : World)
      → IsForeign owner v w.db
      → IsShelved owner v w.db (replace_segments wheel owner segs w).1
  unfolding replace_segments transaction
  replace_segments-IsShelved wheel segs w foreign = elim (Bool-cases (w.faults w.statements)) [
    | inl fault ↦ rw fault refl
    | inr fine ↦ rw fine (
        finish-IsShelved w.db (replace_body wheel owner segs (counted w)).0
          (replace_body wheel owner segs (counted w)).1
          (replace_body-IsShelved wheel segs (counted w) foreign))
  ]
