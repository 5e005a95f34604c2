-- ===== src/Store/Segments/Withdrawn.antt =====
-- The deletion of a wheel withdraws it from the public, and reaches no wheel of another account.
use mathlib.Core.Path.{subst}
use spin_the_wheel.Prelude.{
  ℕ, ◌≤◌, ◌≡◌, ◌≢◌, refl, sym, ap, ◌∙◌, none, some, List, [], ◌∷◌, Bytes, same, ◌==◌, length,
  select, find, if◌then◌else◌, Bool-cases, inl, inr, arith,
}
use spin_the_wheel.Store.Tables.{Db, WheelRow}
use spin_the_wheel.Store.Monad.{Result, ok, World, M, pure, throw, not_found, exec}
use spin_the_wheel.Store.Runs.{bind-eq-ok, exec-eq-ok}
use spin_the_wheel.Store.Wheels.{Wheel, is_owned, update_where, bury, bury_rows, soft_delete_wheel}
use spin_the_wheel.Store.Segments.{Segment, is_public, get_public_wheel}
use spin_the_wheel.Store.Segments.Public.{get_public-eq-ok}

-- The number of rows with an identifier, which is a primary key.
abbrev pub count_of : Bytes → List WheelRow → ℕ
count_of id rows = length (select (λ (r : WheelRow). same r.id id) rows)

find-absent :
    (id owner : Bytes) (now : ℕ) (rows : List WheelRow)
    → count_of id rows ≡ 0
    → (find (is_public id) (update_where (is_owned id owner) (bury now) rows) ≡ none)
      × (length (select (is_owned id owner) rows) ≡ 0)
unfolding is_public is_owned
find-absent id owner now [] h = (refl, refl)
find-absent id owner now (r ∷ rows) h = elim (Bool-cases (same r.id id)) [
  | inl here ↦ absurd (ground arith)
  | inr other ↦
      let (hidden, none_owned) = find-absent id owner now rows (ground arith) in
      (ground arith, ground arith)
]

find-buried :
    (id owner : Bytes) (now : ℕ) (rows : List WheelRow)
    → count_of id rows ≤ 1
    → length (select (is_owned id owner) rows) ≢ 0
    → find (is_public id) (update_where (is_owned id owner) (bury now) rows) ≡ none
unfolding is_public is_owned
find-buried id owner now [] h touched = refl
find-buried id owner now (r ∷ rows) h touched = elim (Bool-cases (same r.id id)) [
  | inl here ↦
      let (hidden, none_owned) = find-absent id owner now rows (ground arith) in ground arith
  | inr other ↦
      let hidden = find-buried id owner now rows (ground arith) (ground arith) in ground arith
]

abbrev or_untouched : ℕ → M (Unit {0})
or_untouched touched = if touched == 0 then throw not_found else pure tt

or_untouched-eq-ok :
    (n : ℕ) (v : World) → (or_untouched n v).0 ≡ ok tt → (n ≢ 0) × ((or_untouched n v).1 ≡ v)
or_untouched-eq-ok n v e = elim (Bool-cases (n == 0)) [
  | inl untouched ↦ let e' = rw untouched at e in cc
  | inr touched ↦ (ground arith, rw touched)
]

soft_delete_wheel-eq-ok :
    (id owner : Bytes) (w : World)
    → (soft_delete_wheel id owner w).0 ≡ ok tt
    → (length (select (is_owned id owner) w.db.wheels) ≢ 0)
      × ((soft_delete_wheel id owner w).1.db ≡ (bury_rows id owner w.now w.db).1)
unfolding soft_delete_wheel
soft_delete_wheel-eq-ok id owner w e =
    let (touched, run, whole) = bind-eq-ok (exec (bury_rows id owner)) or_untouched w e in
    let (rows, world) = exec-eq-ok (bury_rows id owner) w run in
    let (some_row, stays) =
      or_untouched-eq-ok touched (exec (bury_rows id owner) w).1 (rw whole at e) in
    (
      λ empty. some_row (sym rows ∙ empty),
      ap (λ (p : Result (Unit {0}) × World). p.1.db) whole
          ∙ ap (λ (v : World). v.db) (stays ∙ world),
    )

-- After `SoftDeleteWheel` has succeeded, on tables where the identifier is that of one wheel at most,
-- no read of the public wheel succeeds at any time while the wheels are those that it left.
pub deleted_wheel_withdrawn :
    (id owner : Bytes) (w w' : World) (view : Wheel × List Segment)
    → count_of id w.db.wheels ≤ 1
    → (soft_delete_wheel id owner w).0 ≡ ok tt
    → w'.db.wheels ≡ (soft_delete_wheel id owner w).1.db.wheels
    → (get_public_wheel id w').0 ≢ ok view
deleted_wheel_withdrawn id owner w w' view once e same_db seen =
    let (touched, tables) = soft_delete_wheel-eq-ok id owner w e in
    let (public, _) = get_public-eq-ok id w' view seen in
    let found =
      subst (λ (rows : List WheelRow). find (is_public id) rows ≡ some public.row)
        (same_db ∙ ap (λ (db : Db). db.wheels) tables) public.found in
    let e' = rw (find-buried id owner w.now w.db.wheels once touched) at found in cc
