-- ===== src/Store/Wheels.antt =====
-- The wheels: backend/internal/store/wheels.go, lines 40 to 143.
use mathlib.Core.Option
use spin_the_wheel.Prelude.{
  ℕ, Bool, true, false, ◌&&◌, Option, none, some, List, [], ◌∷◌, ◌++◌, map, Bytes, same, length,
  select, find, not, sort_by, bytes_ltb, ◌==◌, if◌then◌else◌,
}
use spin_the_wheel.Store.Tables.{Db, WheelRow, is_null}
use spin_the_wheel.Store.Monad.{
  M, ◌>>=◌, pure, throw, not_found, or_not_found, new_uid, exec, query,
}

-- `Wheel`
pub record Wheel : Type 0 where
  pub id : Bytes
  pub owner_id : Bytes
  pub title : Bytes
  pub is_active : Bool
  pub created_at : ℕ
  pub updated_at : ℕ
  pub segment_count : ℕ

-- The columns that the queries return, under an owner and with no count.
abbrev pub to_wheel : Bytes → WheelRow → Wheel
to_wheel owner r = record {
  id = r.id;
  owner_id = owner;
  title = r.title;
  is_active = r.is_active;
  created_at = r.created_at;
  updated_at = r.updated_at;
  segment_count = 0;
}

-- INSERT INTO wheels, with the defaults of the table.
abbrev insert_wheel : Bytes → Bytes → Bytes → ℕ → Db → WheelRow × Db
insert_wheel id owner title now db =
    let row : WheelRow = record {
      id = id;
      owner_id = owner;
      title = title;
      is_active = true;
      created_at = now;
      updated_at = now;
      deleted_at = none;
    } in
    (row, record db { wheels = db.wheels ++ row ∷ [] })

-- `CreateWheel`
unfoldable pub create_wheel : Bytes → Bytes → M Wheel
create_wheel owner title = do
  id ← new_uid
  row ← exec (insert_wheel id owner title)
  pure (to_wheel owner row)

abbrev pub count_segments : Bytes → Db → ℕ
count_segments wheel db = length (select (λ s. same s.wheel_id wheel) db.segments)

-- WHERE w.owner_id = $1 AND w.deleted_at IS NULL ORDER BY w.id DESC
unfoldable pub owned_wheels : Bytes → Db → List Wheel
owned_wheels owner db =
    map (λ r. record (to_wheel owner r) { segment_count = count_segments r.id db })
      (sort_by (λ a b. not (bytes_ltb a.id b.id))
        (select (λ (r : WheelRow). same r.owner_id owner && is_null r.deleted_at) db.wheels))

-- `ListWheels`
unfoldable pub list_wheels : Bytes → M (List Wheel)
unfolding owned_wheels
list_wheels owner = query (λ now db. owned_wheels owner db)

-- WHERE id = $1 AND owner_id = $2 AND deleted_at IS NULL
unfoldable pub is_owned : Bytes → Bytes → WheelRow → Bool
is_owned id owner r = same r.id id && same r.owner_id owner && is_null r.deleted_at

abbrev pub find_owned : Bytes → Bytes → Db → Option WheelRow
find_owned id owner db = find (is_owned id owner) db.wheels

-- `GetWheelOwned`
unfoldable pub get_wheel_owned : Bytes → Bytes → M Wheel
get_wheel_owned id owner = do
  row ← query (λ now db. find_owned id owner db)
  r ← or_not_found row
  pure (to_wheel owner r)

-- An UPDATE of the rows that a test selects.
abbrev pub update_where {ℓ} : {A : Type ℓ} → (A → Bool) → (A → A) → List A → List A
update_where p f = map (λ r. if p r then f r else r)

abbrev pub retitle : Bytes → Bool → ℕ → WheelRow → WheelRow
retitle title is_active now r = record r { title = title; is_active = is_active; updated_at = now }

-- UPDATE wheels … RETURNING
abbrev pub update_row : Bytes → Bytes → Bytes → Bool → ℕ → Db → Option WheelRow × Db
update_row id owner title is_active now db = (
  Option.map (retitle title is_active now) (find_owned id owner db),
  record db { wheels = update_where (is_owned id owner) (retitle title is_active now) db.wheels },
)

-- `UpdateWheel`
unfoldable pub update_wheel : Bytes → Bytes → Bytes → Bool → M Wheel
update_wheel id owner title is_active = do
  row ← exec (update_row id owner title is_active)
  r ← or_not_found row
  pure (to_wheel owner r)

abbrev pub bury : ℕ → WheelRow → WheelRow
bury now r = record r { deleted_at = some now; is_active = false; updated_at = now }

-- The UPDATE of `SoftDeleteWheel`, with the number of rows that it touches.
abbrev pub bury_rows : Bytes → Bytes → ℕ → Db → ℕ × Db
bury_rows id owner now db = (
  length (select (is_owned id owner) db.wheels),
  record db { wheels = update_where (is_owned id owner) (bury now) db.wheels },
)

-- `SoftDeleteWheel`
unfoldable pub soft_delete_wheel : Bytes → Bytes → M (Unit {0})
soft_delete_wheel id owner = do
  touched ← exec (bury_rows id owner)
  if touched == 0 then throw not_found else pure tt
