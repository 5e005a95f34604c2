-- ===== src/Auth/Login/Rows.antt =====
-- The row of an account through a login: `UpsertUser` leaves it, and nothing behind touches it.
use spin_the_wheel.Prelude.{
  ℕ, ◌≡◌, refl, sym, ap, ◌∙◌, Bool, true, Option, none, some, List, [], ◌∷◌, ◌++◌, Bytes, same,
  same_iff, find, Option-cases, Bool-cases, inl, inr,
}
use spin_the_wheel.Store.Tables.{Db, UserRow}
use spin_the_wheel.Store.Monad.{Result, ok, World, pure, new_uid, exec}
use spin_the_wheel.Store.Runs.{after_exec, exec-keeps, exec-eq-ok, bind-eq-ok}
use spin_the_wheel.Store.Wheels.{update_where}
use spin_the_wheel.Store.Accounts.{User, to_user, upsert_row, upsert_user}
use spin_the_wheel.Store.Audit.{AuditEntry, audit}

-- The row of the account is the first of its subject.
abbrev pub first_of : Bytes → List UserRow → Option UserRow
first_of google_sub users = find (λ (u : UserRow). same u.google_sub google_sub) users

-- An account is a row of the users, that of the subject.
abbrev pub IsAccount : Bytes → User → World → Type 0
IsAccount google_sub user w =
    (r : UserRow) × (first_of google_sub w.db.users ≡ some r) × (to_user r ≡ user)

find-append-none :
    {A : Type 0} (p : A → Bool) (xs : List A) (a : A)
    → find p xs ≡ none
    → p a ≡ true
    → find p (xs ++ a ∷ []) ≡ some a
find-append-none p [] a e h = rw h refl
find-append-none p (x ∷ xs) a e h = elim (Bool-cases (p x)) [
  | inl taken ↦ let e' = rw taken at e in cc
  | inr left ↦ rw left (find-append-none p xs a (rw left at e) h)
]

find-update_where :
    {A : Type 0} (p : A → Bool) (f : A → A) (xs : List A) (a : A)
    → ((x : A) → p (f x) ≡ p x)
    → find p xs ≡ some a
    → find p (update_where p f xs) ≡ some (f a)
find-update_where p f [] a keeps e = cc
find-update_where p f (x ∷ xs) a keeps e = elim (Bool-cases (p x)) [
  | inl taken ↦
      let e' = rw taken at e in
      let same_one : x ≡ a = cc in rw (taken, keeps x, taken) (ap (λ y. some (f y)) same_one)
  | inr left ↦ rw (left, left) (find-update_where p f xs a keeps (rw left at e))
]

upsert_row-first :
    (r : UserRow) (db : Db)
    → first_of r.google_sub (upsert_row r db).1.users ≡ some (upsert_row r db).0
upsert_row-first r db = elim (Option-cases (first_of r.google_sub db.users)) [
  | inl new ↦
      rw (new, upsert_row)
        (find-append-none (λ (u : UserRow). same u.google_sub r.google_sub) db.users r new
          ((same_iff r.google_sub r.google_sub).1 refl))
  | inr (old, found) ↦
      rw (found, upsert_row)
        (find-update_where (λ (u : UserRow). same u.google_sub r.google_sub)
          (λ u. record u { email = r.email; display_name = r.display_name }) db.users old
          (λ u. refl) found)
]

-- Behind an upsert that succeeds, its result is an account of the subject.
pub upsert_user-IsAccount :
    (lower : Bytes → Bytes) (google_sub email name : Bytes) (w : World) (u : User)
    → (upsert_user lower google_sub email name w).0 ≡ ok u
    → IsAccount google_sub u (upsert_user lower google_sub email name w).1
unfolding upsert_user new_uid
upsert_user-IsAccount lower google_sub email name w u e =
    let row : UserRow = record {
      id = w.uuids w.drawn;
      google_sub = google_sub;
      email = lower email;
      display_name = name;
      created_at = w.now;
    } in
    let f : ℕ → Db → UserRow × Db = λ now db.
      upsert_row
        (record {
          id = w.uuids w.drawn;
          google_sub = google_sub;
          email = lower email;
          display_name = name;
          created_at = now;
        })
        db in
    let (r, run, whole) = bind-eq-ok (exec f) (λ r. pure (to_user r)) (new_uid w).1 e in
    let (made, world) = exec-eq-ok f (new_uid w).1 run in
    let shown : Result.ok (to_user r) ≡ ok u =
      sym (ap (λ (p : Result User × World). p.0) whole) ∙ e in
    let same_user : to_user r ≡ u = cc in
    let last : (upsert_user lower google_sub email name w).1 ≡ after_exec f (new_uid w).1 =
      ap (λ (p : Result User × World). p.1) whole ∙ world in
    (
      r,
      ap (λ (v : World). first_of google_sub v.db.users) last
          ∙ (upsert_row-first row w.db ∙ ap some made),
      same_user,
    )

-- The audit leaves the accounts.
pub audit-users : (e : AuditEntry) (w : World) → (audit e w).1.db.users ≡ w.db.users
unfolding audit new_uid
audit-users e w = exec-keeps (λ v. v.db.users ≡ w.db.users) _ (new_uid w).1 refl refl
