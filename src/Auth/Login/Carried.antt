-- ===== src/Auth/Login/Carried.antt =====
-- What the statements of the login leave alone: the sessions and the allow list.
use mathlib.Core.Path.{subst}
use spin_the_wheel.Prelude.{
  ℕ, ◌≡◌, refl, sym, ap, ◌∙◌, Bool, true, false, Option, none, some, Bytes, same, find,
  if◌then◌else◌, Option-cases, inl, inr,
}
use spin_the_wheel.Store.Tables.{Db, UserRow}
use spin_the_wheel.Store.Monad.{Result, ok, err, World, M, pure, or_not_found, new_uid, exec}
use spin_the_wheel.Store.Runs.{bind-keeps, exec-keeps, world-or_not_found, exec-eq-ok, bind-eq-ok}
use spin_the_wheel.Store.Accounts.{
  User, to_user, is_listed, upsert_row, is_email_allowed, upsert_user,
}
use spin_the_wheel.Store.Sessions.{consume_row, consume_oauth_state}
use spin_the_wheel.Store.Sessions.Closing.{consume-eq-ok}
use spin_the_wheel.Store.Audit.{AuditEntry, audit}
use spin_the_wheel.Auth.Login.{Visit, given, stored_as, stored}

pub record IsCarried (w v : World) : Type 0 where
  pub same_sessions : v.db.sessions ≡ w.db.sessions
  pub same_list : v.db.allowed_emails ≡ w.db.allowed_emails
  pub same_now : v.now ≡ w.now

abbrev pub carried : (w : World) → IsCarried w w
carried w = record { same_sessions = refl; same_list = refl; same_now = refl }

pub IsCarried-trans : {u v w : World} → IsCarried u v → IsCarried v w → IsCarried u w
IsCarried-trans p q = record {
  same_sessions = q.same_sessions ∙ p.same_sessions;
  same_list = q.same_list ∙ p.same_list;
  same_now = q.same_now ∙ p.same_now;
}

-- One statement, from what it does to the two tables.
exec-IsCarried :
    {A : Type 0} (f : ℕ → Db → A × Db) (w : World)
    → (f w.now w.db).1.sessions ≡ w.db.sessions
    → (f w.now w.db).1.allowed_emails ≡ w.db.allowed_emails
    → IsCarried w (exec f w).1
exec-IsCarried f w s l =
    exec-keeps (IsCarried w) f w
      (record { same_sessions = refl; same_list = refl; same_now = refl })
      (record { same_sessions = s; same_list = l; same_now = refl })

pub audit-IsCarried : (e : AuditEntry) (w : World) → IsCarried w (audit e w).1
unfolding audit new_uid
audit-IsCarried e w =
    exec-keeps (IsCarried w) _ (new_uid w).1
      (record { same_sessions = refl; same_list = refl; same_now = refl })
      (record { same_sessions = refl; same_list = refl; same_now = refl })

pub consume-IsCarried : (h : Bytes) (w : World) → IsCarried w (consume_oauth_state h w).1
unfolding consume_oauth_state
consume-IsCarried h w =
    bind-keeps (IsCarried w) (exec (consume_row h)) or_not_found w
      (exec-IsCarried (consume_row h) w refl refl)
      λ row v p. subst (IsCarried w) (sym (world-or_not_found row v)) p

pub allowed-IsCarried :
    (lower : Bytes → Bytes) (email : Bytes) (w : World)
    → IsCarried w (is_email_allowed lower email w).1
unfolding is_email_allowed
allowed-IsCarried lower email w =
    exec-IsCarried (λ now db. (is_listed (lower email) db, db)) w refl refl

upsert_row-keeps :
    (r : UserRow) (db : Db)
    → ((upsert_row r db).1.sessions ≡ db.sessions)
      × ((upsert_row r db).1.allowed_emails ≡ db.allowed_emails)
upsert_row-keeps r db =
    elim (Option-cases (find (λ (u : UserRow). same u.google_sub r.google_sub) db.users)) [
      | inl new ↦ (rw (new, upsert_row), rw (new, upsert_row))
      | inr (old, found) ↦ (rw (found, upsert_row), rw (found, upsert_row))
    ]

pub upsert_user-IsCarried :
    (lower : Bytes → Bytes) (google_sub email name : Bytes) (w : World)
    → IsCarried w (upsert_user lower google_sub email name w).1
unfolding upsert_user new_uid
upsert_user-IsCarried lower google_sub email name w =
    bind-keeps (IsCarried w)
      (exec λ now db.
        upsert_row
          (record {
            id = w.uuids w.drawn;
            google_sub = google_sub;
            email = lower email;
            display_name = name;
            created_at = now;
          })
          db)
      (λ row. pure (to_user row)) (new_uid w).1
      (exec-keeps (IsCarried w) _ (new_uid w).1
        (record { same_sessions = refl; same_list = refl; same_now = refl })
        (record {
          same_sessions =
              (upsert_row-keeps
                (record {
                  id = w.uuids w.drawn;
                  google_sub = google_sub;
                  email = lower email;
                  display_name = name;
                  created_at = w.now;
                })
                w.db).0;
          same_list =
              (upsert_row-keeps
                (record {
                  id = w.uuids w.drawn;
                  google_sub = google_sub;
                  email = lower email;
                  display_name = name;
                  created_at = w.now;
                })
                w.db).1;
          same_now = refl;
        }))
      λ row v p. p

-- The rules of the three ways to go on, for a property of the last world.
pub given-keeps :
    {A : Type 0} (P : World → Type 0) (o : Option A) (bad : Visit) (rest : A → Visit) (w : World)
    → P (bad w).1
    → ((a : A) → o ≡ some a → P (rest a w).1)
    → P (given o bad rest w).1
given-keeps P none bad rest w h k = h
given-keeps P (some a) bad rest w h k = k a refl

stored_as-keeps :
    {A : Type 0} (P : World → Type 0) (r : Result A) (bad : Visit) (rest : A → Visit) (w : World)
    → P (bad w).1
    → ((a : A) → r ≡ ok a → P (rest a w).1)
    → P (stored_as r bad rest w).1
stored_as-keeps P (ok a) bad rest w h k = k a refl
stored_as-keeps P (err e) bad rest w h k = h

pub stored-keeps :
    {A : Type 0} (P : World → Type 0) (m : M A) (bad : Visit) (rest : A → Visit) (w : World)
    → P (bad (m w).1).1
    → ((a : A) → (m w).0 ≡ ok a → P (rest a (m w).1).1)
    → P (stored m bad rest w).1
stored-keeps P m bad rest w = stored_as-keeps P (m w).0 bad rest (m w).1

pub test-keeps :
    (P : World → Type 0) (b : Bool) (accept deny : Visit) (w : World)
    → (b ≡ true → P (accept w).1)
    → (b ≡ false → P (deny w).1)
    → P ((if b then accept else deny) w).1
test-keeps P true accept deny w h k = h refl
test-keeps P false accept deny w h k = k refl

-- What a successful consumption, a check of the list, an account and a session are.
pub consume-found :
    (h : Bytes) (w : World) (v : Bytes)
    → (consume_oauth_state h w).0 ≡ ok v
    → (consume_row h w.now w.db).0 ≡ some v
consume-found h w v e = (consume-eq-ok h w v e).0

pub allowed-eq-ok :
    (lower : Bytes → Bytes) (email : Bytes) (w : World) (b : Bool)
    → (is_email_allowed lower email w).0 ≡ ok b
    → is_listed (lower email) w.db ≡ b
unfolding is_email_allowed
allowed-eq-ok lower email w b e = (exec-eq-ok (λ now db. (is_listed (lower email) db, db)) w e).0

upsert_row-email : (r : UserRow) (db : Db) → (upsert_row r db).0.email ≡ r.email
upsert_row-email r db =
    elim (Option-cases (find (λ (u : UserRow). same u.google_sub r.google_sub) db.users)) [
      | inl new ↦ rw (new, upsert_row)
      | inr (old, found) ↦ rw (found, upsert_row)
    ]

pub upsert_user-email :
    (lower : Bytes → Bytes) (google_sub email name : Bytes) (w : World) (u : User)
    → (upsert_user lower google_sub email name w).0 ≡ ok u
    → u.email ≡ lower email
unfolding upsert_user new_uid
upsert_user-email lower google_sub email name w u e =
    let row : UserRow = record {
      id = w.uuids w.drawn;
      google_sub = google_sub;
      email = lower email;
      display_name = name;
      created_at = w.now;
    } in
    let f : ℕ → Db → UserRow × Db = λ now db.
      upsert_row
        (record {
          id = w.uuids w.drawn;
          google_sub = google_sub;
          email = lower email;
          display_name = name;
          created_at = now;
        })
        db in
    let (r, run, whole) = bind-eq-ok (exec f) (λ r. pure (to_user r)) (new_uid w).1 e in
    let (made, _) = exec-eq-ok f (new_uid w).1 run in
    let shown : Result.ok (to_user r) ≡ ok u =
      sym (ap (λ (p : Result User × World). p.0) whole) ∙ e in
    let same_user : to_user r ≡ u = cc in
    ap (λ (x : User). x.email) (sym same_user)
    ∙ ap (λ (x : UserRow). x.email) (sym made)
    ∙ upsert_row-email row w.db
