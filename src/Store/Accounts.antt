-- ===== src/Store/Accounts.antt =====
-- The allow list and the accounts: backend/internal/store/users.go, lines 40 to 126, and
-- `BootstrapAllowedEmails` of store.go. `strings.ToLower` is the parameter `lower`.
use mathlib.Core.Option
use spin_the_wheel.Prelude.{
  ℕ, Bool, not, ◌&&◌, Option, none, some, List, [], ◌∷◌, ◌++◌, map, Bytes, same, select, find, any,
  sort_by, bytes_ltb, if◌then◌else◌,
}
use spin_the_wheel.Uid.{is_zero}
use spin_the_wheel.Store.Tables.{Db, UserRow, AllowedRow, SessionRow, is_null}
use spin_the_wheel.Store.Monad.{
  M, ◌>>=◌, ◌>>◌, pure, or_not_found, new_uid, exec, query, transaction,
}
use spin_the_wheel.Store.Wheels.{update_where}

-- `User`, `AllowedEmail`
pub record User : Type 0 where
  pub id : Bytes
  pub email : Bytes
  pub display_name : Bytes
  pub created_at : ℕ

pub record AllowedEmail : Type 0 where
  pub id : Bytes
  pub email : Bytes
  pub note : Bytes
  pub created_at : ℕ

abbrev pub to_user : UserRow → User
to_user r = record {
  id = r.id;
  email = r.email;
  display_name = r.display_name;
  created_at = r.created_at;
}

abbrev pub to_allowed : AllowedRow → AllowedEmail
to_allowed r = record { id = r.id; email = r.email; note = r.note; created_at = r.created_at }

-- `nullUUID`
unfoldable pub null_uuid : Bytes → Option Bytes
unfolding is_zero
null_uuid u = if is_zero u then none else some u

unfoldable pub is_listed : Bytes → Db → Bool
is_listed email db = any (λ (r : AllowedRow). same r.email email) db.allowed_emails

-- `ListAllowedEmails`: ORDER BY id DESC
unfoldable pub list_allowed_emails : M (List AllowedEmail)
list_allowed_emails = query (λ now db.
    map to_allowed (sort_by (λ (a b : AllowedRow). not (bytes_ltb a.id b.id)) db.allowed_emails))

-- INSERT … ON CONFLICT (email) DO UPDATE SET note = EXCLUDED.note RETURNING …
abbrev pub upsert_allowed : AllowedRow → Db → AllowedRow × Db
upsert_allowed row db = elim (find (λ (r : AllowedRow). same r.email row.email) db.allowed_emails) [
  | none ↦ (row, record db { allowed_emails = db.allowed_emails ++ row ∷ [] })
  | some old ↦ (
    record old { note = row.note },
    record db {
      allowed_emails =
          update_where (λ (r : AllowedRow). same r.email row.email)
            (λ r. record r { note = row.note }) db.allowed_emails;
    },
  )
]

-- INSERT … ON CONFLICT (email) DO NOTHING
abbrev pub insert_allowed_if_new : AllowedRow → Db → Unit {0} × Db
insert_allowed_if_new row db =
    if is_listed row.email db
    then (tt, db)
    else (tt, record db { allowed_emails = db.allowed_emails ++ row ∷ [] })

-- UPDATE sessions … user_id IN (SELECT id FROM users WHERE email = $1)
unfoldable pub is_session_of : Bytes → Db → SessionRow → Bool
is_session_of email db s =
    is_null s.revoked_at
    && any (λ (u : UserRow). same u.email email && same u.id s.user_id) db.users

abbrev pub revoke_sessions_of : Bytes → ℕ → Db → Db
revoke_sessions_of email now db = record db {
  sessions =
      update_where (is_session_of email db) (λ s. record s { revoked_at = some now }) db.sessions;
}

-- DELETE FROM allowed_emails WHERE id = $1 RETURNING email
abbrev pub delete_allowed_row : Bytes → Db → Option Bytes × Db
delete_allowed_row id db = (
  Option.map (λ (r : AllowedRow). r.email)
      (find (λ (r : AllowedRow). same r.id id) db.allowed_emails),
  record db { allowed_emails = select (λ (r : AllowedRow). not (same r.id id)) db.allowed_emails },
)

-- The body of the transaction of `DeleteAllowedEmail`.
unfoldable pub delete_allowed_body : Bytes → M Bytes
delete_allowed_body id = do
  row ← exec (λ now db. delete_allowed_row id db)
  email ← or_not_found row
  exec (λ now db. (tt, revoke_sessions_of email now db))
  pure email

-- `DeleteAllowedEmail`
unfoldable pub delete_allowed_email : Bytes → M Bytes
delete_allowed_email id = transaction (delete_allowed_body id)

-- INSERT INTO users … ON CONFLICT (google_sub) DO UPDATE … RETURNING …
abbrev pub upsert_row : UserRow → Db → UserRow × Db
upsert_row row db = elim (find (λ (r : UserRow). same r.google_sub row.google_sub) db.users) [
  | none ↦ (row, record db { users = db.users ++ row ∷ [] })
  | some old ↦ (
    record old { email = row.email; display_name = row.display_name },
    record db {
      users =
          update_where (λ (r : UserRow). same r.google_sub row.google_sub)
            (λ r. record r { email = row.email; display_name = row.display_name }) db.users;
    },
  )
]

module _ (lower : Bytes → Bytes) where
  -- `IsEmailAllowed`
  unfoldable pub is_email_allowed : Bytes → M Bool
  unfolding is_listed
  is_email_allowed email = query (λ now db. is_listed (lower email) db)

  -- `AddAllowedEmail`
  unfoldable pub add_allowed_email : Bytes → Bytes → Bytes → M AllowedEmail
  unfolding null_uuid
  add_allowed_email email note added_by = do
    id ← new_uid
    row ← exec (λ now db.
        upsert_allowed
          (record {
            id = id;
            email = lower email;
            note = note;
            added_by = null_uuid added_by;
            created_at = now;
          })
          db)
    pure (to_allowed row)

  -- `UpsertUser`
  unfoldable pub upsert_user : Bytes → Bytes → Bytes → M User
  upsert_user google_sub email display_name = do
    id ← new_uid
    row ← exec (λ now db.
        upsert_row
          (record {
            id = id;
            google_sub = google_sub;
            email = lower email;
            display_name = display_name;
            created_at = now;
          })
          db)
    pure (to_user row)

module _ (lower trim : Bytes → Bytes) (note : Bytes) where
  -- `BootstrapAllowedEmails`: `note` is the fixed note of the INSERT.
  unfoldable pub bootstrap_allowed_emails : List Bytes → M (Unit {0})
  bootstrap_allowed_emails [] = pure tt
  bootstrap_allowed_emails (e ∷ emails) =
      if same (lower (trim e)) [] then bootstrap_allowed_emails emails else do
        id ← new_uid
        exec (λ now db.
            insert_allowed_if_new
              (record {
                id = id;
                email = lower (trim e);
                note = note;
                added_by = none;
                created_at = now;
              })
              db)
        bootstrap_allowed_emails emails
