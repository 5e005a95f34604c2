-- ===== src/Store/Sessions/Removal.antt =====
-- Removing an address from the allow list closes the sessions of its account.
use mathlib.Core.Path.{subst}
use spin_the_wheel.Prelude.{
  ℕ, ◌≡◌, ◌≢◌, sym, ap, ◌∙◌, true, false, ◌&&◌, some, List, [], ◌∷◌, map, Bytes, same, same_iff,
  find, any, if◌then◌else◌, Bool-cases, Option-cases, inl, inr, arith,
}
use spin_the_wheel.Store.Tables.{Db, UserRow, AllowedRow, SessionRow}
use spin_the_wheel.Store.Monad.{Result, ok, World, ◌>>=◌, pure, exec, counted}
use spin_the_wheel.Store.Runs.{after_exec, found-eq-ok, last-eq-ok, transaction-eq-ok}
use spin_the_wheel.Store.Accounts.{
  User, is_session_of, revoke_sessions_of, delete_allowed_row, delete_allowed_body,
  delete_allowed_email,
}
use spin_the_wheel.Store.Sessions.{
  Session, is_live, user_of, join_user, live_session, lookup_session,
}
use spin_the_wheel.Store.Sessions.Closing.{lookup-eq-ok}

any_of_find :
    (email id : Bytes) (users : List UserRow) (u : UserRow)
    → find (λ (r : UserRow). same r.id id) users ≡ some u
    → u.email ≡ email
    → any (λ (r : UserRow). same r.email email && same r.id id) users ≡ true
any_of_find email id [] u e h = cc
any_of_find email id (r ∷ users) u e h =
    ground (arith, same_iff r.email email, same_iff u.email email, any_of_find email id users u)

revoke_row : Bytes → Db → ℕ → SessionRow → SessionRow
revoke_row email db now s =
    if is_session_of email db s then record s { revoked_at = some now } else s

user_of-keeps :
    (users : List UserRow) (s : SessionRow) (u : UserRow) (email : Bytes)
    → user_of users s ≡ some u
    → any (λ (r : UserRow). same r.email email && same r.id s.user_id) users ≡ false
    → u.email ≢ email
user_of-keeps users s u email found nobody mine =
    let e = any_of_find email s.user_id users u found mine in cc

-- A row that stays live behind the UPDATE belongs to another address.
live_row-other :
    (h email : Bytes) (now later : ℕ) (db : Db) (r : SessionRow) (u0 : UserRow)
    → is_live h later (revoke_row email db now r) ≡ true
    → user_of db.users (revoke_row email db now r) ≡ some u0
    → u0.email ≢ email
unfolding is_live is_session_of revoke_row
live_row-other h email now later db r u0 live e = elim (Bool-cases (is_session_of email db r)) [
  | inl closed ↦ let live' = rw closed at live in ground arith
  | inr kept ↦
      let live' = rw kept at live in
      let e' = rw kept at e in
      let nobody : any (λ (u : UserRow). same u.email email && same u.id r.user_id) db.users
          ≡ false =
        ground arith in
      user_of-keeps db.users r u0 email e' nobody
]

live_session-removed :
    (h email : Bytes) (now later : ℕ) (db : Db) (rows : List SessionRow) (s : Session) (u : User)
    → live_session h later db.users (map (revoke_row email db now) rows) ≡ some (s, u)
    → u.email ≢ email
unfolding live_session
live_session-removed h email now later db [] s u e = cc
live_session-removed h email now later db (r ∷ rows) s u e =
    elim (Bool-cases (is_live h later (revoke_row email db now r))) [
      | inr closed ↦ live_session-removed h email now later db rows s u (rw closed at e)
      | inl live ↦
          let e' = rw live at e in
          elim (Option-cases (user_of db.users (revoke_row email db now r))) [
            | inl nobody ↦
                live_session-removed h email now later db rows s u (rw (nobody, join_user) at e')
            | inr (u0, found) ↦
                let other = live_row-other h email now later db r u0 live found in
                let e2 = rw (found, join_user) at e' in
                let theirs : u.email ≡ u0.email = cc in λ mine. other (sym theirs ∙ mine)
          ]
    ]

-- A successful removal has closed the sessions of the address that it returns.
delete_allowed_body-eq-ok :
    (id email : Bytes) (w : World)
    → (delete_allowed_body id w).0 ≡ ok email
    → (rows : List AllowedRow) × ((delete_allowed_body id w).1.db
        ≡ revoke_sessions_of email w.now (record w.db { allowed_emails = rows }))
unfolding delete_allowed_body
delete_allowed_body-eq-ok id email w e =
    let f = λ (now : ℕ) (db : Db). delete_allowed_row id db in
    let close : Bytes → ℕ → Db → Unit {0} × Db = λ x now db. (tt, revoke_sessions_of x now db) in
    let (x, _, whole) = found-eq-ok f (λ x. exec (close x) >>= λ _. pure x) w e in
    let (same_email, world) = last-eq-ok (close x) x email (after_exec f w) (rw whole at e) in
    (
      (delete_allowed_row id w.db).1.allowed_emails,
      ap (λ (p : Result Bytes × World). p.1.db) whole
          ∙ ap (λ (v : World). v.db) world
          ∙ ap (λ (m : Bytes). revoke_sessions_of m w.now (delete_allowed_row id w.db).1)
              same_email,
    )

-- After `DeleteAllowedEmail` has returned an address, no token opens a session of an account with
-- that address, at any time, on the tables that it left.
pub removed_email_locked_out :
    (id email h : Bytes) (w w' : World) (s : Session) (u : User)
    → (delete_allowed_email id w).0 ≡ ok email
    → w'.db ≡ (delete_allowed_email id w).1.db
    → (lookup_session h w').0 ≡ ok (s, u)
    → u.email ≢ email
unfolding delete_allowed_email revoke_row is_session_of
removed_email_locked_out id email h w w' s u e same_db found =
    let (body, committed) = transaction-eq-ok (delete_allowed_body id) w email e in
    let (rows, tables) = delete_allowed_body-eq-ok id email (counted w) body in
    let live =
      subst (λ (d : Db). live_session h w'.now d.users d.sessions ≡ some (s, u))
        (same_db ∙ committed ∙ tables) (lookup-eq-ok h w' s u found) in
    live_session-removed h email w.now w'.now (record w.db { allowed_emails = rows }) w.db.sessions
      s u live
