-- ===== src/Store/Sessions/Closing.antt =====
-- What closes a session or an OAuth state for good, and what a purge leaves open.
use mathlib.Core.Path.{subst}
use spin_the_wheel.Prelude.{
  ℕ, ◌≤◌, ◌≡◌, ◌≢◌, refl, ap, ◌∙◌, ◌&&◌, none, some, List, [], ◌∷◌, Bytes, same, select, find,
  arith,
}
use spin_the_wheel.Store.Tables.{Db, UserRow, OauthRow, SessionRow, is_null}
use spin_the_wheel.Store.Monad.{Result, ok, World, ◌>>=◌, pure, or_not_found, exec, query}
use spin_the_wheel.Store.Runs.{
  bind-eq-ok, exec-eq-ok, or_not_found-eq-ok, world-or_not_found, bind-keeps, exec-keeps,
}
use spin_the_wheel.Store.Wheels.{update_where}
use spin_the_wheel.Store.Accounts.{User}
use spin_the_wheel.Store.Sessions.{
  Session, is_pending, consume_row, consume_oauth_state, is_live, live_session, lookup_session,
  revoke_session, keeps_session, purge_sessions, purge_states, purge_audits, purge_rest,
  purge_expired,
}

-- The rows that are pending at a time are not pending after they are consumed, then or later.
find-consumed :
    (h : Bytes) (now later : ℕ) (rows : List OauthRow)
    → now ≤ later
    → find
        (is_pending h later)
        (update_where (is_pending h now) (λ r. record r { consumed_at = some now }) rows)
      ≡ none
unfolding is_pending
find-consumed h now later [] le = refl
find-consumed h now later (r ∷ rows) le = ground (arith, find-consumed h now later rows le)

-- A successful consumption had a pending row, and has stamped it.
pub consume-eq-ok :
    (h : Bytes) (w : World) (v : Bytes)
    → (consume_oauth_state h w).0 ≡ ok v
    → ((consume_row h w.now w.db).0 ≡ some v)
      × ((consume_oauth_state h w).1.db ≡ (consume_row h w.now w.db).1)
unfolding consume_oauth_state
consume-eq-ok h w v e =
    let (row, done, whole) = bind-eq-ok (exec (consume_row h)) or_not_found w e in
    let (answer, world) = exec-eq-ok (consume_row h) w done in
    let found = or_not_found-eq-ok row (exec (consume_row h) w).1 (rw whole at e) in
    let same_world = world-or_not_found row (exec (consume_row h) w).1 in
    (
      answer ∙ found,
      ap (λ (x : Result Bytes × World). x.1.db) whole
          ∙ ap (λ (x : World). x.db) (same_world ∙ world),
    )

-- An OAuth state serves once: after `ConsumeOAuthState` has returned a verifier, no later call on
-- the tables that it left returns one for the same state, whatever statements fail.
pub consume_once :
    (h : Bytes) (w w' : World) (v v' : Bytes)
    → (consume_oauth_state h w).0 ≡ ok v
    → w'.db ≡ (consume_oauth_state h w).1.db
    → w.now ≤ w'.now
    → (consume_oauth_state h w').0 ≢ ok v'
consume_once h w w' v v' e same_db le again =
    let (_, stamped) = consume-eq-ok h w v e in
    let (pending, _) = consume-eq-ok h w' v' again in
    let found =
      subst (λ (d : Db). (consume_row h w'.now d).0 ≡ some v') (same_db ∙ stamped) pending in
    let e' = rw (find-consumed h w.now w'.now w.db.oauth_states le) at found in cc

pub lookup-eq-ok :
    (h : Bytes) (w : World) (s : Session) (u : User)
    → (lookup_session h w).0 ≡ ok (s, u)
    → live_session h w.now w.db.users w.db.sessions ≡ some (s, u)
unfolding lookup_session
lookup-eq-ok h w s u e =
    let ask = query (λ now (db : Db). live_session h now db.users db.sessions) in
    let (row, asked, whole) = bind-eq-ok ask or_not_found w e in
    let (answer, _) =
      exec-eq-ok (λ now (db : Db). (live_session h now db.users db.sessions, db)) w asked in
    answer ∙ or_not_found-eq-ok row (ask w).1 (rw whole at e)

live_session-revoked :
    (h : Bytes) (now later : ℕ) (users : List UserRow) (rows : List SessionRow)
    → live_session h later users (
        update_where
          (λ s. same s.token_hash h && is_null s.revoked_at)
          (λ s. record s { revoked_at = some now })
          rows)
      ≡ none
unfolding live_session is_live
live_session-revoked h now later users [] = refl
live_session-revoked h now later users (s ∷ rows) =
    ground (arith, live_session-revoked h now later users rows)

-- After a successful `RevokeSession` no lookup finds a session for the same token, at any time, while
-- the sessions are those that it left.
pub revoked_session_closed :
    (h : Bytes) (w w' : World) (s : Session) (u : User)
    → (revoke_session h w).0 ≡ ok tt
    → w'.db.sessions ≡ (revoke_session h w).1.db.sessions
    → (lookup_session h w').0 ≢ ok (s, u)
unfolding revoke_session
revoked_session_closed h w w' s u e same_rows found =
    let (_, world) = exec-eq-ok _ w e in
    let live =
      subst (λ (rows : List SessionRow). live_session h w'.now w'.db.users rows ≡ some (s, u))
        (same_rows ∙ ap (λ (x : World). x.db.sessions) world) (lookup-eq-ok h w' s u found) in
    let e' = rw (live_session-revoked h w.now w'.now w'.db.users w.db.sessions) at live in cc

live_session-purged :
    (h : Bytes) (now later : ℕ) (users : List UserRow) (rows : List SessionRow)
    → now ≤ later
    → live_session h later users (select (keeps_session now) rows) ≡ live_session h later users rows
unfolding live_session is_live keeps_session
live_session-purged h now later users [] le = refl
live_session-purged h now later users (s ∷ rows) le =
    ground (arith, live_session-purged h now later users rows le)

-- The sessions that a purge at a time must leave: what a later lookup of any token finds.
record IsPurged (h : Bytes) (later : ℕ) (w v : World) : Type 0 where
  same_now : v.now ≡ w.now
  same_view :
      live_session h later v.db.users v.db.sessions ≡ live_session h later w.db.users w.db.sessions

module _ (h : Bytes) (later : ℕ) (w : World) (le : w.now ≤ later) where
  IsPurged-purge_sessions : IsPurged h later w (purge_sessions w).1
  unfolding purge_sessions
  IsPurged-purge_sessions =
      exec-keeps (IsPurged h later w) _ w (record { same_now = refl; same_view = refl })
        (record {
          same_now = refl;
          same_view = live_session-purged h w.now later w.db.users w.db.sessions le;
        })

  IsPurged-purge_states : (v : World) → IsPurged h later w v → IsPurged h later w (purge_states v).1
  unfolding purge_states
  IsPurged-purge_states v p =
      exec-keeps (IsPurged h later w) _ v
        (record { same_now = p.same_now; same_view = p.same_view })
        (record { same_now = p.same_now; same_view = p.same_view })

  IsPurged-purge_audits : (v : World) → IsPurged h later w v → IsPurged h later w (purge_audits v).1
  unfolding purge_audits
  IsPurged-purge_audits v p =
      exec-keeps (IsPurged h later w) _ v
        (record { same_now = p.same_now; same_view = p.same_view })
        (record { same_now = p.same_now; same_view = p.same_view })

  IsPurged-purge_rest :
      (n : ℕ) (v : World) → IsPurged h later w v → IsPurged h later w (purge_rest n v).1
  IsPurged-purge_rest n v p =
      bind-keeps (IsPurged h later w) purge_states
        (λ m. purge_audits >>= λ k. pure {A = ℕ × ℕ × ℕ} (n, m, k)) v (IsPurged-purge_states v p)
        λ m u q.
          bind-keeps (IsPurged h later w) purge_audits (λ k. pure {A = ℕ × ℕ × ℕ} (n, m, k)) u
            (IsPurged-purge_audits u q) λ k t r. r

  -- `PurgeExpired`, whatever statements fail, changes no lookup at its time or later: it removes no
  -- session that is still open.
  pub purge_expired-keeps_lookups :
      live_session h later (purge_expired w).1.db.users (purge_expired w).1.db.sessions
      ≡ live_session h later w.db.users w.db.sessions
  unfolding purge_expired
  purge_expired-keeps_lookups =
      (bind-keeps (IsPurged h later w) purge_sessions purge_rest w IsPurged-purge_sessions
        IsPurged-purge_rest).same_view
