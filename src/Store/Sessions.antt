-- ===== src/Store/Sessions.antt =====
-- OAuth states and sessions: backend/internal/store/users.go, lines 128 to 219, and
-- `PurgeExpired` of store.go.
pub mod Closing
pub mod Removal
use mathlib.Core.Option
use spin_the_wheel.Prelude.{
  ℕ, ◌+◌, ◌-◌, ◌*◌, Bool, true, false, not, ◌&&◌, ◌||◌, Option, none, some, List, [], ◌∷◌, ◌++◌,
  map, Bytes, same, ltb, length, select, find, if◌then◌else◌,
}
use spin_the_wheel.Utf8.{truncate}
use spin_the_wheel.Store.Tables.{Db, UserRow, OauthRow, SessionRow, AuditRow, Action, spun, is_null}
use spin_the_wheel.Store.Monad.{
  M, ◌>>=◌, ◌>>◌, pure, throw, not_found, or_not_found, new_uid, exec, query,
}
use spin_the_wheel.Store.Wheels.{update_where}
use spin_the_wheel.Store.Accounts.{User, to_user}

abbrev pub one_minute : ℕ
one_minute = 60 * 1000

abbrev pub one_hour : ℕ
one_hour = 60 * one_minute

abbrev pub one_day : ℕ
one_day = 24 * one_hour

-- `Session`
pub record Session : Type 0 where
  pub id : Bytes
  pub user_id : Bytes
  pub csrf_token : Bytes
  pub expires_at : ℕ

abbrev pub to_session : SessionRow → Session
to_session r = record {
  id = r.id;
  user_id = r.user_id;
  csrf_token = r.csrf_token;
  expires_at = r.expires_at;
}

-- `CreateOAuthState`
unfoldable pub create_oauth_state : Bytes → Bytes → ℕ → M (Unit {0})
create_oauth_state state_hash verifier ttl = do
  id ← new_uid
  exec (λ now db. (
    tt,
    record db {
      oauth_states =
          db.oauth_states
          ++ record {
            id = id;
            state_hash = state_hash;
            code_verifier = verifier;
            expires_at = now + ttl;
            consumed_at = none;
          }
            ∷ [];
    },
  ))

-- WHERE state_hash = $1 AND consumed_at IS NULL AND expires_at > now()
unfoldable pub is_pending : Bytes → ℕ → OauthRow → Bool
is_pending state_hash now r =
    same r.state_hash state_hash && is_null r.consumed_at && ltb now r.expires_at

-- UPDATE oauth_states SET consumed_at = now() … RETURNING code_verifier
abbrev pub consume_row : Bytes → ℕ → Db → Option Bytes × Db
consume_row state_hash now db = (
  Option.map (λ (r : OauthRow). r.code_verifier) (find (is_pending state_hash now) db.oauth_states),
  record db {
    oauth_states =
        update_where (is_pending state_hash now) (λ r. record r { consumed_at = some now })
          db.oauth_states;
  },
)

-- `ConsumeOAuthState`
unfoldable pub consume_oauth_state : Bytes → M Bytes
consume_oauth_state state_hash = do row ← exec (consume_row state_hash); or_not_found row

-- `CreateSession`
unfoldable pub create_session : Bytes → Bytes → Bytes → Bytes → Bytes → ℕ → M Session
create_session user_id token_hash csrf ip user_agent ttl = do
  id ← new_uid
  row ← exec (λ now db.
      let row : SessionRow = record {
        id = id;
        user_id = user_id;
        token_hash = token_hash;
        csrf_token = csrf;
        ip = ip;
        user_agent = truncate user_agent 512;
        last_seen_at = now;
        expires_at = now + ttl;
        revoked_at = none;
      } in
      (row, record db { sessions = db.sessions ++ row ∷ [] }))
  pure (to_session row)

-- WHERE s.token_hash = $1 AND s.revoked_at IS NULL AND s.expires_at > now()
unfoldable pub is_live : Bytes → ℕ → SessionRow → Bool
is_live token_hash now s =
    same s.token_hash token_hash && is_null s.revoked_at && ltb now s.expires_at

-- JOIN users u ON u.id = s.user_id: the first pair.
abbrev pub user_of : List UserRow → SessionRow → Option UserRow
user_of users s = find (λ (u : UserRow). same u.id s.user_id) users

abbrev pub join_user : List UserRow → SessionRow → Option (Session × User) → Option (Session × User)
join_user users s rest = elim (user_of users s) [
  | none ↦ rest
  | some u ↦ some (to_session s, to_user u)
]

unfoldable pub live_session : Bytes → ℕ → List UserRow → List SessionRow → Option (Session × User)
live_session token_hash now users [] = none
live_session token_hash now users (s ∷ rest) =
    let others = live_session token_hash now users rest in
    if is_live token_hash now s then join_user users s others else others

-- `LookupSession`
unfoldable pub lookup_session : Bytes → M (Session × User)
lookup_session token_hash = do
  row ← query (λ now db. live_session token_hash now db.users db.sessions)
  or_not_found row

-- `TouchSession`
unfoldable pub touch_session : Bytes → M (Unit {0})
touch_session id = exec (λ now db. (
  tt,
  record db {
    sessions =
        update_where (λ (s : SessionRow). same s.id id && ltb (s.last_seen_at + one_minute) now)
          (λ s. record s { last_seen_at = now }) db.sessions;
  },
))

-- `RevokeSession`
unfoldable pub revoke_session : Bytes → M (Unit {0})
revoke_session token_hash = exec (λ now db. (
  tt,
  record db {
    sessions =
        update_where (λ (s : SessionRow). same s.token_hash token_hash && is_null s.revoked_at)
          (λ s. record s { revoked_at = some now }) db.sessions;
  },
))

-- What the three DELETE statements of `PurgeExpired` keep.
unfoldable pub keeps_session : ℕ → SessionRow → Bool
keeps_session now s = not (ltb (s.expires_at + 7 * one_day) now)

unfoldable pub keeps_state : ℕ → OauthRow → Bool
keeps_state now r = not (ltb (r.expires_at + one_hour) now)

abbrev pub is_spin_action : Action → Bool
is_spin_action spun = true
is_spin_action _ = false

unfoldable pub keeps_audit : ℕ → AuditRow → Bool
keeps_audit now a = not (
    is_spin_action a.action && ltb (a.created_at + 30 * one_day) now
    || ltb (a.created_at + 365 * one_day) now)

-- A DELETE, with the number of rows that go.
abbrev pub dropped {ℓ} : {A : Type ℓ} → (A → Bool) → List A → ℕ
dropped keeps rows = length (select (λ r. not (keeps r)) rows)

unfoldable pub purge_sessions : M ℕ
purge_sessions = exec (λ now db. (
  dropped (keeps_session now) db.sessions,
  record db { sessions = select (keeps_session now) db.sessions },
))

unfoldable pub purge_states : M ℕ
purge_states = exec (λ now db. (
  dropped (keeps_state now) db.oauth_states,
  record db { oauth_states = select (keeps_state now) db.oauth_states },
))

unfoldable pub purge_audits : M ℕ
purge_audits = exec (λ now db. (
  dropped (keeps_audit now) db.audit_log,
  record db { audit_log = select (keeps_audit now) db.audit_log },
))

abbrev pub purge_rest : ℕ → M (ℕ × ℕ × ℕ)
purge_rest sessions = do
  states ← purge_states
  audits ← purge_audits
  pure (sessions, states, audits)

-- `PurgeExpired`: the numbers of sessions, states and audit rows.
unfoldable pub purge_expired : M (ℕ × ℕ × ℕ)
purge_expired = do sessions ← purge_sessions; purge_rest sessions
