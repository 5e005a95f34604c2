-- ===== src/Auth/Login/Ended.antt =====
-- Signing out.
use spin_the_wheel.Prelude.{◌≡◌, ◌≢◌, ap, ◌∙◌, false, [], Bytes, same}
use spin_the_wheel.Store.Tables.{logout}
use spin_the_wheel.Store.Monad.{ok, World}
use spin_the_wheel.Store.Accounts.{User}
use spin_the_wheel.Store.Sessions.{Session, lookup_session, revoke_session}
use spin_the_wheel.Store.Sessions.Closing.{revoked_session_closed}
use spin_the_wheel.Api.Reply.{Request}
use spin_the_wheel.Api.Gate.{Context}
use spin_the_wheel.Auth.Google.{Transport, GoogleClient}
use spin_the_wheel.Auth.Login.{AuthConfig, login_entry, actor_of, end_session, log_out}
use spin_the_wheel.Auth.Login.Carried.{audit-IsCarried}

module _ (t : Transport) (c : GoogleClient) (cfg : AuthConfig) where
  -- After `Logout` with a cookie, where its revocation has succeeded, no lookup finds a session for the
  -- token of the cookie, at any time, while the sessions are those that it left.
  pub log_out-closes :
      (q : Request) (cookie : Bytes) (context : Context) (w w' : World) (s : Session) (u : User)
      → same cookie [] ≡ false
      → (revoke_session (t.sha256 cookie) w).0 ≡ ok tt
      → w'.db.sessions ≡ (log_out t c cfg q cookie context w).1.db.sessions
      → (lookup_session (t.sha256 cookie) w').0 ≢ ok (s, u)
  unfolding log_out end_session
  log_out-closes q cookie context w w' s u present revoked same_rows =
      let after : end_session t c cfg cookie w ≡ (revoke_session (t.sha256 cookie) w).1 =
        rw present in
      revoked_session_closed (t.sha256 cookie) w w' s u revoked (
        same_rows
        ∙ (audit-IsCarried (login_entry q (actor_of t c cfg context) logout [])
            (end_session t c cfg cookie w)).same_sessions
        ∙ ap (λ (v : World). v.db.sessions) after)
