-- ===== src/Auth/Tests.antt =====
-- A login and its refusals on a small database, and the theorems at those visits.
use spin_the_wheel.Prelude.{
  ◌≡◌, ◌≢◌, ◌⊎◌, refl, true, false, none, some, [], ◌∷◌, Bytes, text, same,
}
use spin_the_wheel.Utf8.{truncate}
use spin_the_wheel.Uid.{is_zero}
use spin_the_wheel.Store.Monad.{ok, World, new_uid, exec}
use spin_the_wheel.Store.Accounts.{User, null_uuid, is_listed, is_email_allowed, upsert_user}
use spin_the_wheel.Store.Sessions.{
  Session, is_pending, create_oauth_state, consume_oauth_state, create_session, lookup_session,
  revoke_session,
}
use spin_the_wheel.Store.Audit.{audit}
use spin_the_wheel.Api.Reply.{Request}
use spin_the_wheel.Auth.Google.{
  Transport, GoogleClient, new_token, challenge_of, auth_url, accepted_body, exchange, complete,
  user_info,
}
use spin_the_wheel.Auth.Login.{
  AuthConfig, CallbackQuery, oauth_cookie_name, start, open_session, admit_verified, admit_profile,
  redeem, is_own_state, callback, end_session, log_out,
}
use spin_the_wheel.Auth.Login.Opened.{IsLogin, callback-Login}
use spin_the_wheel.Auth.Login.Ended.{log_out-closes}

running : Unit {0}
unfolding truncate is_zero new_uid exec null_uuid is_listed is_email_allowed upsert_user is_pending
    create_oauth_state consume_oauth_state create_session revoke_session audit new_token
    challenge_of auth_url accepted_body exchange complete user_info oauth_cookie_name start
    open_session admit_verified admit_profile redeem is_own_state callback end_session log_out same
running = tt

-- A provider that knows one account, and a digest that is the identity.
abbrev provider : Transport
provider = record {
  post = λ form. some (record { status = 200; body = some (text "access") });
  get = λ token. some (record { status = 200; body = some token });
  access_token = λ body. some body;
  profile = λ body. some (record {
    sub = text "1";
    email = text "ann@x.fr";
    email_verified = true;
    name = text "Ann";
  });
  encode_query = λ form. [];
  sha256 = λ b. b;
  base64 = λ b. b;
}

abbrev client : GoogleClient
client = record { client_id = []; client_secret = []; redirect_url = [] }

abbrev config : AuthConfig
config = record { cookie_secure = true; cookie_name = text "__Host-sw_session"; session_ttl = 1000 }

abbrev empty_world : World
empty_world = record {
  db = record {
    users = [];
    allowed_emails =
        record {
          id = text "a";
          email = text "ann@x.fr";
          note = [];
          added_by = none;
          created_at = 0;
        }
        ∷ [];
    oauth_states = [];
    sessions = [];
    images = [];
    wheels = [];
    segments = [];
    spins = [];
    audit_log = [];
  };
  now = 10;
  uuids = λ n. n ∷ [];
  drawn = 0;
  faults = λ _. false;
  statements = 0;
}

abbrev request : Request
request = record {
  path_id = [];
  client_ip = text "10.0.0.1";
  user_agent = [];
  request_id = text "r";
}

-- The world after the start of a login, with the verifier "v" and the state "s".
abbrev started : World
started = (start provider client config request (some (text "v")) (some (text "s")) empty_world).1

abbrev query : Bytes → CallbackQuery
query cookie = record {
  request = request;
  state_cookie = cookie;
  error = [];
  code = text "c";
  state = text "s";
}

abbrev landed : Bytes → World → Bytes
landed cookie w =
    (callback provider client config (λ b. b) (λ b. b) (query cookie) (some (text "token"))
      (some (text "csrf")) w).0.location

welcome : landed (text "s") started ≡ text "/"
unfolding running
welcome = refl

-- The cookie of another browser, and a state that was never started.
other_browser : landed (text "x") started ≡ text "/?erreur=etat_invalide"
unfolding running
other_browser = refl

unknown_state : landed (text "s") empty_world ≡ text "/?erreur=etat_invalide"
unfolding running
unknown_state = refl

not_listed :
    landed (text "s") (record started { db = record started.db { allowed_emails = [] } })
    ≡ text "/?erreur=non_autorise"
unfolding running
not_listed = refl

abbrev signed_in : World
signed_in =
    (callback provider client config (λ b. b) (λ b. b) (query (text "s")) (some (text "token"))
      (some (text "csrf")) started).1

callback-Login_example :
    (signed_in.db.sessions ≡ started.db.sessions)
    ⊎ IsLogin provider client config (λ b. b) (λ b. b) (query (text "s")) started signed_in
callback-Login_example =
    callback-Login provider client config (λ b. b) (λ b. b) (query (text "s")) (some (text "token"))
      (some (text "csrf")) started

revoked : (revoke_session (text "token") signed_in).0 ≡ ok tt
unfolding running
revoked = refl

abbrev ann : User
ann = record { id = text "u"; email = text "ann@x.fr"; display_name = text "Ann"; created_at = 0 }

abbrev ann_session : Session
ann_session = record {
  id = text "s";
  user_id = text "u";
  csrf_token = text "csrf";
  expires_at = 1010;
}

log_out-closes_example :
    (lookup_session
      (text "token")
      (log_out provider client config request (text "token") none signed_in).1).0
    ≢ ok (ann_session, ann)
unfolding same
log_out-closes_example =
    log_out-closes provider client config request (text "token") none signed_in
      (log_out provider client config request (text "token") none signed_in).1 ann_session ann refl
      revoked refl
