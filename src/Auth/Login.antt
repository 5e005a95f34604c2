-- ===== src/Auth/Login.antt =====
-- The login of backend/internal/auth/handlers.go: `Start`, `Callback`, `Logout` and `Me`.
-- The random bytes of a request are arguments, nothing where the generator fails;
-- `strings.ToLower` and `strings.TrimSpace` are the parameters `lower` and `trim`.
pub mod Carried
pub mod Admitted
pub mod Opened
pub mod Rows
pub mod Ended
use spin_the_wheel.Prelude.{
  ℕ, ◌*◌, Bool, true, false, not, ◌&&◌, ◌||◌, Option, none, some, List, [], ◌∷◌, ◌++◌, Bytes, text,
  same, if◌then◌else◌,
}
use spin_the_wheel.Uid.{nil_uuid}
use spin_the_wheel.Store.Tables.{
  Action, login_started, login_succeeded, login_denied, login_failed, logout,
}
use spin_the_wheel.Store.Monad.{StoreError, Result, ok, err, World, M}
use spin_the_wheel.Store.Accounts.{User, is_email_allowed, upsert_user}
use spin_the_wheel.Store.Sessions.{
  Session, one_minute, create_oauth_state, consume_oauth_state, create_session, revoke_session,
}
use spin_the_wheel.Store.Audit.{AuditEntry, audit}
use spin_the_wheel.Api.Reply.{Request}
use spin_the_wheel.Api.Gate.{Context}
use spin_the_wheel.Auth.Google.{
  GoogleUser, Transport, GoogleClient, new_token, challenge_of, auth_url, exchange, user_info,
}

-- A Set-Cookie of `setCookie`, or of `clearCookie` where it has no age.
pub record Cookie : Type 0 where
  pub name : Bytes
  pub value : Bytes
  pub max_age : Option ℕ
  pub secure : Bool

-- What the login reads of the configuration; times are in milliseconds.
pub record AuthConfig : Type 0 where
  pub cookie_secure : Bool
  pub cookie_name : Bytes
  pub session_ttl : ℕ

abbrev pub oauth_state_ttl : ℕ
oauth_state_ttl = 10 * one_minute

-- `oauthCookieName`
unfoldable pub oauth_cookie_name : AuthConfig → Bytes
oauth_cookie_name cfg = if cfg.cookie_secure then text "__Host-sw_oauth" else text "sw_oauth"

-- `setCookie`, `clearCookie`
abbrev pub set_cookie : AuthConfig → Bytes → Bytes → ℕ → Cookie
set_cookie cfg name value ttl = record {
  name = name;
  value = value;
  max_age = some ttl;
  secure = cfg.cookie_secure;
}

abbrev pub clear_cookie : AuthConfig → Bytes → Cookie
clear_cookie cfg name = record {
  name = name;
  value = [];
  max_age = none;
  secure = cfg.cookie_secure;
}

-- A redirection, with the cookies that it sets.
pub record Landing : Type 0 where
  pub cookies : List Cookie
  pub location : Bytes

abbrev pub Visit : Type 0
Visit = World → Landing × World

abbrev pub land : List Cookie → Bytes → Visit
land cookies location w = (record { cookies = cookies; location = location }, w)

-- `failLogin`
abbrev pub fail_login : List Cookie → Bytes → Visit
fail_login cookies code = land cookies (text "/?erreur=" ++ code)

-- `audit`: an error is only logged. The details are left out.
abbrev pub login_entry : Request → Bytes → Action → Bytes → AuditEntry
login_entry q actor action entity_type = record {
  actor_id = actor;
  action = action;
  entity_type = entity_type;
  entity_id = if same entity_type [] then nil_uuid else actor;
  ip = q.client_ip;
  user_agent = q.user_agent;
  request_id = q.request_id;
}

abbrev pub noted : Request → Action → Visit → Visit
noted q action rest w = rest (audit (login_entry q nil_uuid action []) w).1

-- A value that may be missing, and a call of the store that may fail.
abbrev pub given : {A : Type 0} → Option A → Visit → (A → Visit) → Visit
given none bad rest = bad
given (some a) bad rest = rest a

abbrev pub stored_as : {A : Type 0} → Result A → Visit → (A → Visit) → Visit
stored_as (ok a) bad rest = rest a
stored_as (err e) bad rest = bad

abbrev pub stored : {A : Type 0} → M A → Visit → (A → Visit) → Visit
stored m bad rest w = stored_as (m w).0 bad rest (m w).1

-- What `Callback` reads of a request: the cookie of the state, empty where it is absent, and the
-- query's parameters.
pub record CallbackQuery : Type 0 where
  pub request : Request
  pub state_cookie : Bytes
  pub error : Bytes
  pub code : Bytes
  pub state : Bytes

-- The attempt belongs to this browser.
unfoldable pub is_own_state : CallbackQuery → Bool
is_own_state q = not (same q.state_cookie []) && same q.state_cookie q.state

module _ (t : Transport) (c : GoogleClient) (cfg : AuthConfig) where
  -- `Start`
  unfoldable pub start : Request → Option Bytes → Option Bytes → Visit
  unfolding new_token challenge_of auth_url oauth_cookie_name
  start q verifier_bytes state_bytes =
      given (new_token t verifier_bytes) (fail_login [] (text "interne")) λ verifier.
        given (new_token t state_bytes) (fail_login [] (text "interne")) λ state.
          stored (create_oauth_state (t.sha256 state) verifier oauth_state_ttl)
            (fail_login [] (text "interne"))
            λ _. noted q login_started (
              land (set_cookie cfg (oauth_cookie_name cfg) state oauth_state_ttl ∷ [])
                (auth_url t c state (challenge_of t verifier)))

  module _ (lower trim : Bytes → Bytes) where
    -- The end of `Callback`: the session of an account.
    unfoldable pub open_session : Request → List Cookie → Option Bytes → Option Bytes → User → Visit
    unfolding new_token
    open_session q cookies token_bytes csrf_bytes user =
        given (new_token t token_bytes) (fail_login cookies (text "interne")) λ token.
          given (new_token t csrf_bytes) (fail_login cookies (text "interne")) λ csrf.
            stored
              (create_session user.id (t.sha256 token) csrf q.client_ip q.user_agent
                cfg.session_ttl)
              (fail_login cookies (text "interne"))
              λ _ w.
                land (cookies ++ set_cookie cfg cfg.cookie_name token cfg.session_ttl ∷ [])
                  (text "/") (audit (login_entry q user.id login_succeeded (text "user")) w).1

    -- What `Callback` does with an address that the provider has verified: the check of the list, and
    -- the account.
    unfoldable pub admit_verified :
        Request → List Cookie → Option Bytes → Option Bytes → GoogleUser → Visit
    unfolding open_session
    admit_verified q cookies token_bytes csrf_bytes profile =
        stored (is_email_allowed lower (lower (trim profile.email)))
          (fail_login cookies (text "interne"))
          λ allowed.
            if allowed
            then stored (upsert_user lower profile.sub (lower (trim profile.email)) profile.name)
                (fail_login cookies (text "interne"))
                (open_session q cookies token_bytes csrf_bytes)
            else noted q login_denied (fail_login cookies (text "non_autorise"))

    -- What it does with a profile.
    unfoldable pub admit_profile :
        Request → List Cookie → Option Bytes → Option Bytes → GoogleUser → Visit
    unfolding admit_verified
    admit_profile q cookies token_bytes csrf_bytes profile =
        if profile.email_verified
        then admit_verified q cookies token_bytes csrf_bytes profile
        else noted q login_denied (fail_login cookies (text "email_non_verifie"))

    -- The part of `Callback` behind its checks of the query.
    unfoldable pub redeem : CallbackQuery → List Cookie → Option Bytes → Option Bytes → Visit
    unfolding admit_profile exchange user_info
    redeem q cookies token_bytes csrf_bytes =
        stored (consume_oauth_state (t.sha256 q.state))
          (noted q.request login_failed (fail_login cookies (text "etat_invalide")))
          λ verifier.
            given (exchange t c q.code verifier)
              (noted q.request login_failed (fail_login cookies (text "google")))
              λ access.
                given (user_info t access) (fail_login cookies (text "google"))
                  (admit_profile q.request cookies token_bytes csrf_bytes)

    -- `Callback`
    unfoldable pub callback : CallbackQuery → Option Bytes → Option Bytes → Visit
    unfolding redeem is_own_state oauth_cookie_name
    callback q token_bytes csrf_bytes =
        let cookies = clear_cookie cfg (oauth_cookie_name cfg) ∷ [] in
        if not (same q.error [])
        then noted q.request login_failed (fail_login cookies (text "refus_google"))
        else if same q.code [] || same q.state []
        then fail_login cookies (text "requete_invalide")
        else if not (is_own_state q)
        then noted q.request login_failed (fail_login cookies (text "etat_invalide"))
        else redeem q cookies token_bytes csrf_bytes

  -- The account of the context, for the audit.
  abbrev pub actor_of : Context → Bytes
  actor_of none = nil_uuid
  actor_of (some (s, u)) = u.id

  -- `Logout`: a revocation that fails is only logged. The response is {"ok": true}.
  unfoldable pub end_session : Bytes → World → World
  end_session cookie w = if same cookie [] then w else (revoke_session (t.sha256 cookie) w).1

  unfoldable pub log_out : Request → Bytes → Context → World → List Cookie × World
  unfolding end_session
  log_out q cookie context w = (
    clear_cookie cfg cfg.cookie_name ∷ [],
    (audit (login_entry q (actor_of context) logout []) (end_session cookie w)).1,
  )

-- The payload of `Me`: nobody, or the account with the token for its writes.
pub record Profile : Type 0 where
  pub id : Bytes
  pub email : Bytes
  pub display_name : Bytes
  pub csrf_token : Bytes

-- `Me`
unfoldable pub me : Context → Option Profile
me none = none
me (some (s, u)) = some (record {
  id = u.id;
  email = u.email;
  display_name = u.display_name;
  csrf_token = s.csrf_token;
})
