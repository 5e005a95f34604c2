-- ===== src/Auth/Login/Admitted.antt =====
-- From the profile on: a session is opened only for an address that is verified and on the list.
use spin_the_wheel.Prelude.{
  ℕ, ◌+◌, ◌≡◌, refl, sym, ap, ◌∙◌, true, ◌⊎◌, Option, List, [], ◌∷◌, ◌++◌, Bytes, text, any, same,
  inl, inr,
}
use spin_the_wheel.Uid.{nil_uuid}
use spin_the_wheel.Store.Tables.{AllowedRow, SessionRow, login_succeeded, login_denied}
use spin_the_wheel.Store.Monad.{World, pure, new_uid, exec}
use spin_the_wheel.Store.Runs.{bind-keeps, exec-keeps}
use spin_the_wheel.Store.Accounts.{User, is_listed, is_email_allowed, upsert_user}
use spin_the_wheel.Store.Sessions.{to_session, create_session}
use spin_the_wheel.Api.Reply.{Request}
use spin_the_wheel.Auth.Google.{GoogleUser, Transport, GoogleClient, new_token}
use spin_the_wheel.Auth.Login.{
  Cookie, AuthConfig, fail_login, login_entry, noted, open_session, admit_verified, admit_profile,
}
use spin_the_wheel.Auth.Login.Carried.{
  IsCarried, IsCarried-trans, audit-IsCarried, allowed-IsCarried, upsert_user-IsCarried,
  given-keeps, stored-keeps, test-keeps, allowed-eq-ok, upsert_user-email,
}
use spin_the_wheel.Auth.Login.Rows.{first_of, IsAccount, upsert_user-IsAccount, audit-users}

-- One session more, for an account, under the digest of a token.
pub record IsOpened (sha256 : Bytes → Bytes) (ttl : ℕ) (user : User) (w v : World) : Type 0 where
  pub token : Bytes
  pub row : SessionRow
  pub same_user : row.user_id ≡ user.id
  pub same_hash : row.token_hash ≡ sha256 token
  pub same_expiry : row.expires_at ≡ w.now + ttl
  pub recorded : v.db.sessions ≡ w.db.sessions ++ row ∷ []

-- Either no session has come, or that one, and the accounts are those from before.
abbrev pub LoginOutcome : (Bytes → Bytes) → ℕ → User → World → World → Type 0
LoginOutcome sha256 ttl user w v =
    (v.db.sessions ≡ w.db.sessions) ⊎ ((v.db.users ≡ w.db.users) × IsOpened sha256 ttl user w v)

create_session-LoginOutcome :
    (sha256 : Bytes → Bytes) (user : User) (token csrf ip user_agent : Bytes) (ttl : ℕ) (w : World)
    → LoginOutcome sha256 ttl user w
        (create_session user.id (sha256 token) csrf ip user_agent ttl w).1
unfolding create_session new_uid
create_session-LoginOutcome sha256 user token csrf ip user_agent ttl w =
    bind-keeps (LoginOutcome sha256 ttl user w) (exec _) (λ row. pure (to_session row))
      (new_uid w).1
      (exec-keeps (LoginOutcome sha256 ttl user w) _ (new_uid w).1 (inl refl) (
        inr (
          refl,
          record {
            token = token;
            row = _;
            same_user = refl;
            same_hash = refl;
            same_expiry = refl;
            recorded = refl;
          },
        )))
      λ row v p. p

LoginOutcome-carried :
    (sha256 : Bytes → Bytes) (ttl : ℕ) (user : User) (w v u : World)
    → v.db.sessions ≡ u.db.sessions
    → v.db.users ≡ u.db.users
    → LoginOutcome sha256 ttl user w u
    → LoginOutcome sha256 ttl user w v
LoginOutcome-carried sha256 ttl user w v u e users (inl h) = inl (e ∙ h)
LoginOutcome-carried sha256 ttl user w v u e users (inr (same_users, o)) = inr (
  users ∙ same_users,
  record {
    token = o.token;
    row = o.row;
    same_user = o.same_user;
    same_hash = o.same_hash;
    same_expiry = o.same_expiry;
    recorded = e ∙ o.recorded;
  },
)

module _ (t : Transport) (c : GoogleClient) (cfg : AuthConfig) (lower trim : Bytes → Bytes) where
  open_session-LoginOutcome :
      (q : Request) (cookies : List Cookie) (token_bytes csrf_bytes : Option Bytes) (user : User)
      (w : World)
      → LoginOutcome t.sha256 cfg.session_ttl user w
          (open_session t c cfg lower trim q cookies token_bytes csrf_bytes user w).1
  unfolding open_session
  open_session-LoginOutcome q cookies token_bytes csrf_bytes user w =
      let P = LoginOutcome t.sha256 cfg.session_ttl user w in
      given-keeps P (new_token t token_bytes) (fail_login cookies (text "interne")) _ w (inl refl)
        λ token _.
          given-keeps P (new_token t csrf_bytes) (fail_login cookies (text "interne")) _ w
            (inl refl)
            λ csrf _.
              let opening =
                create_session user.id (t.sha256 token) csrf q.client_ip q.user_agent
                  cfg.session_ttl in
              let opened =
                create_session-LoginOutcome t.sha256 user token csrf q.client_ip q.user_agent
                  cfg.session_ttl w in
              stored-keeps P opening (fail_login cookies (text "interne")) _ w opened λ _ _.
                LoginOutcome-carried t.sha256 cfg.session_ttl user w _ (opening w).1
                  (audit-IsCarried (login_entry q user.id login_succeeded (text "user"))
                    (opening w).1).same_sessions
                  (audit-users (login_entry q user.id login_succeeded (text "user")) (opening w).1)
                  opened

  IsOpened-moved :
      (user : User) (w u v : World)
      → IsCarried w u
      → IsOpened t.sha256 cfg.session_ttl user u v
      → IsOpened t.sha256 cfg.session_ttl user w v
  IsOpened-moved user w u v p o = record {
    token = o.token;
    row = o.row;
    same_user = o.same_user;
    same_hash = o.same_hash;
    same_expiry = o.same_expiry ∙ ap (λ n. n + cfg.session_ttl) p.same_now;
    recorded = o.recorded ∙ ap (λ rows. rows ++ o.row ∷ []) p.same_sessions;
  }

  -- The same for one subject and one address, where the allow list stands before the check; the
  -- account is the subject's row of the users.
  pub record IsAdmitted (google_sub address : Bytes) (w v : World) : Type 0 where
    pub user : User
    pub account : IsAccount google_sub user v
    pub same_email : user.email ≡ address
    pub listed : is_listed address w.db ≡ true
    pub opened : IsOpened t.sha256 cfg.session_ttl user w v

  abbrev pub Admission : Bytes → Bytes → World → World → Type 0
  Admission google_sub address w v =
      (v.db.sessions ≡ w.db.sessions) ⊎ IsAdmitted google_sub address w v

  admitted :
      (google_sub address : Bytes) (user : User) (w u v : World)
      → IsCarried w u
      → IsAccount google_sub user u
      → user.email ≡ address
      → is_listed address w.db ≡ true
      → LoginOutcome t.sha256 cfg.session_ttl user u v
      → Admission google_sub address w v
  admitted google_sub address user w u v p a same_email listed (inl h) = inl (h ∙ p.same_sessions)
  admitted google_sub address user w u v p (r, first, same_user) same_email listed
        (inr (users, o)) =
      inr (record {
        user = user;
        account = (r, ap (first_of google_sub) users ∙ first, same_user);
        same_email = same_email;
        listed = listed;
        opened = IsOpened-moved user w u v p o;
      })

  pub IsAdmitted-moved :
      (google_sub address : Bytes) (w u v : World)
      → IsCarried w u
      → IsAdmitted google_sub address u v
      → IsAdmitted google_sub address w v
  unfolding is_listed
  IsAdmitted-moved google_sub address w u v p a = record {
    user = a.user;
    account = a.account;
    same_email = a.same_email;
    listed =
        ap (λ (rows : List AllowedRow). any (λ (r : AllowedRow). same r.email address) rows)
          (sym p.same_list)
        ∙ a.listed;
    opened = IsOpened-moved a.user w u v p a.opened;
  }

  admit_verified-Admission :
      (q : Request) (cookies : List Cookie) (token_bytes csrf_bytes : Option Bytes)
      (profile : GoogleUser) (w : World)
      → Admission profile.sub
          (lower (lower (trim profile.email)))
          w
          (admit_verified t c cfg lower trim q cookies token_bytes csrf_bytes profile w).1
  unfolding admit_verified
  admit_verified-Admission q cookies token_bytes csrf_bytes profile w =
      let email = lower (trim profile.email) in
      let P = Admission profile.sub (lower email) w in
      let check = is_email_allowed lower email in
      let p1 = allowed-IsCarried lower email w in
      stored-keeps P check (fail_login cookies (text "interne")) _ w (inl p1.same_sessions)
        λ allowed found.
          test-keeps P allowed _ (noted q login_denied (fail_login cookies (text "non_autorise")))
            (check w).1
            (λ listed.
              let account = upsert_user lower profile.sub email profile.name in
              let v = (check w).1 in
              let p2 =
                IsCarried-trans p1 (upsert_user-IsCarried lower profile.sub email profile.name v) in
              stored-keeps P account (fail_login cookies (text "interne")) _ v
                (inl p2.same_sessions)
                λ user made.
                  admitted profile.sub (lower email) user w (account v).1 _ p2
                    (upsert_user-IsAccount lower profile.sub email profile.name v user made)
                    (upsert_user-email lower profile.sub email profile.name v user made)
                    (allowed-eq-ok lower email w allowed found ∙ listed)
                    (open_session-LoginOutcome q cookies token_bytes csrf_bytes user (account v).1))
            λ denied.
              inl
                (IsCarried-trans p1 (
                  audit-IsCarried (login_entry q nil_uuid login_denied [])
                    (check w).1)).same_sessions

  -- The same for a whole profile.
  pub record IsVouched (profile : GoogleUser) (w v : World) : Type 0 where
    pub verified : profile.email_verified ≡ true
    pub admitted : IsAdmitted profile.sub (lower (lower (trim profile.email))) w v

  abbrev pub Vouched : GoogleUser → World → World → Type 0
  Vouched profile w v = (v.db.sessions ≡ w.db.sessions) ⊎ IsVouched profile w v

  vouched :
      (profile : GoogleUser) (w v : World)
      → profile.email_verified ≡ true
      → Admission profile.sub (lower (lower (trim profile.email))) w v
      → Vouched profile w v
  vouched profile w v e (inl h) = inl h
  vouched profile w v e (inr a) = inr (record { verified = e; admitted = a })

  pub admit_profile-Vouched :
      (q : Request) (cookies : List Cookie) (token_bytes csrf_bytes : Option Bytes)
      (profile : GoogleUser) (w : World)
      → Vouched profile w
          (admit_profile t c cfg lower trim q cookies token_bytes csrf_bytes profile w).1
  unfolding admit_profile
  admit_profile-Vouched q cookies token_bytes csrf_bytes profile w =
      test-keeps (Vouched profile w) profile.email_verified
        (admit_verified t c cfg lower trim q cookies token_bytes csrf_bytes profile)
        (noted q login_denied (fail_login cookies (text "email_non_verifie"))) w
        (λ verified.
          vouched profile w _ verified
            (admit_verified-Admission q cookies token_bytes csrf_bytes profile w))
        λ unverified. inl (audit-IsCarried (login_entry q nil_uuid login_denied []) w).same_sessions
