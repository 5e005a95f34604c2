-- ===== src/Auth/Login/Opened.antt =====
-- A login opens a session only for an account with authority.
use spin_the_wheel.Prelude.{
  ◌≡◌, refl, ◌∙◌, true, not, ◌||◌, ◌⊎◌, Option, some, List, [], ◌∷◌, Bytes, text, same, same_iff,
  inl, inr, arith,
}
use spin_the_wheel.Uid.{nil_uuid}
use spin_the_wheel.Store.Tables.{login_failed}
use spin_the_wheel.Store.Monad.{World}
use spin_the_wheel.Store.Sessions.{consume_row, consume_oauth_state}
use spin_the_wheel.Auth.Google.{GoogleUser, Transport, GoogleClient, exchange, user_info}
use spin_the_wheel.Auth.Login.{
  Cookie, AuthConfig, clear_cookie, fail_login, login_entry, noted, CallbackQuery,
  oauth_cookie_name, redeem, is_own_state, callback,
}
use spin_the_wheel.Auth.Login.Carried.{
  IsCarried, IsCarried-trans, audit-IsCarried, consume-IsCarried, given-keeps, stored-keeps,
  test-keeps, consume-found,
}
use spin_the_wheel.Auth.Login.Admitted.{
  IsAdmitted, IsAdmitted-moved, Vouched, admit_profile-Vouched,
}

own_state : (q : CallbackQuery) → is_own_state q ≡ true → q.state_cookie ≡ q.state
unfolding is_own_state
own_state q h = ground (arith, same_iff q.state_cookie q.state)

module _ (t : Transport) (c : GoogleClient) (cfg : AuthConfig) (lower trim : Bytes → Bytes) where
  -- What stands behind a session that a login opens: the state is that of this browser's cookie and
  -- was pending, the provider has vouched for the address, the address is on the list, and the
  -- session is that of a row of the users: the row of the profile's subject, with that address.
  pub record IsLogin (q : CallbackQuery) (w v : World) : Type 0 where
    pub own_state : q.state_cookie ≡ q.state
    pub verifier : Bytes
    pub pending : (consume_row (t.sha256 q.state) w.now w.db).0 ≡ some verifier
    pub access : Bytes
    pub exchanged : exchange t c q.code verifier ≡ some access
    pub profile : GoogleUser
    pub told : user_info t access ≡ some profile
    pub verified : profile.email_verified ≡ true
    pub admitted :
        IsAdmitted t c cfg lower trim profile.sub (lower (lower (trim profile.email))) w v

  abbrev Login : CallbackQuery → World → World → Type 0
  Login q w v = (v.db.sessions ≡ w.db.sessions) ⊎ IsLogin q w v

  logged_in :
      (q : CallbackQuery) (verifier access : Bytes) (profile : GoogleUser) (w u v : World)
      → q.state_cookie ≡ q.state
      → (consume_row (t.sha256 q.state) w.now w.db).0 ≡ some verifier
      → exchange t c q.code verifier ≡ some access
      → user_info t access ≡ some profile
      → IsCarried w u
      → Vouched t c cfg lower trim profile u v
      → Login q w v
  logged_in q verifier access profile w u v own pending exchanged told p (inl h) =
      inl (h ∙ p.same_sessions)
  logged_in q verifier access profile w u v own pending exchanged told p (inr a) = inr (record {
    own_state = own;
    verifier = verifier;
    pending = pending;
    access = access;
    exchanged = exchanged;
    profile = profile;
    told = told;
    verified = a.verified;
    admitted =
        IsAdmitted-moved t c cfg lower trim profile.sub (lower (lower (trim profile.email))) w u v p
          a.admitted;
  })

  redeem-Login :
      (q : CallbackQuery) (cookies : List Cookie) (token_bytes csrf_bytes : Option Bytes)
      (w : World)
      → q.state_cookie ≡ q.state
      → Login q w (redeem t c cfg lower trim q cookies token_bytes csrf_bytes w).1
  unfolding redeem
  redeem-Login q cookies token_bytes csrf_bytes w own =
      let P = Login q w in
      let consumption = consume_oauth_state (t.sha256 q.state) in
      let v = (consumption w).1 in
      let p = consume-IsCarried (t.sha256 q.state) w in
      let failed_entry = login_entry q.request nil_uuid login_failed [] in
      stored-keeps P consumption
        (noted q.request login_failed (fail_login cookies (text "etat_invalide"))) _ w
        (inl (IsCarried-trans p (audit-IsCarried failed_entry v)).same_sessions)
        λ verifier consumed.
          given-keeps P (exchange t c q.code verifier)
            (noted q.request login_failed (fail_login cookies (text "google"))) _ v
            (inl (IsCarried-trans p (audit-IsCarried failed_entry v)).same_sessions)
            λ access exchanged.
              given-keeps P (user_info t access) (fail_login cookies (text "google")) _ v
                (inl p.same_sessions)
                λ profile told.
                  logged_in q verifier access profile w v _ own
                    (consume-found (t.sha256 q.state) w verifier consumed) exchanged told p
                    (admit_profile-Vouched t c cfg lower trim q.request cookies token_bytes
                      csrf_bytes profile v)

  -- `Callback`, whatever statements fail and whatever the provider answers, leaves the sessions as
  -- they are or adds one. Behind that one stand: the state of the query is that of this browser's
  -- cookie and was pending; the code was exchanged with the verifier of that state, and the profile
  -- of its token has a verified address; the address is on the list; and the session is for an account
  -- that is, in the table of the users behind the call, the row of the profile's subject, with that
  -- address.
  pub callback-Login :
      (q : CallbackQuery) (token_bytes csrf_bytes : Option Bytes) (w : World)
      → ((callback t c cfg lower trim q token_bytes csrf_bytes w).1.db.sessions ≡ w.db.sessions)
        ⊎ IsLogin q w (callback t c cfg lower trim q token_bytes csrf_bytes w).1
  unfolding callback
  callback-Login q token_bytes csrf_bytes w =
      let P = Login q w in
      let cookies = clear_cookie cfg (oauth_cookie_name cfg) ∷ [] in
      let logged = audit-IsCarried (login_entry q.request nil_uuid login_failed []) w in
      test-keeps P (not (same q.error []))
        (noted q.request login_failed (fail_login cookies (text "refus_google"))) _ w
        (λ _. inl logged.same_sessions)
        λ _.
          test-keeps P (same q.code [] || same q.state [])
            (fail_login cookies (text "requete_invalide")) _ w (λ _. inl refl)
            λ _.
              test-keeps P (not (is_own_state q))
                (noted q.request login_failed (fail_login cookies (text "etat_invalide")))
                (redeem t c cfg lower trim q cookies token_bytes csrf_bytes) w
                (λ _. inl logged.same_sessions)
                λ own. redeem-Login q cookies token_bytes csrf_bytes w (own_state q (ground arith))
