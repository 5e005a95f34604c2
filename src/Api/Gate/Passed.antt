-- ===== src/Api/Gate/Passed.antt =====
-- What a request that passes the chain of an authenticated route has shown, and what happens to one
-- without a session.
use spin_the_wheel.Prelude.{
  ℕ, ◌≡◌, ◌≢◌, refl, sym, ap, ◌∙◌, Bool, true, false, ◌⊎◌, none, some, Bytes, same, same_iff, [],
  Bool-cases, inl, inr, arith,
}
use spin_the_wheel.Store.Monad.{not_found, failed, Result, ok, err, World}
use spin_the_wheel.Store.Accounts.{User}
use spin_the_wheel.Store.Sessions.{Session, live_session, lookup_session, touch_session}
use spin_the_wheel.Store.Sessions.Closing.{lookup-eq-ok}
use spin_the_wheel.Api.Reply.{Response, reply}
use spin_the_wheel.Api.Gate.{
  is_safe, WebRequest, Context, Route, rate_limit, is_same_origin, same_origin_write, resolved,
  resolve, require_user, has_token, csrf, authed,
}

module _ {A : Type 0} where
  same_origin_write-eq-reply :
      (fold : Bytes → Bytes → Bool) (expected : Bytes) (next : Route A) (q : WebRequest)
      (c : Context) (w : World) {st : ℕ} {a : A}
      → (same_origin_write fold expected next q c w).0 ≡ reply st a
      → ((is_safe q.method ≡ true) ⊎ (is_same_origin fold expected q ≡ true))
        × (same_origin_write fold expected next q c w ≡ next q c w)
  unfolding same_origin_write
  same_origin_write-eq-reply fold expected next q c w e = elim (Bool-cases (is_safe q.method)) [
    | inl safe ↦ (inl safe, rw safe)
    | inr unsafe ↦ elim (Bool-cases (is_same_origin fold expected q)) [
      | inl ours ↦ (inr ours, rw (unsafe, ours))
      | inr theirs ↦ let e' = rw (unsafe, theirs) at e in cc
    ]
  ]

  rate_limit-eq-reply :
      (verdict : Bool × ℕ) (next : Route A) (q : WebRequest) (c : Context) (w : World) {st : ℕ}
      {a : A}
      → (rate_limit verdict next q c w).0 ≡ reply st a
      → (verdict.0 ≡ true) × (rate_limit verdict next q c w ≡ next q c w)
  unfolding rate_limit
  rate_limit-eq-reply (true, wait) next q c w e = (refl, refl)
  rate_limit-eq-reply (false, wait) next q c w e = cc

  csrf-eq-reply :
      (next : Route A) (q : WebRequest) (s : Session) (u : User) (w : World) {st : ℕ} {a : A}
      → (csrf next q (some (s, u)) w).0 ≡ reply st a
      → ((is_safe q.method ≡ true) ⊎ (has_token q s ≡ true))
        × (csrf next q (some (s, u)) w ≡ next q (some (s, u)) w)
  unfolding csrf
  csrf-eq-reply next q s u w e = elim (Bool-cases (is_safe q.method)) [
    | inl safe ↦ (inl safe, rw safe)
    | inr unsafe ↦ elim (Bool-cases (has_token q s)) [
      | inl token ↦ (inr token, rw (unsafe, token))
      | inr other ↦ let e' = rw (unsafe, other) at e in cc
    ]
  ]

  resolved-eq-reply :
      (found : Result (Session × User)) (next : Route A) (q : WebRequest) (w : World) {st : ℕ}
      {a : A}
      → (resolved found (require_user next) q none w).0 ≡ reply st a
      → (s : Session) × (u : User) × (found ≡ ok (s, u))
        × (resolved found (require_user next) q none w
            ≡ next q (some (s, u)) (touch_session s.id w).1)
  resolved-eq-reply (ok (s, u)) next q w e = (s, u, refl, refl)
  resolved-eq-reply (err not_found) next q w e = cc
  resolved-eq-reply (err failed) next q w e = cc

  resolve-eq-reply :
      (sha256 : Bytes → Bytes) (next : Route A) (q : WebRequest) (w : World) {st : ℕ} {a : A}
      → (resolve sha256 (require_user next) q none w).0 ≡ reply st a
      → (s : Session) × (u : User) × ((lookup_session (sha256 q.cookie) w).0 ≡ ok (s, u))
        × (resolve sha256 (require_user next) q none w
            ≡ next q (some (s, u)) (touch_session s.id (lookup_session (sha256 q.cookie) w).1).1)
  unfolding resolve
  resolve-eq-reply sha256 next q w e = elim (Bool-cases (same q.cookie [])) [
    | inl absent ↦ let e' = rw absent at e in cc
    | inr present ↦
        let (s, u, found, whole) =
          resolved-eq-reply (lookup_session (sha256 q.cookie) w).0 next q
            (lookup_session (sha256 q.cookie) w).1 (rw present at e) in
        (s, u, found, rw present whole)
  ]

pub has_token-eq-true :
    (q : WebRequest) (s : Session)
    → has_token q s ≡ true
    → (q.csrf_header ≡ s.csrf_token) × (q.csrf_header ≢ [])
unfolding has_token
has_token-eq-true q s h =
    (ground (arith, same_iff q.csrf_header s.csrf_token), ground (arith, same_iff q.csrf_header []))

reply-moved :
    {A : Type 0} (x y : Response A × World) {st : ℕ} {a : A}
    → x ≡ y
    → x.0 ≡ reply st a
    → y.0 ≡ reply st a
reply-moved x y p e = sym (ap (λ (r : Response _ × World). r.0) p) ∙ e

-- What a request has shown: an open session for its cookie, and, where it writes, the site's origin
-- and the token of that session.
pub record IsAuthorised (fold : Bytes → Bytes → Bool) (expected : Bytes) (sha256 : Bytes → Bytes)
    (verdict : Bool × ℕ) (q : WebRequest) (w : World) (s : Session) (u : User) : Type 0 where
  pub admitted : verdict.0 ≡ true
  pub live : live_session (sha256 q.cookie) w.now w.db.users w.db.sessions ≡ some (s, u)
  pub write :
      (is_safe q.method ≡ true)
      ⊎ ((is_same_origin fold expected q ≡ true)
          × ((q.csrf_header ≡ s.csrf_token) × (q.csrf_header ≢ [])))

write-proof :
    (safe ours token : Type 0) {shown : Type 0}
    → (token → shown)
    → safe ⊎ ours
    → safe ⊎ token
    → safe ⊎ (ours × shown)
write-proof safe ours token f (inl a) b = inl a
write-proof safe ours token f (inr o) (inl a) = inl a
write-proof safe ours token f (inr o) (inr t) = inr (o, f t)

-- No reply of an authenticated route without authority: where the chain replies at all, the limiter
-- has admitted the request, its cookie opens a session that is live at that time, a request of a
-- writing method came from the site's origin with the CSRF token of that session, and the route
-- has run on this session and its account.
pub authed-IsAuthorised :
    {A : Type 0} (fold : Bytes → Bytes → Bool) (expected : Bytes) (sha256 : Bytes → Bytes)
    (verdict : Bool × ℕ) (next : Route A) (q : WebRequest) (w : World) (st : ℕ) (a : A)
    → (authed fold expected sha256 verdict next q none w).0 ≡ reply st a
    → (s : Session) × (u : User) × IsAuthorised fold expected sha256 verdict q w s u
      × (authed fold expected sha256 verdict next q none w
          ≡ next q (some (s, u)) (touch_session s.id (lookup_session (sha256 q.cookie) w).1).1)
unfolding authed
authed-IsAuthorised fold expected sha256 verdict next q w st a e =
    let inner = resolve sha256 (require_user (csrf next)) in
    let (origin, step1) =
      same_origin_write-eq-reply fold expected (rate_limit verdict inner) q none w e in
    let e1 = reply-moved _ _ step1 e in
    let (admitted, step2) = rate_limit-eq-reply verdict inner q none w e1 in
    let e2 = reply-moved _ _ step2 e1 in
    let (s, u, found, step3) = resolve-eq-reply sha256 (csrf next) q w e2 in
    let v = (touch_session s.id (lookup_session (sha256 q.cookie) w).1).1 in
    let (token, step4) = csrf-eq-reply next q s u v (reply-moved _ _ step3 e2) in
    (
      s,
      u,
      record {
        admitted = admitted;
        live = lookup-eq-ok (sha256 q.cookie) w s u found;
        write = write-proof _ _ _ (has_token-eq-true q s) origin token;
      },
      step1 ∙ step2 ∙ step3 ∙ step4,
    )
