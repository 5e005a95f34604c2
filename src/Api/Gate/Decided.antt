-- ===== src/Api/Gate/Decided.antt =====
-- The two ways of the chain of an authenticated route.
use mathlib.Core.Path.{subst}
use spin_the_wheel.Prelude.{
  ℕ, ◌≡◌, ◌≤◌, refl, sym, ◌∙◌, Bool, true, false, ◌⊎◌, none, some, Bytes, same, [], Bool-cases, inl,
  inr, arith,
}
use spin_the_wheel.Store.Monad.{not_found, failed, Result, ok, err, World}
use spin_the_wheel.Store.Accounts.{User}
use spin_the_wheel.Store.Sessions.{Session, lookup_session, touch_session}
use spin_the_wheel.Store.Sessions.Closing.{lookup-eq-ok}
use spin_the_wheel.Store.Audit.{audit}
use spin_the_wheel.Store.Product.{
  IsKept, product-audit, product-touch_session, product-lookup_session,
}
use spin_the_wheel.Api.Reply.{
  unauthorized, forbidden, internal, Refusal, refusal, Response, refused,
}
use spin_the_wheel.Api.Gate.{
  is_safe, WebRequest, Context, Route, blocked, rate_limit, is_same_origin, same_origin_write,
  resolved, resolve, require_user, has_token, csrf, authed,
}
use spin_the_wheel.Api.Gate.Passed.{has_token-eq-true, IsAuthorised}

-- A refusal of a status from 400 on, which leaves the tables of the product.
abbrev pub Denial : {A : Type 0} → World → Response A × World → Type 0
Denial w x = (r : Refusal) × (x.0 ≡ refused r) × (400 ≤ r.status) × IsKept w x.1

abbrev denial :
    {A : Type 0} (w : World) (r : Refusal) (v : World)
    → 400 ≤ r.status
    → IsKept w v
    → Denial {A = A} w (refused r, v)
denial w r v h k = (r, refl, h, k)

rate_limit_passes :
    {A : Type 0} (verdict : Bool × ℕ) (next : Route A) (q : WebRequest) (c : Context) (w : World)
    → verdict.0 ≡ true
    → rate_limit verdict next q c w ≡ next q c w
unfolding rate_limit
rate_limit_passes (true, wait) next q c w e = refl
rate_limit_passes (false, wait) next q c w e = cc

rate_limit_refuses :
    {A : Type 0} (verdict : Bool × ℕ) (next : Route A) (q : WebRequest) (c : Context) (w : World)
    → verdict.0 ≡ false
    → Denial w (rate_limit verdict next q c w)
unfolding rate_limit
rate_limit_refuses (false, wait) next q c w e = denial w _ w (omega arith) refl
rate_limit_refuses (true, wait) next q c w e = cc

module _ {A : Type 0} (fold : Bytes → Bytes → Bool) (expected : Bytes) (sha256 : Bytes → Bytes)
    (verdict : Bool × ℕ) (next : Route A) (q : WebRequest) where
  -- The request shows its authority, and the route runs on this session and its account.
  abbrev pub Passage : World → Response A × World → Type 0
  Passage w x =
      (s : Session) × (u : User) × IsAuthorised fold expected sha256 verdict q w s u
      × (x ≡ next q (some (s, u)) (touch_session s.id (lookup_session (sha256 q.cookie) w).1).1)

  abbrev pub Decided : World → Response A × World → Type 0
  Decided w x = Denial w x ⊎ Passage w x

  -- What the outer guards have shown.
  abbrev Outer : Type 0
  Outer = (is_safe q.method ≡ true) ⊎ (is_same_origin fold expected q ≡ true)

  csrf-Decided :
      (w : World) (s : Session) (u : User)
      → Outer
      → verdict.0 ≡ true
      → (lookup_session (sha256 q.cookie) w).0 ≡ ok (s, u)
      → Decided w
          (csrf next q (some (s, u)) (touch_session s.id (lookup_session (sha256 q.cookie) w).1).1)
  unfolding csrf
  csrf-Decided w s u outer admitted found =
      let v = (touch_session s.id (lookup_session (sha256 q.cookie) w).1).1 in
      let live = lookup-eq-ok (sha256 q.cookie) w s u found in
      let kept : IsKept w v =
        product-touch_session s.id (lookup_session (sha256 q.cookie) w).1
        ∙ product-lookup_session (sha256 q.cookie) w in
      elim (Bool-cases (is_safe q.method)) [
        | inl safe ↦
            rw safe
              (inr (s, u, record { admitted = admitted; live = live; write = inl safe }, refl))
        | inr unsafe ↦ elim (Bool-cases (has_token q s)) [
          | inr other ↦
              rw (unsafe, other)
                (inl (
                  denial w (refusal 403 forbidden) (audit (blocked q u) v).1 (omega arith)
                    (product-audit (blocked q u) v ∙ kept)))
          | inl token ↦
              rw (unsafe, token)
                (inr (
                  s,
                  u,
                  record {
                    admitted = admitted;
                    live = live;
                    write = written outer unsafe (has_token-eq-true q s token);
                  },
                  refl,
                ))
        ]
      ]
    where
      written :
          {T : Type 0}
          → Outer
          → is_safe q.method ≡ false
          → T
          → (is_safe q.method ≡ true) ⊎ ((is_same_origin fold expected q ≡ true) × T)
      written (inl safe) unsafe t = inl safe
      written (inr ours) unsafe t = inr (ours, t)

  resolved-Decided :
      (w : World) (found : Result (Session × User))
      → Outer
      → verdict.0 ≡ true
      → (lookup_session (sha256 q.cookie) w).0 ≡ found
      → Decided w
          (resolved found (require_user (csrf next)) q none (lookup_session (sha256 q.cookie) w).1)
  resolved-Decided w (ok (s, u)) outer admitted found = csrf-Decided w s u outer admitted found
  resolved-Decided w (err not_found) outer admitted found = inl (
      denial w (refusal 401 unauthorized) (lookup_session (sha256 q.cookie) w).1 (omega arith)
        (product-lookup_session (sha256 q.cookie) w))
  resolved-Decided w (err failed) outer admitted found = inl (
      denial w (refusal 503 internal) (lookup_session (sha256 q.cookie) w).1 (omega arith)
        (product-lookup_session (sha256 q.cookie) w))

  resolve-Decided :
      (w : World)
      → Outer
      → verdict.0 ≡ true
      → Decided w (resolve sha256 (require_user (csrf next)) q none w)
  unfolding resolve
  resolve-Decided w outer admitted = elim (Bool-cases (same q.cookie [])) [
    | inl absent ↦ rw absent (inl (denial w (refusal 401 unauthorized) w (omega arith) refl))
    | inr present ↦
        rw present (resolved-Decided w (lookup_session (sha256 q.cookie) w).0 outer admitted refl)
  ]

  limited-Decided :
      (w : World)
      → Outer
      → Decided w (rate_limit verdict (resolve sha256 (require_user (csrf next))) q none w)
  limited-Decided w outer =
      let inner = resolve sha256 (require_user (csrf next)) in
      elim (Bool-cases verdict.0) [
        | inl admitted ↦
            subst (Decided w) (sym (rate_limit_passes verdict inner q none w admitted))
              (resolve-Decided w outer admitted)
        | inr refusing ↦ inl (rate_limit_refuses verdict inner q none w refusing)
      ]

  -- The chain of an authenticated route, on any request and whatever fails, either refuses it with a
  -- status from 400 on and leaves every table of the product, or runs the route, and then the limiter
  -- has admitted the request, its cookie opens a session that is live at that time, and a request of a
  -- writing method came from the site's origin with the CSRF token of that session.
  pub authed-Decided : (w : World) → Decided w (authed fold expected sha256 verdict next q none w)
  unfolding authed same_origin_write
  authed-Decided w = elim (Bool-cases (is_safe q.method)) [
    | inl safe ↦ rw safe (limited-Decided w (inl safe))
    | inr unsafe ↦ elim (Bool-cases (is_same_origin fold expected q)) [
      | inl ours ↦ rw (unsafe, ours) (limited-Decided w (inr ours))
      | inr theirs ↦
          rw (unsafe, theirs) (inl (denial w (refusal 403 forbidden) w (omega arith) refl))
    ]
  ]
