-- ===== src/Router/Guarded.antt =====
-- Every request that writes, whatever its route, is refused or has shown its authority.
use mathlib.Core.Path.{subst}
use spin_the_wheel.Prelude.{
  ◌≡◌, ◌≢◌, ◌≤◌, refl, ap, Bool, true, false, ◌&&◌, ◌⊎◌, inl, inr, Option, none, some, List, [],
  ◌∷◌, Bytes, find, any, Bool-cases, arith, if◌then◌else◌,
}
use spin_the_wheel.Uid.{string}
use spin_the_wheel.Store.Monad.{new_uid}
use spin_the_wheel.Api.Gate.{get, is_safe, is_same_origin}
use spin_the_wheel.Images.Disk.{Site}
use spin_the_wheel.Web.{
  Headers, raw_header, raw_write, status_header, status_write, Exchange, Call, Exit, returned,
  panicked, aborted, Turn, chain,
}
use spin_the_wheel.Web.Outer.{
  with_request_id, request_id, recover, recovered, access_log, accounted,
}
use spin_the_wheel.Router.Table.{
  Endpoint, session_end, wheel_new, wheel_patch, wheel_delete, segments_put, image_new, allowed_new,
  allowed_delete, public_spin, takes_method, method_of, matches_path, pattern_of, matches, parts_of,
  endpoints, find_endpoint, missing_status,
}
use spin_the_wheel.Router.Endpoints.{App}
use spin_the_wheel.Router.Handlers.{plain_error}
use spin_the_wheel.Router.Serving.{
  moved, endpoint_serve, with_path_id, routed, route, serve, unanswered, moved_to, directed,
}
use spin_the_wheel.Router.Moved.{
  IsRedirection, takes_get-is_safe, IsMoved, moved_to-unclean, sent-moved, around-IsMoved,
}
use spin_the_wheel.Router.Authority.{
  begun, IsRefused, IsGuarded, signed-IsGuarded, end_serve-IsGuarded, upload_serve-IsGuarded,
}

find-head :
    {A : Type 0} (p : A → Bool) (x a : A) (rest : Option A) (b : Bool)
    → p x ≡ b
    → (if b then some x else rest) ≡ some a
    → (p a ≡ true) ⊎ (rest ≡ some a)
find-head p x a rest true e h =
    inl (let same_one : x ≡ a = cc in subst (λ y. p y ≡ true) same_one e)
find-head p x a rest false e h = inr h

find-eq-some : {A : Type 0} (p : A → Bool) (xs : List A) (a : A) → find p xs ≡ some a → p a ≡ true
find-eq-some p [] a e = cc
find-eq-some p (x ∷ xs) a e = elim (find-head p x a (find p xs) (p x) refl e) [
  | inl held ↦ held
  | inr later ↦ find-eq-some p xs a later
]

missing_status-high : (path : Bytes) → 400 ≤ missing_status path
unfolding missing_status
missing_status-high path =
    elim (Bool-cases (any (λ e. matches_path (pattern_of e) (parts_of path)) endpoints)) [
      | inl b ↦ rw b (omega arith)
      | inr b ↦ rw b (omega arith)
    ]

module _ (app : App) where
  -- The identifier of the path changes nothing of what a request shows, nor does that of the request.
  with_path_id-IsGuarded :
      (e : Endpoint) (q : Call) (s : Site) (t : Turn)
      → IsGuarded app (with_path_id e q) s t
      → IsGuarded app q s t
  unfolding is_same_origin
  with_path_id-IsGuarded e q s t (inl refusal) = inl refusal
  with_path_id-IsGuarded e q s t (inr a) = inr (record {
    session = a.session;
    user = a.user;
    live = a.live;
    ours = a.ours;
    token = a.token;
    present = a.present;
  })

  module _ (q : Call) (hs : Headers) (s : Site) (unsafe : is_safe q.web.method ≡ false) where
    by_get : {T : Type 0} → takes_method get q.web.method ≡ true → T
    by_get taken = let safe = takes_get-is_safe app q.web.method taken in cc

    endpoint_serve-IsGuarded :
        (e : Endpoint)
        → takes_method (method_of e) q.web.method ≡ true
        → e ≢ public_spin
        → IsGuarded app q s (endpoint_serve app e q (begun hs) s)
    unfolding endpoint_serve
    endpoint_serve-IsGuarded session_end taken other = end_serve-IsGuarded app q hs s unsafe
    endpoint_serve-IsGuarded image_new taken other = upload_serve-IsGuarded app q hs s unsafe
    endpoint_serve-IsGuarded wheel_new taken other = signed-IsGuarded app _ q hs s unsafe
    endpoint_serve-IsGuarded wheel_patch taken other = signed-IsGuarded app _ q hs s unsafe
    endpoint_serve-IsGuarded wheel_delete taken other = signed-IsGuarded app _ q hs s unsafe
    endpoint_serve-IsGuarded segments_put taken other = signed-IsGuarded app _ q hs s unsafe
    endpoint_serve-IsGuarded allowed_new taken other = signed-IsGuarded app _ q hs s unsafe
    endpoint_serve-IsGuarded allowed_delete taken other = signed-IsGuarded app _ q hs s unsafe
    endpoint_serve-IsGuarded public_spin taken other = elim (other refl) [ ]
    endpoint_serve-IsGuarded _ taken other = by_get taken

  takes-and : (a b : Bool) → (a && b) ≡ true → a ≡ true
  takes-and true b e = refl
  takes-and false b e = e

  routed-IsGuarded :
      (q : Call) (hs : Headers) (s : Site)
      → is_safe q.web.method ≡ false
      → (found : Option Endpoint) → find_endpoint q.web.method q.path ≡ found
      → found ≢ some public_spin
      → IsGuarded app q s (routed app found q (begun hs) s)
  unfolding find_endpoint matches plain_error status_header status_write raw_header raw_write
  routed-IsGuarded q hs s unsafe none e other = inl (record {
    exit = refl;
    sent = (_, refl, missing_status-high q.path);
    kept = refl;
    files = refl;
  })
  routed-IsGuarded q hs s unsafe (some e) found other = with_path_id-IsGuarded e q s _ (
      endpoint_serve-IsGuarded (with_path_id e q) hs s unsafe e
        (takes-and _ _ (find-eq-some (matches q.web.method (parts_of q.path)) endpoints e found))
        λ p. other (ap some p))

  -- Around a refusal, `AccessLog` and `Recover` change nothing of it.
  around-IsRefused :
      (q : Call) (s : Site) (exit : Exit) (x : Exchange) (v : Site)
      → IsRefused s (record { exit = exit; exchange = x; site = v })
      → IsRefused s
          (recovered app.codec q (accounted q (record { exit = exit; exchange = x; site = v })))
  around-IsRefused q s returned x v r = record {
    exit = refl;
    sent = r.sent;
    kept = r.kept;
    files = r.files;
  }
  around-IsRefused q s panicked x v r = let e = r.exit in cc
  around-IsRefused q s aborted x v r = let e = r.exit in cc

  around-IsGuarded :
      (q : Call) (s : Site) (t : Turn)
      → IsGuarded app
          (with_request_id (string (s.world.uuids s.world.drawn)) q)
          (record s { world = (new_uid s.world).1 })
          t
      → IsGuarded app q s (
          recovered app.codec
            (with_request_id (string (s.world.uuids s.world.drawn)) q)
            (accounted (with_request_id (string (s.world.uuids s.world.drawn)) q) t))
  unfolding is_same_origin new_uid
  around-IsGuarded q s t (inl r) = inl (
      around-IsRefused (with_request_id (string (s.world.uuids s.world.drawn)) q) s t.exit
        t.exchange t.site (record { exit = r.exit; sent = r.sent; kept = r.kept; files = r.files }))
  around-IsGuarded q s t (inr a) = inr (record {
    session = a.session;
    user = a.user;
    live = a.live;
    ours = a.ours;
    token = a.token;
    present = a.present;
  })

  directed-IsGuarded :
      (q : Call) (hs : Headers) (s : Site)
      → is_safe q.web.method ≡ false
      → find_endpoint q.web.method q.path ≢ some public_spin
      → (target : Option Bytes) → moved_to app q.web.method q.path ≡ target
      → IsMoved app q s (directed app target q (begun hs) s)
        ⊎ IsGuarded app q s (directed app target q (begun hs) s)
  directed-IsGuarded q hs s unsafe other none e =
      inr (routed-IsGuarded q hs s unsafe (find_endpoint q.web.method q.path) refl other)
  directed-IsGuarded q hs s unsafe other (some location) e =
      let (to_clean, unclean) = moved_to-unclean app q.web.method q.path location unsafe e in
      inl (record {
        exit = refl;
        sent =
            subst
              (λ (l : Bytes). IsRedirection app l (moved app location q.web.method (begun hs)).sent)
              to_clean (sent-moved app q.web.method location hs unsafe);
        unclean = unclean;
        kept = refl;
        files = refl;
      })

  -- A request of POST, PUT, PATCH or DELETE, of any path but a draw of the public page, has one of three
  -- outcomes. The mux redirects it with the status 301 to its clean path, where its path is not that, or
  -- it is refused with a status from 400 on: both leave the tables of the product and the files as they
  -- are. Or its cookie opens a live session, it comes from the site's origin, and it bears the token of
  -- that session.
  pub serve-IsGuarded :
      (q : Call) (s : Site)
      → is_safe q.web.method ≡ false
      → find_endpoint q.web.method q.path ≢ some public_spin
      → IsMoved app q s (serve app q unanswered s) ⊎ IsGuarded app q s (serve app q unanswered s)
  unfolding serve route chain request_id recover access_log new_uid
  serve-IsGuarded q s unsafe other =
      let q' = with_request_id (string (s.world.uuids s.world.drawn)) q in
      let s' : Site = record s { world = (new_uid s.world).1 } in
      elim (directed-IsGuarded q' _ s' unsafe other (moved_to app q.web.method q.path) refl) [
        | inl r ↦ inl (record {
          exit = (around-IsMoved app q' s' _ _ _ r).exit;
          sent = (around-IsMoved app q' s' _ _ _ r).sent;
          unclean = r.unclean;
          kept = (around-IsMoved app q' s' _ _ _ r).kept;
          files = (around-IsMoved app q' s' _ _ _ r).files;
        })
        | inr g ↦ inr (around-IsGuarded q s _ g)
      ]
