-- ===== src/Router/Moved.antt =====
-- What the mux sends elsewhere: a request of a method that writes, where its path is not clean.
use spin_the_wheel.Prelude.{
  ◌≡◌, ◌≢◌, refl, true, false, some, Bytes, text, same, Option, Bool-cases, same_iff, inl, inr,
}
use spin_the_wheel.Store.Product.{IsKept}
use spin_the_wheel.Api.Gate.{Method, get, head, post, put, patch, delete, is_safe}
use spin_the_wheel.Images.Disk.{Site}
use spin_the_wheel.Web.{
  Headers, Sent, get_header, raw_header, raw_write, status_header, status_write, Exchange, Call,
  Exit, returned, panicked, aborted, Turn,
}
use spin_the_wheel.Web.Outer.{recovered, accounted}
use spin_the_wheel.Router.Table.{takes_method}
use spin_the_wheel.Router.Endpoints.{App}
use spin_the_wheel.Router.Serving.{moved_to, moved}
use spin_the_wheel.Router.Authority.{begun}
use spin_the_wheel.Router.Framing.{get_header-set_header}

module _ (app : App) where
  pub takes_get-is_safe : (m : Method) → takes_method get m ≡ true → is_safe m ≡ true
  takes_get-is_safe get e = refl
  takes_get-is_safe head e = refl
  takes_get-is_safe _ e = cc

  -- The answer is a redirection to a path.
  abbrev pub IsRedirection : Bytes → Option Sent → Type 0
  IsRedirection location sent =
      (r : Sent) × (sent ≡ some r)
      × (r.status ≡ 301)
      × (get_header (text "Location") r.headers ≡ location)

  -- The mux sends a request to its clean path, and nothing of the product or of the volume changes.
  pub record IsMoved (q : Call) (s : Site) (t : Turn) : Type 0 where
    pub exit : t.exit ≡ returned
    pub sent : IsRedirection (app.clean q.path) t.exchange.sent
    pub unclean : app.clean q.path ≢ q.path
    pub kept : IsKept s.world t.site.world
    pub files : t.site.files ≡ s.files

  takes_get-unsafe : (m : Method) → is_safe m ≡ false → takes_method get m ≡ false
  takes_get-unsafe m unsafe = elim (Bool-cases (takes_method get m)) [
    | inl taken ↦ let safe = takes_get-is_safe m taken in cc
    | inr other ↦ other
  ]

  -- A method that writes is not sent to a folder, so its path is not clean where it is sent elsewhere.
  pub moved_to-unclean :
      (m : Method) (path location : Bytes)
      → is_safe m ≡ false
      → moved_to app m path ≡ some location
      → (location ≡ app.clean path) × (app.clean path ≢ path)
  unfolding moved_to
  moved_to-unclean m path location unsafe e =
      let other = takes_get-unsafe m unsafe in
      elim (Bool-cases (same (app.clean path) path)) [
        | inl unmoved ↦ let e' = rw (other, unmoved) at e in cc
        | inr dirty ↦
            let e' = rw (other, dirty) at e in
            (cc, λ clean. let unmoved = (same_iff (app.clean path) path).1 clean in cc)
      ]

  pub sent-moved :
      (m : Method) (location : Bytes) (hs : Headers)
      → is_safe m ≡ false
      → IsRedirection location (moved app location m (begun hs)).sent
  unfolding status_header status_write raw_header raw_write
  sent-moved post location hs unsafe = (_, refl, refl, get_header-set_header _ location hs)
  sent-moved put location hs unsafe = (_, refl, refl, get_header-set_header _ location hs)
  sent-moved patch location hs unsafe = (_, refl, refl, get_header-set_header _ location hs)
  sent-moved delete location hs unsafe = (_, refl, refl, get_header-set_header _ location hs)
  sent-moved _ location hs unsafe = cc

  pub around-IsMoved :
      (q : Call) (s : Site) (exit : Exit) (x : Exchange) (v : Site)
      → IsMoved q s (record { exit = exit; exchange = x; site = v })
      → IsMoved q s
          (recovered app.codec q (accounted q (record { exit = exit; exchange = x; site = v })))
  around-IsMoved q s returned x v r = record {
    exit = refl;
    sent = r.sent;
    unclean = r.unclean;
    kept = r.kept;
    files = r.files;
  }
  around-IsMoved q s panicked x v r = let e = r.exit in cc
  around-IsMoved q s aborted x v r = let e = r.exit in cc
