-- ===== src/Router/Authority.antt =====
-- What a request that writes has to show, whatever its route.
use mathlib.Core.Path.{subst}
use spin_the_wheel.Prelude.{
  ℕ, ◌+◌, ◌≡◌, ◌≢◌, ◌≤◌, refl, sym, ap, ◌∙◌, Bool, true, false, ◌⊎◌, inl, inr, Option, none, some,
  [], Bytes, text,
}
use spin_the_wheel.Store.Monad.{World}
use spin_the_wheel.Store.Accounts.{User}
use spin_the_wheel.Store.Sessions.{Session, live_session}
use spin_the_wheel.Store.Product.{IsKept}
use spin_the_wheel.Api.Reply.{Refusal, Response, reply, refused, Handler, Request, answer}
use spin_the_wheel.Api.Gate.{is_safe, WebRequest, Route, rate_limit, is_same_origin, authed}
use spin_the_wheel.Api.Gate.Passed.{IsAuthorised}
use spin_the_wheel.Api.Gate.Decided.{Decided, authed-Decided}
use spin_the_wheel.Images.Disk.{Site}
use spin_the_wheel.Web.{
  Headers, Sent, raw_header, raw_write, status_header, status_write, Exchange, Call, returned, Turn,
  Serve, set_header, chain,
}
use spin_the_wheel.Web.Json.{recorder, error, json, as_json, refused_with, respond}
use spin_the_wheel.Web.Outer.{
  SecurityOptions, security_headers, no_store, max_body, some_header, added_if, permissions,
  smaller,
}
use spin_the_wheel.Router.Endpoints.{
  App, json_base, app_options, max_json_body_bytes, origin, signed, as_user, end_serve, end_route,
  ended, upload_gate, upload_serve, uploaded,
}

-- An exchange in which nothing is sent yet.
abbrev pub begun : Headers → Exchange
begun hs = record { headers = hs; sent = none; body = []; captured = 0; size = 0; log = [] }

-- A status is sent that says no.
abbrev pub IsRefusal : Option Sent → Type 0
IsRefusal sent = (r : Sent) × (sent ≡ some r) × (400 ≤ r.status)

-- The request is refused, and leaves the product and the volume as they are.
pub record IsRefused (s : Site) (t : Turn) : Type 0 where
  pub exit : t.exit ≡ returned
  pub sent : IsRefusal t.exchange.sent
  pub kept : IsKept s.world t.site.world
  pub files : t.site.files ≡ s.files

-- What `jsonBase` gives to its handler.
abbrev pub secured : SecurityOptions → Headers → Headers
secured o hs = set_header (text "Cache-Control") (text "no-store, max-age=0") (
    some_header (text "Cross-Origin-Resource-Policy") o.resource_policy (
      some_header (text "Cross-Origin-Opener-Policy") o.opener_policy (
        added_if o.hsts (text "Strict-Transport-Security")
          (text "max-age=31536000; includeSubDomains")
          (added_if o.frame_deny (text "X-Frame-Options") (text "DENY") (
            set_header (text "Permissions-Policy") permissions (
              set_header (text "Referrer-Policy") (text "no-referrer") (
                set_header (text "X-Content-Type-Options") (text "nosniff")
                  (some_header (text "Content-Security-Policy") o.csp hs))))))))

abbrev pub bounded : ℕ → Call → Call
bounded limit q = record q { body_limit = some (smaller limit q.body_limit) }

pub chain-json_base :
    (o : SecurityOptions) (limit : ℕ) (h : Serve) (q : Call) (hs : Headers) (s : Site)
    → chain h (json_base o limit) q (begun hs) s ≡ h (bounded limit q) (begun (secured o hs)) s
unfolding chain security_headers no_store max_body
chain-json_base o limit h q hs s = refl

module _ (app : App) where
  -- The cookie opens a live session, the request comes from the site's origin, and it bears the token
  -- of that session.
  pub record HasAuthority (q : WebRequest) (w : World) : Type 0 where
    pub session : Session
    pub user : User
    pub live :
        live_session (app.transport.sha256 q.cookie) w.now w.db.users w.db.sessions
        ≡ some (session, user)
    pub ours : is_same_origin app.equal_fold (origin app) q ≡ true
    pub token : q.csrf_header ≡ session.csrf_token
    pub present : q.csrf_header ≢ []

  abbrev pub IsGuarded : Call → Site → Turn → Type 0
  IsGuarded q s t = IsRefused s t ⊎ HasAuthority q.web s.world

  authority :
      (verdict : Bool × ℕ) (q : WebRequest) (w : World) (s : Session) (u : User)
      → is_safe q.method ≡ false
      → IsAuthorised app.equal_fold (origin app) app.transport.sha256 verdict q w s u
      → HasAuthority q w
  authority verdict q w s u unsafe a = shown a.write
    where
      shown :
          (is_safe q.method ≡ true)
            ⊎ ((is_same_origin app.equal_fold (origin app) q ≡ true)
                × ((q.csrf_header ≡ s.csrf_token) × (q.csrf_header ≢ [])))
          → HasAuthority q w
      shown (inl safe) = cc
      shown (inr (ours, (token, present))) = record {
        session = s;
        user = u;
        live = a.live;
        ours = ours;
        token = token;
        present = present;
      }

  -- The answer of a refusal, on an exchange in which nothing is sent.
  refused_with-IsRefusal :
      (id : Bytes) (r : Refusal) (hs : Headers)
      → 400 ≤ r.status
      → IsRefusal (refused_with app.codec recorder id r (begun hs)).sent
  unfolding error json status_header status_write raw_header raw_write
  refused_with-IsRefusal id r hs h = (_, refl, h)

  abbrev status_of : {A : Type 0} → Response A → ℕ
  status_of (reply status a) = status
  status_of (refused r) = r.status

  -- A turn that writes the answer of a chain.
  Decided-IsGuarded :
      {A : Type 0} (verdict : Bool × ℕ) (next : Route A) (q : Call) (id : Bytes) (hs : Headers)
      (s : Site) (write : Response A → Exchange)
      → ((r : Refusal) → write (refused r) ≡ refused_with app.codec recorder id r (begun hs))
      → is_safe q.web.method ≡ false
      → (x : Response A × World)
      → Decided app.equal_fold (origin app) app.transport.sha256 verdict next q.web s.world x
      → IsGuarded q s
          (record { exit = returned; exchange = write x.0; site = record s { world = x.1 } })
  Decided-IsGuarded verdict next q id hs s write e unsafe x (inl (r, is_refused, high, kept)) =
      inl (record {
        exit = refl;
        sent =
            subst (λ (y : Exchange). IsRefusal y.sent) (sym (ap write is_refused ∙ e r))
              (refused_with-IsRefusal id r hs high);
        kept = kept;
        files = refl;
      })
  Decided-IsGuarded verdict next q id hs s write e unsafe x (inr (sess, u, a, run)) =
      inr (authority verdict q.web s.world sess u unsafe a)

  pub signed-IsGuarded :
      {A : Type 0} (h : Call → User → Request → Handler A) (q : Call) (hs : Headers) (s : Site)
      → is_safe q.web.method ≡ false
      → IsGuarded q s (signed app h q (begun hs) s)
  unfolding signed as_json
  signed-IsGuarded h q hs s unsafe =
      let route = as_user app (h (bounded max_json_body_bytes q)) in
      let hs' = secured (app_options app) hs in
      subst (IsGuarded q s) (sym (chain-json_base (app_options app) max_json_body_bytes _ q hs s)) (
        Decided-IsGuarded app.verdict route q q.web.request.request_id hs' s
          (λ r. respond app.codec recorder q.web.request.request_id r (begun hs')) (λ r. refl)
          unsafe
          (authed app.equal_fold (origin app) app.transport.sha256 app.verdict route q.web none
            s.world)
          (authed-Decided app.equal_fold (origin app) app.transport.sha256 app.verdict route q.web
            s.world))

  pub end_serve-IsGuarded :
      (q : Call) (hs : Headers) (s : Site)
      → is_safe q.web.method ≡ false
      → IsGuarded q s (end_serve app q (begun hs) s)
  unfolding end_serve
  end_serve-IsGuarded q hs s unsafe =
      let hs' = secured (app_options app) hs in
      subst (IsGuarded q s) (sym (chain-json_base (app_options app) max_json_body_bytes _ q hs s)) (
        Decided-IsGuarded app.verdict (end_route app) q q.web.request.request_id hs' s
          (λ r. ended app q.web.request.request_id r (begun hs')) (λ r. refl) unsafe
          (authed app.equal_fold (origin app) app.transport.sha256 app.verdict (end_route app) q.web
            none s.world)
          (authed-Decided app.equal_fold (origin app) app.transport.sha256 app.verdict
            (end_route app) q.web s.world))

  upload_gate-Decided :
      (q : WebRequest) (w : World)
      → Decided app.equal_fold
          (origin app)
          app.transport.sha256
          (true, 0)
          (rate_limit app.verdict (as_user app λ u q. answer 200 u))
          q
          w
          (upload_gate app q none w)
  unfolding upload_gate authed rate_limit
  upload_gate-Decided q w =
      authed-Decided app.equal_fold (origin app) app.transport.sha256 (true, 0)
        (rate_limit app.verdict (as_user app λ u q. answer 200 u)) q w

  -- Behind the gate of an upload, the handler runs for a request with authority only.
  uploaded-IsGuarded :
      (q : Call) (b : Call) (hs : Headers) (s : Site)
      → is_safe q.web.method ≡ false
      → (x : Response User × World)
      → Decided app.equal_fold
          (origin app)
          app.transport.sha256
          (true, 0)
          (rate_limit app.verdict (as_user app λ u q. answer 200 u))
          q.web
          s.world
          x
      → IsGuarded q s (record {
        exit = returned;
        exchange =
            respond app.codec recorder q.web.request.request_id
              (uploaded app b x.0 (record s { world = x.1 })).0
              (begun hs);
        site = (uploaded app b x.0 (record s { world = x.1 })).1;
      })
  uploaded-IsGuarded q b hs s unsafe (reply st u, w) (inl (r, is_refused, high, kept)) = cc
  uploaded-IsGuarded q b hs s unsafe (refused r', w) (inl (r, is_refused, high, kept)) =
      inl (record {
        exit = refl;
        sent =
            refused_with-IsRefusal q.web.request.request_id r' hs
              (subst (λ (n : ℕ). 400 ≤ n) (sym (ap status_of is_refused)) high);
        kept = kept;
        files = refl;
      })
  uploaded-IsGuarded q b hs s unsafe x (inr (sess, u, a, run)) =
      inr (authority (true, 0) q.web s.world sess u unsafe a)

  pub upload_serve-IsGuarded :
      (q : Call) (hs : Headers) (s : Site)
      → is_safe q.web.method ≡ false
      → IsGuarded q s (upload_serve app q (begun hs) s)
  unfolding upload_serve
  upload_serve-IsGuarded q hs s unsafe =
      let limit = app.config.max_image_bytes + 1048576 in
      subst (IsGuarded q s) (sym (chain-json_base (app_options app) limit _ q hs s)) (
        uploaded-IsGuarded q (bounded limit q) (secured (app_options app) hs) s unsafe
          (upload_gate app q.web none s.world) (upload_gate-Decided q.web s.world))
