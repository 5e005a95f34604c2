-- ===== src/Web/Outer.antt =====
-- The middleware of backend/internal/httpx/middleware.go that works on any handler, and `cacheFor` of
-- router.go.
pub mod Recovered
use spin_the_wheel.Prelude.{
  ℕ, Bool, true, false, Option, none, some, List, [], ◌∷◌, ◌++◌, Bytes, text, same, leb, ◌==◌,
  if◌then◌else◌,
}
use spin_the_wheel.Utf8.{truncate}
use spin_the_wheel.Uid.{string}
use spin_the_wheel.Store.Monad.{World, new_uid}
use spin_the_wheel.Api.Reply.{internal, refusal}
use spin_the_wheel.Api.Gate.{WebRequest}
use spin_the_wheel.Images.Disk.{Site}
use spin_the_wheel.Web.{
  Headers, set_header, Level, info, warn, error, Line, request_line, panic_line, Exchange, Call,
  Exit, returned, panicked, aborted, Turn, Serve, Middleware,
}
use spin_the_wheel.Web.Json.{Codec, server, set}
use spin_the_wheel.Web.Json as Json

-- The context of the request: its identifier.
abbrev pub with_request_id : Bytes → Call → Call
with_request_id id q = record q {
  web = record q.web { request = record q.web.request { request_id = id } };
}

-- `RequestID`
unfoldable pub request_id : Middleware
unfolding string
request_id next q x s =
    let id = string (s.world.uuids s.world.drawn) in
    next (with_request_id id q) (set (text "X-Request-Id") id x)
      (record s { world = (new_uid s.world).1 })

abbrev pub logged : Line → Exchange → Exchange
logged line x = record x { log = x.log ++ line ∷ [] }

-- `Recover`, behind the handler.
abbrev pub recovered : Codec → Call → Turn → Turn
recovered codec q t = elim t.exit [
  | returned ↦ t
  | aborted ↦ t
  | panicked ↦ record t {
    exit = returned;
    exchange =
        Json.error codec server q.web.request.request_id (refusal 500 internal)
          (logged (panic_line q.web.request.request_id q.path) t.exchange);
  }
]

unfoldable pub recover : Codec → Middleware
recover codec next q x s = recovered codec q (next q x s)

-- The status of the line, and its level.
abbrev pub final_status : ℕ → ℕ
final_status captured = if captured == 0 then 200 else captured

unfoldable pub level_of : ℕ → Level
level_of status = if leb 500 status then error else if leb 400 status then warn else info

-- `AccessLog`, behind the handler: a panic passes it by.
abbrev pub accounted : Call → Turn → Turn
accounted q t = elim t.exit [
  | panicked ↦ t
  | aborted ↦ t
  | returned ↦
      let status = final_status t.exchange.captured in
      record t {
        exchange =
            logged
              (request_line (level_of status) q.web.request.request_id (truncate q.path 256) status
                t.exchange.size q.web.request.client_ip (truncate q.web.request.user_agent 256))
              t.exchange;
      }
]

unfoldable pub access_log : Middleware
unfolding level_of
access_log next q x s = accounted q (next q (record x { captured = 0; size = 0 }) s)

-- `SecurityOptions`; an empty policy is none.
pub record SecurityOptions : Type 0 where
  pub csp : Bytes
  pub frame_deny : Bool
  pub hsts : Bool
  pub opener_policy : Bytes
  pub resource_policy : Bytes

abbrev pub added_if : Bool → Bytes → Bytes → Headers → Headers
added_if b key value hs = if b then set_header key value hs else hs

abbrev pub set_if : Bool → Bytes → Bytes → Exchange → Exchange
set_if b key value x = record x { headers = added_if b key value x.headers }

abbrev pub some_header : Bytes → Bytes → Headers → Headers
some_header key [] hs = hs
some_header key (b ∷ bs) hs = set_header key (b ∷ bs) hs

abbrev pub set_some : Bytes → Bytes → Exchange → Exchange
set_some key value x = record x { headers = some_header key value x.headers }

abbrev pub permissions : Bytes
permissions =
    text
      "accelerometer=(), autoplay=(), camera=(), display-capture=(), encrypted-media=(), fullscreen=(self), geolocation=(), gyroscope=(), magnetometer=(), microphone=(), midi=(), payment=(), usb=(), xr-spatial-tracking=()"

-- `SecurityHeaders`
unfoldable pub security_headers : SecurityOptions → Middleware
security_headers o next q x = next q (
    set_some (text "Cross-Origin-Resource-Policy") o.resource_policy (
      set_some (text "Cross-Origin-Opener-Policy") o.opener_policy (
        set_if o.hsts (text "Strict-Transport-Security")
          (text "max-age=31536000; includeSubDomains")
          (set_if o.frame_deny (text "X-Frame-Options") (text "DENY") (
            set (text "Permissions-Policy") permissions (
              set (text "Referrer-Policy") (text "no-referrer") (
                set (text "X-Content-Type-Options") (text "nosniff")
                  (set_some (text "Content-Security-Policy") o.csp x))))))))

-- The least of two limits.
abbrev pub smaller : ℕ → Option ℕ → ℕ
smaller n none = n
smaller n (some m) = if leb n m then n else m

-- `MaxBody`: of two limits the smaller one counts.
unfoldable pub max_body : ℕ → Middleware
max_body n next q = next (record q { body_limit = some (smaller n q.body_limit) })

-- `NoStore`
unfoldable pub no_store : Middleware
no_store next q x = next q (set (text "Cache-Control") (text "no-store, max-age=0") x)

-- `cacheFor`, for a number of seconds.
unfoldable pub cache_for : Codec → ℕ → Middleware
cache_for codec seconds next q x =
    next q (set (text "Cache-Control") (text "public, max-age=" ++ codec.decimal seconds) x)
