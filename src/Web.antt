-- ===== src/Web.antt =====
-- The HTTP layer: backend/internal/httpx, and the router of backend/internal/api/router.go.
-- An exchange is a response in progress. Sent headers change no more, as net/http has it. A handler
-- ends, panics, or aborts the connection (http.ErrAbortHandler).
pub mod Chained
pub mod Json
pub mod Outer
pub mod ClientIp
use spin_the_wheel.Prelude.{
  ℕ, zero, suc, ◌+◌, Bool, Option, none, some, List, [], ◌∷◌, ◌++◌, Bytes, text, same, length,
  get_elem?, ◌==◌, if◌then◌else◌,
}
use spin_the_wheel.Api.Gate.{WebRequest}
use spin_the_wheel.Images.Disk.{Site}

abbrev pub Headers : Type 0
Headers = List (Bytes × Bytes)

-- `Header.Set`
unfoldable pub set_header : Bytes → Bytes → Headers → Headers
set_header key value [] = (key, value) ∷ []
set_header key value ((k, v) ∷ hs) =
    let rest = set_header key value hs in if same key k then (key, value) ∷ hs else (k, v) ∷ rest

-- `Header.Get`: empty where the header is absent.
unfoldable pub get_header : Bytes → Headers → Bytes
get_header key [] = []
get_header key ((k, v) ∷ hs) = let rest = get_header key hs in if same key k then v else rest

pub data Level : Type 0 where
  info warn error : Level

-- The line of a request in the access log, and that of a panic.
pub data Line : Type 0 where
  request_line : Level → Bytes → Bytes → ℕ → ℕ → Bytes → Bytes → Line
  panic_line : Bytes → Bytes → Line

pub record Sent : Type 0 where
  pub status : ℕ
  pub headers : Headers

-- `captured` and `size` are the fields of the `statusWriter`, which stands around the writer inside
-- `AccessLog`.
pub record Exchange : Type 0 where
  pub headers : Headers
  pub sent : Option Sent
  pub body : Bytes
  pub captured : ℕ
  pub size : ℕ
  pub log : List Line

-- A request: what the gate reads of it, its path and body, the limit that `MaxBody` has set, and what
-- `Callback` reads, empty where it is absent.
pub record Call : Type 0 where
  pub web : WebRequest
  pub path : Bytes
  pub content_type : Bytes
  pub state_cookie : Bytes
  pub error : Bytes
  pub code : Bytes
  pub state : Bytes
  pub body : Bytes
  pub body_limit : Option ℕ

pub data Exit : Type 0 where
  returned panicked aborted : Exit

pub record Turn : Type 0 where
  pub exit : Exit
  pub exchange : Exchange
  pub site : Site

abbrev pub Serve : Type 0
Serve = Call → Exchange → Site → Turn

-- `Middleware`
abbrev pub Middleware : Type 0
Middleware = Serve → Serve

abbrev pub first_sent : Option Sent → Sent → Option Sent
first_sent none s = some s
first_sent (some t) s = some t

-- `ResponseWriter.WriteHeader` and `Write`: the first status counts, which is 200 for a body without one.
unfoldable pub raw_header : ℕ → Exchange → Exchange
raw_header code x = record x {
  sent = first_sent x.sent (record { status = code; headers = x.headers });
}

unfoldable pub raw_write : Bytes → Exchange → Exchange
unfolding raw_header
raw_write b x = record (raw_header 200 x) { body = x.body ++ b }

-- `statusWriter.WriteHeader`
unfoldable pub status_header : ℕ → Exchange → Exchange
unfolding raw_header
status_header code x = if x.captured == 0 then raw_header code (record x { captured = code }) else x

-- `statusWriter.Write`
unfoldable pub status_write : Bytes → Exchange → Exchange
unfolding raw_write
status_write b x =
    let y = raw_write b (record x { captured = if x.captured == 0 then 200 else x.captured }) in
    record y { size = x.size + length b }

-- The loop of `Chain`, with the rounds that are left; `m[i](h)` for the index below.
abbrev wrap : Option Middleware → Serve → Serve
wrap none h = h
wrap (some m) h = m h

unfoldable pub chain_loop : Serve → List Middleware → ℕ → Serve
chain_loop h ms zero = h
chain_loop h ms (suc i) = chain_loop (wrap (get_elem? ms i) h) ms i

-- `Chain`
unfoldable pub chain : Serve → List Middleware → Serve
unfolding chain_loop
chain h ms = chain_loop h ms (length ms)
