-- ===== src/Lib.antt =====
-- Spin the wheel: the HTTP service that serves wheels to draw lots (backend/), modelled from its
-- Go source. Each module stands for one part of it.
--
-- - Prelude: what the modules share. Go's strings, byte slices, UUIDs, digests and tokens are
--   lists of bytes (`Bytes`); Prelude.Sort is ORDER BY.
-- - Uid (backend/internal/uid/uid.go): UUIDv7. `NewAt` is `new_at`, `Time`, `Version`, `IsZero`,
--   `String`, `Parse`, `UnmarshalText` and `Scan` keep their names. Time is in milliseconds, and
--   the ten bytes of `rand.Read` are an argument.
-- - Limiter (backend/internal/httpx/ratelimit.go): the token buckets. `Allow` is `allow`, at an
--   explicit time in nanoseconds; `purgeLocked` is `purge_locked` and a janitor's tick is `sweep`.
--   The mutex makes each call one step. The source counts in float64, where the model is exact:
--   a token is 60 * 10 ^ 9 units, so a nanosecond makes `perMinute` of them.
-- - Utf8 (`truncate` of backend/internal/store/users.go and internal/httpx/middleware.go): cutting
--   client text to a number of bytes; the encoding of runes is that of Go's unicode/utf8, and
--   Utf8.Decode reads it back as `utf8.ValidString` and `range` do.
-- - Imgproc (backend/internal/imgproc/imgproc.go): `Process` and `fit`. The decoders, the scaler,
--   the encoder and SHA-256 are the parameter `Codec`.
-- - Store (backend/internal/store): the tables, and the methods of `Store` as actions on them.
--   Store.Monad has the clock, the stream of fresh identifiers, statements that may fail by a
--   stream of faults (any cause: a lost connection, a violated constraint), and transactions,
--   which are serial. A statement or a COMMIT that fails has no effect.
-- - Api (backend/internal/api, httpx and auth): Api.Reply has responses as values, a status with a
--   payload or a refusal (`Err`, `notFound`, `writeError`), and `audit`. Api.Gate is the chain of an
--   authenticated route: `SameOriginWrite`, `RateLimit` (for a verdict of the limiter), `Resolve`,
--   `RequireUser` and `CSRF`. Api.Spin is `getEmbedWheel` and `spin`; `rand.Int` and SHA-256 are
--   parameters. A panic is the 500 of `Recover`. Api.Validate is
--   `validColor`, `validText` with `cleanText`, and `validEmail` with its expression; Api.Wheels has
--   the handlers of the wheels and of the allow list, and Api.Digits is `itoa`. What `decodeJSON`
--   makes of a body is an argument of a handler, which the router gives.
-- - Auth (backend/internal/auth): Auth.Google is the client of the provider (`AuthURL`, `Exchange`,
--   `UserInfo`) and the tokens; the network, JSON, base64url and SHA-256 are the parameter
--   `Transport`. Auth.Login is `Start`, `Callback`, `Logout` and `Me`, with their cookies.
-- - Images (backend/internal/api/images.go): Images.Disk is the volume, a map from paths to contents
--   whose operations may fail by a stream of faults; Images.Upload is `uploadImage`, `serveImage`
--   and `listImages`, and Images.Cleaning is `PurgeOrphanImages`, with
--   the hourly tick of `backgroundJanitor` (backend/cmd/server/main.go).
-- - Config (backend/internal/config/config.go): `Load` over an environment, with `parseEmails`,
--   `parseFrameAncestors` and their expressions; Go's library is the parameter `Library`.
--
-- - Web (backend/internal/httpx/middleware.go and respond.go): the HTTP layer. A handler is a function
--   of a request, an exchange (its headers, what is sent, its body and its log lines) and the service,
--   and it ends, panics or aborts. `Chain` is `chain`; Web.Outer has `RequestID`, `Recover`, `AccessLog`,
--   `SecurityHeaders`, `MaxBody`, `NoStore` and `cacheFor`; Web.Json has `JSON`, `Err` and `decodeJSON`,
--   with encoding/json as the parameter `Codec`; Web.ClientIp is `ClientIP`.
-- - Router (backend/internal/api/router.go): `NewRouter`. Router.Table has its patterns and the matching
--   of `http.ServeMux`, Router.Endpoints the chains of its routes, Router.Handlers the handlers of the
--   file, and Router.Serving joins every handler of the other parts in `endpoint_serve`, the mux `route`
--   and the whole, `serve`, with the redirections of the mux to a clean path. What the program gets
--   from outside is the record `App`.
-- - Boot (backend/cmd/server/main.go, and the level of `New` of backend/internal/logging/logging.go):
--   `main` and `run`, whose steps are those of Config, Store.Migrations and Store.Accounts in their order,
--   and `runHealthcheck`. What the system gives is the record `Machine`.
-- - Store.Migrations is `Migrate` (backend/internal/store/store.go), on a ledger of what has run.
--
-- Not modelled: the bytes of JSON and of HTTP, the pool of the database, what the SQL of a migration
-- does, the network, timeouts and signals; the outcome of a statement whose connection is lost behind
-- its effect; the cookie that `Resolve` clears; the segments of deleted wheels behind the deletion of
-- their image.
-- Loops are structural recursion. There is fuel in Utf8.Decode, the length of the text, since a rune
-- takes a byte at least, and in Api.Digits, the twenty bytes of its buffer, where a number below 2 ^ 63
-- has nineteen digits at most.
mod Prelude
pub mod Uid
pub mod Limiter
pub mod Utf8
pub mod Imgproc
pub mod Store
pub mod Api
pub mod Auth
pub mod Config
pub mod Boot
pub mod Web
pub mod Router
pub mod Images
